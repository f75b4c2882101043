-- ===== src/Transfer/Frame.antt =====
-- What `LcRead` leaves alone.
use leech_core.Base.{
  ℕ, ◌+◌, ◌-◌, ◌*◌, ◌≤◌, ◌<◌, ◌≡◌, ◌⊎◌, inl, inr, ap, refl, ◌∙◌, arith, Bool-cases, true, List, [],
  ◌∷◌, ◌==◌, false, sub64, add64, get_or, tabulate, length, All, min,
}
use leech_core.Base.Memory.{Memory, load, blit, blit_outside, length-load}
use leech_core.MemScatter.{Mem}
use leech_core.ReadContigious.{Copy}
use leech_core.Scatter.{Context, zero_mem, read_scatter}
use leech_core.Transfer.{
  ReadCall, offset, c_mems, f_first, f_last, pa_base, all_read, copy_all, copy_first, copy_last,
  zero_page, read_pages, lc_read,
}
use leech_core.Transfer.Buffers.{
  Fits, IsLaidOut, page_buffer, page_buffer-cases, c_mems-bounds, f_last-true,
}
use leech_core.Transfer.Pages.{page, blanks, set_addresses-blanks}
use leech_core.Transfer.Parts.{before_last}
use leech_core.Transfer.Copies.{Apart}
use leech_core.Transfer.Read.{pages, read}

-- The address lies in none of the three buffers.
pub record IsOutside (r : ReadCall) (a : ℕ) : Type 0 where
  pub first : (a < r.pb_first) ⊎ (r.pb_first + 0x1000 ≤ a)
  pub last : (a < r.pb_last) ⊎ (r.pb_last + 0x1000 ≤ a)
  pub pb : (a < r.pb) ⊎ (r.pb + r.cb ≤ a)

-- The copy lies in the buffer of a page.
abbrev pub IsInPage : ReadCall → Copy → Type 0
IsInPage r c =
    (j : ℕ) × (j < c_mems r)
    × (page_buffer r j ≤ c.dst)
    × (c.dst + length c.bytes ≤ page_buffer r j + 0x1000)

-- What `LcRead` relies on here: the scattered read of the pages writes into their buffers alone, be it
-- all of a page, a part or nothing, and leaves the addresses and the buffers of the chunks.
pub record IsContained (r : ReadCall) (mems : List Mem) (copies : List Copy) : Type 0 where
  pub inside : All (IsInPage r) copies
  pub places :
      (i : ℕ)
      → i < c_mems r
      → ((get_or mems i zero_mem).qw_a ≡ (page r i).qw_a)
        × ((get_or mems i zero_mem).pb ≡ (page r i).pb)

zero_page-out : (p a : ℕ) (m : Memory) → (a < p) ⊎ (p + 0x1000 ≤ a) → zero_page p m a ≡ m a
zero_page-out p a m (inl h) = ground arith
zero_page-out p a m (inr h) = ground arith

-- Copies that all miss an address leave its byte.
copy_all-out :
    (cs : List Copy) (m : Memory) (a : ℕ) → All (λ c. Apart c a) cs → copy_all cs m a ≡ m a
unfolding copy_all
copy_all-out [] m a h = refl
copy_all-out (c ∷ cs) m a (out, h) =
    copy_all-out cs (blit c.dst c.bytes m) a h ∙ blit_outside c.dst c.bytes m a out

module _ (r : ReadCall) (fits : Fits r) (laid : IsLaidOut r) (a : ℕ) (out : IsOutside r a) where
  page-out : (l : ℕ) → l < c_mems r → (a < page_buffer r l) ⊎ (page_buffer r l + 0x1000 ≤ a)
  page-out l lt = elim (page_buffer-cases r fits l lt) [
    | inl (e, _, _) ↦ omega (arith, e, out.first)
    | inr (inl (e, _, _)) ↦ omega (arith, e, out.last)
    | inr (inr (e, lo, hi)) ↦ omega (arith, e, lo, hi, out.pb)
  ]

  copies-out : (cs : List Copy) → All (IsInPage r) cs → All (λ c. Apart c a) cs
  copies-out [] h = tt
  copies-out (c ∷ cs) ((j, lt, lo, hi), h) = (omega (arith, page-out j lt, lo, hi), copies-out cs h)

  copy_first-outside : (mems : List Mem) (m : Memory) → copy_first r mems m a ≡ m a
  unfolding copy_first
  copy_first-outside mems m = elim (Bool-cases (f_first r)) [
    | inl b ↦
        let from = (get_or mems 0 zero_mem).pb + offset r.pa in
        let n = min r.cb (0x1000 - offset r.pa) in
        rw b (blit_outside r.pb (load from n m) m a (omega (arith, length-load from n m, out.pb)))
    | inr b ↦ rw b refl
  ]

  module _ (mems : List Mem) (copies : List Copy) (ok : IsContained r mems copies) where
    copy_last-outside : (m : Memory) → copy_last r mems m a ≡ m a
    unfolding copy_last
    copy_last-outside m = elim (Bool-cases (f_last r)) [
      | inl c ↦
          let (at, _) = ok.places (c_mems r - 1) (omega (arith, c_mems-bounds r fits)) in
          let skip : sub64 (pa_base r + (c_mems r - 1) * 0x1000) r.pa ≡ before_last r fits mems =
            omega (arith, f_last-true r fits c, fits.ends) in
          let left : sub64 (add64 r.pa r.cb) (pa_base r + (c_mems r - 1) * 0x1000)
              ≡ r.cb - before_last r fits mems =
            omega (arith, f_last-true r fits c, fits.ends) in
          let from = (get_or mems (c_mems r - 1) zero_mem).pb in
          let n = r.cb - before_last r fits mems in
          rw (c, at, skip, left)
            (blit_outside (r.pb + before_last r fits mems) (load from n m) m a
              (omega (arith, length-load from n m, out.pb, f_last-true r fits c)))
      | inr c ↦ rw c refl
    ]

  read_pages-out :
      (ctx : Context) (up : ctx.is_open ≡ true) (m : Memory)
      → IsContained r
          (read_scatter ctx (pages ctx r up fits)).0
          (read_scatter ctx (pages ctx r up fits)).1
      → (read_pages ctx r (blanks r fits) m).1 a ≡ m a
  unfolding read_pages
  read_pages-out ctx up m ok =
      let mems = (read_scatter ctx (pages ctx r up fits)).0 in
      let copies = (read_scatter ctx (pages ctx r up fits)).1 in
      let got = copy_all copies m in
      let kept : got a ≡ m a = copy_all-out copies m a (copies-out copies ok.inside) in
      elim (Bool-cases (all_read mems)) [
        | inl e ↦
            rw (set_addresses-blanks r fits, e)
              (copy_last-outside mems copies ok (copy_first r mems got)
                ∙ copy_first-outside mems got
                ∙ kept)
        | inr e ↦ rw (set_addresses-blanks r fits, e) kept
      ]

-- A read of a request that fits, into buffers that do not overlap, changes no byte outside of these,
-- whether it succeeds or fails, when the scattered read of its pages writes into the buffers of these
-- pages alone and leaves the addresses and the buffers of the chunks.
pub lc_read-out :
    (ctx : Context) (r : ReadCall) (m : Memory) (a : ℕ)
    → (up : ctx.is_open ≡ true) (fits : Fits r) → IsLaidOut r
    → IsContained r
        (read_scatter ctx (tabulate (page r) 0 (c_mems r))).0
        (read_scatter ctx (tabulate (page r) 0 (c_mems r))).1
    → IsOutside r a
    → (lc_read ctx true r m).1 a ≡ m a
lc_read-out ctx r m a up fits laid ok out =
    let some_bytes : (r.cb == 0) ≡ false = ground (arith, fits.some_bytes) in
    let some_pages : (c_mems r == 0) ≡ false = ground (arith, c_mems-bounds r fits) in
    let m0 = zero_page r.pb_last (zero_page r.pb_first m) in
    ap (λ t. t.1 a) (read ctx r up fits m some_bytes some_pages)
    ∙ read_pages-out r fits laid a out ctx up m0 ok
    ∙ zero_page-out r.pb_last a (zero_page r.pb_first m) out.last
    ∙ zero_page-out r.pb_first a m out.first
