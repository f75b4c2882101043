-- ===== src/Transfer/Parts.antt =====
-- What the copies of `LcRead` leave at one address: those of the pages, and the two at its end.
use leech_core.Base.{
  ℕ, ◌+◌, ◌-◌, ◌*◌, ◌≤◌, ◌<◌, ◌≡◌, ◌⊎◌, inl, inr, refl, ◌∙◌, ap, sym, arith, Bool-cases, true,
  false, true≢false, List, min, add64, sub64, tabulate, get_or,
}
use leech_core.Base.Memory.{Memory, load, blit_inside, blit_outside, length-load, get_or-load}
use leech_core.MemScatter.{Mem}
use leech_core.ReadContigious.{Copy}
use leech_core.Scatter.{zero_mem}
use leech_core.Transfer.{
  ReadCall, offset, c_mems, f_first, f_last, pa_base, copy_all, copy_first, copy_last,
}
use leech_core.Transfer.Buffers.{
  own-cases, buffer_of, Fits, IsLaidOut, page_buffer, page_buffer-apart, c_mems-bounds, f_last-true,
}
use leech_core.Transfer.Pages.{page}
use leech_core.Transfer.Copies.{copy_all-hit}

-- The buffers of the first and of the last page, when these have their own.
pub page_buffer_first : (r : ReadCall) → Fits r → f_first r ≡ true → page_buffer r 0 ≡ r.pb_first
page_buffer_first r fits b = elim (own-cases r fits 0 (c_mems-bounds r fits).0) [
  | inl (own_is, _, _) ↦ ap (buffer_of r 0) own_is
  | inr (inl (_, c, at)) ↦ absurd (omega (arith, f_last-true r fits c, at))
  | inr (inr (_, inl b', _)) ↦ absurd (true≢false (sym b ∙ b'))
  | inr (inr (_, inr ne, _)) ↦ absurd (ne refl)
]

pub page_buffer_last :
    (r : ReadCall) → Fits r → f_last r ≡ true → page_buffer r (c_mems r - 1) ≡ r.pb_last
page_buffer_last r fits c =
    elim (own-cases r fits (c_mems r - 1) (omega (arith, c_mems-bounds r fits))) [
      | inl (_, _, at) ↦ absurd (omega (arith, f_last-true r fits c, at))
      | inr (inl (own_is, _, _)) ↦ ap (buffer_of r (c_mems r - 1)) own_is
      | inr (inr (_, _, inl c')) ↦ absurd (true≢false (sym c ∙ c'))
      | inr (inr (_, _, inr ne)) ↦ absurd (ne (omega (arith, c_mems-bounds r fits)))
    ]

-- The copy that fills a chunk with the bytes at its address.
abbrev pub fill : Memory → Mem → Copy
fill phys mem = record { dst = mem.pb; bytes = load mem.qw_a mem.cb phys }

-- A chunk after the read of it.
abbrev pub IsRead : Mem → Mem → Type 0
IsRead mem mem' = (mem'.f ≡ true) × (mem'.qw_a ≡ mem.qw_a) × (mem'.pb ≡ mem.pb)

module _ (phys : Memory) (r : ReadCall) (fits : Fits r) (laid : IsLaidOut r) where
  abbrev pub filled : Memory → Memory
  filled m = copy_all (tabulate (λ j. fill phys (page r j)) 0 (c_mems r)) m

  -- A byte of a page.
  pub filled-at :
      (m : Memory) (j x : ℕ)
      → j < c_mems r
      → x < 0x1000
      → filled m (page_buffer r j + x) ≡ phys (pa_base r + j * 0x1000 + x)
  filled-at m j x lt small =
      copy_all-hit (λ j. fill phys (page r j)) 0 (c_mems r) m (page_buffer r j + x) j (omega arith)
        (omega arith) (omega arith) (omega (arith, length-load (page r j).qw_a (page r j).cb phys))
        (λ l lo hi ne. omega (
          arith,
          length-load (page r l).qw_a (page r l).cb phys,
          page_buffer-apart r fits l j laid (omega arith) lt ne,
        ))
      ∙ ap (λ t. get_or (load (page r j).qw_a (page r j).cb phys) t 0) (omega arith)
      ∙ get_or-load (page r j).qw_a (page r j).cb phys x 0 small

-- The chunks that a read returned, as far as `LcRead` looks at them.
module _ (r : ReadCall) (fits : Fits r) (mems : List Mem) where
  abbrev pub HasPages : Type 0
  HasPages = (i : ℕ) → i < c_mems r → IsRead (page r i) (get_or mems i zero_mem)

  pub copy_first-in :
      (m : Memory) (k : ℕ)
      → HasPages
      → f_first r ≡ true
      → k < min r.cb (0x1000 - offset r.pa)
      → copy_first r mems m (r.pb + k) ≡ m (r.pb_first + (offset r.pa + k))
  unfolding copy_first
  copy_first-in m k has b lt =
      let from = (has 0 (c_mems-bounds r fits).0).2 ∙ page_buffer_first r fits b in
      let n = min r.cb (0x1000 - offset r.pa) in
      let bytes = load (r.pb_first + offset r.pa) n m in
      rw (b, from)
        (blit_inside r.pb bytes m (r.pb + k) (omega arith)
            (omega (arith, length-load (r.pb_first + offset r.pa) n m))
          ∙ ap (λ t. get_or bytes t 0) (omega arith)
          ∙ get_or-load (r.pb_first + offset r.pa) n m k 0 lt
          ∙ ap m (omega arith))

  pub copy_first-out :
      (m : Memory) (a : ℕ)
      → (f_first r ≡ false) ⊎ ((a < r.pb) ⊎ (r.pb + min r.cb (0x1000 - offset r.pa) ≤ a))
      → copy_first r mems m a ≡ m a
  unfolding copy_first
  copy_first-out m a (inl b) = rw b
  copy_first-out m a (inr away) =
      let n = min r.cb (0x1000 - offset r.pa) in
      let from = (get_or mems 0 zero_mem).pb + offset r.pa in
      elim (Bool-cases (f_first r)) [
        | inl b ↦
            rw b (blit_outside r.pb (load from n m) m a (omega (arith, length-load from n m, away)))
        | inr b ↦ rw b
      ]

  -- The number of bytes before the last page.
  abbrev pub before_last : ℕ
  before_last = pa_base r + (c_mems r - 1) * 0x1000 - r.pa

  pub copy_last-in :
      (m : Memory) (k : ℕ)
      → HasPages
      → f_last r ≡ true
      → before_last ≤ k
      → k < r.cb
      → copy_last r mems m (r.pb + k) ≡ m (r.pb_last + (k - before_last))
  unfolding copy_last
  copy_last-in m k has c lo hi =
      let (_, at, to) = has (c_mems r - 1) (omega (arith, c_mems-bounds r fits)) in
      let from = to ∙ page_buffer_last r fits c in
      let skip : sub64 (pa_base r + (c_mems r - 1) * 0x1000) r.pa ≡ before_last =
        omega (arith, f_last-true r fits c, fits.ends) in
      let left : sub64 (add64 r.pa r.cb) (pa_base r + (c_mems r - 1) * 0x1000)
          ≡ r.cb - before_last =
        omega (arith, f_last-true r fits c, fits.ends) in
      let bytes = load r.pb_last (r.cb - before_last) m in
      rw (c, at, from, skip, left)
        (blit_inside (r.pb + before_last) bytes m (r.pb + k) (omega (arith, lo))
            (omega (arith, length-load r.pb_last (r.cb - before_last) m))
          ∙ ap (λ t. get_or bytes t 0) (omega (arith, lo))
          ∙ get_or-load r.pb_last (r.cb - before_last) m (k - before_last) 0
              (omega (arith, lo, hi)))

  pub copy_last-out :
      (m : Memory) (k : ℕ)
      → HasPages
      → (f_last r ≡ false) ⊎ (k < before_last)
      → copy_last r mems m (r.pb + k) ≡ m (r.pb + k)
  unfolding copy_last
  copy_last-out m k has (inl c) = rw c
  copy_last-out m k has (inr lo) = elim (Bool-cases (f_last r)) [
    | inl c ↦
        let (_, at, _) = has (c_mems r - 1) (omega (arith, c_mems-bounds r fits)) in
        let skip : sub64 (pa_base r + (c_mems r - 1) * 0x1000) r.pa ≡ before_last =
          omega (arith, f_last-true r fits c, fits.ends) in
        let to = (get_or mems (c_mems r - 1) zero_mem).pb in
        let n = sub64 (add64 r.pa r.cb) (pa_base r + (c_mems r - 1) * 0x1000) in
        rw (c, at, skip)
          (blit_outside (r.pb + before_last) (load to n m) m (r.pb + k) (omega (arith, lo)))
    | inr c ↦ rw c
  ]
