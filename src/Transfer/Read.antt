-- ===== src/Transfer/Read.antt =====
-- `LcRead` as a whole: what it leaves in the caller's buffer.
use leech_core.Base.{
  ℕ, zero, suc, ◌+◌, ◌-◌, ◌*◌, ◌/◌, ◌%◌, ◌≤◌, ◌<◌, ◌≡◌, ◌⊎◌, inl, inr, refl, ◌∙◌, ap, subst, sym,
  arith, Bool-cases, true, false, true≢false, List, [], ◌∷◌, map, length, ◌==◌, min, All, All₂, ◌↔◌,
  length-tabulate, tabulate, map-tabulate, get_or, get_or-tabulate,
}
use leech_core.Base.Memory.{Memory, load, load-ext}
use leech_core.MemScatter.{Mem}
use leech_core.Scatter.{Context, zero_mem, read_scatter}
use leech_core.Transfer.{
  ReadCall, offset, c_mems, f_first, f_last, all_read, copy_first, copy_last, zero_page, read_pages,
  lc_read,
}
use leech_core.Transfer.Buffers.{
  Fits, IsLaidOut, page_buffer, page_buffer-cases, c_mems-bounds, f_first-true, f_last-true,
}
use leech_core.Transfer.Pages.{page, blanks, chunks_of-blanks, set_addresses-blanks}
use leech_core.Transfer.Parts.{
  HasPages, before_last, filled, filled-at, copy_first-in, copy_first-out, copy_last-in,
  copy_last-out, page_buffer_first, page_buffer_last, fill, IsRead,
}

le-or : (a b : ℕ) → (a ≤ b) ⊎ (b < a)
le-or a b = omega arith

module _ (phys : Memory) (r : ReadCall) (fits : Fits r) (laid : IsLaidOut r) (mems : List Mem)
    (has : HasPages r fits mems) where
  abbrev pub result : Memory → Memory
  result m = copy_last r mems (copy_first r mems (filled phys r fits laid m))

  -- The part of the buffer that comes from the first page, from the last, and from those between.
  result-first :
      (m : Memory) (k : ℕ)
      → f_first r ≡ true
      → k < min r.cb (0x1000 - offset r.pa)
      → result m (r.pb + k) ≡ phys (r.pa + k)
  result-first m k b lt =
      let before : (f_last r ≡ false) ⊎ (k < before_last r fits mems) =
        elim (Bool-cases (f_last r)) [
          | inl c ↦ inr (omega (arith, f_last-true r fits c))
          | inr c ↦ inl c
        ] in
      copy_last-out r fits mems (copy_first r mems (filled phys r fits laid m)) k has before
      ∙ copy_first-in r fits mems (filled phys r fits laid m) k has b lt
      ∙ ap (filled phys r fits laid m) (omega (arith, page_buffer_first r fits b))
      ∙ filled-at phys r fits laid m 0 (offset r.pa + k) (c_mems-bounds r fits).0
          (omega (arith, lt))
      ∙ ap phys (omega arith)

  result-last :
      (m : Memory) (k : ℕ)
      → f_last r ≡ true
      → before_last r fits mems ≤ k
      → k < r.cb
      → result m (r.pb + k) ≡ phys (r.pa + k)
  result-last m k c lo hi =
      let x = k - before_last r fits mems in
      copy_last-in r fits mems (copy_first r mems (filled phys r fits laid m)) k has c lo hi
      ∙ copy_first-out r fits mems (filled phys r fits laid m) (r.pb_last + x)
          (inr (omega (arith, laid.last_pb, lo, hi, f_last-true r fits c)))
      ∙ ap (filled phys r fits laid m) (ap (λ p. p + x) (sym (page_buffer_last r fits c)))
      ∙ filled-at phys r fits laid m (c_mems r - 1) x (omega (arith, c_mems-bounds r fits))
          (omega (arith, lo, hi, f_last-true r fits c))
      ∙ ap phys (omega (arith, lo, hi, f_last-true r fits c))

  result-line :
      (m : Memory) (k : ℕ)
      → (f_first r ≡ false) ⊎ (min r.cb (0x1000 - offset r.pa) ≤ k)
      → (f_last r ≡ false) ⊎ (k < before_last r fits mems)
      → k < r.cb
      → result m (r.pb + k) ≡ phys (r.pa + k)
  result-line m k no_first no_last hi =
      let j = (offset r.pa + k) / 0x1000 in
      let x = (offset r.pa + k) % 0x1000 in
      let lt : j < c_mems r = omega arith in
      let behind : (f_first r ≡ false)
          ⊎ ((r.pb + k < r.pb) ⊎ (r.pb + min r.cb (0x1000 - offset r.pa) ≤ r.pb + k)) =
        elim no_first [ inl b ↦ inl b | inr far ↦ inr (omega (arith, far)) ] in
      let at : (page_buffer r j ≡ r.pb + j * 0x1000 - offset r.pa) × (offset r.pa ≤ j * 0x1000) =
        elim (page_buffer-cases r fits j lt) [
          | inl (_, b, zeroth) ↦ elim no_first [
            | inl b' ↦ absurd (true≢false (sym b ∙ b'))
            | inr far ↦ absurd (omega (arith, far, zeroth, f_first-true r fits b))
          ]
          | inr (inl (_, c, end)) ↦ elim no_last [
            | inl c' ↦ absurd (true≢false (sym c ∙ c'))
            | inr near ↦ absurd (omega (arith, near, end, f_last-true r fits c))
          ]
          | inr (inr (e, inside, _)) ↦ (e, inside)
        ] in
      copy_last-out r fits mems (copy_first r mems (filled phys r fits laid m)) k has no_last
      ∙ copy_first-out r fits mems (filled phys r fits laid m) (r.pb + k) behind
      ∙ ap (filled phys r fits laid m) (omega (arith, at))
      ∙ filled-at phys r fits laid m j x lt (omega arith)
      ∙ ap phys (omega arith)

  result-at : (m : Memory) (k : ℕ) → k < r.cb → result m (r.pb + k) ≡ phys (r.pa + k)
  result-at m k hi =
      let first : ((f_first r ≡ true) × (k < min r.cb (0x1000 - offset r.pa)))
          ⊎ ((f_first r ≡ false) ⊎ (min r.cb (0x1000 - offset r.pa) ≤ k)) =
        elim (Bool-cases (f_first r)) [
          | inl b ↦ elim (le-or (min r.cb (0x1000 - offset r.pa)) k) [
            | inl far ↦ inr (inr far)
            | inr lt ↦ inl (b, lt)
          ]
          | inr b ↦ inr (inl b)
        ] in
      let last : ((f_last r ≡ true) × (before_last r fits mems ≤ k))
          ⊎ ((f_last r ≡ false) ⊎ (k < before_last r fits mems)) =
        elim (Bool-cases (f_last r)) [
          | inl c ↦ elim (le-or (before_last r fits mems) k) [
            | inl lo ↦ inl (c, lo)
            | inr lt ↦ inr (inr lt)
          ]
          | inr c ↦ inr (inl c)
        ] in
      elim first [
        | inl (b, lt) ↦ result-first m k b lt
        | inr no_first ↦ elim last [
          | inl (c, lo) ↦ result-last m k c lo hi
          | inr no_last ↦ result-line m k no_first no_last hi
        ]
      ]

-- What `LcRead` relies on: the scattered read marks every chunk, keeps addresses and buffers, and
-- fills each buffer once with the bytes at the chunk's address.
pub record IsFaithful (ctx : Context) (phys : Memory) (mems : List Mem) : Type 0 where
  pub copies : (read_scatter ctx mems).1 ≡ map (fill phys) mems
  pub answers : All₂ IsRead mems (read_scatter ctx mems).0

all_read-IsRead : (mems mems' : List Mem) → All₂ IsRead mems mems' → all_read mems' ≡ true
unfolding all_read
all_read-IsRead [] [] g = refl
all_read-IsRead [] (y ∷ ys) g = elim g [ ]
all_read-IsRead (x ∷ xs) [] g = elim g [ ]
all_read-IsRead (x ∷ xs) (y ∷ ys) ((f, _, _), g) = rw f (all_read-IsRead xs ys g)

-- The chunks are all marked when the loop over them passes, and only then.
all_read-All : (mems : List Mem) → all_read mems ≡ true → All (λ mem. mem.f ≡ true) mems
unfolding all_read
all_read-All [] e = tt
all_read-All (mem ∷ mems) e = elim (Bool-cases mem.f) [
  | inl h ↦ (h, all_read-All mems (rw h at e))
  | inr h ↦ absurd (true≢false (sym (rw h at e)))
]

All-all_read : (mems : List Mem) → All (λ mem. mem.f ≡ true) mems → all_read mems ≡ true
unfolding all_read
All-all_read [] h = refl
All-all_read (mem ∷ mems) (f, h) = rw f (All-all_read mems h)

get_or-IsRead :
    (mems mems' : List Mem) (i : ℕ) (d : Mem)
    → All₂ IsRead mems mems'
    → i < length mems
    → IsRead (get_or mems i d) (get_or mems' i d)
get_or-IsRead [] [] i d g lt = absurd (omega arith)
get_or-IsRead [] (y ∷ ys) i d g lt = elim g [ ]
get_or-IsRead (x ∷ xs) [] i d g lt = elim g [ ]
get_or-IsRead (x ∷ xs) (y ∷ ys) zero d (g, _) lt = g
get_or-IsRead (x ∷ xs) (y ∷ ys) (suc i) d (_, g) lt = get_or-IsRead xs ys i d g (omega arith)

module _ (ctx : Context) (r : ReadCall) (up : ctx.is_open ≡ true) (fits : Fits r) where
  abbrev pub pages : List Mem
  pages = tabulate (page r) 0 (c_mems r)

  read_pages-all_read :
      (m : Memory) → (read_pages ctx r (blanks r fits) m).0 ≡ all_read (read_scatter ctx pages).0
  unfolding read_pages
  read_pages-all_read m = elim (Bool-cases (all_read (read_scatter ctx pages).0)) [
    | inl a ↦ simp (set_addresses-blanks r fits, a)
    | inr a ↦ simp (set_addresses-blanks r fits, a)
  ]

  pub read :
      (m : Memory)
      → (r.cb == 0) ≡ false
      → (c_mems r == 0) ≡ false
      → lc_read ctx true r m
        ≡ read_pages ctx r (blanks r fits) (zero_page r.pb_last (zero_page r.pb_first m))
  unfolding lc_read
  read m some_bytes some_pages = simp (up, some_bytes, some_pages, chunks_of-blanks r fits)

  lc_read-all_read : (m : Memory) → (lc_read ctx true r m).0 ≡ all_read (read_scatter ctx pages).0
  lc_read-all_read m =
      let some_bytes : (r.cb == 0) ≡ false = ground (arith, fits.some_bytes) in
      let some_pages : (c_mems r == 0) ≡ false = ground (arith, c_mems-bounds r fits) in
      ap (λ t. t.0) (read m some_bytes some_pages) ∙ read_pages-all_read _

  -- A read of a request that fits, on an open handle and with memory for its chunks, returns TRUE
  -- exactly when the scattered read marks every one of its pages as read.
  pub lc_read-true :
      (m : Memory)
      → ((lc_read ctx true r m).0 ≡ true) ↔ All (λ mem. mem.f ≡ true) (read_scatter ctx pages).0
  lc_read-true m = (
    (λ e. all_read-All (read_scatter ctx pages).0 (sym (lc_read-all_read m) ∙ e)),
    (λ h. lc_read-all_read m ∙ All-all_read (read_scatter ctx pages).0 h),
  )

  module _ (phys : Memory) (laid : IsLaidOut r) where
    pub answers-HasPages : IsFaithful ctx phys pages → HasPages r fits (read_scatter ctx pages).0
    answers-HasPages ok i lt =
        let g =
          get_or-IsRead pages (read_scatter ctx pages).0 i zero_mem ok.answers
            (omega (arith, length-tabulate (page r) 0 (c_mems r), lt)) in
        subst (λ mem. IsRead mem (get_or (read_scatter ctx pages).0 i zero_mem))
          (get_or-tabulate (page r) 0 (c_mems r) i zero_mem lt ∙ ap (page r) (omega arith)) g

    pub read_pages-blanks :
        (m : Memory) (ok : IsFaithful ctx phys pages)
        → read_pages ctx r (blanks r fits) m
          ≡ (true, result phys r fits laid (read_scatter ctx pages).0 (answers-HasPages ok) m)
    unfolding read_pages
    read_pages-blanks m ok =
        rw
          (
            set_addresses-blanks r fits,
            all_read-IsRead pages (read_scatter ctx pages).0 ok.answers,
            ok.copies,
            map-tabulate (fill phys) (page r) 0 (c_mems r),
          )
          refl

    -- A read of a request that fits, into buffers that do not overlap, succeeds when the scattered read
    -- of its pages does, and leaves in the caller's buffer the bytes from `pa` on.
    pub lc_read_lem :
        (m : Memory)
        → IsFaithful ctx phys pages
        → ((lc_read ctx true r m).0 ≡ true)
          × (load r.pb r.cb (lc_read ctx true r m).1 ≡ load r.pa r.cb phys)
    lc_read_lem m ok =
        let some_bytes : (r.cb == 0) ≡ false = ground (arith, fits.some_bytes) in
        let some_pages : (c_mems r == 0) ≡ false = ground (arith, c_mems-bounds r fits) in
        let m0 = zero_page r.pb_last (zero_page r.pb_first m) in
        let whole : lc_read ctx true r m
            ≡ (true, result phys r fits laid (read_scatter ctx pages).0 (answers-HasPages ok) m0) =
          read m some_bytes some_pages ∙ read_pages-blanks m0 ok in
        (
          ap (λ t. t.0) whole,
          ap (λ t. load r.pb r.cb t.1) whole
              ∙ load-ext r.pb r.pa r.cb _ phys
                  (result-at phys r fits laid (read_scatter ctx pages).0 (answers-HasPages ok) m0),
        )
