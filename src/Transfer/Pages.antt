-- ===== src/Transfer/Pages.antt =====
-- The chunks that `LcRead` allocates: one for each page of its request, in order.
use leech_core.Base.{
  ℕ, zero, suc, ◌+◌, ◌-◌, ◌*◌, ◌%◌, ◌≤◌, ◌<◌, ◌≡◌, ◌≢◌, ◌⊎◌, inl, inr, refl, ◌∙◌, ap, ap₂, sym,
  arith, Bool-cases, true, false, Option, none, some, List, ◌∷◌, ltb, ◌==◌, if◌then◌else◌, add32,
  add64, dword, tabulate,
}
use leech_core.MemScatter.{Mem}
use leech_core.Transfer.{
  ReadCall, offset, c_mems, f_first, f_last, pa_base, cb_middle, pb_middle, blank, own_buffer,
  alloc_chunks, alloc_scatter3, chunks_of, set_addresses, page_more,
}
use leech_core.Transfer.Buffers.{
  Fits, own-cases, buffer_of, page_buffer, c_mems-bounds, f_first-true, f_first-false, f_last-true,
  f_last-false,
}

-- The chunk of page `i`.
abbrev pub page : ReadCall → ℕ → Mem
page r i = record (blank (page_buffer r i)) { qw_a = pa_base r + i * 0x1000 }

module _ (first last : Option ℕ) (pb c k i o : ℕ) where
  alloc_chunks-own :
      {p : ℕ}
      → own_buffer first last c i ≡ some p
      → alloc_chunks first last pb c (suc k) i o
        ≡ blank p ∷ alloc_chunks first last pb c k (suc i) o
  unfolding alloc_chunks
  alloc_chunks-own e = rw (alloc_chunks, e)

  alloc_chunks-none :
      own_buffer first last c i ≡ none
      → alloc_chunks first last pb c (suc k) i o
        ≡ blank (pb + o) ∷ alloc_chunks first last pb c k (suc i) (add32 o 0x1000)
  unfolding alloc_chunks
  alloc_chunks-none e = rw (alloc_chunks, e)

not_ltb : {a b : ℕ} → b ≤ a → ltb a b ≡ false
not_ltb h = ground arith

module _ (r : ReadCall) (fits : Fits r) where
  -- The variable o of the loop at page `i`: a first page of its own is not counted.
  abbrev Counted : ℕ → ℕ → Type 0
  Counted i o =
      ((i ≡ 0) × (o ≡ 0))
      ⊎ ((0 < i)
          × (((f_first r ≡ true) × (o + 0x1000 ≡ i * 0x1000))
              ⊎ ((f_first r ≡ false) × (o ≡ i * 0x1000))))

  Counted-start : (i o : ℕ) → Counted i o → i ≡ 0 → o + 0x1000 ≡ suc i * 0x1000
  Counted-start i o (inl (_, none_yet)) at = omega arith
  Counted-start i o (inr (later, _)) at = absurd (omega arith)

  -- Page `i` starts in the caller's buffer where the bytes of the pages before it end.
  line_at :
      (i o : ℕ)
      → Counted i o
      → (f_first r ≡ false) ⊎ (i ≢ 0)
      → i < c_mems r
      → pb_middle r + o ≡ r.pb + i * 0x1000 - offset r.pa
  line_at i o (inl (at, none_yet)) no_first lt =
      let aligned : offset r.pa ≡ 0 = elim no_first [
        | inl b ↦ (f_first-false r fits b).0
        | inr ne ↦ absurd (ne at)
      ] in
      let t : (offset r.pa == 0) ≡ true = ground (arith, aligned) in
      rw t (omega (arith, aligned, at, none_yet))
  line_at i o (inr (later, inl (b, sum))) no_first lt =
      let inside : 0 < offset r.pa = elim (f_first-true r fits b) [
        | inl h ↦ h
        | inr one ↦ absurd (omega arith)
      ] in
      let t : (offset r.pa == 0) ≡ false = ground (arith, inside) in
      rw t (omega (arith, inside, sum))
  line_at i o (inr (later, inr (b, sum))) no_first lt =
      let aligned = (f_first-false r fits b).0 in
      let t : (offset r.pa == 0) ≡ true = ground (arith, aligned) in
      rw t (omega (arith, aligned, sum))

  Counted-line :
      (i o : ℕ)
      → Counted i o
      → (f_first r ≡ false) ⊎ (i ≢ 0)
      → i < c_mems r
      → Counted (suc i) (add32 o 0x1000)
  Counted-line i o (inl (at, none_yet)) no_first lt = elim no_first [
    | inl b ↦ inr (omega arith, inr (b, omega arith))
    | inr ne ↦ absurd (ne at)
  ]
  Counted-line i o (inr (later, inl (b, sum))) no_first lt =
      inr (omega arith, inl (b, omega (arith, c_mems-bounds r fits, sum, lt)))
  Counted-line i o (inr (later, inr (b, sum))) no_first lt =
      inr (omega arith, inr (b, omega (arith, c_mems-bounds r fits, sum, lt)))

  alloc_chunks_lem :
      (k i o : ℕ)
      → i + k ≡ c_mems r
      → (k ≡ 0) ⊎ Counted i o
      → alloc_chunks
          (if f_first r then some r.pb_first else none)
          (if f_last r then some r.pb_last else none)
          (pb_middle r)
          (c_mems r)
          k
          i
          o
        ≡ tabulate (λ j. blank (page_buffer r j)) i k
  unfolding alloc_chunks
  alloc_chunks_lem zero i o e c = refl
  alloc_chunks_lem (suc k) i o e (inl z) = absurd (omega arith)
  alloc_chunks_lem (suc k) i o e (inr c) = elim (own-cases r fits i (omega arith)) [
    | inl (own_is, b, at) ↦
        alloc_chunks-own _ _ _ _ _ _ _ own_is
        ∙ ap₂ (λ p t. blank p ∷ t) (sym (ap (buffer_of r i) own_is))
            (alloc_chunks_lem k (suc i) o (omega arith)
              (inr (inr (omega arith, inl (b, Counted-start i o c at)))))
    | inr (inl (own_is, b, at)) ↦
        alloc_chunks-own _ _ _ _ _ _ _ own_is
        ∙ ap₂ (λ p t. blank p ∷ t) (sym (ap (buffer_of r i) own_is))
            (alloc_chunks_lem k (suc i) o (omega arith) (inl (omega arith)))
    | inr (inr (own_is, no_first, no_last)) ↦
        alloc_chunks-none _ _ _ _ _ _ _ own_is
        ∙ ap₂ (λ p t. blank p ∷ t)
            (line_at i o c no_first (omega arith) ∙ sym (ap (buffer_of r i) own_is))
            (alloc_chunks_lem k (suc i) (add32 o 0x1000) (omega arith)
              (inr (Counted-line i o c no_first (omega arith))))
  ]

  set_addresses_lem :
      (i k : ℕ)
      → i + k ≡ c_mems r
      → set_addresses (pa_base r) i (tabulate (λ j. blank (page_buffer r j)) i k)
        ≡ tabulate (page r) i k
  unfolding set_addresses
  set_addresses_lem i zero e = refl
  set_addresses_lem i (suc k) e =
      let at : add64 (pa_base r) (i * 0x1000) ≡ pa_base r + i * 0x1000 =
        omega (arith, fits.ends, e) in
      ap₂ (λ (a : ℕ) t. record (blank (page_buffer r i)) { qw_a = a } ∷ t) at
        (set_addresses_lem (suc i) k (omega arith))

  -- The check of `LcAllocScatter3` on the size passes.
  size_lem :
      ltb (c_mems r * 0x1000 % dword) (
        page_more
          (if f_last r then some r.pb_last else none)
          (page_more (if f_first r then some r.pb_first else none) (cb_middle r)))
      ≡ false
  size_lem = elim (Bool-cases (f_first r)) [
    | inl b ↦ elim (Bool-cases (f_last r)) [
      | inl c ↦
          rw (b, c)
            (not_ltb (omega (arith, c_mems-bounds r fits, f_last-true r fits c, fits.words)))
      | inr c ↦
          rw (b, c)
            (not_ltb (
              omega (
                arith,
                c_mems-bounds r fits,
                f_last-false r fits c,
                f_first-true r fits b,
                fits.words,
                fits.some_bytes,
              )))
    ]
    | inr b ↦ elim (Bool-cases (f_last r)) [
      | inl c ↦
          rw (b, c)
            (not_ltb (
              omega (
                arith,
                c_mems-bounds r fits,
                f_last-true r fits c,
                f_first-false r fits b,
                fits.words,
              )))
      | inr c ↦
          rw (b, c)
            (not_ltb (
              omega (
                arith,
                c_mems-bounds r fits,
                f_last-false r fits c,
                f_first-false r fits b,
                fits.words,
              )))
    ]
  ]

  pub blanks : List Mem
  blanks = tabulate (λ j. blank (page_buffer r j)) 0 (c_mems r)

  pub chunks_of-blanks : chunks_of true r ≡ some blanks
  unfolding chunks_of alloc_scatter3 blanks
  chunks_of-blanks =
      let whole : c_mems r % dword ≡ c_mems r = omega (arith, c_mems-bounds r fits) in
      rw (whole, size_lem)
        (ap some (alloc_chunks_lem (c_mems r) 0 0 (omega arith) (inr (inl (refl, refl)))))

  pub set_addresses-blanks : set_addresses (pa_base r) 0 blanks ≡ tabulate (page r) 0 (c_mems r)
  unfolding blanks
  set_addresses-blanks = set_addresses_lem 0 (c_mems r) (omega arith)
