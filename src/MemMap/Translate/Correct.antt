-- ===== src/MemMap/Translate/Correct.antt =====
-- `LcMemMap_TranslateMEMs` with its cached range and its fast find, against the plain reading of a
-- memory map.
use leech_core.Base.{
  ℕ, zero, suc, ◌+◌, ◌-◌, ◌/◌, ◌≤◌, ◌<◌, ◌≡◌, ◌≢◌, ◌⊎◌, inl, inr, refl, arith, Bool-cases, ltb,
  ◌==◌, true, false, qword, qword_max, sym, ◌∙◌,
}
use native.Mathlib.Decide.{dec_lt}
use leech_core.MemMap.{Entry, MemMap, entry}
use leech_core.MemMap.Order.{IsValid, ascending_lt, end-eq}
use leech_core.MemMap.Translate.{bisect, start, scan, covers, shift, settle, translate_mem}
use leech_core.MemMap.Translate.Search.{bisect-lt, back_lem}
use leech_core.MemScatter.{Mem}

-- A range holds the `cb` bytes at `qa`.
abbrev pub Covers : Entry → ℕ → ℕ → Type 0
Covers e qa cb = (e.pa ≤ qa) × (qa + cb ≤ e.pa + e.cb)

-- What a memory map says of the `cb` bytes at `qa`: a range that holds them moves the address, and an
-- address that no range holds is invalid.
pub data Translates (m : MemMap) (qa cb r : ℕ) : Type 0 where
  mapped :
      (i : ℕ)
      → i < m.c_mem_map
      → Covers (entry m i) qa cb
      → r ≡ shift (entry m i) qa
      → Translates m qa cb r
  unmapped :
      ((i : ℕ) → i < m.c_mem_map → ¬ Covers (entry m i) qa cb)
      → r ≡ qword_max
      → Translates m qa cb r

module _ {m : MemMap} (v : IsValid m) where
  ascending_le :
      (i j : ℕ) → i < j → j < m.c_mem_map → (entry m i).pa + (entry m i).cb ≤ (entry m j).pa
  ascending_le i j h p =
      let e : suc (i + (j - suc i)) ≡ j = omega arith in
      rw e at (ascending_lt v i (j - suc i) (rw e p))

  module _ (qa cb : ℕ) (small : qa + cb < qword) where
    covers-eq_true :
        (i : ℕ) → i < m.c_mem_map → covers (entry m i) qa cb ≡ true → Covers (entry m i) qa cb
    covers-eq_true i h e = ground (arith, end-eq v i h)

    covers-eq_false :
        (i : ℕ) → i < m.c_mem_map → covers (entry m i) qa cb ≡ false → ¬ Covers (entry m i) qa cb
    covers-eq_false i h e c = ground (arith, end-eq v i h)

    module _ (pos : 0 < cb) where
      -- Bytes in one range are in no other.
      Covers-unique :
          (i j : ℕ)
          → i < m.c_mem_map
          → j < m.c_mem_map
          → Covers (entry m i) qa cb
          → Covers (entry m j) qa cb
          → i ≡ j
      Covers-unique i j hi hj ci cj = elim (dec_lt i j) [
        | yes p ↦ omega (arith, ascending_le i j p hj)
        | no p ↦ elim (dec_lt j i) [
          | yes q ↦ omega (arith, ascending_le j i q hi)
          | no q ↦ omega arith
        ]
      ]

      -- Ranges below one that starts no later than the address do not hold it.
      below-not-Covers :
          (i j : ℕ)
          → i < m.c_mem_map
          → (i ≡ 0) ⊎ ((entry m i).pa ≤ qa)
          → j < i
          → ¬ Covers (entry m j) qa cb
      below-not-Covers i j hi s p c = omega (arith, ascending_le j i p hi, s)

      above-not-Covers :
          (i j : ℕ)
          → i < m.c_mem_map
          → qa < (entry m i).pa
          → i ≤ j
          → j < m.c_mem_map
          → ¬ Covers (entry m j) qa cb
      above-not-Covers i j hi q p hj c = elim (dec_lt i j) [
        | yes l ↦ omega (arith, ascending_le i j l hj)
        | no l ↦ let e : i ≡ j = omega arith in omega (arith, rw e at q)
      ]

      -- The scan finds the range that holds the address, if there is one.
      scan_lem :
          (k i pe : ℕ)
          → i + k ≡ m.c_mem_map
          → pe < m.c_mem_map
          → ((j : ℕ) → j < i → ¬ Covers (entry m j) qa cb)
          → (scan m qa cb k i pe < m.c_mem_map)
            × (Covers (entry m (scan m qa cb k i pe)) qa cb
                ⊎ ((j : ℕ) → j < m.c_mem_map → ¬ Covers (entry m j) qa cb))
      unfolding scan
      scan_lem zero i pe e p low = (p, inr (λ j h. low j (omega arith)))
      scan_lem (suc k) i pe e p low = elim (Bool-cases (covers (entry m i) qa cb)) [
        | inl c ↦ rw c (omega arith, inl (covers-eq_true i (omega arith) c))
        | inr c ↦ elim (Bool-cases (ltb qa (entry m i).pa)) [
          | inl l ↦ rw (c, l) (omega arith, inr (λ j h. split j h l))
          | inr l ↦ rw (c, l) (scan_lem k (suc i) i (omega arith) (omega arith) (λ j h. next j h c))
        ]
      ]
        where
          split :
              (j : ℕ) → j < m.c_mem_map → ltb qa (entry m i).pa ≡ true → ¬ Covers (entry m j) qa cb
          split j h l = elim (dec_lt j i) [
            | yes q ↦ low j q
            | no q ↦ above-not-Covers i j (omega arith) (ground arith) (omega arith) h
          ]

          next : (j : ℕ) → j < suc i → covers (entry m i) qa cb ≡ false → ¬ Covers (entry m j) qa cb
          next j h c = elim (dec_lt j i) [
            | yes q ↦ low j q
            | no q ↦
                let same : i ≡ j = omega arith in rw (← same) (covers-eq_false i (omega arith) c)
          ]

  start_lem :
      (qa : ℕ)
      → 0 < m.c_mem_map
      → (start m qa < m.c_mem_map) × ((start m qa ≡ 0) ⊎ ((entry m (start m qa)).pa ≤ qa))
  unfolding start
  start_lem qa p = elim (Bool-cases (ltb 0x40 m.c_mem_map)) [
    | inl l ↦
        let half : ℕ = m.c_mem_map / 2 in
        let inside : bisect 32 m qa half half < m.c_mem_map =
          bisect-lt 32 m qa half half (omega arith) (omega arith) (omega (arith, v.limit))
            (ground arith) in
        let b = back_lem m qa (bisect 32 m qa half half) in rw l (omega arith, b.1)
    | inr l ↦ rw l (p, inl refl)
  ]

  module _ (qa cb : ℕ) (small : qa + cb < qword) (pos : 0 < cb) where
    -- From where the scan starts it decides the translation.
    settle-Translates :
        (pe : ℕ)
        → pe < m.c_mem_map
        → (scan m qa cb (m.c_mem_map - start m qa) (start m qa) pe < m.c_mem_map)
          × Translates m qa cb
              (settle (entry m (scan m qa cb (m.c_mem_map - start m qa) (start m qa) pe)) qa cb)
    unfolding settle
    settle-Translates pe p =
        let s = start_lem qa (omega arith) in
        let (inside, holds) =
          scan_lem qa cb small pos (m.c_mem_map - start m qa) (start m qa) pe (omega arith) p
            (λ j h. below-not-Covers qa cb small pos (start m qa) j s.0 s.1 h) in
        let found : ℕ = scan m qa cb (m.c_mem_map - start m qa) (start m qa) pe in
        (
          inside,
          elim (Bool-cases (covers (entry m found) qa cb)) [
            | inl c ↦
                rw c
                  (Translates.mapped found inside (covers-eq_true qa cb small found inside c) refl)
            | inr c ↦ rw c (elim holds [
              | inl held ↦ absurd (covers-eq_false qa cb small found inside c held)
              | inr none_held ↦ Translates.unmapped none_held refl
            ])
          ],
        )

  -- On a chunk that is still valid and whose bytes end within the address space, one round writes
  -- the translation and leaves the cached range inside the map.
  pub translate_mem-Translates :
      (pe : ℕ) (mem : Mem)
      → pe < m.c_mem_map
      → mem.qw_a ≢ qword_max
      → 0 < mem.cb
      → mem.qw_a + mem.cb < qword
      → ((translate_mem m pe mem).0 < m.c_mem_map)
        × Translates m mem.qw_a mem.cb (translate_mem m pe mem).1.qw_a
  unfolding translate_mem
  translate_mem-Translates pe mem p ne pos small =
      let valid : (mem.qw_a == qword_max) ≡ false = ground arith in
      elim (Bool-cases (covers (entry m pe) mem.qw_a mem.cb)) [
        | inl c ↦
            rw (valid, c)
              (p, Translates.mapped pe p (covers-eq_true mem.qw_a mem.cb small pe p c) refl)
        | inr c ↦ rw (valid, c) (settle-Translates mem.qw_a mem.cb small pos pe p)
      ]

  -- A translation is all that the map and the bytes determine.
  pub Translates-unique :
      {qa cb r s : ℕ}
      → 0 < cb
      → qa + cb < qword
      → Translates m qa cb r
      → Translates m qa cb s
      → r ≡ s
  Translates-unique {qa} {cb} pos small (mapped i hi ci e) (mapped j hj cj e') =
      let same = Covers-unique qa cb small pos i j hi hj ci cj in e ∙ rw same (sym e')
  Translates-unique pos small (mapped i hi ci e) (unmapped n e') = absurd (n i hi ci)
  Translates-unique pos small (unmapped n e) (mapped i hi ci e') = absurd (n i hi ci)
  Translates-unique pos small (unmapped n e) (unmapped n' e') = e ∙ sym e'
