-- ===== src/MemMap/Add.antt =====
-- `LcMemMap_AddRange`: what it adds, when it refuses, and that it keeps the map valid.
use leech_core.Base.{
  ℕ, ◌+◌, ◌-◌, ◌%◌, ◌<◌, ◌≡◌, ◌≢◌, ◌⊎◌, ◌↔◌, inl, inr, refl, arith, Bool-cases, Bool, true, false,
  leb, ◌==◌, List, [], ◌∷◌, ◌++◌, if◌then◌else◌, qword, ◌∙◌, ap,
}
use native.Mathlib.Decide.{ℕ_discrete}
use leech_core.MemMap.{Entry, MemMap, ranges, trim, grow, store_range, add_range}
use leech_core.MemMap.Order.{IsValid}
use leech_core.MemMap.Store.{
  fresh, IsClear, store_range-cases, store_range_lem, grow-IsValid, ranges-grow, entry-grow,
}

-- Room for one more range, or the means to make it.
abbrev pub CanHold : Bool → MemMap → Type 0
CanHold alloc m = (m.c_mem_map < 0x0010_0000) × ((m.c_mem_map ≢ m.c_mem_map_max) ⊎ (alloc ≡ true))

module _ (alloc : Bool) {m : MemMap} (v : IsValid m) (pa cb pa_remap : ℕ) where
  -- The map that the last step of the function works on.
  abbrev base : MemMap
  base = if m.c_mem_map == m.c_mem_map_max then grow m else m

  -- The three conditions that are tested before anything is written.
  abbrev pub IsAcceptable : Type 0
  IsAcceptable = (pa % 0x1000 ≡ 0) × (trim cb % 0x1000 ≡ 0) × CanHold alloc m

  add_range-acceptable :
      IsAcceptable → add_range alloc m pa cb pa_remap ≡ store_range base pa (trim cb) pa_remap
  unfolding add_range
  add_range-acceptable (p, q, (small, room)) =
      let t1 : (pa % 0x1000 == 0) ≡ true = ground arith in
      let t2 : (trim cb % 0x1000 == 0) ≡ true = ground arith in
      let t3 : leb 0x0010_0000 m.c_mem_map ≡ false = ground arith in
      elim (Bool-cases (m.c_mem_map == m.c_mem_map_max)) [
        | inl full ↦ let t4 : alloc ≡ true = ground arith in rw (t1, t2, t3, full, t4)
        | inr free ↦ rw (t1, t2, t3, free)
      ]

  add_range-refused :
      (IsAcceptable) ⊎ (add_range alloc m pa cb pa_remap ≡ (false, m)) × (¬ IsAcceptable)
  unfolding add_range
  add_range-refused = elim (ℕ_discrete (pa % 0x1000) 0) [
    | no p ↦ let t1 : (pa % 0x1000 == 0) ≡ false = ground arith in inr (rw t1, λ h. p h.0)
    | yes p ↦ elim (ℕ_discrete (trim cb % 0x1000) 0) [
      | no q ↦
          let t1 : (pa % 0x1000 == 0) ≡ true = ground arith in
          let t2 : (trim cb % 0x1000 == 0) ≡ false = ground arith in inr (rw (t1, t2), λ h. q h.1)
      | yes q ↦
          let t1 : (pa % 0x1000 == 0) ≡ true = ground arith in
          let t2 : (trim cb % 0x1000 == 0) ≡ true = ground arith in
          elim (Bool-cases (leb 0x0010_0000 m.c_mem_map)) [
            | inl t3 ↦ inr (rw (t1, t2, t3), λ h. ground arith)
            | inr t3 ↦ elim (Bool-cases (m.c_mem_map == m.c_mem_map_max)) [
              | inr t4 ↦ inl (p, q, (ground arith, inl (ground arith)))
              | inl t4 ↦ elim (Bool-cases alloc) [
                | inl t5 ↦ inl (p, q, (ground arith, inr t5))
                | inr t5 ↦ inr (rw (t1, t2, t3, t4, t5), λ h. ground arith)
              ]
            ]
          ]
    ]
  ]

  -- Growth, if there is any, leaves the ranges and makes room.
  record IsReady (b : MemMap) : Type 0 where
    valid : IsValid b
    count : b.c_mem_map ≡ m.c_mem_map
    room : b.c_mem_map < b.c_mem_map_max
    same : ranges b ≡ ranges m
    last : IsClear b pa ↔ IsClear m pa

  base-IsReady : CanHold alloc m → IsReady base
  base-IsReady (small, _) = elim (Bool-cases (m.c_mem_map == m.c_mem_map_max)) [
    | inl full ↦
        let fits : m.c_mem_map ≡ m.c_mem_map_max = ground arith in
        rw full (record {
          valid = grow-IsValid v (omega arith);
          count = refl;
          room = omega (arith, v.some_room);
          same = ranges-grow v;
          last =
              rw (entry-grow v (m.c_mem_map - 1) (omega (arith, v.some_room))) ((λ h. h), (λ h. h));
        })
    | inr free ↦
        let apart : m.c_mem_map ≢ m.c_mem_map_max = ground arith in
        rw free (record {
          valid = v;
          count = refl;
          room = omega (arith, v.fits);
          same = refl;
          last = (λ h. h, λ h. h);
        })
  ]

  -- On a valid map, and for a range that ends within the address space, the map stays valid, and
  -- its ranges are those of before with the new one behind them on success, and those of before on
  -- failure.
  pub add_range-IsValid :
      pa + trim cb < qword
      → let (ok, m') = add_range alloc m pa cb pa_remap in
        IsValid m'
        × (ranges m' ≡ (if ok then ranges m ++ (fresh pa (trim cb) pa_remap ∷ []) else ranges m))
  add_range-IsValid ends = elim add_range-refused [
    | inr (e, _) ↦ rw e (v, refl)
    | inl ok ↦
        let r = base-IsReady ok.2 in
        let s =
          store_range_lem r.valid pa (trim cb) pa_remap r.room (omega (arith, ok.2, r.count)) ends
            ok.0 ok.1 in
        let stored = store_range base pa (trim cb) pa_remap in
        rw (add_range-acceptable ok) (
          s.0,
          s.1
              ∙ ap
                  (λ (rs : List Entry).
                    if stored.0 then rs ++ (fresh pa (trim cb) pa_remap ∷ []) else rs)
                  r.same,
        )
  ]

  -- A valid map takes a range exactly when the range is whole pages (after the correction of its
  -- size), the map can hold one more, and the range does not start before the end of the last one.
  pub add_range-accepts :
      ((add_range alloc m pa cb pa_remap).0 ≡ true) ↔ (IsAcceptable × IsClear m pa)
  add_range-accepts = elim add_range-refused [
    | inr (e, bad) ↦ rw e ((λ h. cc), λ h. absurd (bad h.0))
    | inl ok ↦
        let r = base-IsReady ok.2 in
        elim (store_range-cases r.valid pa (trim cb) pa_remap) [
          | inl (clear, e) ↦
              rw (add_range-acceptable ok, e) ((λ _. (ok, r.last.0 clear)), λ _. refl)
          | inr (overlap, e) ↦
              rw (add_range-acceptable ok, e) ((λ h. cc), λ h. absurd (overlap (r.last.1 h.1)))
        ]
  ]
