-- ===== src/ObMap/Order/Sorted.antt =====
-- leechcore/ob/ob_map.c: the search by key finds the first entry whose key is not smaller.
use leech_core.Base.{
  ℕ, zero, suc, ◌+◌, ◌-◌, ◌*◌, ◌/◌, ◌^◌, ◌≤◌, ◌<◌, ◌≡◌, ◌⊎◌, inl, inr, sym, subst, arith, true,
  false, Bool-cases, ltb, leb, ◌==◌, min,
}
use leech_core.ObMap.{ObMap}
use leech_core.ObMap.Order.{
  Place, at, nowhere, endless, bit_count, first_index, approach, walk, key_at, qfind,
}

-- The keys of the indices from 1 up to `count` ascend.
abbrev pub Ascends : (ℕ → ℕ) → ℕ → Type 0
Ascends keys count = (i j : ℕ) → 1 ≤ i → i < j → j ≤ count → keys i < keys j

-- The first index whose key is not below `key`, or none when all keys are below it.
abbrev pub IsFirst : (ℕ → ℕ) → ℕ → ℕ → Place → Type 0
IsFirst keys count key (at j) =
    (1 ≤ j) × (j ≤ count) × (key ≤ keys j) × ((i : ℕ) → 1 ≤ i → i < j → keys i < key)
IsFirst keys count key nowhere = (i : ℕ) → 1 ≤ i → i ≤ count → keys i < key
IsFirst keys count key endless = ⊥

module _ {keys : ℕ → ℕ} {count : ℕ} (ascends : Ascends keys count) (key : ℕ) where
  below_all : (j : ℕ) → j ≤ count → keys j < key → (i : ℕ) → 1 ≤ i → i ≤ j → keys i < key
  below_all j hj lt i lo hi =
      let side : (i ≡ j) ⊎ (i < j) = omega arith in
      elim side [
        | inl e ↦ subst (λ n. keys n < key) (sym e) lt
        | inr less ↦ let h = ascends i j lo less hj in omega arith
      ]

  walk_up :
      (fuel i : ℕ)
      → 1 ≤ i
      → i ≤ count
      → count < i + fuel
      → keys i < key
      → IsFirst keys count key (walk fuel keys count key i)
  unfolding walk
  walk_up zero i lo hi enough lt = absurd (omega arith)
  walk_up (suc fuel) i lo hi enough lt =
      let go : ltb (keys i) key ≡ true = ground (arith, lt) in
      rw go (elim (Bool-cases (i == count)) [
        | inl e ↦ rw e (λ k lk hk. below_all i hi lt k lk (ground (arith, e, hk)))
        | inr e ↦ rw e (elim (Bool-cases (leb key (keys (i + 1)))) [
          | inl h ↦ rw h (
            omega arith,
            ground (arith, e, hi),
            ground (arith, h),
            λ k lk hk. below_all i hi lt k lk (omega (arith, hk)),
          )
          | inr h ↦ rw h (
              walk_up fuel (i + 1) (omega arith) (ground (arith, e, hi)) (omega (arith, enough))
                (ground (arith, h)))
        ])
      ])

  walk_down :
      (fuel i : ℕ)
      → 1 ≤ i
      → i ≤ count
      → i ≤ fuel
      → key ≤ keys i
      → IsFirst keys count key (walk fuel keys count key i)
  unfolding walk
  walk_down zero i lo hi enough le = absurd (omega arith)
  walk_down (suc fuel) i lo hi enough le =
      let stay : ltb (keys i) key ≡ false = ground (arith, le) in
      rw stay (elim (Bool-cases (ltb key (keys i))) [
        | inl g ↦ rw g (elim (Bool-cases (i == 1)) [
          | inl e ↦
              let first : i ≡ 1 = ground (arith, e) in
              rw e (
                omega arith,
                omega (arith, hi, lo),
                subst (λ n. key ≤ keys n) first le,
                λ k lk hk. absurd (omega (arith, lk, hk)),
              )
          | inr e ↦ rw e (elim (Bool-cases (ltb (keys (i - 1)) key)) [
            | inl h ↦ rw h (
              lo,
              hi,
              le,
              λ k lk hk.
                  below_all (i - 1) (omega (arith, hi)) (ground (arith, h)) k lk
                    (omega (arith, hk)),
            )
            | inr h ↦ rw h (
                walk_down fuel (i - 1) (ground (arith, e, lo)) (omega (arith, hi))
                  (omega (arith, enough, lo)) (ground (arith, h)))
          ])
        ])
        | inr g ↦
            rw g (
              lo,
              hi,
              le,
              λ k lk hk. let less = ascends k i lk hk hi in ground (arith, less, g, le),
            )
      ])

-- The loop that halves the step stays within the map.
approach-within :
    (fuel : ℕ) (keys : ℕ → ℕ) (count key i step : ℕ)
    → 1 ≤ i
    → i ≤ count
    → step * 2 ≤ i
    → (1 ≤ approach fuel keys count key i step) × (approach fuel keys count key i step ≤ count)
unfolding approach
approach-within zero keys count key i step lo hi small = (lo, hi)
approach-within (suc fuel) keys count key i step lo hi small = elim (Bool-cases (leb step 1)) [
  | inl e ↦ rw e (lo, hi)
  | inr e ↦ rw e (
      let large : 1 < step = ground (arith, e) in
      elim (Bool-cases (ltb (keys i) key)) [
        | inl h ↦ rw h (elim (Bool-cases (leb (i + step) count)) [
          | inl g ↦ rw g (
              approach-within fuel keys count key (i + step) (step / 2) (omega arith)
                (ground (arith, g)) (omega (arith, small)))
          | inr g ↦
              rw g (approach-within fuel keys count key i (step / 2) lo hi (omega (arith, small)))
        ])
        | inr h ↦ rw h (elim (Bool-cases (ltb key (keys i))) [
          | inl g ↦ rw g (
              approach-within fuel keys count key (i - step) (step / 2)
                (omega (arith, small, large)) (omega (arith, hi)) (omega (arith, small)))
          | inr g ↦ rw g (lo, hi)
        ])
      ])
]

first_index-within : (count : ℕ) → 1 ≤ count → (1 ≤ first_index count) × (first_index count ≤ count)
unfolding first_index
first_index-within count some_entry =
    let i = min (2 ^ (bit_count 32 (count - 1) 1 - 1)) ((count - 1) / 2) in
    let few : i ≤ (count - 1) / 2 = omega arith in
    elim (Bool-cases (i == 0)) [
      | inl e ↦ rw e (omega arith, some_entry)
      | inr e ↦ rw e (ground (arith, e), omega (arith, few))
    ]

-- On a map whose keys ascend with the index, the search by key ends. It gives the first index whose
-- key is not below the key that is looked for, or none when all keys are below it.
pub qfind-IsFirst :
    (m : ObMap) (key : ℕ)
    → Ascends (key_at m) (m.c - 1)
    → IsFirst (key_at m) (m.c - 1) key (qfind m key)
unfolding qfind
qfind-IsFirst m key ascends = elim (Bool-cases (leb m.c 1)) [
  | inl e ↦ rw e (λ i lo hi. absurd (ground (arith, e, lo, hi)))
  | inr e ↦ rw e (
      let some_entry : 1 ≤ m.c - 1 = ground (arith, e) in
      let (lo, hi) = first_index-within (m.c - 1) some_entry in
      let i = first_index (m.c - 1) in
      let (from, upto) =
        approach-within 32 (key_at m) (m.c - 1) key i (i / 2) lo hi (omega arith) in
      let start = approach 32 (key_at m) (m.c - 1) key i (i / 2) in
      let side : (key_at m start < key) ⊎ (key ≤ key_at m start) = omega arith in
      elim side [
        | inl lt ↦ walk_up ascends key (m.c + 1) start from upto (omega (arith, from)) lt
        | inr le ↦ walk_down ascends key (m.c + 1) start from upto (omega (arith, upto)) le
      ])
]
