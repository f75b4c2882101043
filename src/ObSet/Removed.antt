-- ===== src/ObSet/Removed.antt =====
-- leechcore/ob/ob_set.c: what the removal of any value does to the set.
use leech_core.Base.{
  ap₂, ◌≢◌, ℕ, ◌+◌, ◌-◌, ◌<◌, ◌≡◌, ◌⊎◌, inl, inr, refl, ◌∙◌, ap, sym, arith, Bool, true, false,
  Bool-cases, ◌==◌, if◌then◌else◌, some, sub32,
}
use leech_core.Probe.{Seek, found, absent, lost}
use leech_core.Probe.Cycle.{eq-or}
use leech_core.ObSet.{
  ObSet, get_value, set_value, remove_hash, drop_last, index_of, when_found, remove, remove_at,
  remove_found,
}
use leech_core.ObSet.Store.{get_value-set_same, get_value-set_other}
use leech_core.ObSet.Valid.{IsValid, InUse, index_of-hit, index_of-miss}
use leech_core.ObSet.Elements.{elements, member, member-index, member-no_index}
use leech_core.ObSet.Drop.{less_c, Fits-used, dropped-other, dropped-IsValid}
use leech_core.ObSet.Replace.{replaced-Replaces}

-- The set after the removal of the value at the index `i` from `s`.
pub record MovesLast (s : ObSet) (i : ℕ) (s' : ObSet) : Type 0 where
  pub fewer : s'.c + 1 ≡ s.c
  pub moved :
      (j : ℕ)
      → InUse s' j
      → get_value s' j ≡ (if j == i then get_value s (s.c - 1) else get_value s j)

module _ {s : ObSet} (valid : IsValid s) (i : ℕ) (used : InUse s i) (slot last_slot : ℕ) where
  more : 1 < s.c
  more = let (lo, hi) = used in omega (arith, lo, hi)

  remove_found-moves :
      MovesLast s i (remove_found s (get_value s (s.c - 1)) i slot (s.c - 1) last_slot)
  unfolding set_value get_value
  remove_found-moves =
      let (lo, hi) = used in
      elim (Bool-cases (s.c - 1 == i)) [
        | inl e ↦ rw e (record {
          fewer = omega (arith, less_c valid more, more);
          moved = λ j (lj, hj).
              let last : s.c - 1 ≡ i = ground (arith, e) in
              let below : j < s.c - 1 = omega (arith, hj, less_c valid more) in
              let apart : (j == i) ≡ false = ground (arith, below, last) in
              rw apart (dropped-other valid more last_slot j lj below);
        })
        | inr e ↦ rw e (record {
          fewer = omega (arith, less_c valid more, more);
          moved = λ j (lj, hj).
              let d = remove_hash (drop_last s (s.c - 1) last_slot) slot in
              let last = get_value s (s.c - 1) in
              let below : j < s.c - 1 = omega (arith, hj, less_c valid more) in
              elim (eq-or j i) [
                | inl q ↦
                    let same : (j == i) ≡ true = ground (arith, q) in
                    let here : get_value (set_value d i last) i ≡ last =
                      get_value-set_same d i last lo (omega (arith, q, below, less_c valid more)) in
                    rw same (ap (get_value (set_value d i last)) q ∙ here)
                | inr ne ↦
                    let apart : (j == i) ≡ false = ground (arith, ne) in
                    let there : get_value (set_value d i last) j ≡ get_value d j =
                      get_value-set_other d i j last (Fits-used valid more i hi)
                        (Fits-used valid more j (omega (arith, below))) ne in
                    rw apart (there ∙ dropped-other valid more last_slot j lj below)
              ];
        })
      ]

abbrev index_in : Seek → ℕ
index_in (found i slot) = i
index_in absent = 0
index_in lost = 0

abbrev slot_of : Seek → ℕ
slot_of (found i slot) = slot
slot_of absent = 0
slot_of lost = 0

-- An element is the last one, or the first step of its removal, which drops the last one, leaves its
-- entry in the slot that it was found in.
abbrev pub Stays : ObSet → ℕ → Type 0
Stays s v =
    member v (elements s) ≡ true
    → (v ≡ get_value s (s.c - 1))
      ⊎ ((drop_last s (s.c - 1) (slot_of (index_of s (get_value s (s.c - 1))))).hash_map
            (slot_of (index_of s v))
          ≡ index_in (index_of s v))

module _ {s : ObSet} (valid : IsValid s) (i : ℕ) (used : InUse s i) (slot last_slot : ℕ)
    (slot_within : slot < s.c_hash_max) (last_within : last_slot < s.c_hash_max)
    (last_at : s.hash_map last_slot ≡ s.c - 1) where
  abbrev rest : ObSet
  rest = drop_last s (s.c - 1) last_slot

  -- The removal keeps the set valid when the slot is still that of the index.
  remove_found-IsValid :
      (i ≡ s.c - 1) ⊎ (rest.hash_map slot ≡ i)
      → IsValid (remove_found s (get_value s (s.c - 1)) i slot (s.c - 1) last_slot)
  unfolding set_value
  remove_found-IsValid stays =
      let (lo, hi) = used in
      let some_value : 1 < s.c = omega (arith, lo, hi) in
      let last = get_value s (s.c - 1) in
      let left = dropped-IsValid valid some_value last_slot last_within last_at in
      let less = less_c valid some_value in
      elim (Bool-cases (s.c - 1 == i)) [
        | inl e ↦ rw e left
        | inr e ↦
            let apart : i ≢ s.c - 1 = ground (arith, e) in
            let at : rest.hash_map slot ≡ i = elim stays [ inl q ↦ absurd (apart q) | inr h ↦ h ] in
            let last_used : InUse s (s.c - 1) = (omega arith, omega arith) in
            let new : (j : ℕ) → InUse rest j → last ≢ get_value rest j = λ j (lj, hj) q.
              let below : j < s.c - 1 = omega (arith, hj, less) in
              let same =
                valid.once (s.c - 1) j last_used (lj, omega (arith, below))
                  (q ∙ dropped-other valid some_value last_slot j lj below) in
              omega (arith, same, below) in
            let done =
              replaced-Replaces left i (lo, omega (arith, hi, apart, less)) last
                (valid.nonzero (s.c - 1) last_used) new slot slot_within at in
            rw e (done.valid)
      ]

-- The removal from a valid set ends. The value 0 and a value that is not an element are refused, and
-- the set is as it was. An element is removed with the result TRUE: the set has one element less,
-- and the last element stands where the removed one stood. The set is valid again. An element that is
-- not the last one must still have its entry in its slot after the first step of the removal, which
-- drops the last one.
pub remove-moves :
    {s : ObSet}
    → IsValid s
    → (v : ℕ) → Stays s v
    → (p : Bool × ObSet) × (remove s v ≡ some p)
      × IsValid p.1
      × ((((v ≡ 0) ⊎ (member v (elements s) ≡ false)) × (p ≡ (false, s)))
          ⊎ ((p.0 ≡ true) × ((i : ℕ) × InUse s i × (get_value s i ≡ v) × MovesLast s i p.1)))
unfolding remove
remove-moves {s} valid v stays = elim (Bool-cases (v == 0)) [
  | inl z ↦ rw z ((false, s), refl, valid, inl (inl (ground (arith, z)), refl))
  | inr z ↦ elim (Bool-cases (member v (elements s))) [
    | inl e ↦
        let (i, used, at) = member-index valid v e in
        let some_value : 1 < s.c = let (lo, hi) = used in omega (arith, lo, hi) in
        let last = get_value s (s.c - 1) in
        let last_used : InUse s (s.c - 1) =
          (omega (arith, some_value), omega (arith, some_value)) in
        let (slot, within, _, it) = index_of-hit valid i used in
        let (last_slot, last_within, last_at, last_it) = index_of-hit valid (s.c - 1) last_used in
        let found_it : index_of s v ≡ found i slot = ap (index_of s) (sym at) ∙ it in
        let full : (last == 0) ≡ false = ground (arith, valid.nonzero (s.c - 1) last_used) in
        let s' = remove_found s last i slot (s.c - 1) last_slot in
        let end : remove_at s last (found i slot) ≡ some (true, s') = rw full (
          ap (λ r. when_found r (false, s) (λ k l. (true, remove_found s last i slot k l)))
            last_it) in
        let stays' : (i ≡ s.c - 1) ⊎ ((drop_last s (s.c - 1) last_slot).hash_map slot ≡ i) =
          elim (stays e) [
            | inl q ↦ inl (valid.once i (s.c - 1) used last_used (at ∙ q))
            | inr h ↦ inr (
                ap₂ (λ (a b : Seek). (drop_last s (s.c - 1) (slot_of a)).hash_map (slot_of b))
                  (sym last_it) (sym found_it)
                ∙ h
                ∙ ap index_in found_it)
          ] in
        rw z (
          (true, s'),
          ap (λ k. remove_at s (get_value s k) (index_of s v)) (less_c valid some_value)
              ∙ ap (remove_at s last) found_it
              ∙ end,
          remove_found-IsValid valid i used slot last_slot within last_within last_at stays',
          inr (refl, (i, used, at, remove_found-moves valid i used slot last_slot)),
        )
    | inr e ↦ rw z (
      (false, s),
      ap (remove_at s (get_value s (sub32 s.c 1)))
          (index_of-miss valid v (member-no_index valid v e)),
      valid,
      inl (inr e, refl),
    )
  ]
]
