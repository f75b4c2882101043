-- ===== src/ObSet/Drop.antt =====
-- leechcore/ob/ob_set.c: the removal of the last value, and of all values.
use leech_core.Base.{
  ℕ, suc, ◌+◌, ◌-◌, ◌%◌, ◌≤◌, ◌<◌, ◌≡◌, ◌≢◌, ◌⊎◌, inl, inr, refl, ◌∙◌, ap, ap₂, sym, subst, arith,
  true, false, Bool-cases, true≢false, ◌==◌, leb, ltb, lt→ltb, if◌then◌else◌, tabulate,
  tabulate-same, tabulate_snoc, some, [], ◌∷◌, ◌++◌, sub32,
}
use leech_core.Probe.{clear_slot}
use leech_core.Probe.Paths.{Live, Holds, Holds-same, Holds-empty}
use leech_core.Probe.Clear.{clear_slot-Holds}
use leech_core.ObSet.{
  ObSet, get_value, set_value, hashing, hash_function, drop_last, when_found, pop, pop_value, clear,
}
use leech_core.ObSet.Store.{Fits, get_value-set_other}
use leech_core.ObSet.Valid.{IsValid, InUse, Live-hashing, IsValid-room, index_of-hit}
use leech_core.ObSet.Elements.{elements}

module _ {s : ObSet} (valid : IsValid s) (some_value : 1 < s.c) where
  pub less_c : sub32 s.c 1 ≡ s.c - 1
  less_c = omega (arith, some_value, valid.sized.max_c)

  pub Fits-used : (i : ℕ) → i < s.c → Fits s i
  Fits-used i lt = (
    omega (arith, valid.sized.max_c, lt),
    elim valid.sized.mode [
      | inl l ↦ inl l
      | inr small ↦ inr (omega (arith, lt, valid.sized.below, valid.sized.ratio, small))
    ],
  )

  abbrev emptied : ObSet
  emptied = set_value s (s.c - 1) 0

  emptied-other : (i : ℕ) → InUse s i → i ≢ s.c - 1 → get_value emptied i ≡ get_value s i
  emptied-other i (lo, hi) ne =
      get_value-set_other s (s.c - 1) i 0 (Fits-used (s.c - 1) (omega arith)) (Fits-used i hi) ne

  module _ (slot : ℕ) where
    pub dropped-other :
        (i : ℕ) → 1 ≤ i → i < s.c - 1 → get_value (drop_last s (s.c - 1) slot) i ≡ get_value s i
    unfolding get_value set_value
    dropped-other i lo hi =
        let out : leb (sub32 s.c 1) i ≡ false = ground (arith, hi, less_c) in
        let out' : leb s.c i ≡ false = ground (arith, hi) in
        let same : get_value (drop_last s (s.c - 1) slot) i ≡ get_value emptied i =
          rw out (rw out' refl) in
        same ∙ emptied-other i (lo, omega arith) (omega arith)

    dropped-InUse : (i : ℕ) → InUse (drop_last s (s.c - 1) slot) i → InUse s i × (i < s.c - 1)
    unfolding set_value
    dropped-InUse i (lo, hi) = ((lo, omega (arith, hi, less_c)), omega (arith, hi, less_c))

    dropped-Holds :
        slot < s.c_hash_max
        → s.hash_map slot ≡ s.c - 1
        → Holds
            (hashing (drop_last s (s.c - 1) slot))
            (InUse (drop_last s (s.c - 1) slot))
            (sub32 s.c 1 - 1)
            (drop_last s (s.c - 1) slot).hash_map
    unfolding hashing set_value
    dropped-Holds lt at =
        let positive : 0 < s.c_hash_max = omega (arith, IsValid-room valid) in
        let count : suc (s.c - 2) ≡ s.c - 1 = omega arith in
        let count' : s.c - 2 ≡ sub32 s.c 1 - 1 = omega (arith, less_c) in
        let apart : (i : ℕ) → i ≢ s.hash_map slot → i ≢ s.c - 1 = λ i ne q. ne (q ∙ sym at) in
        let before =
          subst (λ n. Holds (hashing s) (InUse s) n s.hash_map) (sym count) valid.hashed in
        let live : (i : ℕ) → InUse s i → i ≢ s.hash_map slot → Live (hashing emptied) i = λ i u ne.
          let (_, hi) = u in
          let (_, mode) = Fits-used i hi in
          Live-hashing emptied i positive
            (λ z. valid.nonzero i u (sym (emptied-other i u (apart i ne)) ∙ z)) mode in
        let after =
          clear_slot-Holds before (omega (arith, IsValid-room valid)) slot lt (omega (arith, at))
            (hashing emptied) refl live
            (λ i u ne. ap (λ x. hash_function x % s.c_hash_max) (emptied-other i u (apart i ne))) in
        let within : (i : ℕ)
            → InUse (drop_last s (s.c - 1) slot) i
            → InUse s i × (i ≢ s.hash_map slot) =
          λ i u. let (u', lt') = dropped-InUse i u in (u', omega (arith, lt', at)) in
        Holds-same
          (subst
            (λ n.
              Holds (hashing emptied) (λ i. InUse s i × (i ≢ s.hash_map slot)) n
                (clear_slot (hashing emptied) s.hash_map slot))
            count' after)
          (hashing (drop_last s (s.c - 1) slot)) (InUse (drop_last s (s.c - 1) slot)) refl
          (λ i ((lo, hi), ne). (lo, omega (arith, hi, apart i ne, less_c))) within
          (λ i u.
            let (_, below) = dropped-InUse i u in
            let (lo, _) = u in
            let (_, mode) = Fits-used i (omega (arith, below)) in
            Live-hashing (drop_last s (s.c - 1) slot) i positive
              (λ z. valid.nonzero i (lo, omega (arith, below)) (sym (dropped-other i lo below) ∙ z))
              mode)
          (λ i u.
            let ((lo, hi), below) = dropped-InUse i u in
            ap (λ x. hash_function x % s.c_hash_max)
              (dropped-other i lo below ∙ sym (emptied-other i (lo, hi) (omega (arith, below)))))

    pub dropped-IsValid :
        slot < s.c_hash_max → s.hash_map slot ≡ s.c - 1 → IsValid (drop_last s (s.c - 1) slot)
    unfolding set_value
    dropped-IsValid lt at =
        let same : (i : ℕ)
            → InUse (drop_last s (s.c - 1) slot) i
            → InUse s i × (get_value (drop_last s (s.c - 1) slot) i ≡ get_value s i) =
          λ i u. let (u', below) = dropped-InUse i u in (u', dropped-other i u.0 below) in
        record {
          sized = record {
            some_c = omega (arith, less_c);
            max_c = omega (arith, less_c, valid.sized.max_c);
            below = omega (arith, less_c, valid.sized.below);
            ratio = valid.sized.ratio;
            few = valid.sized.few;
            mode = valid.sized.mode;
          };
          nonzero = λ i u z. let (u', e) = same i u in valid.nonzero i u' (sym e ∙ z);
          once = λ i j ui uj q.
              let (u, e) = same i ui in
              let (u', e') = same j uj in valid.once i j u u' (sym e ∙ q ∙ e');
          hashed = dropped-Holds lt at;
        }

    pub dropped-elements :
        elements s ≡ elements (drop_last s (s.c - 1) slot) ++ (get_value s (s.c - 1) ∷ [])
    unfolding elements set_value
    dropped-elements =
        let count : s.c - 1 ≡ suc (s.c - 2) = omega arith in
        let count' : s.c - 2 ≡ sub32 s.c 1 - 1 = omega (arith, less_c) in
        let last : 1 + (s.c - 2) ≡ s.c - 1 = omega arith in
        ap (tabulate (get_value s) 1) count
        ∙ tabulate_snoc (get_value s) 1 (s.c - 2)
        ∙ ap₂ (λ xs x. xs ++ (x ∷ []))
            (tabulate-same (get_value s) (get_value (drop_last s (s.c - 1) slot)) 1 (s.c - 2)
                (λ j lo hi. sym (dropped-other j lo (omega (arith, hi))))
              ∙ ap (tabulate (get_value (drop_last s (s.c - 1) slot)) 1) count')
            (ap (get_value s) last)

-- The pop of a valid set ends, and keeps it valid. The result is the last element, which is removed
-- and is not 0, or 0 when the set has no element, and then the set is as it was.
pub pop-elements :
    {s : ObSet}
    → IsValid s
    → (p : ℕ × ObSet) × (pop s ≡ some p)
      × IsValid p.1
      × (((elements s ≡ []) × (p ≡ (0, s)))
          ⊎ ((p.0 ≢ 0) × (elements s ≡ elements p.1 ++ (p.0 ∷ []))))
unfolding pop elements get_value
pop-elements {s} valid =
    let side : (s.c ≡ 1) ⊎ (1 < s.c) = omega (arith, valid.sized.some_c) in
    elim side [
      | inl e ↦
          let none_left : sub32 s.c 1 ≡ 0 = omega (arith, e) in
          let no_elements : elements s ≡ [] = ap (λ n. tabulate (get_value s) 1 (n - 1)) e in
          let start : pop s ≡ some (0, s) = ap (λ i. pop_value s (get_value s i)) none_left in
          ((0, s), start, valid, inl (no_elements, refl))
      | inr more ↦
          let used : InUse s (s.c - 1) = (omega arith, omega arith) in
          let (slot, lt, at, it) = index_of-hit valid (s.c - 1) used in
          let last = get_value s (s.c - 1) in
          let full : (last == 0) ≡ false = ground (arith, valid.nonzero (s.c - 1) used) in
          let end : pop_value s last ≡ some (last, drop_last s (s.c - 1) slot) =
            rw full (ap (λ r. when_found r (0, s) (λ i slot. (last, drop_last s i slot))) it) in
          (
            (last, drop_last s (s.c - 1) slot),
            ap (λ i. pop_value s (get_value s i)) (less_c valid more) ∙ end,
            dropped-IsValid valid more slot lt at,
            inr (valid.nonzero (s.c - 1) used, dropped-elements valid more slot),
          )
    ]

-- The clearing keeps a set valid, and leaves no element.
pub clear-elements : {s : ObSet} → IsValid s → IsValid (clear s) × (elements (clear s) ≡ [])
unfolding clear elements hashing
clear-elements {s} valid = elim (Bool-cases (leb s.c 1)) [
  | inl e ↦
      let one : s.c ≡ 1 = ground (arith, e, valid.sized.some_c) in
      rw e (valid, ap (λ n. tabulate (get_value s) 1 (n - 1)) one)
  | inr e ↦
      let small : (s.large ≡ false) → s.c_hash_max ≡ 0x400 =
        λ l. elim valid.sized.mode [ inl l' ↦ absurd (true≢false (sym l' ∙ l)) | inr q ↦ q ] in
      let bound : (if s.large then s.c_hash_max else 0x400) ≡ s.c_hash_max =
        elim (Bool-cases s.large) [ inl l ↦ rw l refl | inr l ↦ rw l (sym (small l)) ] in
      rw e (
        record {
          sized = record {
            some_c = omega arith;
            max_c = omega arith;
            below = omega (arith, valid.sized.some_c, valid.sized.below);
            ratio = valid.sized.ratio;
            few = valid.sized.few;
            mode = valid.sized.mode;
          };
          nonzero = λ i (lo, hi). absurd (omega (arith, lo, hi));
          once = λ i j (lo, hi). absurd (omega (arith, lo, hi));
          hashed =
              Holds-empty _ _ _ (λ i (lo, hi). omega (arith, lo, hi))
                (λ slot lt.
                  let within : ltb slot (if s.large then s.c_hash_max else 0x400) ≡ true =
                    subst (λ b. ltb slot b ≡ true) (sym bound) (lt→ltb slot s.c_hash_max lt) in
                  rw within refl);
        },
        refl,
      )
]
