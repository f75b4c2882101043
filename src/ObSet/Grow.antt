-- ===== src/ObSet/Grow.antt =====
-- leechcore/ob/ob_set.c: the growth of the hash table keeps the set.
use leech_core.Base.{
  ℕ, ◌+◌, ◌-◌, ◌≤◌, ◌<◌, ◌≡◌, inl, inr, refl, ◌∙◌, ap, sym, subst, arith, Bool-cases, ◌==◌, leb,
  if◌then◌else◌, tabulate-same,
}
use leech_core.Probe.{Hashing, insert_all}
use leech_core.Probe.Paths.{Live, Holds, Holds-empty, Holds-same, insert_all-Holds}
use leech_core.ObSet.{
  ObSet, max_capacity, get_value, grow, hashing, directory_of, index_directory, index_table,
  index_store,
}
use leech_core.ObSet.Valid.{IsValid, InUse, Sized, Live-hashing}
use leech_core.ObSet.Elements.{elements}

pub get_value-grow : {s : ObSet} → Sized s → (i : ℕ) → get_value (grow s) i ≡ get_value s i
unfolding get_value grow
get_value-grow {s} sized i = elim (Bool-cases (leb s.c i)) [
  | inl out ↦ rw out refl
  | inr in_use ↦
      let lt : i < s.c = ground (arith, in_use) in
      let same : index_directory i ≡ directory_of s i = elim sized.mode [
        | inl l ↦ rw l refl
        | inr small ↦
            let zero_directory : index_directory i ≡ 0 =
              omega (arith, lt, sized.below, sized.ratio, small) in
            elim (Bool-cases s.large) [ inl l ↦ rw l refl | inr l ↦ rw l zero_directory ]
      ] in
      ap
        (λ d.
          if i == 0 then 0 else if leb s.c i then 0 else s.values d (index_table i) (index_store i))
        same
]

module _ {s : ObSet} (valid : IsValid s) (room : s.c_hash_grow_threshold < max_capacity) where
  Sized-grow : Sized (grow s)
  unfolding grow
  Sized-grow = record {
    some_c = valid.sized.some_c;
    max_c = valid.sized.max_c;
    below = omega (arith, valid.sized.below, room);
    ratio = omega (arith, valid.sized.ratio, room);
    few = omega (arith, room);
    mode = inl refl;
  }

  Live-grow : (h : Hashing) → h ≡ hashing (grow s) → (i : ℕ) → InUse s i → Live h i
  unfolding grow
  Live-grow h e i used =
      subst (λ h. Live h i) (sym e)
        (Live-hashing (grow s) i
          (omega (arith, valid.sized.some_c, valid.sized.below, Sized-grow.below, Sized-grow.ratio))
          (λ z. valid.nonzero i used (sym (get_value-grow valid.sized i) ∙ z)) (inl refl))

  grow-Holds : Holds (hashing (grow s)) (InUse s) (s.c - 1) (grow s).hash_map
  unfolding grow get_value hashing
  grow-Holds =
      let start : Holds (hashing (grow s)) (λ e. (1 ≤ e) × (e < 1)) 0 (λ _. 0) =
        Holds-empty (hashing (grow s)) (λ e. (1 ≤ e) × (e < 1)) (λ _. 0) (λ i (lo, hi). omega arith)
          (λ _ _. refl) in
      let filled =
        insert_all-Holds (s.c - 1) 1 (omega arith) start
          (omega (arith, Sized-grow.below, Sized-grow.ratio, valid.sized.some_c))
          (λ e lo hi.
            Live-grow (hashing (grow s)) refl e (lo, omega (arith, hi, valid.sized.some_c))) in
      let count : 0 + (s.c - 1) ≡ s.c - 1 = omega arith in
      Holds-same
        (subst
          (λ k.
            Holds (hashing (grow s)) (λ e. (1 ≤ e) × (e < 1 + (s.c - 1))) k
              (insert_all (hashing (grow s)) (s.c - 1) 1 (λ _. 0)))
          count filled)
        (hashing (grow s)) (InUse s) refl
        (λ e (lo, hi). (lo, omega (arith, hi, valid.sized.some_c)))
        (λ e (lo, hi). (lo, omega (arith, hi, valid.sized.some_c)))
        (λ e used. Live-grow (hashing (grow s)) refl e used) (λ e used. refl)

  pub grow-IsValid : IsValid (grow s)
  unfolding grow
  grow-IsValid =
      let same = get_value-grow valid.sized in
      record {
        sized = Sized-grow;
        nonzero = λ i used z. valid.nonzero i used (sym (same i) ∙ z);
        once = λ i j ui uj e. valid.once i j ui uj (sym (same i) ∙ e ∙ same j);
        hashed = grow-Holds;
      }

  pub grow-elements : elements (grow s) ≡ elements s
  unfolding grow elements
  grow-elements =
      tabulate-same (get_value (grow s)) (get_value s) 1 (s.c - 1)
        (λ j lo hi. get_value-grow valid.sized j)
