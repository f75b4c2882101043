-- ===== src/ObMap/Take.antt =====
-- leechcore/ob/ob_map.c: the removal of an entry keeps the map valid.
use leech_core.Base.{
  ℕ, suc, ◌+◌, ◌-◌, ◌<◌, ◌≡◌, ◌≢◌, ◌⊎◌, inl, inr, refl, ◌∙◌, ap, sym, subst, arith, Bool, true,
  false, Bool-cases, ◌||◌, ◌==◌, if◌then◌else◌, some, sub32,
}
use leech_core.Probe.{Table}
use leech_core.Probe.Cycle.{eq-or}
use leech_core.ObMap.{MapEntry, ObMap, entry_at, set_entry, part, get_from_entry_index, is_hashed}
use leech_core.ObMap.Change.{unhash}
use leech_core.ObMap.Both.{Both, Without, With, with_both, unhash-Both, if_yes, if_no}
use leech_core.ObMap.Valid.{
  MapValid, MapUsed, get_from_entry_index-used, Both-same, entry_at-set_same, entry_at-set_other,
  full-is_stored,
}

-- The map after the removal of the entry at `i`: the last entry stands in its place.
pub record Takes (m : ObMap) (i : ℕ) (m' : ObMap) : Type 0 where
  pub valid : MapValid m'
  pub fewer : m'.c + 1 ≡ m.c
  pub moved :
      (j : ℕ)
      → MapUsed m'.c j
      → entry_at m' j ≡ (if j == i then entry_at m (m.c - 1) else entry_at m j)

module _ {m : ObMap} (valid : MapValid m) (i : ℕ) (used : MapUsed m.c i) where
  pub some_entry : 1 < m.c
  some_entry = let (lo, hi) = used in omega (arith, lo, hi)

  pub slots : m.c - 1 < m.c_hash_max
  slots = omega (arith, valid.sized.below, valid.sized.ratio, some_entry)

  pub less_c : sub32 m.c 1 ≡ m.c - 1
  less_c = omega (arith, some_entry, valid.sized.max_c)

  -- The entries that stay, with the last one at `i`, when the tables hold them.
  shorter-MapValid :
      (m' : ObMap)
      → m'.c ≡ m.c - 1
      → m'.c_hash_max ≡ m.c_hash_max
      → m'.c_hash_grow_threshold ≡ m.c_hash_grow_threshold
      → m'.has_key ≡ m.has_key
      → m'.large ≡ m.large
      → ((j : ℕ)
          → MapUsed m'.c j
          → entry_at m' j ≡ (if j == i then entry_at m (m.c - 1) else entry_at m j))
      → Both m' (MapUsed m'.c) (m'.c - 1) m'.hash_key m'.hash_value
      → Takes m i m'
  shorter-MapValid m' count size threshold key mode moved both =
      let (lo, hi) = used in
      let from : (j : ℕ)
          → MapUsed m'.c j
          → (k : ℕ) × MapUsed m.c k
            × (entry_at m' j ≡ entry_at m k)
            × (((k ≡ j) × (j ≢ i)) ⊎ ((k ≡ m.c - 1) × (j ≡ i))) =
        λ j u.
          let (lj, hj) = u in
          elim (Bool-cases (j == i)) [
            | inl e ↦ (
              m.c - 1,
              (omega (arith, lj, hj, count), omega (arith, some_entry)),
              moved j u ∙ if_yes _ e,
              inr (refl, ground (arith, e)),
            )
            | inr e ↦ (
              j,
              (lj, omega (arith, hj, count)),
              moved j u ∙ if_no _ e,
              inl (refl, ground (arith, e)),
            )
          ] in
      record {
        valid = record {
          sized = record {
            some_c = omega (arith, count, some_entry);
            max_c = omega (arith, count, valid.sized.max_c);
            below = omega (arith, count, threshold, valid.sized.below);
            ratio = omega (arith, size, threshold, valid.sized.ratio);
            few = omega (arith, threshold, valid.sized.few);
            small = elim valid.sized.small [ inl y ↦ inl (mode ∙ y) | inr e ↦ inr (threshold ∙ e) ];
          };
          full =
              λ j u z. let (k, uk, e, _) = from j u in valid.full k uk (sym (ap (λ x. x.v) e) ∙ z);
          once = λ b y j j' u u' same.
              let (k, uk, e, which) = from j u in
              let (k', uk', e', which') = from j' u' in
              let h : is_hashed m b ≡ true = ap (λ k. b || k) (sym key) ∙ y in
              let k_same =
                valid.once b h k k' uk uk' (sym (ap (part b) e) ∙ same ∙ ap (part b) e') in
              let (lj, hj) = u in
              let (lj', hj') = u' in omega (arith, which, which', k_same, hj, hj', count);
          both = both;
        };
        fewer = omega (arith, count, some_entry);
        moved = moved;
      }

  at_index : (b : Bool) → get_from_entry_index m b i ≡ part b (entry_at m i)
  at_index b = get_from_entry_index-used m b i used

  pub first_unhashed :
      (hk' : Table) × (hv' : Table) × (unhash m (entry_at m i) i ≡ some (with_both m hk' hv'))
      × Both m (Without (MapUsed m.c) i) (m.c - 2) hk' hv'
  first_unhashed =
      let count : m.c - 1 ≡ suc (m.c - 2) = omega (arith, some_entry) in
      let before = subst (λ n. Both m (MapUsed m.c) n m.hash_key m.hash_value) count valid.both in
      unhash-Both before (omega (arith, slots)) i used (entry_at m i) at_index

  -- The removal of the last entry.
  pub take_last :
      (hk' hv' : Table)
      → i ≡ m.c - 1
      → Both m (Without (MapUsed m.c) i) (m.c - 2) hk' hv'
      → Takes m i (record (with_both m hk' hv') { c = sub32 m.c 1 })
  take_last hk' hv' last both =
      let m' : ObMap = record (with_both m hk' hv') { c = sub32 m.c 1 } in
      let count : m.c - 2 ≡ sub32 m.c 1 - 1 = omega (arith, less_c) in
      let within : (j : ℕ) → MapUsed m'.c j → Without (MapUsed m.c) i j =
        λ j (lo, hi). ((lo, omega (arith, hi, less_c)), omega (arith, hi, less_c, last)) in
      shorter-MapValid m' less_c refl refl refl refl
        (λ j (lo, hi).
          let apart : (j == i) ≡ false = ground (arith, hi, less_c, last) in sym (if_no _ apart))
        (subst (λ n. Both m' (MapUsed m'.c) n hk' hv') count
          (Both-same both m' (MapUsed m'.c) refl refl (omega (arith, slots))
            (λ j ((lo, hi), ne). (lo, omega (arith, hi, ne, less_c, last))) within
            (λ b j u.
              get_from_entry_index-used m' b j u
              ∙ sym (get_from_entry_index-used m b j (within j u).0))))

  abbrev pub last_entry : MapEntry
  last_entry = entry_at m (m.c - 1)

  abbrev pub replaced : ObMap
  replaced = set_entry m i last_entry

  module _ (inner : i < m.c - 1) where
    entry_at-replaced :
        (j : ℕ) → j < m.c → entry_at replaced j ≡ (if j == i then last_entry else entry_at m j)
    entry_at-replaced j lt = elim (eq-or j i) [
      | inl e ↦
          let same : (j == i) ≡ true = ground (arith, e) in
          ap (entry_at replaced) e
          ∙ entry_at-set_same m i last_entry (full-is_stored m i (valid.full i used))
          ∙ sym (if_yes _ same)
      | inr ne ↦
          let apart : (j == i) ≡ false = ground (arith, ne) in
          entry_at-set_other m i j last_entry (omega (arith, inner, valid.sized.max_c))
            (omega (arith, lt, valid.sized.max_c)) ne
          ∙ sym (if_no _ apart)
    ]

    -- The indices that both tables hold without the removed and the last entry.
    abbrev pub Rest : ℕ → Type 0
    Rest = Without (Without (MapUsed m.c) i) (m.c - 1)

    pub second_unhashed :
        (hk hv : Table)
        → Both m (Without (MapUsed m.c) i) (m.c - 2) hk hv
        → (hk' : Table) × (hv' : Table) × (unhash (with_both m hk hv) last_entry (m.c - 1)
            ≡ some (with_both m hk' hv'))
          × Both m Rest (m.c - 3) hk' hv'
    second_unhashed hk hv both =
        let count : m.c - 2 ≡ suc (m.c - 3) = let (lo, hi) = used in omega (arith, inner, lo) in
        let before = subst (λ n. Both m (Without (MapUsed m.c) i) n hk hv) count both in
        unhash-Both before (omega (arith, slots, count)) (m.c - 1)
          ((omega (arith, some_entry), omega (arith, some_entry)), omega (arith, inner)) last_entry
          (λ b.
            get_from_entry_index-used m b (m.c - 1)
              (omega (arith, some_entry), omega (arith, some_entry)))

    pub replaced-Both :
        (hk hv : Table) → Both m Rest (m.c - 3) hk hv → Both replaced Rest (m.c - 3) hk hv
    replaced-Both hk hv both =
        Both-same both replaced Rest refl refl (omega (arith, slots)) (λ j q. q) (λ j q. q)
          (λ b j ((u, ne), _).
            let apart : (j == i) ≡ false = ground (arith, ne) in
            get_from_entry_index-used replaced b j u
            ∙ ap (part b) (entry_at-replaced j u.1 ∙ if_no _ apart)
            ∙ sym (get_from_entry_index-used m b j u))

    pub take_inner :
        (hk hv hk' hv' : Table)
        → Both replaced (With Rest i) (suc (m.c - 3)) hk' hv'
        → Takes m i (record (with_both replaced hk' hv') { c = sub32 m.c 1 })
    take_inner hk hv hk' hv' both =
        let (lo, hi) = used in
        let m' : ObMap = record (with_both replaced hk' hv') { c = sub32 m.c 1 } in
        let count : suc (m.c - 3) ≡ sub32 m.c 1 - 1 = omega (arith, less_c, inner, lo) in
        shorter-MapValid m' less_c refl refl refl refl
          (λ j (lj, hj). entry_at-replaced j (omega (arith, hj, less_c)))
          (subst (λ n. Both m' (MapUsed m'.c) n hk' hv') count
            (Both-same both m' (MapUsed m'.c) refl refl (omega (arith, slots))
              (λ j. elim [
                | inl (((lj, hj), _), ne) ↦ (lj, omega (arith, hj, ne, less_c))
                | inr e ↦ (omega (arith, e, lo), omega (arith, e, inner, less_c))
              ])
              (λ j (lj, hj). elim (eq-or j i) [
                | inl e ↦ inr e
                | inr ne ↦ inl (((lj, omega (arith, hj, less_c)), ne), omega (arith, hj, less_c))
              ])
              (λ b j u.
                let u' : MapUsed m.c j = (u.0, omega (arith, u.1, less_c)) in
                get_from_entry_index-used m' b j u
                ∙ sym (get_from_entry_index-used replaced b j u'))))
