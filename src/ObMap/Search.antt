-- ===== src/ObMap/Search.antt =====
-- leechcore/ob/ob_map.c: the search of an object or of a key.
use leech_core.Base.{
  ℕ, ◌-◌, ◌%◌, ◌<◌, ◌≡◌, ◌≢◌, ◌⊎◌, inl, inr, ◌∙◌, ap, sym, subst, arith, Bool, true, false,
  Bool-cases, not, ◌&&◌, ◌||◌, ◌==◌, if◌then◌else◌, some, List, [], ◌∷◌, tabulate,
}
use leech_core.Probe.{found, absent, seek}
use leech_core.Probe.Find.{seek-found, seek-absent}
use leech_core.Probe.Paths.{Holds}
use leech_core.ObSet.{hash_function, yes_or_no}
use leech_core.ObSet.Elements.{member, member_hit, member_miss}
use leech_core.ObMap.{
  ObMap, incref, entry_at, part, get_from_entry_index, map_hashing, hash_of, is_hashed,
  entry_index_of, map_exists, get_by_key, get_found, get_by_entry_index,
}
use leech_core.ObMap.Both.{if_yes, if_no}
use leech_core.ObMap.Valid.{MapValid, MapUsed, get_from_entry_index-used}

-- The objects or the keys of the entries in use.
unfoldable pub parts : ObMap → Bool → List ℕ
parts m b = tabulate (λ i. part b (entry_at m i)) 1 (m.c - 1)

module _ {m : ObMap} (valid : MapValid m) where
  table_of :
      (b : Bool)
      → is_hashed m b ≡ true
      → Holds (map_hashing m b) (MapUsed m.c) (m.c - 1) (hash_of m b)
  table_of true y = let both = valid.both in both.by_value
  table_of false y = let both = valid.both in both.by_key y

  free_slot : m.c - 1 < m.c_hash_max
  free_slot = omega (arith, valid.sized.some_c, valid.sized.below, valid.sized.ratio)

  pub entry_index_of-hit :
      (b : Bool)
      → is_hashed m b ≡ true
      → (i : ℕ) → MapUsed m.c i
      → (slot : ℕ) × (entry_index_of m b (part b (entry_at m i)) ≡ found i slot)
  unfolding entry_index_of map_hashing
  entry_index_of-hit b y i used =
      let at : (k : ℕ) → MapUsed m.c k → get_from_entry_index m b k ≡ part b (entry_at m k) =
        λ k u. get_from_entry_index-used m b k u in
      let kv = part b (entry_at m i) in
      let (slot, _, _, it) =
        seek-found (table_of b y) (λ k. kv == get_from_entry_index m b k) i used
          (ground (arith, at i used))
          (λ k u same. valid.once b y k i u used (ground (arith, same, at k u))) in
      (
        slot,
        if_yes _ y
            ∙ subst
                (λ x.
                  seek m.c_hash_max m.c_hash_max (hash_of m b)
                    (λ k. kv == get_from_entry_index m b k) (hash_function x % m.c_hash_max)
                  ≡ found i slot)
                (at i used) it,
      )

  pub entry_index_of-miss :
      (b : Bool)
      → is_hashed m b ≡ true
      → (kv : ℕ) → ((i : ℕ) → MapUsed m.c i → kv ≢ part b (entry_at m i))
      → entry_index_of m b kv ≡ absent
  unfolding entry_index_of map_hashing
  entry_index_of-miss b y kv other =
      if_yes _ y
      ∙ seek-absent (table_of b y) (λ k. kv == get_from_entry_index m b k) free_slot
          (λ k u. let ne = other k u in ground (arith, ne, get_from_entry_index-used m b k u))
          (hash_function kv % m.c_hash_max) (omega (arith, free_slot))

  pub parts-index :
      (b : Bool) (kv : ℕ)
      → member kv (parts m b) ≡ true
      → (i : ℕ) × MapUsed m.c i × (part b (entry_at m i) ≡ kv)
  unfolding parts
  parts-index b kv h =
      let (i, lo, hi, at) = member_hit (λ j. part b (entry_at m j)) kv 1 (m.c - 1) h in
      (i, (lo, omega (arith, hi, valid.sized.some_c)), at)

  pub parts-no_index :
      (b : Bool) (kv : ℕ)
      → member kv (parts m b) ≡ false
      → (i : ℕ) → MapUsed m.c i
      → kv ≢ part b (entry_at m i)
  unfolding parts
  parts-no_index b kv h i (lo, hi) =
      member_miss (λ j. part b (entry_at m j)) kv 1 (m.c - 1) h i lo (omega (arith, hi))

  searched-member :
      (b : Bool)
      → is_hashed m b ≡ true
      → (kv : ℕ) → yes_or_no (entry_index_of m b kv) ≡ some (member kv (parts m b))
  searched-member b y kv = elim (Bool-cases (member kv (parts m b))) [
    | inl e ↦
        let (i, used, at) = parts-index b kv e in
        let (slot, it) = entry_index_of-hit b y i used in
        ap (λ x. yes_or_no (entry_index_of m b x)) (sym at) ∙ ap yes_or_no it ∙ ap some (sym e)
    | inr e ↦ ap yes_or_no (entry_index_of-miss b y kv (parts-no_index b kv e)) ∙ ap some (sym e)
  ]

  no_null : member 0 (parts m true) ≡ false
  no_null = elim (Bool-cases (member 0 (parts m true))) [
    | inl e ↦ let (i, used, at) = parts-index true 0 e in absurd (valid.full i used at)
    | inr e ↦ e
  ]

  -- On a valid map the test of an object, and that of a key when the map has keys, ends and tells
  -- whether an entry has it.
  pub map_exists-member :
      (b : Bool)
      → is_hashed m b ≡ true
      → (kv : ℕ) → map_exists m b kv ≡ some (member kv (parts m b))
  unfolding map_exists
  map_exists-member true y kv = elim (Bool-cases (kv == 0)) [
    | inl e ↦
        let null : kv ≡ 0 = ground (arith, e) in
        rw e (ap some (sym (ap (λ x. member x (parts m true)) null ∙ no_null)))
    | inr e ↦ rw e (searched-member true y kv)
  ]
  map_exists-member false y kv =
      if_no _ (ap (λ k. not k || (false && (kv == 0))) y) ∙ searched-member false y kv

  -- The object of a key is that of the entry with the key. A key without an entry gives NULL.
  pub get_by_key-entry :
      m.has_key ≡ true
      → (key : ℕ)
      → ((member key (parts m false) ≡ false) × (get_by_key m key ≡ some (0, [])))
        ⊎ ((i : ℕ) × MapUsed m.c i
            × ((entry_at m i).k ≡ key)
            × (get_by_key m key
                ≡ some
                    ((entry_at m i).v, if m.objects_ob then incref (entry_at m i).v ∷ [] else [])))
  unfolding get_by_key get_by_entry_index
  get_by_key-entry y key = elim (Bool-cases (member key (parts m false))) [
    | inl e ↦
        let (i, used, at) = parts-index false key e in
        let (slot, it) = entry_index_of-hit false y i used in
        inr (
          i,
          used,
          at,
          ap (λ x. get_found m (λ j. j) (entry_index_of m false x)) (sym at)
              ∙ ap (get_found m (λ j. j)) it
              ∙ ap (λ v. some (v, if m.objects_ob then incref v ∷ [] else []))
                  (get_from_entry_index-used m true i used),
        )
    | inr e ↦ inl (
      e,
      ap (get_found m (λ j. j)) (entry_index_of-miss false y key (parts-no_index false key e)),
    )
  ]
