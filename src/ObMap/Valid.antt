-- ===== src/ObMap/Valid.antt =====
-- leechcore/ob/ob_map.c: the valid states of the map.
use leech_core.Base.{
  three_same, three_same_refl, ℕ, ◌-◌, ◌*◌, ◌%◌, ◌≤◌, ◌<◌, ◌≡◌, ◌≢◌, ◌⊎◌, inl, inr, refl, ◌∙◌, ap,
  ap₂, sym, arith, Bool, true, false, Bool-cases, ◌&&◌, ◌==◌, leb, some, if◌then◌else◌,
}
use leech_core.Probe.{Table}
use leech_core.Probe.Paths.{Holds, Holds-same}
use leech_core.ObSet.{hash_function}
use leech_core.ObMap.{
  MapEntry, ObMap, is_stored, null_entry, map_capacity, map_directory, map_table, map_store,
  entry_at, set_entry, part, part_or_zero, get_from_index, get_from_entry_index, map_hashing,
  is_hashed,
}
use leech_core.ObMap.Both.{Both, if_yes, if_no}

-- The indices in use below the count.
abbrev pub MapUsed : ℕ → ℕ → Type 0
MapUsed c i = (1 ≤ i) × (i < c)

pub record MapSized (m : ObMap) : Type 0 where
  pub some_c : 1 ≤ m.c
  pub max_c : m.c ≤ map_capacity
  pub below : m.c ≤ m.c_hash_grow_threshold
  pub ratio : m.c_hash_grow_threshold * 4 ≡ m.c_hash_max * 3
  pub few : m.c_hash_grow_threshold < 0x400_0000
  pub small : (m.large ≡ true) ⊎ (m.c_hash_grow_threshold ≡ 0xc0)

pub record MapValid (m : ObMap) : Type 0 where
  pub sized : MapSized m
  pub full : (i : ℕ) → MapUsed m.c i → (entry_at m i).v ≢ 0
  pub once :
      (b : Bool)
      → is_hashed m b ≡ true
      → (i j : ℕ) → MapUsed m.c i
      → MapUsed m.c j
      → part b (entry_at m i) ≡ part b (entry_at m j)
      → i ≡ j
  pub both : Both m (MapUsed m.c) (m.c - 1) m.hash_key m.hash_value

pub get_from_index-used :
    (m : ObMap) (i : ℕ) → MapUsed m.c i → get_from_index m i ≡ some (entry_at m i)
unfolding get_from_index
get_from_index-used m i (lo, hi) =
    let used : (i == 0) ≡ false = ground (arith, lo) in
    let inside : leb m.c i ≡ false = ground (arith, hi) in rw used (rw inside refl)

pub get_from_entry_index-used :
    (m : ObMap) (b : Bool) (i : ℕ)
    → MapUsed m.c i
    → get_from_entry_index m b i ≡ part b (entry_at m i)
unfolding get_from_entry_index
get_from_entry_index-used m b i used = ap (part_or_zero b) (get_from_index-used m i used)

-- The tables of another map with the same entries at the indices of the tables.
pub Both-same :
    {m : ObMap} {Q : ℕ → Type 0} {n : ℕ} {hk hv : Table}
    → Both m Q n hk hv
    → (m' : ObMap) (Q' : ℕ → Type 0) → m'.c_hash_max ≡ m.c_hash_max
    → m'.has_key ≡ m.has_key
    → 0 < m.c_hash_max
    → ((i : ℕ) → Q i → Q' i)
    → ((i : ℕ) → Q' i → Q i)
    → ((b : Bool) (i : ℕ) → Q' i → get_from_entry_index m' b i ≡ get_from_entry_index m b i)
    → Both m' Q' n hk hv
unfolding map_hashing
Both-same {m} {Q} {n} {hk} {hv} both m' Q' size key positive to from same =
    let one : (b : Bool) (t : Table)
        → Holds (map_hashing m b) Q n t
        → Holds (map_hashing m' b) Q' n t =
      λ b t held.
        Holds-same held (map_hashing m' b) Q' size to from
          (λ i q. record { within = omega (arith, positive, size); inserts = refl; cast = refl })
          (λ i q. ap₂ (λ x k. hash_function x % k) (same b i q) size) in
    record {
      by_key = λ y. one false hk (both.by_key (sym key ∙ y));
      by_value = one true hv both.by_value;
    }

map_digits :
    (i j : ℕ)
    → i < map_capacity
    → j < map_capacity
    → map_directory j ≡ map_directory i
    → map_table j ≡ map_table i
    → map_store j ≡ map_store i
    → j ≡ i
map_digits i j li lj d t o = omega arith

-- An entry with an object is read through pointers that are set.
pub full-is_stored : (m : ObMap) (i : ℕ) → (entry_at m i).v ≢ 0 → is_stored m i ≡ true
full-is_stored m i full = elim (Bool-cases (is_stored m i)) [
  | inl h ↦ h
  | inr h ↦ absurd (full (ap (λ (e : MapEntry). e.v) (if_no _ h)))
]

pub entry_at-set_same :
    (m : ObMap) (i : ℕ) (e : MapEntry) → is_stored m i ≡ true → entry_at (set_entry m i e) i ≡ e
entry_at-set_same m i e h =
    if_yes _ h ∙ if_yes _ (three_same_refl (map_directory i) (map_table i) (map_store i))

pub entry_at-set_other :
    (m : ObMap) (i j : ℕ) (e : MapEntry)
    → i < map_capacity
    → j < map_capacity
    → j ≢ i
    → entry_at (set_entry m i e) j ≡ entry_at m j
entry_at-set_other m i j e li lj ne =
    elim (Bool-cases (
      (map_directory j == map_directory i)
      && ((map_table j == map_table i) && (map_store j == map_store i)))) [
        | inl h ↦
            let (d, t, o) = three_same _ _ _ _ _ _ h in absurd (ne (map_digits i j li lj d t o))
        | inr h ↦ ap (λ x. if is_stored m j then x else null_entry) (if_no _ h)
      ]
