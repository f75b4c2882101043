-- ===== src/ObMap/Calls.antt =====
-- leechcore/ob/ob_map.c: sequences of calls on the map.
use leech_core.Base.{
  some_inj, ℕ, ◌≤◌, ◌<◌, ◌≡◌, ◌⊎◌, inl, inr, refl, ◌∙◌, ap, sym, subst, arith, true, true≢false,
  Bool, Bool-cases, none, some, List, ◌==◌, leb, lt→ltb,
}
use leech_core.Probe.Paths.{Holds-empty}
use leech_core.ObSet.{Allocations}
use leech_core.ObMap.{
  MapEntry, ObMap, Touch, empty_map, entry_at, get_from_index, get_from_entry_index, map_hashing,
  map_exists,
}
use leech_core.ObMap.Change.{Removal, remove_entry, map_push, map_clear}
use leech_core.ObMap.Valid.{MapValid}
use leech_core.ObMap.Taken.{remove_entry-Takes}
use leech_core.ObMap.Search.{map_exists-member}
use leech_core.ObMap.Putting.{map_push-Puts, empty_map-MapValid}

pub map_clear-MapValid : {m : ObMap} → MapValid m → MapValid (map_clear m).0
unfolding map_clear map_hashing get_from_entry_index get_from_index
map_clear-MapValid {m} valid = elim (Bool-cases (leb m.c 1)) [
  | inl e ↦ rw e valid
  | inr e ↦ rw e (record {
    sized = record {
      some_c = omega arith;
      max_c = omega arith;
      below = omega (arith, valid.sized.some_c, valid.sized.below);
      ratio = valid.sized.ratio;
      few = valid.sized.few;
      small = valid.sized.small;
    };
    full = λ i (lo, hi). absurd (omega (arith, lo, hi));
    once = λ b y i j (lo, hi). absurd (omega (arith, lo, hi));
    both = record {
      by_key = λ _.
          Holds-empty _ _ _ (λ i (lo, hi). omega (arith, lo, hi))
            (λ s lt. rw (lt→ltb s m.c_hash_max lt) refl);
      by_value =
          Holds-empty _ _ _ (λ i (lo, hi). omega (arith, lo, hi))
            (λ s lt. rw (lt→ltb s m.c_hash_max lt) refl);
    };
  })
]

-- The removal at an index that is not in use does nothing.
remove_entry-unused : (m : ObMap) (i : ℕ) → (i ≡ 0) ⊎ (m.c ≤ i) → remove_entry m i ≡ some (none, m)
unfolding remove_entry get_from_index
remove_entry-unused m i out = elim out [
  | inl e ↦ let z : (i == 0) ≡ true = ground (arith, e) in rw z refl
  | inr le ↦ elim (Bool-cases (i == 0)) [
    | inl z ↦ rw z refl
    | inr z ↦ let past : leb m.c i ≡ true = ground (arith, le) in rw z (rw past refl)
  ]
]

-- A removal at any index ends, and keeps the map valid.
remove_entry-MapValid :
    {m : ObMap} → MapValid m → (i : ℕ) → (r : Removal) × (remove_entry m i ≡ some r) × MapValid r.1
remove_entry-MapValid {m} valid i =
    let low : (i ≡ 0) ⊎ (1 ≤ i) = omega arith in
    let high : (m.c ≤ i) ⊎ (i < m.c) = omega arith in
    elim low [
      | inl zero_index ↦ ((none, m), remove_entry-unused m i (inl zero_index), valid)
      | inr lo ↦ elim high [
        | inl past ↦ ((none, m), remove_entry-unused m i (inr past), valid)
        | inr hi ↦
            let (m', it, takes) = remove_entry-Takes valid i (lo, hi) in
            ((some (entry_at m i), m'), it, takes.valid)
      ]
    ]

-- The maps that `ObMap_New`, successful pushes, removals and clearings lead to.
pub data MapCalls : ObMap → Type 0 where
  map_created :
      (object_ob object_local_free no_key : Bool)
      → MapCalls (empty_map object_ob object_local_free no_key)
  map_pushed :
      (growing a : Allocations) (m m' : ObMap) (e : MapEntry) (ts : List Touch)
      → MapCalls m
      → map_push growing a m e ≡ some (true, m', ts)
      → MapCalls m'
  map_removed :
      (m : ObMap) (i : ℕ) (r : Removal) → MapCalls m → remove_entry m i ≡ some r → MapCalls r.1
  map_cleared : (m : ObMap) → MapCalls m → MapCalls (map_clear m).0

pub push_true :
    (growing a : Allocations) {m : ObMap}
    → MapValid m
    → (e : MapEntry) (m' : ObMap) (ts : List Touch) → map_push growing a m e ≡ some (true, m', ts)
    → MapValid m'
push_true growing a valid e m' ts it =
    let (p, it', outcome) = map_push-Puts growing a valid e in
    let same = some_inj p (true, m', ts) (sym it' ∙ it) in
    let ok : p.0 ≡ true = ap (λ (q : Bool × ObMap × List Touch). q.0) same in
    elim outcome [
      | inl (_, none_pushed) ↦
          absurd (true≢false (sym ok ∙ ap (λ (q : Bool × ObMap × List Touch). q.0) none_pushed))
      | inr (_, _, _, inl (inl (_, puts))) ↦
          subst (λ (q : Bool × ObMap × List Touch). MapValid q.1) same puts.valid
      | inr (_, _, _, inl (inr (refused, _))) ↦ absurd (true≢false (sym ok ∙ refused))
      | inr (_, _, _, inr (refused, _)) ↦ absurd (true≢false (sym ok ∙ refused))
    ]

MapCalls-MapValid : (m : ObMap) → MapCalls m → MapValid m
MapCalls-MapValid _ (map_created x y z) = empty_map-MapValid x y z
MapCalls-MapValid _ (map_pushed growing a m m' e ts calls it) =
    push_true growing a (MapCalls-MapValid m calls) e m' ts it
MapCalls-MapValid _ (map_removed m i r calls it) =
    let (r', it', valid) = remove_entry-MapValid (MapCalls-MapValid m calls) i in
    subst (λ (q : Removal). MapValid q.1) (some_inj r' r (sym it' ∙ it)) valid
MapCalls-MapValid _ (map_cleared m calls) = map_clear-MapValid (MapCalls-MapValid m calls)

-- After any successful pushes, removals and clearings of a new map, the map is valid, and each push,
-- each removal and each test of an object ends.
pub MapCalls-end :
    (m : ObMap)
    → MapCalls m
    → MapValid m
      × ((growing a : Allocations) (e : MapEntry)
          → (p : Bool × ObMap × List Touch) × (map_push growing a m e ≡ some p))
      × ((i : ℕ) → (r : Removal) × (remove_entry m i ≡ some r))
      × ((v : ℕ) → (b : Bool) × (map_exists m true v ≡ some b))
MapCalls-end m calls =
    let valid = MapCalls-MapValid m calls in
    (
      valid,
      λ growing a e. let (p, it, _) = map_push-Puts growing a valid e in (p, it),
      λ i. let (r, it, _) = remove_entry-MapValid valid i in (r, it),
      λ v. (_, map_exists-member valid true refl v),
    )
