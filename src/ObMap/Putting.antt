-- ===== src/ObMap/Putting.antt =====
-- leechcore/ob/ob_map.c: every push of an entry, on all of its ways out.
use leech_core.Base.{
  ℕ, ◌≡◌, ◌≢◌, ◌⊎◌, inl, inr, refl, ◌∙◌, ap, sym, arith, Bool, true, false, Bool-cases, true≢false,
  not, ◌&&◌, ◌||◌, ◌==◌, some, List, [],
}
use leech_core.Probe.Paths.{Holds-empty}
use leech_core.ObSet.{Allocations}
use leech_core.ObSet.Elements.{member}
use leech_core.ObMap.{
  MapEntry, ObMap, Touch, empty_map, entry_at, part, is_hashed, map_exists, get_from_index,
  get_from_entry_index, map_hashing,
}
use leech_core.ObMap.Change.{and_then, map_push_new, unless_key, unless_value, map_push}
use leech_core.ObMap.Both.{if_yes, if_no}
use leech_core.ObMap.Valid.{MapValid, MapUsed}
use leech_core.ObMap.Search.{parts, map_exists-member, parts-no_index}
use leech_core.ObMap.Ways.{PushEnds, new_pushed}

unkeyed : (m : ObMap) (key : ℕ) → m.has_key ≡ false → map_exists m false key ≡ some false
unfolding map_exists
unkeyed m key z = if_yes _ (ap (λ k. not k || (false && (key == 0))) z)

-- The result of the test of a key.
key_test :
    {m : ObMap}
    → MapValid m
    → (key : ℕ)
    → ((m.has_key ≡ true)
        × (member key (parts m false) ≡ true)
        × (map_exists m false key ≡ some true))
      ⊎ ((m.has_key ≡ true → member key (parts m false) ≡ false)
          × (map_exists m false key ≡ some false))
key_test {m} valid key = elim (Bool-cases m.has_key) [
  | inl y ↦
      let it = map_exists-member valid false y key in
      elim (Bool-cases (member key (parts m false))) [
        | inl e ↦ inl (y, e, it ∙ ap some e)
        | inr e ↦ inr (λ _. e, it ∙ ap some e)
      ]
  | inr z ↦ inr (λ y. absurd (true≢false (sym y ∙ z)), unkeyed m key z)
]

-- The push of an entry to a valid map ends. The object NULL, an object of the map, and a key of a map
-- with keys are refused, and the map is as it was. Every other entry is put behind the entries,
-- with the result TRUE and a valid map, or the result is FALSE and the map is a valid one with the same
-- entries, or the first growth found memory for its hash tables and none for the directory's table:
-- then the result is FALSE and no entry is reached any more.
pub map_push-Puts :
    (growing a : Allocations) {m : ObMap}
    → MapValid m
    → (e : MapEntry)
    → (p : Bool × ObMap × List Touch) × (map_push growing a m e ≡ some p)
      × ((((e.v ≡ 0)
              ⊎ ((member e.v (parts m true) ≡ true)
                  ⊎ ((m.has_key ≡ true) × (member e.k (parts m false) ≡ true))))
            × (p ≡ (false, m, [])))
          ⊎ ((e.v ≢ 0)
              × (member e.v (parts m true) ≡ false)
              × (m.has_key ≡ true → member e.k (parts m false) ≡ false)
              × PushEnds growing m e p))
unfolding map_push
map_push-Puts growing a {m} valid e = elim (Bool-cases (e.v == 0)) [
  | inl z ↦ ((false, m, []), if_yes _ z, inl (inl (ground (arith, z)), refl))
  | inr z ↦
      let full : e.v ≢ 0 = ground (arith, z) in
      let tested = map_exists-member valid true refl e.v in
      elim (Bool-cases (member e.v (parts m true))) [
        | inl there ↦ (
          (false, m, []),
          if_no _ z ∙ ap (λ o. and_then o (unless_value growing a m e)) (tested ∙ ap some there),
          inl (inr (inl there), refl),
        )
        | inr new ↦
            let start =
              if_no _ z
              ∙ ap (λ o. and_then o (unless_value growing a m e)) (tested ∙ ap some new) in
            elim (key_test valid e.k) [
              | inl (y, there, it) ↦ (
                (false, m, []),
                start ∙ ap (λ o. and_then o (unless_key growing a m e)) it,
                inl (inr (inr (y, there)), refl),
              )
              | inr (new_key, it) ↦
                  let fresh : (b : Bool)
                      → is_hashed m b ≡ true
                      → (i : ℕ) → MapUsed m.c i
                      → part b e ≢ part b (entry_at m i) =
                    λ b.
                      elim b
                        as (λ b.
                          is_hashed m b ≡ true
                          → (i : ℕ) → MapUsed m.c i
                          → part b e ≢ part b (entry_at m i)) [
                            | true ↦ λ y. parts-no_index valid true e.v new
                            | false ↦ λ y. parts-no_index valid false e.k (new_key y)
                          ] in
                  (
                    map_push_new growing a m e,
                    start ∙ ap (λ o. and_then o (unless_key growing a m e)) it,
                    inr (full, new, new_key, new_pushed a growing valid full fresh),
                  )
            ]
      ]
]

pub empty_map-MapValid :
    (object_ob object_local_free no_key : Bool)
    → MapValid (empty_map object_ob object_local_free no_key)
unfolding map_hashing get_from_entry_index get_from_index
empty_map-MapValid object_ob object_local_free no_key = record {
  sized = record {
    some_c = omega arith;
    max_c = omega arith;
    below = omega arith;
    ratio = refl;
    few = omega arith;
    small = inr refl;
  };
  full = λ i (lo, hi). absurd (omega (arith, lo, hi));
  once = λ b y i j (lo, hi). absurd (omega (arith, lo, hi));
  both = record {
    by_key = λ _. Holds-empty _ _ (λ _. 0) (λ i (lo, hi). omega (arith, lo, hi)) (λ _ _. refl);
    by_value = Holds-empty _ _ (λ _. 0) (λ i (lo, hi). omega (arith, lo, hi)) (λ _ _. refl);
  };
}
