-- ===== src/ObMap/Pointers.antt =====
-- leechcore/ob/ob_map.c: the pointers to tables and stores, through which the entries are read: their
-- allocation keeps the entries, and a failed growth of a small map loses them.
use leech_core.Base.{
  ap₂, true≢false, ℕ, ◌<◌, ◌≡◌, inl, inr, refl, ◌∙◌, ap, sym, arith, Bool, true, false, Bool-cases,
  not, ◌&&◌, ◌==◌, if◌then◌else◌,
}
use leech_core.ObSet.{Allocations}
use leech_core.ObMap.{
  MapEntry, ObMap, is_stored, null_entry, map_directory, map_table, entry_at, part,
}
use leech_core.ObMap.Both.{if_yes, if_no}
use leech_core.ObMap.Valid.{MapValid, MapUsed, Both-same, full-is_stored, get_from_entry_index-used}
use leech_core.ObMap.Put.{MapOpen}

-- A valid map with the same entries.
pub record Keeps (m m' : ObMap) : Type 0 where
  pub valid : MapValid m'
  pub count : m'.c ≡ m.c
  pub same : (j : ℕ) → MapUsed m.c j → entry_at m' j ≡ entry_at m j

-- The growth of a small map got its new hash tables and no table for the directory: no entry is
-- reached any more.
pub record Loses (growing : Allocations) (m m' : ObMap) : Type 0 where
  pub small : m.large ≡ false
  pub edge : m.c ≡ m.c_hash_grow_threshold
  pub hashed : growing.new_hash_map ≡ true
  pub refused : growing.new_table ≡ false
  pub count : m'.c ≡ m.c
  pub gone : (j : ℕ) → MapUsed m.c j → (is_stored m' j ≡ false) × (entry_at m' j ≡ null_entry)

not-true : (b : Bool) → not b ≡ true → b ≡ false
not-true true h = sym h
not-true false h = refl

pub not-false : (b : Bool) → not b ≡ false → b ≡ true
not-false true h = refl
not-false false h = sym h

eq_of_test : (a b : ℕ) → (a == b) ≡ true → a ≡ b
eq_of_test a b h = ground (arith, h)

pub ==-refl : (d : ℕ) → (d == d) ≡ true
==-refl d = ground arith

pub two_same_refl : (d t : ℕ) → ((d == d) && (t == t)) ≡ true
two_same_refl d t = ground arith

and_parts : (b c : Bool) → (b && c) ≡ true → (b ≡ true) × (c ≡ true)
and_parts true c h = (refl, h)
and_parts false c h = absurd (true≢false (sym h))

-- The map with other pointers, which still reach the entries.
module _ {m : ObMap} (valid : MapValid m) (tables : ℕ → Bool) (stores : ℕ → ℕ → Bool)
    (reach : (j : ℕ)
      → MapUsed m.c j
      → (tables (map_directory j) && stores (map_directory j) (map_table j)) ≡ true) where
  abbrev pub with_pointers : ObMap
  with_pointers = record m { tables = tables; stores = stores }

  entry_at-pointers : (j : ℕ) → MapUsed m.c j → entry_at with_pointers j ≡ entry_at m j
  entry_at-pointers j u =
      if_yes _ (reach j u) ∙ sym (if_yes _ (full-is_stored m j (valid.full j u)))

  pointers-MapValid : MapValid with_pointers
  pointers-MapValid = record {
    sized = record {
      some_c = valid.sized.some_c;
      max_c = valid.sized.max_c;
      below = valid.sized.below;
      ratio = valid.sized.ratio;
      few = valid.sized.few;
      small = valid.sized.small;
    };
    full = λ j u z. valid.full j u (sym (ap (λ (x : MapEntry). x.v) (entry_at-pointers j u)) ∙ z);
    once = λ b y i j u u' same.
        valid.once b y i j u u'
          (sym (ap (part b) (entry_at-pointers i u)) ∙ same ∙ ap (part b) (entry_at-pointers j u'));
    both =
        Both-same valid.both with_pointers (MapUsed m.c) refl refl
          (omega (arith, valid.sized.below, valid.sized.some_c, valid.sized.ratio)) (λ j q. q)
          (λ j q. q)
          (λ b j u.
            get_from_entry_index-used with_pointers b j u
            ∙ ap (part b) (entry_at-pointers j u)
            ∙ sym (get_from_entry_index-used m b j u));
  }

  pub pointers-Keeps : Keeps m with_pointers
  pointers-Keeps = record { valid = pointers-MapValid; count = refl; same = entry_at-pointers }

  pub pointers-MapOpen : {e : MapEntry} → MapOpen m e → MapOpen with_pointers e
  pointers-MapOpen o = record {
    valid = pointers-MapValid;
    room = o.room;
    below = o.below;
    full = o.full;
    new = λ b y i u same. o.new b y i u (same ∙ ap (part b) (entry_at-pointers i u));
  }

-- The pointers after the allocation of a store, and after that of a table.
module _ {m : ObMap} (valid : MapValid m) (d : ℕ) where
  pub store-reach :
      (t j : ℕ)
      → MapUsed m.c j
      → (m.tables (map_directory j)
          && (if (map_directory j == d) && (map_table j == t)
              then true
              else m.stores (map_directory j) (map_table j)))
        ≡ true
  store-reach t j u =
      let (has_table, has_store) = and_parts _ _ (full-is_stored m j (valid.full j u)) in
      let there : (if (map_directory j == d) && (map_table j == t)
            then true
            else m.stores (map_directory j) (map_table j))
          ≡ true =
        elim (Bool-cases ((map_directory j == d) && (map_table j == t))) [
          | inl h ↦ if_yes _ h
          | inr h ↦ if_no _ h ∙ has_store
        ] in
      ap₂ (λ (x y : Bool). x && y) has_table there

  pub table-reach :
      m.tables d ≡ false
      → (j : ℕ) → MapUsed m.c j
      → ((if map_directory j == d then true else m.tables (map_directory j))
          && (if map_directory j == d then false else m.stores (map_directory j) (map_table j)))
        ≡ true
  table-reach none_there j u =
      let stored = full-is_stored m j (valid.full j u) in
      let (has_table, _) = and_parts _ _ stored in
      elim (Bool-cases (map_directory j == d)) [
        | inl h ↦
            let same : map_directory j ≡ d = eq_of_test (map_directory j) d h in
            absurd (true≢false (sym has_table ∙ ap m.tables same ∙ none_there))
        | inr h ↦ ap₂ (λ (x y : Bool). x && y) (if_no _ h) (if_no _ h) ∙ stored
      ]

pub unchanged : {m : ObMap} → MapValid m → Keeps m m
unchanged valid = record { valid = valid; count = refl; same = λ j u. refl }

-- The growth that fails on the directory's table.
pub growth_lost :
    (growing : Allocations) {m : ObMap}
    → MapValid m
    → m.c ≡ m.c_hash_grow_threshold
    → growing.new_hash_map ≡ true
    → (not m.large && not growing.new_table) ≡ true
    → Loses growing m (record m { tables = λ d. if d == 0 then false else m.tables d })
growth_lost growing {m} valid edge hashed failed =
    let (not_large, refused) = and_parts _ _ failed in
    let tables : ℕ → Bool = λ d. if d == 0 then false else m.tables d in
    let small : m.large ≡ false = not-true m.large not_large in
    let unreached : (j : ℕ)
        → MapUsed m.c j
        → (tables (map_directory j) && m.stores (map_directory j) (map_table j)) ≡ false =
      λ j (lo, hi).
        let few : j < 0xc0 = elim valid.sized.small [
          | inl y ↦ absurd (true≢false (sym y ∙ small))
          | inr e ↦ omega (arith, e, hi, valid.sized.below)
        ] in
        let first : (map_directory j == 0) ≡ true = ground (arith, few) in
        ap (λ b. b && m.stores (map_directory j) (map_table j)) (if_yes _ first) in
    record {
      small = small;
      edge = edge;
      hashed = hashed;
      refused = not-true growing.new_table refused;
      count = refl;
      gone = λ j u. (unreached j u, if_no _ (unreached j u));
    }
