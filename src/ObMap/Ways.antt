-- ===== src/ObMap/Ways.antt =====
-- leechcore/ob/ob_map.c: the push of a new entry, with the growth and the allocations.
use leech_core.Base.{
  ap₂, ℕ, ◌+◌, ◌<◌, ◌≡◌, ◌≢◌, ◌⊎◌, inl, inr, refl, ◌∙◌, ap, sym, subst, arith, Bool, true, false,
  Bool-cases, not, ◌&&◌, ◌==◌, if◌then◌else◌, List,
}
use leech_core.ObSet.{Allocations}
use leech_core.ObMap.{
  MapEntry, ObMap, Touch, is_stored, map_capacity, map_directory, map_table, entry_at, part,
  is_hashed,
}
use leech_core.ObMap.Change.{
  map_grown, map_grow, after_growth, push_entry, map_push_store, map_push_table, map_push_new,
}
use leech_core.ObMap.Both.{with_both, if_yes, if_no}
use leech_core.ObMap.Pointers.{
  Keeps, Loses, not-false, ==-refl, two_same_refl, pointers-Keeps, pointers-MapOpen, store-reach,
  table-reach, unchanged, growth_lost,
}
use leech_core.ObMap.Valid.{MapValid, MapUsed}
use leech_core.ObMap.Put.{Puts, MapOpen, push_entry-Puts, grown-MapValid, entry_at-map_grown}

-- The entry was put behind the others, or the entries are as they were.
abbrev pub PutsOrKeeps : ObMap → MapEntry → Bool × ObMap × List Touch → Type 0
PutsOrKeeps m e p = ((p.0 ≡ true) × Puts m e p.1) ⊎ ((p.0 ≡ false) × Keeps m p.1)

-- The same, or the entries are lost.
abbrev pub PushEnds : Allocations → ObMap → MapEntry → Bool × ObMap × List Touch → Type 0
PushEnds growing m e p = PutsOrKeeps m e p ⊎ ((p.0 ≡ false) × Loses growing m p.1)

-- The same of a map with the same entries.
rebase :
    {m m2 : ObMap} {e : MapEntry} (p : Bool × ObMap × List Touch)
    → Keeps m m2
    → PutsOrKeeps m2 e p
    → PutsOrKeeps m e p
rebase {m} {m2} {e} p keeps outcome =
    let used : (j : ℕ) → MapUsed m.c j → MapUsed m2.c j =
      λ j (lo, hi). (lo, omega (arith, hi, keeps.count)) in
    elim outcome [
      | inl (y, puts) ↦ inl (
        y,
        record {
          valid = puts.valid;
          more = puts.more ∙ ap (λ c. c + 1) keeps.count;
          before = λ j u. puts.before j (used j u) ∙ keeps.same j u;
          last = ap (entry_at p.1) (sym keeps.count) ∙ puts.last;
        },
      )
      | inr (n, kept) ↦ inr (
        n,
        record {
          valid = kept.valid;
          count = kept.count ∙ keeps.count;
          same = λ j u. kept.same j (used j u) ∙ keeps.same j u;
        },
      )
    ]

module _ (a : Allocations) {e : MapEntry} where
  entry_pushed :
      {m : ObMap} → MapOpen m e → is_stored m m.c ≡ true → PutsOrKeeps m e (push_entry m m.c e)
  entry_pushed {m} o stored =
      let (m', it, puts) = push_entry-Puts o stored in inl (refl, subst (Puts m e) (sym it) puts)

  store_pushed :
      {m : ObMap}
      → MapOpen m e
      → m.tables (map_directory m.c) ≡ true
      → PutsOrKeeps m e (map_push_store a m m.c e)
  store_pushed {m} o has_table =
      let d = map_directory m.c in
      let t = map_table m.c in
      let stored : (s : Bool) → s ≡ true → (m.tables d && s) ≡ true =
        λ s h. ap₂ (λ (x y : Bool). x && y) has_table h in
      elim (Bool-cases (m.stores d t)) [
        | inl h ↦ subst (PutsOrKeeps m e) (sym (if_yes _ h)) (entry_pushed o (stored _ h))
        | inr h ↦ subst (PutsOrKeeps m e) (sym (if_no _ h)) (elim (Bool-cases a.new_store) [
          | inl g ↦
              let stores : ℕ → ℕ → Bool =
                λ d' t'. if (d' == d) && (t' == t) then true else m.stores d' t' in
              let reach = store-reach o.valid d t in
              let fresh : stores d t ≡ true = if_yes _ (two_same_refl d t) in
              subst (PutsOrKeeps m e) (sym (if_yes _ g)) (
                rebase (push_entry (record m { stores = stores }) m.c e)
                  (pointers-Keeps o.valid m.tables stores reach)
                  (entry_pushed (pointers-MapOpen o.valid m.tables stores reach o)
                    (stored _ fresh)))
          | inr g ↦ subst (PutsOrKeeps m e) (sym (if_no _ g)) (inr (refl, unchanged o.valid))
        ])
      ]

  table_pushed : {m : ObMap} → MapOpen m e → PutsOrKeeps m e (map_push_table a m m.c e)
  table_pushed {m} o =
      let d = map_directory m.c in
      elim (Bool-cases (m.tables d)) [
        | inl h ↦ subst (PutsOrKeeps m e) (sym (if_yes _ h)) (store_pushed o h)
        | inr h ↦ subst (PutsOrKeeps m e) (sym (if_no _ h)) (elim (Bool-cases a.new_table) [
          | inl g ↦
              let tables : ℕ → Bool = λ d'. if d' == d then true else m.tables d' in
              let stores : ℕ → ℕ → Bool = λ d' t. if d' == d then false else m.stores d' t in
              let reach = table-reach o.valid d h in
              subst (PutsOrKeeps m e) (sym (if_yes _ g)) (
                rebase (map_push_store a (record m { tables = tables; stores = stores }) m.c e)
                  (pointers-Keeps o.valid tables stores reach)
                  (store_pushed (pointers-MapOpen o.valid tables stores reach o)
                    (if_yes _ (==-refl d))))
          | inr g ↦ subst (PutsOrKeeps m e) (sym (if_no _ g)) (inr (refl, unchanged o.valid))
        ])
      ]

  grown_pushed :
      (growing : Allocations) {m : ObMap}
      → MapValid m
      → m.c < map_capacity
      → m.c ≡ m.c_hash_grow_threshold
      → e.v ≢ 0
      → ((b : Bool)
          → is_hashed m b ≡ true
          → (i : ℕ) → MapUsed m.c i
          → part b e ≢ part b (entry_at m i))
      → PushEnds growing m e (after_growth a e m.c (map_grow growing m))
  unfolding map_grow
  grown_pushed growing {m} valid room edge full new =
      let Fine : Bool × ObMap → Type 0 = λ p. PushEnds growing m e (after_growth a e m.c p) in
      elim (Bool-cases (not growing.new_hash_map)) [
        | inl h ↦ subst Fine (sym (if_yes _ h)) (inl (inr (refl, unchanged valid)))
        | inr h ↦
            subst Fine (sym (if_no _ h)) (elim (Bool-cases (not m.large && not growing.new_table)) [
              | inl g ↦
                  subst Fine (sym (if_yes _ g)) (
                    inr (refl, growth_lost growing valid edge (not-false growing.new_hash_map h) g))
              | inr g ↦
                  let (hk, hv, it, valid') = grown-MapValid valid (omega (arith, room, edge)) in
                  let m2 = with_both (map_grown m) hk hv in
                  let o : MapOpen m2 e = record {
                    valid = valid';
                    room = room;
                    below = omega (arith, room, edge, valid.sized.some_c);
                    full = full;
                    new = λ b y i u same.
                        new b y i u (same ∙ ap (part b) (entry_at-map_grown valid i u));
                  } in
                  let kept : Keeps m m2 = record {
                    valid = valid';
                    count = refl;
                    same = entry_at-map_grown valid;
                  } in
                  subst Fine (sym (if_no _ g)) (
                    subst (λ x. PushEnds growing m e (after_growth a e m.c (true, x))) (sym it)
                      (inl (rebase (map_push_table a m2 m2.c e) kept (table_pushed o))))
            ])
      ]

  pub new_pushed :
      (growing : Allocations) {m : ObMap}
      → MapValid m
      → e.v ≢ 0
      → ((b : Bool)
          → is_hashed m b ≡ true
          → (i : ℕ) → MapUsed m.c i
          → part b e ≢ part b (entry_at m i))
      → PushEnds growing m e (map_push_new growing a m e)
  new_pushed growing {m} valid full new =
      let Fine : Bool × ObMap × List Touch → Type 0 = PushEnds growing m e in
      let few = valid.sized.max_c in
      elim (Bool-cases (m.c == map_capacity)) [
        | inl h ↦ subst Fine (sym (if_yes _ h)) (inl (inr (refl, unchanged valid)))
        | inr h ↦
            let room : m.c < map_capacity = ground (arith, h, few) in
            subst Fine (sym (if_no _ h)) (elim (Bool-cases (m.c == m.c_hash_grow_threshold)) [
              | inl g ↦
                  subst Fine (sym (if_yes _ g))
                    (grown_pushed growing valid room (ground (arith, g)) full new)
              | inr g ↦ subst Fine (sym (if_no _ g)) (
                  inl (
                    table_pushed (record {
                      valid = valid;
                      room = room;
                      below = ground (arith, g, valid.sized.below);
                      full = full;
                      new = new;
                    })))
            ])
      ]
