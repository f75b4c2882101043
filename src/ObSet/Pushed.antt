-- ===== src/ObSet/Pushed.antt =====
-- leechcore/ob/ob_set.c: every push of a value, on all of its ways out.
use leech_core.Base.{
  ℕ, ◌<◌, ◌≡◌, ◌≢◌, ◌⊎◌, inl, inr, refl, ◌∙◌, subst, arith, Bool, true, false, Bool-cases, ◌==◌,
  some, List, [], ◌∷◌, ◌++◌,
}
use leech_core.ObSet.{
  ObSet, Allocations, max_capacity, get_value, hashing, grow, index_directory, index_table,
}
use leech_core.ObSet.Push.{
  with_table, with_store, push_value, push_store, push_table, push_new, push,
}
use leech_core.ObSet.Valid.{IsValid, InUse}
use leech_core.ObSet.Elements.{elements, member, exists-member, member-no_index}
use leech_core.ObSet.Grow.{grow-IsValid, grow-elements, get_value-grow}
use leech_core.ObSet.Insert.{push_value-IsValid, push_value-elements}

-- Why a value that the set does not have can be refused.
abbrev pub Refuses : Allocations → ObSet → Type 0
Refuses a s =
    (s.c ≡ max_capacity)
    ⊎ ((a.new_hash_map ≡ false) ⊎ ((a.new_table ≡ false) ⊎ (a.new_store ≡ false)))

-- The value was put at the end of the list, or the list is as it was.
abbrev pub Appends : Type 0 → List ℕ → ℕ → Bool × ObSet → Type 0
Appends Reason xs v p =
    IsValid p.1
    × (((p.0 ≡ true) × (elements p.1 ≡ xs ++ (v ∷ [])))
        ⊎ ((p.0 ≡ false) × (elements p.1 ≡ xs) × Reason))

pointers-IsValid :
    {s : ObSet}
    → IsValid s
    → (tables : ℕ → Bool) (stores : ℕ → ℕ → Bool)
    → IsValid (record s { tables = tables; stores = stores })
unfolding get_value hashing
pointers-IsValid valid tables stores = record {
  sized = record {
    some_c = valid.sized.some_c;
    max_c = valid.sized.max_c;
    below = valid.sized.below;
    ratio = valid.sized.ratio;
    few = valid.sized.few;
    mode = valid.sized.mode;
  };
  nonzero = valid.nonzero;
  once = valid.once;
  hashed = valid.hashed;
}

-- A set that takes one more value.
record Open (s : ObSet) (v : ℕ) : Type 0 where
  pub valid : IsValid s
  pub room : s.c < max_capacity
  pub below : s.c < s.c_hash_grow_threshold
  pub new : (i : ℕ) → InUse s i → v ≢ get_value s i

pointers-Open :
    {s : ObSet} {v : ℕ}
    → Open s v
    → (tables : ℕ → Bool) (stores : ℕ → ℕ → Bool)
    → Open (record s { tables = tables; stores = stores }) v
unfolding get_value
pointers-Open o tables stores = record {
  valid = pointers-IsValid o.valid tables stores;
  room = o.room;
  below = o.below;
  new = o.new;
}

module _ (a : Allocations) (v : ℕ) (full : v ≢ 0) {Reason : Type 0} where
  push_value-Appends :
      {s : ObSet} → Open s v → Appends Reason (elements s) v (true, push_value s s.c v)
  push_value-Appends o = (
    push_value-IsValid o.valid o.room o.below v full o.new,
    inl (refl, push_value-elements o.valid o.room o.below v),
  )

  refused-Appends : {s : ObSet} → IsValid s → Reason → Appends Reason (elements s) v (false, s)
  refused-Appends valid why = (valid, inr (refl, refl, why))

  push_store-Appends :
      (s : ObSet)
      → Open s v
      → (a.new_store ≡ false → Reason)
      → Appends Reason (elements s) v (push_store a s s.c v)
  unfolding get_value elements
  push_store-Appends s o why =
      elim (Bool-cases (s.stores (index_directory s.c) (index_table s.c))) [
        | inl e ↦ rw e (push_value-Appends o)
        | inr e ↦ rw e (elim (Bool-cases a.new_store) [
          | inl h ↦
              let o' =
                pointers-Open o s.tables
                  (with_store s (index_directory s.c) (index_table s.c)).stores in
              rw h (push_value-Appends o')
          | inr h ↦ rw h (refused-Appends o.valid (why h))
        ])
      ]

  push_table-Appends :
      (s : ObSet)
      → Open s v
      → (a.new_table ≡ false → Reason)
      → (a.new_store ≡ false → Reason)
      → Appends Reason (elements s) v (push_table a s s.c v)
  unfolding get_value elements
  push_table-Appends s o why_table why_store =
      let as_is = push_store-Appends s o why_store in
      let s' = with_table s (index_directory s.c) in
      elim (Bool-cases (index_directory s.c == 0)) [
        | inl e ↦ rw e as_is
        | inr e ↦ rw e (elim (Bool-cases (s.tables (index_directory s.c))) [
          | inl f ↦ rw f as_is
          | inr f ↦ rw f (elim (Bool-cases a.new_table) [
            | inl h ↦ rw h (push_store-Appends s' (pointers-Open o s'.tables s'.stores) why_store)
            | inr h ↦ rw h (refused-Appends o.valid (why_table h))
          ])
        ])
      ]

grow-Open :
    {s : ObSet} {v : ℕ}
    → IsValid s
    → s.c < max_capacity
    → s.c ≡ s.c_hash_grow_threshold
    → ((i : ℕ) → InUse s i → v ≢ get_value s i)
    → Open (grow s) v
unfolding grow
grow-Open {s} valid room edge new = record {
  valid = grow-IsValid valid (omega arith);
  room = room;
  below = omega (arith, valid.sized.some_c);
  new = λ i used w. new i used (w ∙ get_value-grow valid.sized i);
}

push_new-Appends :
    (a : Allocations) {s : ObSet} {Reason : Type 0}
    → IsValid s
    → (v : ℕ) → v ≢ 0
    → ((i : ℕ) → InUse s i → v ≢ get_value s i)
    → (Refuses a s → Reason)
    → Appends Reason (elements s) v (push_new a s v)
unfolding push_new grow
push_new-Appends a {s} {Reason} valid v full new why =
    let few = valid.sized.max_c in
    let why_table : a.new_table ≡ false → Reason = λ h. why (inr (inr (inl h))) in
    let why_store : a.new_store ≡ false → Reason = λ h. why (inr (inr (inr h))) in
    elim (Bool-cases (s.c == max_capacity)) [
      | inl e ↦ rw e (refused-Appends a v full valid (why (inl (ground (arith, e)))))
      | inr e ↦ rw e (
          let room : s.c < max_capacity = ground (arith, e, few) in
          elim (Bool-cases (s.c == s.c_hash_grow_threshold)) [
            | inl q ↦ rw q (
                let edge : s.c ≡ s.c_hash_grow_threshold = ground (arith, q) in
                let o = grow-Open valid room edge new in
                elim (Bool-cases a.new_hash_map) [
                  | inl h ↦ rw h (
                      subst (λ xs. Appends Reason xs v (push_table a (grow s) s.c v))
                        (grow-elements valid (omega (arith, edge, room)))
                        (push_table-Appends a v full (grow s) o why_table why_store))
                  | inr h ↦ rw h (refused-Appends a v full valid (why (inr (inl h))))
                ])
            | inr q ↦ rw q (
                push_table-Appends a v full s
                  (record {
                    valid = valid;
                    room = room;
                    below = ground (arith, q, valid.sized.below);
                    new = new;
                  })
                  why_table why_store)
          ])
    ]

-- The push of a value to a valid set ends, and keeps the set valid. The value 0 and an element are
-- refused, and the set is as it was. Every other value is put at the end of the elements, with the
-- result TRUE, or refused with the elements as they were, and that only at the maximal capacity or
-- when an allocation fails.
pub push-elements :
    (a : Allocations) {s : ObSet}
    → IsValid s
    → (v : ℕ)
    → (p : Bool × ObSet) × (push a s v ≡ some p)
      × ((((v ≡ 0) ⊎ (member v (elements s) ≡ true)) × (p ≡ (false, s)))
          ⊎ ((v ≢ 0) × (member v (elements s) ≡ false) × Appends (Refuses a s) (elements s) v p))
unfolding push
push-elements a {s} valid v = elim (Bool-cases (v == 0)) [
  | inl z ↦ rw z ((false, s), refl, inl (inl (ground (arith, z)), refl))
  | inr z ↦ rw z (
      rw (exists-member valid v) (elim (Bool-cases (member v (elements s))) [
        | inl e ↦ rw e ((false, s), refl, inl (inr refl, refl))
        | inr e ↦
            let full : v ≢ 0 = ground (arith, z) in
            rw e (
              push_new a s v,
              refl,
              inr (
                full,
                refl,
                push_new-Appends a valid v full (member-no_index valid v e) (λ r. r),
              ),
            )
      ]))
]
