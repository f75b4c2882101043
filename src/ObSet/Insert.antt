-- ===== src/ObSet/Insert.antt =====
-- leechcore/ob/ob_set.c: the insertion of a value keeps the set, and puts the value at the end.
use leech_core.Base.{
  ℕ, suc, ◌+◌, ◌-◌, ◌%◌, ◌≤◌, ◌<◌, ◌≡◌, ◌≢◌, ◌⊎◌, inl, inr, refl, ◌∙◌, ap, ap₂, sym, subst, arith,
  false, leb, tabulate, tabulate-same, tabulate_snoc, [], ◌∷◌, ◌++◌, add32,
}
use leech_core.Probe.{insert}
use leech_core.Probe.Paths.{Live, Holds, Holds-same, insert-Holds}
use leech_core.ObSet.{ObSet, max_capacity, get_value, set_value, hashing, hash_function}
use leech_core.ObSet.Push.{push_value}
use leech_core.ObSet.Store.{Fits, get_value-set_same, get_value-set_other}
use leech_core.ObSet.Valid.{IsValid, InUse, Live-hashing, IsValid-room}
use leech_core.ObSet.Elements.{elements}

-- The set with one more value counted, and stored.
abbrev stored : ObSet → ℕ → ObSet
stored s v = set_value (record s { c = add32 s.c 1 }) s.c v

module _ {s : ObSet} (valid : IsValid s) (room : s.c < max_capacity)
    (below : s.c < s.c_hash_grow_threshold) (v : ℕ) where
  more_c : add32 s.c 1 ≡ s.c + 1
  more_c = omega (arith, room)

  Fits-used : (i : ℕ) → i ≤ s.c → Fits s i
  Fits-used i le = (
    omega (arith, room, le),
    elim valid.sized.mode [
      | inl l ↦ inl l
      | inr small ↦ inr (omega (arith, le, below, valid.sized.ratio, small))
    ],
  )

  stored-same : get_value (stored s v) s.c ≡ v
  stored-same =
      get_value-set_same (record s { c = add32 s.c 1 }) s.c v valid.sized.some_c
        (omega (arith, more_c))

  stored-other : (i : ℕ) → InUse s i → get_value (stored s v) i ≡ get_value s i
  unfolding get_value
  stored-other i (lo, hi) =
      let apart =
        get_value-set_other (record s { c = add32 s.c 1 }) s.c i v (Fits-used s.c (omega arith))
          (Fits-used i (omega (arith, hi))) (omega (arith, hi)) in
      let before : leb (add32 s.c 1) i ≡ false = ground (arith, hi, more_c) in
      let before' : leb s.c i ≡ false = ground (arith, hi) in apart ∙ rw before (rw before' refl)

  stored-cases : (i : ℕ) → InUse (stored s v) i → InUse s i ⊎ (i ≡ s.c)
  unfolding set_value
  stored-cases i (lo, hi) =
      let side : (i < s.c) ⊎ (i ≡ s.c) = omega (arith, hi, more_c) in
      elim side [ inl lt ↦ inl (lo, lt) | inr e ↦ inr e ]

  stored-Live : v ≢ 0 → (i : ℕ) → InUse s i ⊎ (i ≡ s.c) → Live (hashing (stored s v)) i
  unfolding set_value
  stored-Live full i used =
      let positive : 0 < s.c_hash_max = omega (arith, below, valid.sized.ratio) in
      elim used [
        | inl u ↦
            let (_, lt) = u in
            let (_, mode) = Fits-used i (omega (arith, lt)) in
            Live-hashing (stored s v) i positive
              (λ z. valid.nonzero i u (sym (stored-other i u) ∙ z)) mode
        | inr e ↦
            let (_, mode) = Fits-used s.c (omega arith) in
            subst (Live (hashing (stored s v))) (sym e)
              (Live-hashing (stored s v) s.c positive (λ z. full (sym stored-same ∙ z)) mode)
      ]

  stored-Holds : v ≢ 0 → Holds (hashing (stored s v)) (InUse s) (s.c - 1) s.hash_map
  unfolding hashing set_value
  stored-Holds full =
      Holds-same valid.hashed (hashing (stored s v)) (InUse s) refl (λ i u. u) (λ i u. u)
        (λ i u. stored-Live full i (inl u))
        (λ i u. ap (λ x. hash_function x % s.c_hash_max) (stored-other i u))

  push_value-Holds :
      v ≢ 0
      → Holds
          (hashing (push_value s s.c v))
          (InUse (push_value s s.c v))
          ((push_value s s.c v).c - 1)
          (push_value s s.c v).hash_map
  unfolding hashing set_value get_value
  push_value-Holds full =
      let one =
        insert-Holds (stored-Holds full) (IsValid-room valid) s.c (stored-Live full s.c (inr refl))
          (omega (arith, valid.sized.some_c)) (λ (_, lt). omega (arith, lt)) in
      let count : suc (s.c - 1) ≡ add32 s.c 1 - 1 = omega (arith, more_c, valid.sized.some_c) in
      let back : (i : ℕ) → InUse (stored s v) i → InUse s i ⊎ (i ≡ s.c) = stored-cases in
      Holds-same
        (subst
          (λ n.
            Holds (hashing (stored s v)) (λ i. InUse s i ⊎ (i ≡ s.c)) n
              (insert (hashing (stored s v)) s.hash_map s.c))
          count one)
        (hashing (push_value s s.c v)) (InUse (push_value s s.c v)) refl
        (λ i. elim [
          | inl (lo, hi) ↦ (lo, omega (arith, hi, more_c))
          | inr e ↦ (omega (arith, e, valid.sized.some_c), omega (arith, e, more_c))
        ])
        back
        (λ i u.
          let l = stored-Live full i (back i u) in
          record { within = l.within; inserts = l.inserts; cast = l.cast })
        (λ i u. refl)

  pub push_value-IsValid :
      v ≢ 0 → ((i : ℕ) → InUse s i → v ≢ get_value s i) → IsValid (push_value s s.c v)
  unfolding set_value get_value
  push_value-IsValid full new =
      let at : (i : ℕ)
          → InUse (stored s v) i
          → (InUse s i × (get_value (stored s v) i ≡ get_value s i))
            ⊎ ((i ≡ s.c) × (get_value (stored s v) i ≡ v)) =
        λ i u. elim (stored-cases i u) [
          | inl u' ↦ inl (u', stored-other i u')
          | inr e ↦ inr (e, ap (get_value (stored s v)) e ∙ stored-same)
        ] in
      record {
        sized = record {
          some_c = omega (arith, more_c);
          max_c = omega (arith, more_c, room);
          below = omega (arith, more_c, below);
          ratio = valid.sized.ratio;
          few = valid.sized.few;
          mode = valid.sized.mode;
        };
        nonzero = λ i u z. elim (at i u) [
          | inl (u', e) ↦ valid.nonzero i u' (sym e ∙ z)
          | inr (_, e) ↦ full (sym e ∙ z)
        ];
        once = λ i j ui uj q. elim (at i ui) [
          | inl (u, e) ↦ elim (at j uj) [
            | inl (u', e') ↦ valid.once i j u u' (sym e ∙ q ∙ e')
            | inr (_, e') ↦ absurd (new i u (sym e' ∙ sym q ∙ e))
          ]
          | inr (c, e) ↦ elim (at j uj) [
            | inl (u', e') ↦ absurd (new j u' (sym e ∙ q ∙ e'))
            | inr (c', _) ↦ c ∙ sym c'
          ]
        ];
        hashed = push_value-Holds full;
      }

  pub push_value-elements : elements (push_value s s.c v) ≡ elements s ++ (v ∷ [])
  unfolding set_value get_value elements
  push_value-elements =
      let count : add32 s.c 1 - 1 ≡ suc (s.c - 1) = omega (arith, more_c, valid.sized.some_c) in
      let last : 1 + (s.c - 1) ≡ s.c = omega (arith, valid.sized.some_c) in
      ap (tabulate (get_value (stored s v)) 1) count
      ∙ tabulate_snoc (get_value (stored s v)) 1 (s.c - 1)
      ∙ ap₂ (λ xs x. xs ++ (x ∷ []))
          (tabulate-same (get_value (stored s v)) (get_value s) 1 (s.c - 1)
            (λ j lo hi. stored-other j (lo, omega (arith, hi, last))))
          (ap (get_value (stored s v)) last ∙ stored-same)
