-- ===== src/ObSet/Replace.antt =====
-- leechcore/ob/ob_set.c: a value of the set is replaced by a new one, as `_ObSet_Remove` does with the
-- removed value and the last one.
use leech_core.Base.{
  ℕ, suc, ◌-◌, ◌%◌, ◌<◌, ◌≡◌, ◌≢◌, ◌⊎◌, inl, inr, refl, ◌∙◌, ap, sym, subst, arith,
}
use leech_core.Probe.{clear_slot, insert}
use leech_core.Probe.Cycle.{eq-or}
use leech_core.Probe.Paths.{Live, Holds, Holds-same, insert-Holds}
use leech_core.Probe.Clear.{clear_slot-Holds}
use leech_core.ObSet.{ObSet, get_value, set_value, hashing, hash_function, remove_hash, insert_hash}
use leech_core.ObSet.Store.{get_value-set_same, get_value-set_other}
use leech_core.ObSet.Valid.{IsValid, InUse, Live-hashing, IsValid-room}
use leech_core.ObSet.Drop.{Fits-used}

-- The set with another value at the index.
pub record Replaces (s : ObSet) (i v : ℕ) (s' : ObSet) : Type 0 where
  pub valid : IsValid s'
  pub count : s'.c ≡ s.c
  pub here : get_value s' i ≡ v
  pub others : (j : ℕ) → InUse s j → j ≢ i → get_value s' j ≡ get_value s j

module _ {s : ObSet} (valid : IsValid s) (i : ℕ) (used : InUse s i) (v : ℕ) (full : v ≢ 0)
    (new : (j : ℕ) → InUse s j → v ≢ get_value s j) (slot : ℕ) (within : slot < s.c_hash_max)
    (at : s.hash_map slot ≡ i) where
  more : 1 < s.c
  more = let (lo, hi) = used in omega (arith, lo, hi)

  abbrev stored : ObSet
  stored = set_value s i v

  -- The set after the replacement.
  abbrev pub replaced : ObSet
  replaced = insert_hash (set_value (remove_hash s slot) i v) i

  stored-here : get_value stored i ≡ v
  stored-here = let (lo, hi) = used in get_value-set_same s i v lo hi

  stored-other : (j : ℕ) → InUse s j → j ≢ i → get_value stored j ≡ get_value s j
  stored-other j (lo, hi) ne =
      let (_, lt) = used in
      get_value-set_other s i j v (Fits-used valid more i lt) (Fits-used valid more j hi) ne

  stored-full : (j : ℕ) → InUse s j → get_value stored j ≢ 0
  stored-full j u z = elim (eq-or j i) [
    | inl e ↦ full (sym (ap (get_value stored) e ∙ stored-here) ∙ z)
    | inr ne ↦ valid.nonzero j u (sym (stored-other j u ne) ∙ z)
  ]

  stored-Live : (j : ℕ) → InUse s j → Live (hashing stored) j
  unfolding set_value
  stored-Live j u =
      let (_, hi) = u in
      let (_, mode) = Fits-used valid more j hi in
      Live-hashing stored j (omega (arith, IsValid-room valid)) (stored-full j u) mode

  -- Without the entry of the index, under the hashing of the new value.
  Holds-without :
      Holds
        (hashing stored)
        (λ j. InUse s j × (j ≢ s.hash_map slot))
        (s.c - 2)
        (clear_slot (hashing s) s.hash_map slot)
  unfolding hashing set_value
  Holds-without =
      let count : s.c - 1 ≡ suc (s.c - 2) = omega (arith, more) in
      let before = subst (λ n. Holds (hashing s) (InUse s) n s.hash_map) count valid.hashed in
      let room = IsValid-room valid in
      let (lo, _) = used in
      let cleared =
        clear_slot-Holds before (omega (arith, room, more)) slot within (omega (arith, at, lo))
          (hashing s) refl (λ j u ne. valid.hashed.live j u) (λ j u ne. refl) in
      Holds-same cleared (hashing stored) (λ j. InUse s j × (j ≢ s.hash_map slot)) refl (λ j q. q)
        (λ j q. q) (λ j (u, _). stored-Live j u)
        (λ j (u, ne).
          ap (λ x. hash_function x % s.c_hash_max) (stored-other j u (λ q. ne (q ∙ sym at))))

  Holds-replaced : Holds (hashing replaced) (InUse s) (s.c - 1) replaced.hash_map
  unfolding hashing set_value get_value
  Holds-replaced =
      let (lo, _) = used in
      let room = IsValid-room valid in
      let count : suc (s.c - 2) ≡ s.c - 1 = omega (arith, more) in
      let one =
        insert-Holds Holds-without (omega (arith, room)) i (stored-Live i used) (omega (arith, lo))
          (λ (_, ne). ne (sym at)) in
      Holds-same
        (subst
          (λ n.
            Holds (hashing stored) (λ j. (InUse s j × (j ≢ s.hash_map slot)) ⊎ (j ≡ i)) n
              (insert (hashing stored) (clear_slot (hashing s) s.hash_map slot) i))
          count one)
        (hashing replaced) (InUse s) refl
        (λ j. elim [ inl (u, _) ↦ u | inr e ↦ subst (InUse s) (sym e) used ])
        (λ j u. elim (eq-or j i) [ inl e ↦ inr e | inr ne ↦ inl (u, λ q. ne (q ∙ at)) ])
        (λ j u.
          let l = stored-Live j u in
          record { within = l.within; inserts = l.inserts; cast = l.cast })
        (λ j u. refl)

  stored-once : (j k : ℕ) → InUse s j → InUse s k → get_value stored j ≡ get_value stored k → j ≡ k
  stored-once j k uj uk same = elim (eq-or j i) [
    | inl e ↦ elim (eq-or k i) [
      | inl e' ↦ e ∙ sym e'
      | inr ne' ↦
          absurd
            (new k uk (sym (ap (get_value stored) e ∙ stored-here) ∙ same ∙ stored-other k uk ne'))
    ]
    | inr ne ↦ elim (eq-or k i) [
      | inl e' ↦ absurd (
          new j uj (sym (ap (get_value stored) e' ∙ stored-here) ∙ sym same ∙ stored-other j uj ne))
      | inr ne' ↦ valid.once j k uj uk (sym (stored-other j uj ne) ∙ same ∙ stored-other k uk ne')
    ]
  ]

  pub replaced-Replaces : Replaces s i v replaced
  unfolding set_value get_value
  replaced-Replaces = record {
    valid = record {
      sized = record {
        some_c = valid.sized.some_c;
        max_c = valid.sized.max_c;
        below = valid.sized.below;
        ratio = valid.sized.ratio;
        few = valid.sized.few;
        mode = valid.sized.mode;
      };
      nonzero = stored-full;
      once = stored-once;
      hashed = Holds-replaced;
    };
    count = refl;
    here = stored-here;
    others = stored-other;
  }
