-- ===== src/ObSet/Elements.antt =====
-- leechcore/ob/ob_set.c: the values of the set as a list, and the operations that read them.
use leech_core.Base.{
  ℕ, zero, suc, ◌+◌, ◌-◌, ◌%◌, ◌≤◌, ◌<◌, ◌≡◌, ◌≢◌, ◌⊎◌, inl, inr, refl, ◌∙◌, ap, sym, subst, arith,
  Bool, true, false, ◌||◌, Bool-cases, true≢false, ◌==◌, leb, some, List, [], ◌∷◌, ◌++◌,
  append_assoc, append-nil, tabulate, tabulate_snoc, length, length-tabulate, get_or,
  get_or-tabulate, get_or-beyond, dword, sub32,
}
use leech_core.ObSet.{
  ObSet, get_value, index_of, yes_or_no, exists, get, get_next, value_after, get_all, get_all_from,
  size, max_capacity,
}
use leech_core.ObSet.Valid.{IsValid, InUse, index_of-hit, index_of-miss}

-- The values, in the order of their indices.
unfoldable pub elements : ObSet → List ℕ
elements s = tabulate (get_value s) 1 (s.c - 1)

pub length-elements : (s : ObSet) → length (elements s) ≡ s.c - 1
unfolding elements
length-elements s = length-tabulate (get_value s) 1 (s.c - 1)

unfoldable pub member : ℕ → List ℕ → Bool
member v [] = false
member v (x ∷ xs) = (v == x) || member v xs

pub member_hit :
    (f : ℕ → ℕ) (v i k : ℕ)
    → member v (tabulate f i k) ≡ true
    → (j : ℕ) × (i ≤ j) × (j < i + k) × (f j ≡ v)
unfolding member
member_hit f v i zero h = absurd (true≢false (sym h))
member_hit f v i (suc k) h = elim (Bool-cases (v == f i)) [
  | inl e ↦ (i, omega arith, omega arith, ground (arith, e))
  | inr e ↦
      let (j, lo, hi, at) = member_hit f v (suc i) k (ground (arith, h, e)) in
      (j, omega arith, omega arith, at)
]

pub member_miss :
    (f : ℕ → ℕ) (v i k : ℕ)
    → member v (tabulate f i k) ≡ false
    → (j : ℕ) → i ≤ j
    → j < i + k
    → v ≢ f j
unfolding member
member_miss f v i zero h j lo hi = absurd (omega arith)
member_miss f v i (suc k) h j lo hi = elim (Bool-cases (v == f i)) [
  | inl e ↦ absurd (true≢false (ground (arith, h, e)))
  | inr e ↦
      let here : (j ≡ i) ⊎ (suc i ≤ j) = omega arith in
      elim here [
        | inl q ↦ λ w. true≢false (ground (arith, w, ap f q, e))
        | inr more ↦ member_miss f v (suc i) k (ground (arith, h, e)) j more (omega arith)
      ]
]

module _ {s : ObSet} (valid : IsValid s) (v : ℕ) where
  pub member-index : member v (elements s) ≡ true → (i : ℕ) × InUse s i × (get_value s i ≡ v)
  unfolding elements
  member-index h =
      let (i, lo, hi, at) = member_hit (get_value s) v 1 (s.c - 1) h in
      (i, (lo, omega (arith, hi, valid.sized.some_c)), at)

  pub member-no_index : member v (elements s) ≡ false → (i : ℕ) → InUse s i → v ≢ get_value s i
  unfolding elements
  member-no_index h i (lo, hi) = member_miss (get_value s) v 1 (s.c - 1) h i lo (omega arith)

  -- In a valid set the test of a value ends, and tells whether the value is among the elements.
  pub exists-member : exists s v ≡ some (member v (elements s))
  unfolding exists
  exists-member = elim (Bool-cases (member v (elements s))) [
    | inl e ↦
        let (i, used, at) = member-index e in
        let (slot, _, _, it) = index_of-hit valid i used in
        ap (λ x. yes_or_no (index_of s x)) (sym at) ∙ ap yes_or_no it ∙ ap some (sym e)
    | inr e ↦ ap yes_or_no (index_of-miss valid v (member-no_index e)) ∙ ap some (sym e)
  ]

get_all_from-tabulate :
    (s : ObSet) (k : ℕ) (rest : List ℕ) → get_all_from s k rest ≡ tabulate (get_value s) 1 k ++ rest
unfolding get_all_from
get_all_from-tabulate s zero rest = refl
get_all_from-tabulate s (suc k) rest =
    get_all_from-tabulate s k (get_value s (suc k) ∷ rest)
    ∙ sym (append_assoc (tabulate (get_value s) 1 k) (get_value s (suc k) ∷ []) rest)
    ∙ ap (λ xs. xs ++ rest)
        (ap (λ j. tabulate (get_value s) 1 k ++ (get_value s j ∷ [])) (omega arith)
          ∙ sym (tabulate_snoc (get_value s) 1 k))

module _ {s : ObSet} (valid : IsValid s) where
  count_of : sub32 s.c 1 ≡ s.c - 1
  count_of = omega (arith, valid.sized.some_c, valid.sized.max_c)

  -- The copy of all values is the list of the elements, as many as the size says.
  pub get_all-elements : (get_all s ≡ elements s) × (length (elements s) ≡ size s)
  unfolding get_all elements size
  get_all-elements = (
    ap (λ n. get_all_from s n []) count_of
        ∙ get_all_from-tabulate s (s.c - 1) []
        ∙ append-nil (tabulate (get_value s) 1 (s.c - 1)),
    length-elements s ∙ sym count_of,
  )

  value_at : (i : ℕ) → i < max_capacity → get_value s (i + 1) ≡ get_or (elements s) i 0
  unfolding elements get_value
  value_at i lt =
      let side : (i < s.c - 1) ⊎ (s.c - 1 ≤ i) = omega arith in
      elim side [
        | inl h ↦
            ap (get_value s) (omega arith) ∙ sym (get_or-tabulate (get_value s) 1 (s.c - 1) i 0 h)
        | inr h ↦
            let used : (i + 1 == 0) ≡ false = ground arith in
            let out : leb s.c (i + 1) ≡ true = ground (arith, h) in
            rw used (
              rw out (
                sym (
                  get_or-beyond (tabulate (get_value s) 1 (s.c - 1)) i 0
                    (omega (arith, length-tabulate (get_value s) 1 (s.c - 1), h)))))
      ]

  -- The value of an index is the element there, and 0 behind the last.
  pub get-elements : (index : ℕ) → index < max_capacity → get s index ≡ get_or (elements s) index 0
  unfolding get
  get-elements index lt = ap (get_value s) (omega arith) ∙ value_at index lt

  -- The iteration by value starts with the first element, and goes from each element to the next
  -- one, then to 0.
  pub get_next-elements :
      (get_next s 0 ≡ some (get_or (elements s) 0 0))
      × ((i : ℕ)
          → i < length (elements s)
          → get_next s (get_or (elements s) i 0) ≡ some (get_or (elements s) (i + 1) 0))
  unfolding get_next
  get_next-elements = (
    ap some (value_at 0 (omega arith)),
    λ i lt.
        let few : i + 1 < s.c = omega (arith, lt, length-elements s) in
        let used : InUse s (i + 1) = (omega arith, few) in
        let at = value_at i (omega (arith, few, valid.sized.max_c)) in
        let full : (get_value s (i + 1) == 0) ≡ false =
          ground (arith, valid.nonzero (i + 1) used) in
        let (slot, _, _, it) = index_of-hit valid (i + 1) used in
        let more : (i + 1 + 1) % dword ≡ i + 1 + 1 = omega (arith, few, valid.sized.max_c) in
        let step : get_next s (get_value s (i + 1)) ≡ some (get_or (elements s) (i + 1) 0) =
          rw full (
            ap (value_after s) it
            ∙ ap (λ k. some (get_value s k)) more
            ∙ ap some (value_at (i + 1) (omega (arith, few, valid.sized.max_c)))) in
        subst (λ x. get_next s x ≡ some (get_or (elements s) (i + 1) 0)) at step,
  )
