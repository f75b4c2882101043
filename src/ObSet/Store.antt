-- ===== src/ObSet/Store.antt =====
-- leechcore/ob/ob_set.c: the stores keep each value apart.
use leech_core.Base.{
  three_same, three_same_refl, ℕ, ◌≤◌, ◌<◌, ◌≡◌, ◌≢◌, ◌⊎◌, inl, inr, refl, ◌∙◌, sym, arith, true,
  false, ◌&&◌, Bool-cases, true≢false, ◌==◌, leb,
}
use leech_core.ObSet.{
  ObSet, max_capacity, index_directory, index_table, index_store, directory_of, get_value,
  set_value,
}

-- The index is within the stores of the mode.
abbrev pub Fits : ObSet → ℕ → Type 0
Fits s i = (i < max_capacity) × ((s.large ≡ true) ⊎ (i < 0x1_0000))

-- The indices of the stores are the digits of the index.
digits :
    (i j : ℕ)
    → i < max_capacity
    → j < max_capacity
    → index_directory j ≡ index_directory i
    → index_table j ≡ index_table i
    → index_store j ≡ index_store i
    → j ≡ i
digits i j li lj d t o = omega arith

small_digits :
    (i j : ℕ)
    → i < 0x1_0000
    → j < 0x1_0000
    → index_table j ≡ index_table i
    → index_store j ≡ index_store i
    → j ≡ i
small_digits i j li lj t o = omega arith

same_place :
    (s : ObSet) (i j : ℕ)
    → Fits s i
    → Fits s j
    → ((directory_of s j == directory_of s i)
        && ((index_table j == index_table i) && (index_store j == index_store i)))
      ≡ true
    → j ≡ i
same_place s i j (li, mi) (lj, mj) same =
    let (d, t, o) = three_same _ _ _ _ _ _ same in
    elim (Bool-cases s.large) [
      | inl e ↦
          let in_large : (k : ℕ) → directory_of s k ≡ index_directory k = λ k. rw e refl in
          digits i j li lj (sym (in_large j) ∙ d ∙ in_large i) t o
      | inr e ↦
          let small : (k : ℕ) → (s.large ≡ true) ⊎ (k < 0x1_0000) → k < 0x1_0000 =
            λ k. elim [ inl l ↦ absurd (true≢false (sym l ∙ e)) | inr lt ↦ lt ] in
          small_digits i j (small i mi) (small j mj) t o
    ]

pub get_value-set_same : (s : ObSet) (i v : ℕ) → 1 ≤ i → i < s.c → get_value (set_value s i v) i ≡ v
unfolding get_value set_value
get_value-set_same s i v lo hi =
    let used : (i == 0) ≡ false = ground arith in
    let inside : leb s.c i ≡ false = ground arith in
    rw used
      (rw inside (rw (three_same_refl (directory_of s i) (index_table i) (index_store i)) refl))

pub get_value-set_other :
    (s : ObSet) (i j v : ℕ)
    → Fits s i
    → Fits s j
    → j ≢ i
    → get_value (set_value s i v) j ≡ get_value s j
unfolding get_value set_value
get_value-set_other s i j v fi fj ne =
    elim (Bool-cases (
      (directory_of s j == directory_of s i)
      && ((index_table j == index_table i) && (index_store j == index_store i)))) [
        | inl e ↦ absurd (ne (same_place s i j fi fj e))
        | inr e ↦ rw e refl
      ]
