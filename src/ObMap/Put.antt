-- ===== src/ObMap/Put.antt =====
-- leechcore/ob/ob_map.c: the growth of the tables, and the insertion of an entry.
use leech_core.Base.{
  ap₂, ◌&&◌, ◌==◌, if◌then◌else◌, true≢false, ℕ, zero, suc, ◌+◌, ◌-◌, ◌*◌, ◌%◌, ◌≤◌, ◌<◌, ◌≡◌, ◌≢◌,
  ◌⊎◌, inl, inr, refl, ◌∙◌, ap, sym, subst, arith, Bool, true, false, Bool-cases, add32, dword,
}
use leech_core.Probe.{Table}
use leech_core.Probe.Cycle.{eq-or}
use leech_core.Probe.Paths.{Holds, Holds-empty}
use leech_core.ObMap.{
  map_directory, map_table, map_store, is_stored, null_entry, MapEntry, ObMap, map_capacity,
  entry_at, set_entry, part, get_from_index, get_from_entry_index, is_hashed, map_hashing,
  map_insert_hash,
}
use leech_core.ObMap.Change.{rehash_entry, hash_all, map_grown}
use leech_core.ObMap.Both.{Both, With, with_both, rehash_entry-Both, if_yes, if_no}
use leech_core.ObMap.Valid.{
  MapValid, MapUsed, get_from_entry_index-used, Both-same, entry_at-set_same, entry_at-set_other,
  full-is_stored,
}

-- The order of the two insertions does not matter.
hash_order :
    (m : ObMap) (i : ℕ) → map_insert_hash (map_insert_hash m true i) false i ≡ rehash_entry m i
unfolding map_hashing get_from_entry_index get_from_index
hash_order m i = elim (Bool-cases m.has_key) [
  | inl y ↦ if_yes _ y ∙ sym (ap (λ x. map_insert_hash x true i) (if_yes _ y))
  | inr z ↦ if_no _ z ∙ sym (ap (λ x. map_insert_hash x true i) (if_no _ z))
]

hash_all-Both :
    {m : ObMap} (n i : ℕ) {k : ℕ} {hk hv : Table}
    → 1 ≤ i
    → Both m (MapUsed i) k hk hv
    → k + n < m.c_hash_max
    → (hk' : Table) × (hv' : Table) × (hash_all n i (with_both m hk hv) ≡ with_both m hk' hv')
      × Both m (MapUsed (i + n)) (k + n) hk' hv'
unfolding hash_all
hash_all-Both {m} zero i {k} {hk} {hv} lo both room =
    let same : k ≡ k + 0 = omega arith in
    let same' : i ≡ i + 0 = omega arith in
    (
      hk,
      hv,
      refl,
      subst (λ j. Both m (MapUsed j) (k + 0) hk hv) same'
          (subst (λ j. Both m (MapUsed i) j hk hv) same both),
    )
hash_all-Both {m} (suc n) i {k} {hk} {hv} lo both room =
    let (hk1, hv1, it, held) =
      rehash_entry-Both both (omega (arith, room)) i (omega (arith, lo))
        (λ (_, lt). omega (arith, lt)) in
    let next : Both m (MapUsed (suc i)) (suc k) hk1 hv1 =
      Both-same held m (MapUsed (suc i)) refl refl (omega (arith, room))
        (λ j. elim [
          | inl (a, b) ↦ (a, omega (arith, b))
          | inr e ↦ (omega (arith, e, lo), omega (arith, e))
        ])
        (λ j (a, b). elim (eq-or j i) [ inl e ↦ inr e | inr ne ↦ inl (a, omega (arith, b, ne)) ])
        (λ b j u. refl) in
    let (hk2, hv2, it2, held2) = hash_all-Both n (suc i) (omega arith) next (omega (arith, room)) in
    let count : suc k + n ≡ k + suc n = omega arith in
    let upto : suc i + n ≡ i + suc n = omega arith in
    (
      hk2,
      hv2,
      ap (hash_all n (suc i)) (hash_order (with_both m hk hv) i ∙ it) ∙ it2,
      subst (λ j. Both m (MapUsed j) (k + suc n) hk2 hv2) upto
          (subst (λ j. Both m (MapUsed (suc i + n)) j hk2 hv2) count held2),
    )

-- The growth leaves every entry where the pointers of the directory lead.
pub entry_at-map_grown :
    {m : ObMap} → MapValid m → (j : ℕ) → MapUsed m.c j → entry_at (map_grown m) j ≡ entry_at m j
entry_at-map_grown {m} valid j u = elim (Bool-cases m.large) [
  | inl y ↦
      let same : is_stored (map_grown m) j ≡ is_stored m j =
        ap₂
          (λ (t : ℕ → Bool) (s : ℕ → ℕ → Bool).
            t (map_directory j) && s (map_directory j) (map_table j))
          (if_yes _ y) (if_yes _ y) in
      ap (λ b. if b then m.entries (map_directory j) (map_table j) (map_store j) else null_entry)
        same
  | inr z ↦
      let few : j < 0xc0 = elim valid.sized.small [
        | inl y ↦ absurd (true≢false (sym y ∙ z))
        | inr e ↦ let (lo, hi) = u in omega (arith, e, hi, valid.sized.below)
      ] in
      let first : ((map_directory j == 0) && ((map_directory j == 0) && (map_table j == 0)))
          ≡ true =
        ground (arith, few) in
      let there : is_stored (map_grown m) j ≡ true =
        ap₂
          (λ (t : ℕ → Bool) (s : ℕ → ℕ → Bool).
            t (map_directory j) && s (map_directory j) (map_table j))
          (if_no _ z) (if_no _ z)
        ∙ first in
      if_yes _ there ∙ sym (if_yes _ (full-is_stored m j (valid.full j u)))
]

-- The map after the growth: with larger tables, and otherwise as it was.
pub grown-MapValid :
    {m : ObMap}
    → MapValid m
    → m.c_hash_grow_threshold < map_capacity
    → (hk' : Table) × (hv' : Table) × (hash_all (m.c - 1) 1 (map_grown m)
        ≡ with_both (map_grown m) hk' hv')
      × MapValid (with_both (map_grown m) hk' hv')
unfolding map_hashing get_from_entry_index get_from_index
grown-MapValid {m} valid room =
    let size : m.c_hash_max * 2 % dword ≡ m.c_hash_max * 2 =
      omega (arith, room, valid.sized.ratio) in
    let threshold : m.c_hash_grow_threshold * 2 % dword ≡ m.c_hash_grow_threshold * 2 =
      omega (arith, room) in
    let empty : (b : Bool) → Holds (map_hashing (map_grown m) b) (MapUsed 1) 0 (λ _. 0) = λ b.
      Holds-empty (map_hashing (map_grown m) b) (MapUsed 1) (λ _. 0)
        (λ i (lo, hi). omega (arith, lo, hi)) (λ _ _. refl) in
    let start : Both (map_grown m) (MapUsed 1) 0 (λ _. 0) (λ _. 0) = record {
      by_key = λ _. empty false;
      by_value = empty true;
    } in
    let (hk, hv, it, held) =
      hash_all-Both (m.c - 1) 1 (omega arith) start
        (omega (arith, size, valid.sized.below, valid.sized.ratio, valid.sized.some_c)) in
    let used : 1 + (m.c - 1) ≡ m.c = omega (arith, valid.sized.some_c) in
    let count : 0 + (m.c - 1) ≡ m.c - 1 = omega arith in
    (
      hk,
      hv,
      it,
      record {
        sized = record {
          some_c = valid.sized.some_c;
          max_c = valid.sized.max_c;
          below = omega (arith, threshold, valid.sized.below);
          ratio = omega (arith, size, threshold, valid.sized.ratio);
          few = omega (arith, threshold, room);
          small = inl refl;
        };
        full = λ j u z.
            valid.full j u (sym (ap (λ (x : MapEntry). x.v) (entry_at-map_grown valid j u)) ∙ z);
        once = λ b y i j u u' same. valid.once b y i j u u' (
            sym (ap (part b) (entry_at-map_grown valid i u))
            ∙ same
            ∙ ap (part b) (entry_at-map_grown valid j u'));
        both =
            Both-same
              (subst (λ n. Both (map_grown m) (MapUsed m.c) n hk hv) count
                (subst (λ c. Both (map_grown m) (MapUsed c) (0 + (m.c - 1)) hk hv) used held))
              (with_both (map_grown m) hk hv) (MapUsed m.c) refl refl
              (omega (arith, size, valid.sized.below, valid.sized.ratio, valid.sized.some_c))
              (λ i q. q) (λ i q. q) (λ b i q. refl);
      },
    )

-- The map after an insertion: the entry stands behind the others.
pub record Puts (m : ObMap) (e : MapEntry) (m' : ObMap) : Type 0 where
  pub valid : MapValid m'
  pub more : m'.c ≡ m.c + 1
  pub before : (j : ℕ) → MapUsed m.c j → entry_at m' j ≡ entry_at m j
  pub last : entry_at m' m.c ≡ e

-- A map that takes the entry.
pub record MapOpen (m : ObMap) (e : MapEntry) : Type 0 where
  pub valid : MapValid m
  pub room : m.c < map_capacity
  pub below : m.c < m.c_hash_grow_threshold
  pub full : e.v ≢ 0
  pub new :
      (b : Bool) → is_hashed m b ≡ true → (i : ℕ) → MapUsed m.c i → part b e ≢ part b (entry_at m i)

module _ {m : ObMap} {e : MapEntry} (o : MapOpen m e) (stored : is_stored m m.c ≡ true) where
  more_c : add32 m.c 1 ≡ m.c + 1
  more_c = omega (arith, o.room)

  -- The map with one more entry counted, and stored.
  abbrev put_stored : ObMap
  put_stored = set_entry (record m { c = add32 m.c 1 }) m.c e

  put_stored-before : (j : ℕ) → MapUsed m.c j → entry_at put_stored j ≡ entry_at m j
  put_stored-before j (lo, hi) =
      entry_at-set_other (record m { c = add32 m.c 1 }) m.c j e (omega (arith, o.room))
        (omega (arith, hi, o.room)) (omega (arith, hi))

  put_stored-last : entry_at put_stored m.c ≡ e
  put_stored-last = entry_at-set_same (record m { c = add32 m.c 1 }) m.c e stored

  put_stored-Both : Both put_stored (MapUsed m.c) (m.c - 1) m.hash_key m.hash_value
  put_stored-Both =
      let valid = o.valid in
      Both-same valid.both put_stored (MapUsed m.c) refl refl
        (omega (arith, o.below, valid.sized.ratio)) (λ j q. q) (λ j q. q)
        (λ b j u.
          let u' : MapUsed put_stored.c j = (u.0, omega (arith, u.1, more_c)) in
          get_from_entry_index-used put_stored b j u'
          ∙ ap (part b) (put_stored-before j u)
          ∙ sym (get_from_entry_index-used m b j u))

  put_cases :
      (j : ℕ)
      → MapUsed put_stored.c j
      → (MapUsed m.c j × (entry_at put_stored j ≡ entry_at m j))
        ⊎ ((j ≡ m.c) × (entry_at put_stored j ≡ e))
  put_cases j (lo, hi) =
      let side : (j < m.c) ⊎ (j ≡ m.c) = omega (arith, hi, more_c) in
      elim side [
        | inl lt ↦ inl ((lo, lt), put_stored-before j (lo, lt))
        | inr q ↦ inr (q, ap (entry_at put_stored) q ∙ put_stored-last)
      ]

  put_once :
      (b : Bool)
      → is_hashed m b ≡ true
      → (i j : ℕ) → MapUsed put_stored.c i
      → MapUsed put_stored.c j
      → part b (entry_at put_stored i) ≡ part b (entry_at put_stored j)
      → i ≡ j
  put_once b y i j ui uj same = elim (put_cases i ui) [
    | inl (u, at) ↦ elim (put_cases j uj) [
      | inl (u', at') ↦
          let valid = o.valid in
          valid.once b y i j u u' (sym (ap (part b) at) ∙ same ∙ ap (part b) at')
      | inr (_, at') ↦ absurd (o.new b y i u (sym (ap (part b) at') ∙ sym same ∙ ap (part b) at))
    ]
    | inr (q, at) ↦ elim (put_cases j uj) [
      | inl (u', at') ↦ absurd (o.new b y j u' (sym (ap (part b) at) ∙ same ∙ ap (part b) at'))
      | inr (q', _) ↦ q ∙ sym q'
    ]
  ]

  pub push_entry-Puts :
      (m' : ObMap) × (map_insert_hash (map_insert_hash put_stored true m.c) false m.c ≡ m')
      × Puts m e m'
  push_entry-Puts =
      let valid = o.valid in
      let room : m.c - 1 < put_stored.c_hash_max =
        omega (arith, o.below, valid.sized.ratio, valid.sized.some_c) in
      let (hk, hv, it, held) =
        rehash_entry-Both put_stored-Both room m.c (omega (arith, valid.sized.some_c))
          (λ (_, lt). omega (arith, lt)) in
      let m' = with_both put_stored hk hv in
      let count : suc (m.c - 1) ≡ add32 m.c 1 - 1 = omega (arith, more_c, valid.sized.some_c) in
      (
        m',
        hash_order put_stored m.c ∙ it,
        record {
          valid = record {
            sized = record {
              some_c = omega (arith, more_c);
              max_c = omega (arith, more_c, o.room);
              below = omega (arith, more_c, o.below);
              ratio = valid.sized.ratio;
              few = valid.sized.few;
              small = valid.sized.small;
            };
            full = λ j u z. elim (put_cases j u) [
              | inl (u', at) ↦ valid.full j u' (sym (ap (λ x. x.v) at) ∙ z)
              | inr (_, at) ↦ o.full (sym (ap (λ x. x.v) at) ∙ z)
            ];
            once = put_once;
            both =
                Both-same (subst (λ n. Both put_stored (With (MapUsed m.c) m.c) n hk hv) count held)
                  m' (MapUsed m'.c) refl refl (omega (arith, room))
                  (λ j. elim [
                    | inl (lo, hi) ↦ (lo, omega (arith, hi, more_c))
                    | inr q ↦ (omega (arith, q, valid.sized.some_c), omega (arith, q, more_c))
                  ])
                  (λ j u. elim (put_cases j u) [ inl (u', _) ↦ inl u' | inr (q, _) ↦ inr q ])
                  (λ b j u.
                    get_from_entry_index-used m' b j u
                    ∙ sym (get_from_entry_index-used put_stored b j u));
          };
          more = more_c;
          before = put_stored-before;
          last = put_stored-last;
        },
      )
