-- ===== src/ObMap/Both.antt =====
-- leechcore/ob/ob_map.c: the two hash tables of the map, when an entry is removed from both or inserted
-- into both.
use leech_core.Base.{
  ℕ, zero, suc, ◌-◌, ◌%◌, ◌<◌, ◌≡◌, ◌≢◌, ◌⊎◌, inl, inr, refl, ◌∙◌, ap, sym, subst, arith, Bool,
  true, false, Bool-cases, true≢false, ◌==◌, if◌then◌else◌, some,
}
use leech_core.Probe.{Table, Hashing, next_slot, clear_slot, insert}
use leech_core.Probe.Cycle.{Behind, next_slot-Steps, next_slot-within, Behind-next_slot}
use leech_core.Probe.Paths.{Live, Holds, Behind-from, insert-Holds}
use leech_core.Probe.Clear.{clear_slot-Holds}
use leech_core.ObSet.{hash_function}
use leech_core.ObMap.{
  MapEntry, ObMap, part, get_from_index, get_from_entry_index, map_hashing, map_insert_hash, locate,
  clear_located, map_remove_hash,
}
use leech_core.ObMap.Change.{and_then, unhash, rehash_entry}

pub if_yes {ℓ} : {A : Type ℓ} {b : Bool} {x : A} (y : A) → b ≡ true → (if b then x else y) ≡ x
if_yes y e = rw e refl

pub if_no {ℓ} : {A : Type ℓ} {b : Bool} (x : A) {y : A} → b ≡ false → (if b then x else y) ≡ y
if_no x e = rw e refl

-- The slot of an entry is found, even over free slots.
locate-hit :
    (fuel m : ℕ) (t : Table) (e a d s : ℕ)
    → a < m
    → s < m
    → Behind m a d s
    → d < m
    → d < fuel
    → t s ≡ e
    → ((x : ℕ) → x < m → t x ≡ e → x ≡ s)
    → locate fuel m t e a ≡ some s
unfolding locate
locate-hit zero m t e a d s la ls at ld lf here only = absurd (omega arith)
locate-hit (suc fuel) m t e a d s la ls at ld lf here only = elim (Bool-cases (t a == e)) [
  | inl h ↦ rw h (ap some (only a la (ground (arith, h))))
  | inr h ↦
      let apart : a ≢ s = λ q. true≢false (sym (ground (arith, ap t q, here)) ∙ h) in
      rw h (
        locate-hit fuel m t e (next_slot m a) (d - 1) s (next_slot-within m a la) ls
          (Behind-next_slot (next_slot-Steps m a la) la ls at ld apart) (omega (arith, ld))
          (omega (arith, lf, at, apart, ls, la)) here only)
]

-- Without the entry `e`.
abbrev pub Without : (ℕ → Type 0) → ℕ → ℕ → Type 0
Without Q e i = Q i × (i ≢ e)

abbrev pub With : (ℕ → Type 0) → ℕ → ℕ → Type 0
With Q e i = Q i ⊎ (i ≡ e)

-- A table from which the slot of an entry is cleared.
cleared-Holds :
    {h : Hashing} {Q : ℕ → Type 0} {n : ℕ} {t : Table}
    → Holds h Q (suc n) t
    → suc n < h.size
    → (e kv : ℕ) → Q e
    → h.preferred e ≡ hash_function kv % h.size
    → (s : ℕ) × (locate h.size h.size t e (hash_function kv % h.size) ≡ some s)
      × Holds h (Without Q e) n (clear_slot h t s)
cleared-Holds {h} {Q} {n} {t} c room e kv q at =
    let (s, ls, here) = c.contents.placed e q in
    let a = hash_function kv % h.size in
    let la : a < h.size = omega (arith, room) in
    let (d, behind, few) = Behind-from h.size a s la ls in
    let full : t s ≢ 0 = λ z. c.contents.nonzero e q (sym here ∙ z) in
    let only : (x : ℕ) → x < h.size → t x ≡ e → x ≡ s =
      λ x lx same. sym (c.contents.once s x ls lx full (here ∙ sym same)) in
    let gone = clear_slot-Holds c room s ls full h refl (λ i p ne. c.live i p) (λ i p ne. refl) in
    (
      s,
      locate-hit h.size h.size t e a d s la ls behind few few here only,
      subst (λ x. Holds h (Without Q x) n (clear_slot h t s)) here gone,
    )

-- Both tables of a map hold the entries of `Q`, or the one of the objects when there are no keys.
pub record Both (m : ObMap) (Q : ℕ → Type 0) (n : ℕ) (hk hv : Table) : Type 0 where
  pub by_key : m.has_key ≡ true → Holds (map_hashing m false) Q n hk
  pub by_value : Holds (map_hashing m true) Q n hv

-- The map with other hash tables.
abbrev pub with_both : ObMap → Table → Table → ObMap
with_both m hk hv = record m { hash_key = hk; hash_value = hv }

module _ {m : ObMap} {Q : ℕ → Type 0} {n : ℕ} {hk hv : Table} (both : Both m Q (suc n) hk hv)
    (room : suc n < m.c_hash_max) where
  unhash-key :
      (e : ℕ)
      → Q e
      → (kv : ℕ) → get_from_entry_index m false e ≡ kv
      → (hk' : Table) × (map_remove_hash (with_both m hk hv) false kv e ≡ some (with_both m hk' hv))
        × (m.has_key ≡ true → Holds (map_hashing m false) (Without Q e) n hk')
  unfolding map_remove_hash map_hashing get_from_entry_index get_from_index
  unhash-key e q kv at = elim (Bool-cases m.has_key) [
    | inl y ↦
        let (s, it, held) =
          cleared-Holds (both.by_key y) room e kv q (ap (λ x. hash_function x % m.c_hash_max) at) in
        (
          clear_slot (map_hashing m false) hk s,
          if_yes _ y ∙ ap (clear_located (with_both m hk hv) false) it,
          λ _. held,
        )
    | inr z ↦ (hk, if_no _ z, λ y. absurd (true≢false (sym y ∙ z)))
  ]

  unhash-value :
      (e : ℕ)
      → Q e
      → (kv : ℕ) → get_from_entry_index m true e ≡ kv
      → (hk' : Table)
      → (hv' : Table) × (map_remove_hash (with_both m hk' hv) true kv e
          ≡ some (with_both m hk' hv'))
        × Holds (map_hashing m true) (Without Q e) n hv'
  unfolding map_remove_hash map_hashing get_from_entry_index get_from_index
  unhash-value e q kv at hk' =
      let (s, it, held) =
        cleared-Holds both.by_value room e kv q (ap (λ x. hash_function x % m.c_hash_max) at) in
      (clear_slot (map_hashing m true) hv s, ap (clear_located (with_both m hk' hv) true) it, held)

  pub unhash-Both :
      (i : ℕ)
      → Q i
      → (e : MapEntry) → ((b : Bool) → get_from_entry_index m b i ≡ part b e)
      → (hk' : Table) × (hv' : Table) × (unhash (with_both m hk hv) e i
          ≡ some (with_both m hk' hv'))
        × Both m (Without Q i) n hk' hv'
  unfolding unhash
  unhash-Both i q e at =
      let (hk', it, held) = unhash-key i q e.k (at false) in
      let (hv', it', held') = unhash-value i q e.v (at true) hk' in
      (
        hk',
        hv',
        ap (λ o. and_then o (λ m'. map_remove_hash m' true e.v i)) it ∙ it',
        record { by_key = held; by_value = held' },
      )

-- The entry of an index that is not in the tables is inserted into both.
pub rehash_entry-Both :
    {m : ObMap} {Q : ℕ → Type 0} {n : ℕ} {hk hv : Table}
    → Both m Q n hk hv
    → n < m.c_hash_max
    → (i : ℕ) → i ≢ 0
    → (Q i → ⊥)
    → (hk' : Table) × (hv' : Table) × (rehash_entry (with_both m hk hv) i ≡ with_both m hk' hv')
      × Both m (With Q i) (suc n) hk' hv'
unfolding map_hashing get_from_entry_index get_from_index
rehash_entry-Both {m} {Q} {n} {hk} {hv} both room i full new =
    let live : (b : Bool) → Live (map_hashing m b) i =
      λ b. record { within = omega (arith, room); inserts = refl; cast = refl } in
    let held = insert-Holds both.by_value room i (live true) full new in
    let hv' = insert (map_hashing m true) hv i in
    elim (Bool-cases m.has_key) [
      | inl y ↦
          let keyed = insert-Holds (both.by_key y) room i (live false) full new in
          (
            insert (map_hashing m false) hk i,
            hv',
            ap (λ x. map_insert_hash x true i) (if_yes _ y),
            record { by_key = λ _. keyed; by_value = held },
          )
      | inr z ↦ (
        hk,
        hv',
        ap (λ x. map_insert_hash x true i) (if_no _ z),
        record { by_key = λ y. absurd (true≢false (sym y ∙ z)); by_value = held },
      )
    ]
