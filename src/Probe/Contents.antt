-- ===== src/Probe/Contents.antt =====
-- The entries of a table, wherever they are, and the number of its free slots.
use leech_core.Base.{
  ℕ, zero, suc, ◌+◌, ◌≤◌, ◌<◌, ◌≡◌, ◌≢◌, ◌⊎◌, inl, inr, refl, ◌∙◌, ap, sym, subst, arith,
  Bool-cases, true, false, ◌==◌, if◌then◌else◌,
}
use leech_core.Probe.{Table, write}
use leech_core.Probe.Cycle.{eq-or}

pub write-same : (t : Table) (s v : ℕ) → write t s v s ≡ v
write-same t s v = let e : (s == s) ≡ true = ground arith in rw e

pub write-other : (t : Table) (s v : ℕ) {x : ℕ} → x ≢ s → write t s v x ≡ t x
write-other t s v {x} ne = let e : (x == s) ≡ false = ground arith in rw e

pub write-full : (t : Table) (s v : ℕ) {x : ℕ} → v ≢ 0 → (x ≢ s → t x ≢ 0) → write t s v x ≢ 0
write-full t s v {x} nv h = elim (eq-or x s) [
  | inl q ↦ λ zz. nv (sym (ap (write t s v) q ∙ write-same t s v) ∙ zz)
  | inr q ↦ λ zz. h q (sym (write-other t s v q) ∙ zz)
]

-- The number of free slots below `k`.
unfoldable pub zeros : Table → ℕ → ℕ
zeros t zero = 0
zeros t (suc k) = (if t k == 0 then 1 else 0) + zeros t k

abbrev one_if_zero : ℕ → ℕ
one_if_zero v = if v == 0 then 1 else 0

zeros-write_above : (t : Table) (s v k : ℕ) → k ≤ s → zeros (write t s v) k ≡ zeros t k
unfolding zeros
zeros-write_above t s v zero le = refl
zeros-write_above t s v (suc k) le =
    let apart : (k == s) ≡ false = ground arith in
    rw apart (ap (λ n. one_if_zero (t k) + n) (zeros-write_above t s v k (omega arith)))

zeros-write :
    (t : Table) (s v k : ℕ)
    → s < k
    → zeros (write t s v) k + one_if_zero (t s) ≡ zeros t k + one_if_zero v
unfolding zeros
zeros-write t s v zero lt = absurd (omega arith)
zeros-write t s v (suc k) lt = elim (eq-or k s) [
  | inl e ↦
      let it : one_if_zero (write t s v k) ≡ one_if_zero v =
        ap one_if_zero (ap (write t s v) e ∙ write-same t s v) in
      let old : one_if_zero (t k) ≡ one_if_zero (t s) = ap (λ i. one_if_zero (t i)) e in
      let below = zeros-write_above t s v k (omega arith) in omega arith
  | inr ne ↦
      let it : one_if_zero (write t s v k) ≡ one_if_zero (t k) =
        ap one_if_zero (write-other t s v ne) in
      let below = zeros-write t s v k (omega arith) in omega arith
]

zeros-le : (t : Table) (k : ℕ) → zeros t k ≤ k
unfolding zeros
zeros-le t zero = omega arith
zeros-le t (suc k) = ground (arith, zeros-le t k)

zeros-empty : (t : Table) (k : ℕ) → ((s : ℕ) → s < k → t s ≡ 0) → zeros t k ≡ k
unfolding zeros
zeros-empty t zero h = refl
zeros-empty t (suc k) h =
    ground (arith, zeros-empty t k (λ s lt. h s (omega arith)), h k (omega arith))

pub zeros-find : (t : Table) (k : ℕ) → 0 < zeros t k → (z : ℕ) × (z < k) × (t z ≡ 0)
unfolding zeros
zeros-find t zero h = absurd (omega arith)
zeros-find t (suc k) h = elim (Bool-cases (t k == 0)) [
  | inl e ↦ (k, omega arith, ground (arith, e))
  | inr e ↦ let (z, lt, is) = zeros-find t k (ground (arith, h, e)) in (z, omega (arith, lt), is)
]

-- The table holds the entries of `P`, each in one slot, and `n` of them.
pub record Contents (m : ℕ) (P : ℕ → Type 0) (n : ℕ) (t : Table) : Type 0 where
  pub inside : (s : ℕ) → s < m → t s ≢ 0 → P (t s)
  pub once : (s s' : ℕ) → s < m → s' < m → t s ≢ 0 → t s ≡ t s' → s ≡ s'
  pub placed : (i : ℕ) → P i → (s : ℕ) × (s < m) × (t s ≡ i)
  pub nonzero : (i : ℕ) → P i → i ≢ 0
  pub count : zeros t m + n ≡ m

pub Contents-empty :
    (m : ℕ) (P : ℕ → Type 0) (t : Table)
    → ((i : ℕ) → P i → ⊥)
    → ((s : ℕ) → s < m → t s ≡ 0)
    → Contents m P 0 t
Contents-empty m P t none_in empty = record {
  inside = λ s ls full. absurd (full (empty s ls));
  once = λ s s' ls ls' full eq. absurd (full (empty s ls));
  placed = λ i p. absurd (none_in i p);
  nonzero = λ i p. absurd (none_in i p);
  count = omega (arith, zeros-empty t m empty);
}

pub Contents-write :
    {m : ℕ} {P : ℕ → Type 0} {n : ℕ} {t : Table}
    → Contents m P n t
    → (r e : ℕ) → r < m
    → t r ≡ 0
    → e ≢ 0
    → (P e → ⊥)
    → Contents m (λ i. P i ⊎ (i ≡ e)) (suc n) (write t r e)
Contents-write {m} {P} {n} {t} c r e lr z ne new = record {
  inside = λ s ls full. elim (eq-or s r) [
    | inl q ↦ inr (ap (write t r e) q ∙ write-same t r e)
    | inr q ↦
        let same = write-other t r e q in
        inl (subst P (sym same) (c.inside s ls (λ zz. full (same ∙ zz))))
  ];
  once = λ s s' ls ls' full eq. elim (eq-or s r) [
    | inl q ↦ elim (eq-or s' r) [
      | inl q' ↦ omega arith
      | inr q' ↦
          let other = write-other t r e q' in
          let it : write t r e s ≡ e = ap (write t r e) q ∙ write-same t r e in
          let there : t s' ≡ e = sym other ∙ sym eq ∙ it in
          absurd (new (subst P there (c.inside s' ls' (λ zz. ne (sym there ∙ zz)))))
    ]
    | inr q ↦ elim (eq-or s' r) [
      | inl q' ↦
          let it : write t r e s' ≡ e = ap (write t r e) q' ∙ write-same t r e in
          let there : t s ≡ e = sym (write-other t r e q) ∙ eq ∙ it in
          absurd (new (subst P there (c.inside s ls (λ zz. ne (sym there ∙ zz)))))
      | inr q' ↦
          let same = write-other t r e q in
          c.once s s' ls ls' (λ zz. full (same ∙ zz)) (sym same ∙ eq ∙ write-other t r e q')
    ]
  ];
  placed = λ i. elim [
    | inl p ↦
        let (s, ls, is) = c.placed i p in
        let apart : s ≢ r = λ q. c.nonzero i p (sym is ∙ ap t q ∙ z) in
        (s, ls, write-other t r e apart ∙ is)
    | inr q ↦ (r, lr, write-same t r e ∙ sym q)
  ];
  nonzero = λ i. elim [ inl p ↦ c.nonzero i p | inr q ↦ λ zz. ne (sym q ∙ zz) ];
  count = ground (arith, zeros-write t r e m lr, c.count, z, ne);
}

pub Contents-clear :
    {m : ℕ} {P : ℕ → Type 0} {n : ℕ} {t : Table}
    → Contents m P (suc n) t
    → (r : ℕ) → r < m
    → t r ≢ 0
    → Contents m (λ i. P i × (i ≢ t r)) n (write t r 0)
Contents-clear {m} {P} {n} {t} c r lr full_r =
    let apart : (s : ℕ) → write t r 0 s ≢ 0 → s ≢ r =
      λ s full q. full (ap (write t r 0) q ∙ write-same t r 0) in
    record {
      inside = λ s ls full.
          let same = write-other t r 0 (apart s full) in
          let old : t s ≢ 0 = λ zz. full (same ∙ zz) in
          (
            subst P (sym same) (c.inside s ls old),
            λ q. apart s full (c.once s r ls lr old (sym same ∙ q)),
          );
      once = λ s s' ls ls' full eq.
          let same = write-other t r 0 (apart s full) in
          let same' = write-other t r 0 (apart s' (λ zz. full (eq ∙ zz))) in
          c.once s s' ls ls' (λ zz. full (same ∙ zz)) (sym same ∙ eq ∙ same');
      placed = λ i (p, ne).
          let (s, ls, is) = c.placed i p in
          (s, ls, write-other t r 0 (λ q. ne (sym is ∙ ap t q)) ∙ is);
      nonzero = λ i (p, _). c.nonzero i p;
      count = ground (arith, zeros-write t r 0 m lr, c.count, full_r);
    }

-- The contents under another description of the same entries.
pub Contents-same :
    {m : ℕ} {P Q : ℕ → Type 0} {n : ℕ} {t : Table}
    → Contents m P n t
    → ((i : ℕ) → P i → Q i)
    → ((i : ℕ) → Q i → P i)
    → Contents m Q n t
Contents-same {m} {P} {Q} {n} {t} c to from = record {
  inside = λ s ls full. to (t s) (c.inside s ls full);
  once = c.once;
  placed = λ i q. c.placed i (from i q);
  nonzero = λ i q. c.nonzero i (from i q);
  count = c.count;
}

Contents-some :
    {m : ℕ} {P : ℕ → Type 0} {n : ℕ} {t : Table}
    → Contents m P n t
    → (j : ℕ) → j < m
    → t j ≢ 0
    → 0 < n
Contents-some {m} {t = t} c j lj full =
    let more = zeros-write t j 0 m lj in
    let few = zeros-le (write t j 0) m in ground (arith, c.count, more, few, full)

Contents-move_suc :
    {m : ℕ} {P : ℕ → Type 0} {n : ℕ} {t : Table}
    → Contents m P (suc n) t
    → (j r : ℕ) → j < m
    → r < m
    → t j ≢ 0
    → write t j 0 r ≡ 0
    → Contents m P (suc n) (write (write t j 0) r (t j))
Contents-move_suc {m} {P} {n} {t} c j r lj lr full z =
    let p = c.inside j lj full in
    let without = Contents-clear c j lj full in
    Contents-same (Contents-write without r (t j) lr z full (λ (_, ne). ne refl))
      (λ i. elim [ inl (q, _) ↦ q | inr e ↦ subst P (sym e) p ])
      (λ i q. elim (eq-or i (t j)) [ inl e ↦ inr e | inr ne ↦ inl (q, ne) ])

-- An entry moved to a free slot of the table without it.
pub Contents-move :
    {m : ℕ} {P : ℕ → Type 0} {n : ℕ} {t : Table}
    → Contents m P n t
    → (j r : ℕ) → j < m
    → r < m
    → t j ≢ 0
    → write t j 0 r ≡ 0
    → Contents m P n (write (write t j 0) r (t j))
Contents-move {n = zero} c j r lj lr full z = absurd (omega (arith, Contents-some c j lj full))
Contents-move {n = suc n} c j r lj lr full z = Contents-move_suc c j r lj lr full z

-- A table with fewer entries than slots has a free slot.
pub Contents-room :
    {m : ℕ} {P : ℕ → Type 0} {n : ℕ} {t : Table}
    → Contents m P n t
    → n < m
    → (z : ℕ) × (z < m) × (t z ≡ 0)
Contents-room {m} {t = t} c lt = zeros-find t m (omega (arith, c.count))
