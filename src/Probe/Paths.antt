-- ===== src/Probe/Paths.antt =====
-- The tables that the probing keeps: no free slot lies between the slot an entry hashes to and the
-- slot it is in.
use leech_core.Base.{
  ℕ, zero, suc, ◌+◌, ◌-◌, ◌≤◌, ◌<◌, ◌≡◌, ◌≢◌, ◌⊎◌, inl, inr, refl, ◌∙◌, ap, sym, subst, arith, true,
}
use leech_core.Probe.{Table, Hashing, write, first_free, insert, insert_all}
use leech_core.Probe.Cycle.{On, Behind, first_free-First, eq-or}
use leech_core.Probe.Contents.{
  Contents, Contents-write, Contents-room, Contents-same, Contents-empty, write-same, write-other,
  write-full,
}

-- An entry that can be in the table.
pub record Live (h : Hashing) (i : ℕ) : Type 0 where
  pub within : h.preferred i < h.size
  pub inserts : h.inserts i ≡ true
  pub cast : h.cast i ≡ i

-- Every slot on the way from where the entry of `s` hashes to up to `s` is full, but for `hole`.
abbrev pub PathTo : Hashing → Table → (ℕ → Type 0) → ℕ → Type 0
PathTo h t Hole s = (x : ℕ) → x < h.size → On (h.preferred (t s)) x s → (Hole x → ⊥) → t x ≢ 0

-- The table holds the `n` entries of `P`, and a search finds each of them.
pub record Holds (h : Hashing) (P : ℕ → Type 0) (n : ℕ) (t : Table) : Type 0 where
  pub contents : Contents h.size P n t
  pub live : (i : ℕ) → P i → Live h i
  pub paths : (s : ℕ) → s < h.size → t s ≢ 0 → PathTo h t (λ _. ⊥) s

pub Behind-from : (m a z : ℕ) → a < m → z < m → (d : ℕ) × Behind m a d z × (d < m)
Behind-from m a z la lz =
    let side : (a ≤ z) ⊎ (z < a) = omega arith in
    elim side [
      | inl le ↦ (z - a, inl (omega arith), omega arith)
      | inr lt ↦ (z + m - a, inr (omega arith), omega arith)
    ]

-- The insertion of an entry that the table does not have.
pub insert-Holds :
    {h : Hashing} {P : ℕ → Type 0} {n : ℕ} {t : Table}
    → Holds h P n t
    → n < h.size
    → (e : ℕ) → Live h e
    → e ≢ 0
    → (P e → ⊥)
    → Holds h (λ i. P i ⊎ (i ≡ e)) (suc n) (insert h t e)
unfolding insert
insert-Holds {h} {P} {n} {t} c room e live ne new =
    let (z, lz, at) = Contents-room c.contents room in
    let (d, behind, ld) = Behind-from h.size (h.preferred e) z live.within lz in
    let slot = first_free h.size h.size t (h.preferred e) in
    let first =
      first_free-First h.size h.size t (h.preferred e) d z live.within lz behind ld ld at in
    rw live.inserts (
      rw live.cast (record {
        contents = Contents-write c.contents _ e first.within first.is_free ne new;
        live = λ i. elim [ inl p ↦ c.live i p | inr q ↦ subst (Live h) (sym q) live ];
        paths = λ s ls full x lx on _. write-full t slot e ne (elim (eq-or s slot) [
          | inl q ↦ λ apart.
              let it : write t slot e s ≡ e = ap (write t slot e) q ∙ write-same t slot e in
              first.full x lx (subst (λ i. On (h.preferred i) x slot) it (subst (On _ x) q on))
                apart
          | inr q ↦ λ _.
              let same = write-other t slot e q in
              c.paths s ls (λ zz. full (same ∙ zz)) x lx
                (subst (λ i. On (h.preferred i) x s) same on) (λ b. b)
        ]);
      }))

pub Holds-empty :
    (h : Hashing) (P : ℕ → Type 0) (t : Table)
    → ((i : ℕ) → P i → ⊥)
    → ((s : ℕ) → s < h.size → t s ≡ 0)
    → Holds h P 0 t
Holds-empty h P t none_in empty = record {
  contents = Contents-empty h.size P t none_in empty;
  live = λ i p. absurd (none_in i p);
  paths = λ s ls full. absurd (full (empty s ls));
}

-- The table under another hashing that agrees on its entries.
pub Holds-same :
    {h : Hashing} {P : ℕ → Type 0} {n : ℕ} {t : Table}
    → Holds h P n t
    → (h' : Hashing) (Q : ℕ → Type 0) → h'.size ≡ h.size
    → ((i : ℕ) → P i → Q i)
    → ((i : ℕ) → Q i → P i)
    → ((i : ℕ) → Q i → Live h' i)
    → ((i : ℕ) → Q i → h'.preferred i ≡ h.preferred i)
    → Holds h' Q n t
Holds-same {h} {P} {n} {t} c h' Q size to from live same = record {
  contents = subst (λ m. Contents m Q n t) (sym size) (Contents-same c.contents to from);
  live = live;
  paths = λ s ls full x lx on _.
      let ls' : s < h.size = omega arith in
      let at = same (t s) (to (t s) (c.contents.inside s ls' full)) in
      c.paths s ls' full x (omega arith) (subst (λ p. On p x s) at on) (λ b. b);
}

-- The entries `i`, `i + 1`, … are inserted.
pub insert_all-Holds :
    {h : Hashing} (k i : ℕ) {n : ℕ} {t : Table}
    → 1 ≤ i
    → Holds h (λ e. (1 ≤ e) × (e < i)) n t
    → n + k < h.size
    → ((e : ℕ) → 1 ≤ e → e < i + k → Live h e)
    → Holds h (λ e. (1 ≤ e) × (e < i + k)) (n + k) (insert_all h k i t)
unfolding insert_all
insert_all-Holds {h} zero i {n} {t} lo c room live =
    let none : n + 0 ≡ n = omega arith in
    rw none (
      Holds-same c h (λ e. (1 ≤ e) × (e < i + 0)) refl (λ e (a, b). (a, omega arith))
        (λ e (a, b). (a, omega arith)) (λ e (a, b). live e a b) (λ e q. refl))
insert_all-Holds {h} (suc k) i {n} {t} lo c room live =
    let count : suc n + k ≡ n + suc k = omega arith in
    let one =
      insert-Holds c (omega arith) i (live i lo (omega arith)) (omega arith)
        (λ (a, b). omega (arith, b)) in
    let next_slot =
      Holds-same one h (λ e. (1 ≤ e) × (e < i + 1)) refl
        (λ e. elim [ inl (a, b) ↦ (a, omega arith) | inr q ↦ (omega arith, omega arith) ])
        (λ e (a, b). elim (eq-or e i) [ inl q ↦ inr q | inr ne ↦ inl (a, omega arith) ])
        (λ e (a, b). live e a (omega arith)) (λ e q. refl) in
    let rest =
      insert_all-Holds k (i + 1) (omega arith) next_slot (omega arith)
        (λ e a b. live e a (omega arith)) in
    Holds-same
      (subst
        (λ j. Holds h (λ e. (1 ≤ e) × (e < i + 1 + k)) j (insert_all h k (i + 1) (insert h t i)))
        count rest)
      h (λ e. (1 ≤ e) × (e < i + suc k)) refl (λ e (a, b). (a, omega arith))
      (λ e (a, b). (a, omega arith)) (λ e (a, b). live e a b) (λ e q. refl)
