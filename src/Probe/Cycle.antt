-- ===== src/Probe/Cycle.antt =====
-- Slots on a cycle, by comparisons alone.
use leech_core.Base.{
  ℕ, zero, suc, ◌+◌, ◌-◌, ◌%◌, ◌≤◌, ◌<◌, ◌≡◌, ◌≢◌, ◌⊎◌, inl, inr, ◌∙◌, ap, sym, arith, Bool-cases,
  true≢false, ◌==◌,
}
use native.Mathlib.Nat.{mod-eq_of_lt, mod_self}
use leech_core.Probe.{Table, next_slot, first_free}

-- `x` is met on the way from `a` up to `b`, both included.
abbrev pub On : ℕ → ℕ → ℕ → Type 0
On a x b = ((a ≤ b) × (a ≤ x) × (x ≤ b)) ⊎ ((b < a) × ((a ≤ x) ⊎ (x ≤ b)))

-- `b` is `d` steps behind `a`.
abbrev pub Behind : ℕ → ℕ → ℕ → ℕ → Type 0
Behind m a d b = (b ≡ a + d) ⊎ (b + m ≡ a + d)

-- The slot after `s`.
abbrev pub Steps : ℕ → ℕ → ℕ → Type 0
Steps m s s' = ((s' ≡ s + 1) × (s + 1 < m)) ⊎ ((s' ≡ 0) × (s + 1 ≡ m))

pub next_slot-Steps : (m s : ℕ) → s < m → Steps m s (next_slot m s)
next_slot-Steps m s lt =
    let more : (s + 1 < m) ⊎ (s + 1 ≡ m) = omega arith in
    elim more [ inl h ↦ inl (mod-eq_of_lt h, h) | inr h ↦ inr (ap (λ k. k % m) h ∙ mod_self m, h) ]

-- The way from `a` to `b` without its first slot.
pub On-step :
    {m a a' x b : ℕ} → Steps m a a' → a < m → b < m → x < m → On a x b → a ≢ b → x ≢ a → On a' x b
On-step s la lb lx on ne ne' = omega arith

pub On-back : {m a a' x b : ℕ} → Steps m a a' → a < m → b < m → x < m → On a' x b → a ≢ b → On a x b
On-back s la lb lx on ne = omega arith

pub eq-or : (a b : ℕ) → (a ≡ b) ⊎ (a ≢ b)
eq-or a b = omega arith

-- The loop of an insertion ends at the first free slot.
pub record First (m : ℕ) (t : Table) (a z r : ℕ) : Type 0 where
  pub within : r < m
  pub is_free : t r ≡ 0
  pub before : On a r z
  pub full : (x : ℕ) → x < m → On a x r → x ≢ r → t x ≢ 0

pub first_free-First :
    (fuel m : ℕ) (t : Table) (a d z : ℕ)
    → a < m
    → z < m
    → Behind m a d z
    → d < m
    → d < fuel
    → t z ≡ 0
    → First m t a z (first_free fuel m t a)
unfolding first_free
first_free-First zero m t a d z la lz at ld lf e = absurd (omega arith)
first_free-First (suc fuel) m t a d z la lz at ld lf e = elim (Bool-cases (t a == 0)) [
  | inl h ↦
      let empty : t a ≡ 0 = ground (arith, h) in
      rw h (record {
        within = la;
        is_free = empty;
        before = omega arith;
        full = λ x lx on ne. absurd (omega (arith, on, ne));
      })
  | inr h ↦
      let apart : a ≢ z = λ q. true≢false (sym (ground (arith, ap t q, e)) ∙ h) in
      let s = next_slot-Steps m a la in
      let r =
        first_free-First fuel m t (next_slot m a) (d - 1) z (omega (arith, s, la)) lz
          (omega (arith, s, apart, la, lz)) (omega (arith, ld)) (omega (arith, lf, at, apart)) e in
      rw h (record {
        within = r.within;
        is_free = r.is_free;
        before = On-back s la lz r.within r.before apart;
        full = λ x lx on ne. elim (eq-or x a) [
          | inl q ↦ λ zero_there. true≢false (sym (ground (arith, ap t q, zero_there)) ∙ h)
          | inr q ↦
              r.full x lx
                (On-step s la r.within lx on
                  (λ p. true≢false (sym (ground (arith, ap t p, r.is_free)) ∙ h)) q)
                ne
        ];
      })
]

-- `x` is not met on the way from `a` to `b`.
abbrev Off : ℕ → ℕ → ℕ → Type 0
Off a x b = ((a ≤ b) × ((x < a) ⊎ (b < x))) ⊎ ((b < a) × (x < a) × (b < x))

On-or : (a x b : ℕ) → On a x b ⊎ Off a x b
On-or a x b =
    let side : (a ≤ b) ⊎ (b < a) = omega arith in
    let left : (a ≤ x) ⊎ (x < a) = omega arith in
    let right : (x ≤ b) ⊎ (b < x) = omega arith in
    elim side [
      | inl le ↦ elim left [
        | inl l ↦ elim right [ inl r ↦ inl (inl (le, l, r)) | inr r ↦ inr (inl (le, inr r)) ]
        | inr l ↦ inr (inl (le, inl l))
      ]
      | inr lt ↦ elim left [
        | inl l ↦ inl (inr (lt, inl l))
        | inr l ↦ elim right [ inl r ↦ inl (inr (lt, inr r)) | inr r ↦ inr (inr (lt, l, r)) ]
      ]
    ]

pub On-last : (a b : ℕ) → On a b b
On-last a b =
    let side : (a ≤ b) ⊎ (b < a) = omega arith in
    elim side [ inl le ↦ inl (le, le, omega arith) | inr lt ↦ inr (lt, inr (omega arith)) ]

-- A way through the slot `a` up to `s`: `s` is met from `a` up to `j`, or the slot after `j` is on the way.
pub On-beyond :
    {m a j j' p s : ℕ}
    → Steps m j j'
    → a < m
    → j < m
    → s < m
    → p < m
    → On p a s
    → s ≢ a
    → On a s j ⊎ ((j' ≢ a) × On p j' s)
On-beyond {a} {j} {j'} {p} {s} st la lj ls lp on ne = elim (On-or a s j) [
  | inl near ↦ inl near
  | inr far ↦
      let side : (p ≤ s) ⊎ ((s < p) × ((p ≤ j') ⊎ (j' < p))) = omega arith in
      inr (
        omega arith,
        elim side [
          | inl le ↦ inl (le, omega arith, omega arith)
          | inr (lt, inl h) ↦ inr (lt, inl h)
          | inr (lt, inr h) ↦ inr (lt, inr (omega arith))
        ],
      )
]

-- The way from `a` up to the slot after `j`.
pub On-next_slot :
    {m a j j' x : ℕ} → Steps m j j' → a < m → j < m → x < m → j' ≢ a → On a x j' → x ≢ j' → On a x j
On-next_slot st la lj lx ne on ne' = omega arith

-- The slot before the end of the way is nearer to it.
pub Behind-next_slot :
    {m j j' d z : ℕ}
    → Steps m j j'
    → j < m
    → z < m
    → Behind m j d z
    → d < m
    → j ≢ z
    → Behind m j' (d - 1) z
Behind-next_slot st lj lz at ld ne = omega arith

pub On-first : (a b : ℕ) → On a a b
On-first a b =
    let side : (a ≤ b) ⊎ (b < a) = omega arith in
    elim side [ inl le ↦ inl (le, omega arith, le) | inr lt ↦ inr (lt, inl (omega arith)) ]

pub next_slot-within : (m s : ℕ) → s < m → next_slot m s < m
next_slot-within m s lt = omega (arith, next_slot-Steps m s lt)
