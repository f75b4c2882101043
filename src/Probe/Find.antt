-- ===== src/Probe/Find.antt =====
-- The search of an entry.
use leech_core.Base.{
  ℕ, zero, suc, ◌-◌, ◌<◌, ◌≡◌, ◌≢◌, inl, inr, refl, ◌∙◌, ap, sym, subst, arith, Bool, true, false,
  Bool-cases, true≢false, ◌==◌,
}
use leech_core.Probe.{Table, Hashing, next_slot, found, absent, seek}
use leech_core.Probe.Cycle.{
  On, Behind, next_slot-Steps, next_slot-within, On-back, On-first, Behind-next_slot,
}
use leech_core.Probe.Contents.{Contents-room}
use leech_core.Probe.Paths.{Holds, Behind-from}

seek-hit :
    (fuel m : ℕ) (t : Table) (test : ℕ → Bool) (a d s : ℕ)
    → a < m
    → s < m
    → Behind m a d s
    → d < m
    → d < fuel
    → ((x : ℕ) → x < m → On a x s → t x ≢ 0)
    → test (t s) ≡ true
    → ((x : ℕ) → x < m → t x ≢ 0 → test (t x) ≡ true → x ≡ s)
    → seek fuel m t test a ≡ found (t s) s
unfolding seek
seek-hit zero m t test a d s la ls at ld lf full is only = absurd (omega arith)
seek-hit (suc fuel) m t test a d s la ls at ld lf full is only =
    let full_a : t a ≢ 0 = full a la (On-first a s) in
    let skip : (t a == 0) ≡ false = ground (arith, full_a) in
    rw skip (elim (Bool-cases (test (t a))) [
      | inl e ↦ rw e (ap (λ x. found (t x) x) (only a la full_a e))
      | inr e ↦
          let apart : a ≢ s = λ q. true≢false (sym is ∙ ap (λ x. test (t x)) (sym q) ∙ e) in
          let step = next_slot-Steps m a la in
          rw e (
            seek-hit fuel m t test (next_slot m a) (d - 1) s (next_slot-within m a la) ls
              (Behind-next_slot step la ls at ld apart) (omega (arith, ld))
              (omega (arith, lf, at, apart, ls, la))
              (λ x lx on. full x lx (On-back step la ls lx on apart)) is only)
    ])

seek-miss :
    (fuel m : ℕ) (t : Table) (test : ℕ → Bool) (a d z : ℕ)
    → a < m
    → z < m
    → Behind m a d z
    → d < m
    → d < fuel
    → t z ≡ 0
    → ((x : ℕ) → x < m → t x ≢ 0 → test (t x) ≡ false)
    → seek fuel m t test a ≡ absent
unfolding seek
seek-miss zero m t test a d z la lz at ld lf e none_passes = absurd (omega arith)
seek-miss (suc fuel) m t test a d z la lz at ld lf e none_passes = elim (Bool-cases (t a == 0)) [
  | inl h ↦ rw h refl
  | inr h ↦
      let full_a : t a ≢ 0 = ground (arith, h) in
      let apart : a ≢ z = λ q. full_a (ap t q ∙ e) in
      let step = next_slot-Steps m a la in
      rw h (
        rw (none_passes a la full_a) (
          seek-miss fuel m t test (next_slot m a) (d - 1) z (next_slot-within m a la) lz
            (Behind-next_slot step la lz at ld apart) (omega (arith, ld))
            (omega (arith, lf, at, apart, lz, la)) e none_passes))
]

module _ {h : Hashing} {P : ℕ → Type 0} {n : ℕ} {t : Table} (c : Holds h P n t)
    (test : ℕ → Bool) where
  -- The entry that passes the test is found, when no other entry does.
  pub seek-found :
      (e : ℕ)
      → P e
      → test e ≡ true
      → ((i : ℕ) → P i → test i ≡ true → i ≡ e)
      → (s : ℕ) × (s < h.size) × (t s ≡ e) × (seek h.size h.size t test (h.preferred e) ≡ found e s)
  seek-found e p is only =
      let (s, ls, at) = c.contents.placed e p in
      let l = c.live e p in
      let full : t s ≢ 0 = λ zz. c.contents.nonzero e p (sym at ∙ zz) in
      let (d, behind, few) = Behind-from h.size (h.preferred e) s l.within ls in
      let path : (x : ℕ) → x < h.size → On (h.preferred e) x s → t x ≢ 0 = λ x lx on.
        c.paths s ls full x lx (subst (λ i. On (h.preferred i) x s) (sym at) on) (λ b. b) in
      let hit =
        seek-hit h.size h.size t test (h.preferred e) d s l.within ls behind few few path
          (ap test at ∙ is)
          (λ x lx f passes.
            c.contents.once x s lx ls f (only (t x) (c.contents.inside x lx f) passes ∙ sym at)) in
      (s, ls, at, hit ∙ ap (λ i. found i s) at)

  -- Nothing is found when no entry passes the test.
  pub seek-absent :
      n < h.size
      → ((i : ℕ) → P i → test i ≡ false)
      → (a : ℕ) → a < h.size
      → seek h.size h.size t test a ≡ absent
  seek-absent room none_passes a la =
      let (z, lz, at) = Contents-room c.contents room in
      let (d, behind, few) = Behind-from h.size a z la lz in
      seek-miss h.size h.size t test a d z la lz behind few few at
        (λ x lx f. none_passes (t x) (c.contents.inside x lx f))
