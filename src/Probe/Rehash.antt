-- ===== src/Probe/Rehash.antt =====
-- The rehashing of the slots behind a cleared one, up to the next free slot.
use leech_core.Base.{
  ℕ, zero, suc, ◌-◌, ◌≤◌, ◌<◌, ◌≡◌, ◌≢◌, ◌⊎◌, inl, inr, ◌∙◌, ap, sym, subst, fun_ext, arith,
  Bool-cases, ◌==◌,
}
use leech_core.Probe.{Table, Hashing, next_slot, write, first_free, insert, rehash}
use leech_core.Probe.Cycle.{
  On, Behind, next_slot-Steps, First, first_free-First, eq-or, On-beyond, On-next_slot, On-last,
  next_slot-within, Behind-next_slot,
}
use leech_core.Probe.Contents.{Contents, Contents-move, write-same, write-other, write-full}
use leech_core.Probe.Paths.{Live, PathTo, Holds, Behind-from}

-- The rehashing at the slot `j`, `d` slots before the free slot `z`: `hole` is free, and the entries
-- behind it up to `j` are found without it.
pub record Mid (h : Hashing) (P : ℕ → Type 0) (n hole j d z : ℕ) (t : Table) : Type 0 where
  pub contents : Contents h.size P n t
  pub live : (i : ℕ) → P i → Live h i
  pub hole_within : hole < h.size
  pub within : j < h.size
  pub is_free : t hole ≡ 0
  pub full : (x : ℕ) → x < h.size → On hole x j → x ≢ hole → t x ≢ 0
  pub paths : (s : ℕ) → s < h.size → t s ≢ 0 → PathTo h t (λ x. x ≡ hole) s
  pub passed : (s : ℕ) → s < h.size → On hole s j → s ≢ hole → (On (h.preferred (t s)) hole s → ⊥)
  pub end_within : z < h.size
  pub end_apart : z ≢ hole
  pub end_free : t z ≡ 0
  pub left : Behind h.size j d z
  pub few : d < h.size

module _ {h : Hashing} {P : ℕ → Type 0} {n hole j d z : ℕ} {t : Table}
    (mid : Mid h P n hole j d z t) where
  -- The rehashing ends at a free slot.
  Mid-end : t (next_slot h.size j) ≡ 0 → Holds h P n t
  Mid-end at_end = record {
    contents = mid.contents;
    live = mid.live;
    paths = λ s ls full x lx on _. elim (eq-or x hole) [
      | inl q ↦
          let step = next_slot-Steps h.size j mid.within in
          let through : On (h.preferred (t s)) hole s =
            subst (λ y. On (h.preferred (t s)) y s) q on in
          let apart : s ≢ hole = λ w. full (ap t w ∙ mid.is_free) in
          let from = (mid.live (t s) (mid.contents.inside s ls full)).within in
          elim (On-beyond step mid.hole_within mid.within ls from through apart) [
            | inl near ↦ absurd (mid.passed s ls near apart through)
            | inr (beyond, on') ↦ absurd (
                mid.paths s ls full (next_slot h.size j) (next_slot-within h.size j mid.within) on'
                  beyond at_end)
          ]
      | inr ne ↦ mid.paths s ls full x lx on ne
    ];
  }

  Mid-apart : j ≢ z
  Mid-apart q =
      mid.full z mid.end_within (subst (λ y. On hole z y) (sym q) (On-last hole z)) mid.end_apart
        mid.end_free

  module _ (full_next : t (next_slot h.size j) ≢ 0) where
    Mid-stay :
        (On (h.preferred (t (next_slot h.size j))) hole (next_slot h.size j) → ⊥)
        → Mid h P n hole (next_slot h.size j) (d - 1) z t
    Mid-stay not_through =
        let step = next_slot-Steps h.size j mid.within in
        let lj' = next_slot-within h.size j mid.within in
        let j' = next_slot h.size j in
        let apart : j' ≢ hole = λ q. full_next (ap t q ∙ mid.is_free) in
        record {
          contents = mid.contents;
          live = mid.live;
          hole_within = mid.hole_within;
          within = lj';
          is_free = mid.is_free;
          full = λ x lx on ne. elim (eq-or x j') [
            | inl q ↦ λ zz. full_next (sym (ap t q) ∙ zz)
            | inr ne' ↦
                mid.full x lx (On-next_slot step mid.hole_within mid.within lx apart on ne') ne
          ];
          paths = mid.paths;
          passed = λ s ls on ne. elim (eq-or s j') [
            | inl q ↦ subst (λ y. On (h.preferred (t y)) hole y → ⊥) (sym q) not_through
            | inr ne' ↦
                mid.passed s ls (On-next_slot step mid.hole_within mid.within ls apart on ne') ne
          ];
          end_within = mid.end_within;
          end_apart = mid.end_apart;
          end_free = mid.end_free;
          left = Behind-next_slot step mid.within mid.end_within mid.left mid.few Mid-apart;
          few = omega (arith, mid.few);
        }

    abbrev cleared_next : Table
    cleared_next = write t (next_slot h.size j) 0

    -- The entry goes back to where it was, or into the hole.
    Mid-First :
        First h.size cleared_next
          (h.preferred (t (next_slot h.size j)))
          (next_slot h.size j)
          (first_free h.size h.size cleared_next (h.preferred (t (next_slot h.size j))))
    Mid-First =
        let j' = next_slot h.size j in
        let lj' = next_slot-within h.size j mid.within in
        let l = mid.live (t j') (mid.contents.inside j' lj' full_next) in
        let (dist, behind, few) = Behind-from h.size (h.preferred (t j')) j' l.within lj' in
        first_free-First h.size h.size cleared_next (h.preferred (t j')) dist j' l.within lj' behind
          few few (write-same t j' 0)

    -- Where the entry goes when it is inserted again.
    Mid-goes :
        (r : ℕ)
        → First h.size cleared_next (h.preferred (t (next_slot h.size j))) (next_slot h.size j) r
        → (r ≡ hole)
          ⊎ ((r ≡ next_slot h.size j)
              × (On (h.preferred (t (next_slot h.size j))) hole (next_slot h.size j) → ⊥))
    Mid-goes r first =
        let j' = next_slot h.size j in
        let lj' = next_slot-within h.size j mid.within in
        let apart : hole ≢ j' = λ q. full_next (sym (ap t q) ∙ mid.is_free) in
        elim (eq-or r hole) [
          | inl q ↦ inl q
          | inr ne ↦ elim (eq-or r j') [
            | inl q ↦
                let passes : On (h.preferred (t j')) hole j' → ⊥ = λ on.
                  first.full hole mid.hole_within (subst (On _ hole) (sym q) on) (λ w. ne (sym w))
                    (write-other t j' 0 apart ∙ mid.is_free) in
                inr (q, passes)
            | inr ne' ↦ absurd (
                mid.paths j' lj' full_next r first.within first.before ne
                  (sym (write-other t j' 0 ne') ∙ first.is_free))
          ]
        ]

    Mid-fill :
        First h.size cleared_next (h.preferred (t (next_slot h.size j))) (next_slot h.size j) hole
        → Mid h P n
            (next_slot h.size j)
            (next_slot h.size j)
            (d - 1)
            z
            (write cleared_next hole (t (next_slot h.size j)))
    Mid-fill first =
        let step = next_slot-Steps h.size j mid.within in
        let j' = next_slot h.size j in
        let lj' = next_slot-within h.size j mid.within in
        let apart : hole ≢ j' = λ q. full_next (sym (ap t q) ∙ mid.is_free) in
        let after = write cleared_next hole (t j') in
        let elsewhere : (x : ℕ) → x ≢ hole → x ≢ j' → after x ≡ t x =
          λ x ne ne'. write-other cleared_next hole (t j') ne ∙ write-other t j' 0 ne' in
        let end_apart : z ≢ j' = λ q. full_next (ap t (sym q) ∙ mid.end_free) in
        let kept : (x : ℕ) → x ≢ j' → (x ≢ hole → t x ≢ 0) → after x ≢ 0 = λ x ne' f.
          write-full cleared_next hole (t j') full_next
            (λ ne zz. f ne (sym (write-other t j' 0 ne') ∙ zz)) in
        record {
          contents = Contents-move mid.contents j' hole lj' mid.hole_within full_next first.is_free;
          live = mid.live;
          hole_within = lj';
          within = lj';
          is_free = write-other cleared_next hole (t j') (λ q. apart (sym q)) ∙ write-same t j' 0;
          full = λ x lx on ne. absurd (omega (arith, on, ne));
          paths = λ s ls full x lx on ne'. kept x ne' (elim (eq-or s hole) [
            | inl q ↦ λ ne zz.
                let it : after s ≡ t j' = ap after q ∙ write-same cleared_next hole (t j') in
                first.full x lx (subst (λ i. On (h.preferred i) x hole) it (subst (On _ x) q on)) ne
                  (write-other t j' 0 ne' ∙ zz)
            | inr ns ↦ λ ne.
                let ns' : s ≢ j' = λ q. full (
                  ap after q
                  ∙ write-other cleared_next hole (t j') (λ w. apart (sym w))
                  ∙ write-same t j' 0) in
                let same = elsewhere s ns ns' in
                mid.paths s ls (λ zz. full (same ∙ zz)) x lx
                  (subst (λ i. On (h.preferred i) x s) same on) ne
          ]);
          passed = λ s ls on ne. absurd (omega (arith, on, ne));
          end_within = mid.end_within;
          end_apart = end_apart;
          end_free = elsewhere z mid.end_apart end_apart ∙ mid.end_free;
          left = Behind-next_slot step mid.within mid.end_within mid.left mid.few Mid-apart;
          few = omega (arith, mid.few);
        }

pub rehash-Holds :
    {h : Hashing} {P : ℕ → Type 0} {n : ℕ} (fuel hole j d z : ℕ) (t : Table)
    → Mid h P n hole j d z t
    → d ≤ fuel
    → Holds h P n (rehash fuel h t j)
unfolding rehash insert
rehash-Holds zero hole j d z t mid le =
    absurd (Mid-apart mid (omega (arith, mid.left, le, mid.within, mid.end_within)))
rehash-Holds {h} {P} {n} (suc fuel) hole j d z t mid le =
    let j' = next_slot h.size j in
    let more : d - 1 ≤ fuel = omega arith in
    elim (Bool-cases (t j' == 0)) [
      | inl e ↦ rw e (Mid-end mid (ground (arith, e)))
      | inr e ↦
          let full : t j' ≢ 0 = ground (arith, e) in
          rw e (elim (Bool-cases (j' == h.preferred (t j'))) [
            | inl at_home ↦
                let home : j' ≡ h.preferred (t j') = ground (arith, at_home) in
                let apart : hole ≢ j' = λ q. full (sym (ap t q) ∙ mid.is_free) in
                rw at_home (
                  rehash-Holds fuel hole j' (d - 1) z t
                    (Mid-stay mid full (λ on. apart (omega (arith, on, home)))) more)
            | inr away ↦
                let l =
                  mid.live (t j')
                    (mid.contents.inside j' (next_slot-within h.size j mid.within) full) in
                let first = Mid-First mid full in
                rw away (
                  rw l.inserts (
                    rw l.cast (elim (Mid-goes mid full _ first) [
                      | inl q ↦ rw q (
                          rehash-Holds fuel j' j' (d - 1) z _
                            (Mid-fill mid full (subst (First _ _ _ _) q first)) more)
                      | inr (q, clear) ↦
                          let back : write (write t j' 0) j' (t j') ≡ t = fun_ext (λ x.
                            elim (eq-or x j') [
                              | inl w ↦
                                  ap (write (write t j' 0) j' (t j')) w
                                  ∙ write-same (write t j' 0) j' (t j')
                                  ∙ ap t (sym w)
                              | inr w ↦
                                  write-other (write t j' 0) j' (t j') w ∙ write-other t j' 0 w
                            ]) in
                          rw q (
                            rw back (
                              rehash-Holds fuel hole j' (d - 1) z t (Mid-stay mid full clear) more))
                    ])))
          ])
    ]
