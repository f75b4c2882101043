-- ===== src/Probe/Clear.antt =====
-- The removal of an entry: the slots behind the cleared one are rehashed up to the next free slot.
use leech_core.Base.{ℕ, suc, ◌<◌, ◌≡◌, ◌≢◌, ◌∙◌, ap, sym, subst, arith}
use leech_core.Probe.{Table, Hashing, write, clear_slot}
use leech_core.Probe.Cycle.{On}
use leech_core.Probe.Contents.{Contents, Contents-clear, Contents-room, write-same, write-other}
use leech_core.Probe.Paths.{Live, Holds, Behind-from}
use leech_core.Probe.Rehash.{Mid, rehash-Holds}

-- The removal of the entry of a slot leaves the other entries, each where a search finds it, under
-- a hashing that is still that of the other entries.
pub clear_slot-Holds :
    {h : Hashing} {P : ℕ → Type 0} {n : ℕ} {t : Table}
    → Holds h P (suc n) t
    → suc n < h.size
    → (s : ℕ) → s < h.size
    → t s ≢ 0
    → (h' : Hashing) → h'.size ≡ h.size
    → ((i : ℕ) → P i → i ≢ t s → Live h' i)
    → ((i : ℕ) → P i → i ≢ t s → h'.preferred i ≡ h.preferred i)
    → Holds h' (λ i. P i × (i ≢ t s)) n (clear_slot h' t s)
unfolding clear_slot
clear_slot-Holds {h} {P} {n} {t} c room s ls full h' size live same_preferred =
    let (z, lz, at) = Contents-room c.contents room in
    let apart : z ≢ s = λ q. full (sym (ap t q) ∙ at) in
    let (d, behind, few) = Behind-from h.size s z ls lz in
    let old : (x : ℕ) → write t s 0 x ≢ 0 → x ≢ s =
      λ x f q. f (ap (write t s 0) q ∙ write-same t s 0) in
    let cleared = Contents-clear c.contents s ls full in
    let mid : Mid h' (λ i. P i × (i ≢ t s)) n s s d z (write t s 0) = record {
      contents = subst (λ m. Contents m (λ i. P i × (i ≢ t s)) n (write t s 0)) (sym size) cleared;
      live = λ i (p, ne). live i p ne;
      hole_within = omega (arith, ls, size);
      within = omega (arith, ls, size);
      is_free = write-same t s 0;
      full = λ x lx on ne. absurd (omega (arith, on, ne));
      paths = λ x lx f y ly on ne.
          let same = write-other t s 0 (old x f) in
          let (p, other) = cleared.inside x (omega (arith, lx, size)) f in
          let preferred = same_preferred (write t s 0 x) p other ∙ ap h.preferred same in
          λ zz.
            c.paths x (omega (arith, lx, size)) (λ w. f (same ∙ w)) y (omega (arith, ly, size))
              (subst (λ a. On a y x) preferred on) (λ b. b) (sym (write-other t s 0 ne) ∙ zz);
      passed = λ x lx on ne. absurd (omega (arith, on, ne));
      end_within = omega (arith, lz, size);
      end_apart = apart;
      end_free = write-other t s 0 apart ∙ at;
      left = omega (arith, behind, size);
      few = omega (arith, few, size);
    } in
    rehash-Holds h'.size s s d z (write t s 0) mid (omega (arith, few, size))
