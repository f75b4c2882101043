-- ===== src/ObMap/Taken.antt =====
-- leechcore/ob/ob_map.c: the removal of an entry, as a whole.
use leech_core.Base.{
  ℕ, ◌-◌, ◌<◌, ◌≡◌, ◌⊎◌, inl, inr, refl, ◌∙◌, ap, arith, true, false, ltb, if◌then◌else◌, Option,
  some, sub32,
}
use leech_core.Probe.{Table}
use leech_core.ObMap.{ObMap, entry_at, set_entry}
use leech_core.ObMap.Change.{
  and_then, unhash, rehash_entry, move_last, Removal, remove_entry_at, remove_entry,
}
use leech_core.ObMap.Both.{Both, Without, with_both, rehash_entry-Both, if_yes, if_no}
use leech_core.ObMap.Valid.{MapValid, MapUsed, get_from_index-used}
use leech_core.ObMap.Take.{
  Takes, less_c, slots, first_unhashed, take_last, replaced, second_unhashed, replaced-Both,
  take_inner,
}

module _ {m : ObMap} (valid : MapValid m) (i : ℕ) (used : MapUsed m.c i) where
  -- The end of the removal, on the map whose tables are without the entry.
  abbrev rest_of : ObMap → Option Removal
  rest_of m1 =
      and_then (if ltb i (sub32 m1.c 1) then move_last m1 i else some m1)
        (λ m2. some (some (entry_at m i), record m2 { c = sub32 m2.c 1 }))

  taken_last :
      (hk hv : Table)
      → i ≡ m.c - 1
      → Both m (Without (MapUsed m.c) i) (m.c - 2) hk hv
      → (m' : ObMap) × (rest_of (with_both m hk hv) ≡ some (some (entry_at m i), m')) × Takes m i m'
  taken_last hk hv last both =
      let stop : ltb i (sub32 m.c 1) ≡ false = ground (arith, last, less_c valid i used) in
      let m1 = with_both m hk hv in
      (
        record m1 { c = sub32 m.c 1 },
        ap
            (λ o.
              and_then o
                (λ (m2 : ObMap). some (some (entry_at m i), record m2 { c = sub32 m2.c 1 })))
            (if_no (move_last m1 i) stop),
        take_last valid i used hk hv last both,
      )

  taken_inner :
      (hk hv : Table)
      → i < m.c - 1
      → Both m (Without (MapUsed m.c) i) (m.c - 2) hk hv
      → (m' : ObMap) × (rest_of (with_both m hk hv) ≡ some (some (entry_at m i), m')) × Takes m i m'
  unfolding move_last
  taken_inner hk hv inner both =
      let less = less_c valid i used in
      let more : ltb i (sub32 m.c 1) ≡ true = ground (arith, inner, less) in
      let (lo, hi) = used in
      let m1 = with_both m hk hv in
      let (hk2, hv2, it, held) = second_unhashed valid i used inner hk hv both in
      let there = replaced-Both valid i used inner hk2 hv2 held in
      let (hk3, hv3, it3, both3) =
        rehash_entry-Both there (omega (arith, slots valid i used)) i (omega (arith, lo))
          (λ ((_, ne), _). ne refl) in
      let end : move_last m1 i ≡ some (with_both (replaced valid i used) hk3 hv3) =
        ap
          (λ l.
            and_then (unhash m1 (entry_at m l) l)
              (λ (m' : ObMap). some (rehash_entry (set_entry m' i (entry_at m l)) i)))
          less
        ∙ ap
            (λ o.
              and_then o
                (λ (m' : ObMap). some (rehash_entry (set_entry m' i (entry_at m (m.c - 1))) i)))
            it
        ∙ ap some it3 in
      (
        record (with_both (replaced valid i used) hk3 hv3) { c = sub32 m.c 1 },
        ap
            (λ o.
              and_then o
                (λ (m2 : ObMap). some (some (entry_at m i), record m2 { c = sub32 m2.c 1 })))
            (if_yes (some m1) more ∙ end),
        take_inner valid i used inner hk2 hv2 hk3 hv3 both3,
      )

-- The removal of an index in use from a valid map ends, and gives the entry there. The map stays
-- valid, has one entry less, and its last entry stands where the removed one stood.
pub remove_entry-Takes :
    {m : ObMap}
    → MapValid m
    → (i : ℕ) → MapUsed m.c i
    → (m' : ObMap) × (remove_entry m i ≡ some (some (entry_at m i), m')) × Takes m i m'
unfolding remove_entry
remove_entry-Takes {m} valid i used =
    let (hk, hv, it, both) = first_unhashed valid i used in
    let (lo, hi) = used in
    let side : (i ≡ m.c - 1) ⊎ (i < m.c - 1) = omega (arith, lo, hi) in
    let start : remove_entry m i ≡ rest_of valid i used (with_both m hk hv) =
      ap (remove_entry_at m i) (get_from_index-used m i used)
      ∙ ap (λ o. and_then o (rest_of valid i used)) it in
    elim side [
      | inl last ↦
          let (m', end, takes) = taken_last valid i used hk hv last both in (m', start ∙ end, takes)
      | inr inner ↦
          let (m', end, takes) = taken_inner valid i used hk hv inner both in
          (m', start ∙ end, takes)
    ]
