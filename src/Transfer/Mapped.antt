-- ===== src/Transfer/Mapped.antt =====
-- The pages of a call of `LcRead` that lie in one range of the memory map, before and after the
-- translation.
use leech_core.Base.{
  ℕ, zero, suc, ◌+◌, ◌-◌, ◌*◌, ◌≡◌, ◌≢◌, ◌≤◌, ◌<◌, inl, inr, refl, ◌∙◌, ap, ap₂, arith, List, [],
  ◌∷◌, All, All₂, tabulate, map-tabulate, All-tabulate, qword, qword_max,
}
use leech_core.MemScatter.{Mem, stack_push}
use leech_core.MemMap.{Entry, MemMap, entry}
use leech_core.MemMap.Order.{IsValid}
use leech_core.MemMap.Translate.{shift, translate_mems}
use leech_core.MemMap.Translate.Correct.{Covers, Translates, Translates-unique}
use leech_core.MemMap.Translate.Chunks.{IsRequest, Moved, translate_mems-Moved}
use leech_core.Scatter.{save, translated}
use leech_core.Transfer.{ReadCall, c_mems, pa_base}
use leech_core.Transfer.Pages.{page}

-- Range `i` of a valid memory map holds all the pages of a request, and ends below 2^64 at its place in
-- the device.
pub record IsMapped (m : MemMap) (r : ReadCall) (i : ℕ) : Type 0 where
  pub valid : IsValid m
  pub inside : i < m.c_mem_map
  pub starts : (entry m i).pa ≤ pa_base r
  pub ends : pa_base r + c_mems r * 0x1000 ≤ (entry m i).pa + (entry m i).cb
  pub place_ends : (entry m i).pa_remap + (entry m i).cb < qword

-- Within a range an address moves by a fixed distance.
pub shift-add :
    (e : Entry) (q k : ℕ)
    → e.pa ≤ q
    → q + k ≤ e.pa + e.cb
    → e.pa + e.cb < qword
    → e.pa_remap + e.cb < qword
    → shift e (q + k) ≡ e.pa_remap + (q - e.pa) + k
shift-add e q k lo hi words place = omega arith

module _ (m : MemMap) (r : ReadCall) (i : ℕ) (mapped : IsMapped m r i) where
  abbrev pub range : Entry
  range = entry m i

  -- A page's chunk with its address kept on its stack, and the same after the translation.
  abbrev pub saved : ℕ → Mem
  saved j = save (page r j)

  abbrev pub moved : ℕ → Mem
  moved j = record (saved j) { qw_a = shift range (page r j).qw_a }

  pub shift-page :
      (j k : ℕ)
      → j < c_mems r
      → k ≤ 0x1000
      → shift range ((page r j).qw_a + k) ≡ range.pa_remap + ((page r j).qw_a - range.pa) + k
  shift-page j k lt small =
      shift-add range (page r j).qw_a k (omega (arith, mapped.starts))
        (omega (arith, mapped.ends, lt, small)) (mapped.valid.within i mapped.inside)
        mapped.place_ends

  pub shift-page_start :
      (j : ℕ)
      → j < c_mems r
      → shift range (page r j).qw_a ≡ range.pa_remap + ((page r j).qw_a - range.pa)
  shift-page_start j lt =
      let none_more : (page r j).qw_a ≡ (page r j).qw_a + 0 = omega arith in
      ap (shift range) none_more ∙ shift-page j 0 lt (omega arith) ∙ omega arith

  Covers-page : (j : ℕ) → j < c_mems r → Covers range (saved j).qw_a (saved j).cb
  unfolding stack_push
  Covers-page j lt = (omega (arith, mapped.starts), omega (arith, mapped.ends, lt))

  unfolds-saved : (j : ℕ) → ((saved j).qw_a ≡ (page r j).qw_a) × ((saved j).cb ≡ 0x1000)
  unfolding stack_push
  unfolds-saved j = (refl, refl)

  page-moved : (j : ℕ) (mem : Mem) → j < c_mems r → Moved m (saved j) mem → mem ≡ moved j
  page-moved j mem lt (frame, to) =
      let (at, size) = unfolds-saved j in
      let words = mapped.valid.within i mapped.inside in
      let c = Covers-page j lt in
      let valid : (saved j).qw_a ≢ qword_max = λ e. omega (arith, e, c, size, words) in
      elim to [
        | inl (e, _) ↦ absurd (valid e)
        | inr t ↦
            let same =
              Translates-unique mapped.valid (omega (arith, size)) (omega (arith, c, words)) t
                (Translates.mapped i mapped.inside c refl) in
            frame ∙ ap (λ a. record (saved j) { qw_a = a }) (same ∙ ap (shift range) at)
      ]

  pages-moved :
      (k j : ℕ) (mems : List Mem)
      → j + k ≤ c_mems r
      → All₂ (Moved m) (tabulate saved j k) mems
      → mems ≡ tabulate moved j k
  pages-moved zero j [] le h = refl
  pages-moved zero j (mem ∷ mems) le h = elim h [ ]
  pages-moved (suc k) j [] le h = elim h [ ]
  pages-moved (suc k) j (mem ∷ mems) le (h, hs) =
      ap₂ (λ x xs. x ∷ xs) (page-moved j mem (omega arith) h)
        (pages-moved k (suc j) mems (omega arith) hs)

  pub translated-pages : translated m (tabulate (page r) 0 (c_mems r)) ≡ tabulate moved 0 (c_mems r)
  translated-pages =
      let words = mapped.valid.within i mapped.inside in
      let request : All IsRequest (tabulate saved 0 (c_mems r)) =
        All-tabulate IsRequest saved 0 (c_mems r) (λ j lo hi.
          let (at, size) = unfolds-saved j in
          let c = Covers-page j (omega (arith, hi)) in
          inr (omega (arith, size), omega (arith, c, words))) in
      ap (translate_mems m) (map-tabulate save (page r) 0 (c_mems r))
      ∙ pages-moved (c_mems r) 0 (translate_mems m (tabulate saved 0 (c_mems r))) (omega arith) (
          translate_mems-Moved mapped.valid (tabulate saved 0 (c_mems r))
            (omega (arith, mapped.inside)) request)
