-- ===== src/MemMap/Rebuild.antt =====
-- `LcMemMap_SetRangesFromStruct` and its inverse `LcMemMap_GetRangesAsStruct`.
use leech_core.Base.{
  ℕ, zero, suc, ◌+◌, ◌-◌, ◌%◌, ◌≤◌, ◌<◌, ◌≡◌, inl, inr, refl, sym, ap, ◌∙◌, arith, true, false,
  List, [], ◌∷◌, ◌++◌, length, map, take, get_or, append_assoc, append-nil, length-append,
  length-take, qword, some, ltb,
}
use leech_core.MemMap.{
  Entry, zero_entry, MemMap, entry, ranges, trim, add_range, add_ranges, set_ranges_from_struct,
  get_ranges_as_struct,
}
use leech_core.MemMap.Order.{IsValid}
use leech_core.MemMap.Store.{fresh, IsClear}
use leech_core.MemMap.Add.{add_range-IsValid, add_range-accepts}

-- A range as its addition stores it: a remap address of 0 becomes the range's own address, and another
-- one loses the bit of LC_MEMMAP_FORCE_OFFSET.
abbrev pub as_added : Entry → Entry
as_added e = fresh e.pa e.cb e.pa_remap

-- Ranges that a memory map can hold, from `lo` up: whole pages, ascending and disjoint, and within the
-- address space.
abbrev pub Follows : ℕ → List Entry → Type 0
Follows lo [] = Unit {0}
Follows lo (e ∷ es) =
    (lo ≤ e.pa)
    × ((e.pa % 0x1000 ≡ 0) × (e.cb % 0x1000 ≡ 0))
    × (e.pa + e.cb < qword)
    × Follows (e.pa + e.cb) es

module _ {ℓ} {A : Type ℓ} where
  get_or-take : (n i : ℕ) (xs : List A) (d : A) → i < n → get_or (take n xs) i d ≡ get_or xs i d
  get_or-take zero i xs d h = absurd (omega arith)
  get_or-take (suc n) i [] d h = refl
  get_or-take (suc n) zero (x ∷ xs) d h = refl
  get_or-take (suc n) (suc i) (x ∷ xs) d h = get_or-take n i xs d (omega arith)

  get_or-append_last : (xs : List A) (x d : A) → get_or (xs ++ (x ∷ [])) (length xs) d ≡ x
  get_or-append_last [] x d = refl
  get_or-append_last (y ∷ xs) x d = get_or-append_last xs x d

length-ranges : {m : MemMap} → IsValid m → length (ranges m) ≡ m.c_mem_map
length-ranges {m} v = omega (arith, length-take m.c_mem_map m.p_mem_map, v.fits, v.room)

-- The end of the last range is what the next addition is held against.
IsClear-last :
    {m : MemMap} (rs : List Entry) (e : Entry)
    → IsValid m
    → ranges m ≡ rs ++ (e ∷ [])
    → e.pa + e.cb < qword
    → IsClear m (e.pa + e.cb)
IsClear-last {m} rs e v h ends =
    let n : m.c_mem_map ≡ length rs + 1 =
      sym (length-ranges v) ∙ ap length h ∙ length-append rs (e ∷ []) in
    let at : m.c_mem_map - 1 ≡ length rs = omega arith in
    let last : entry m (m.c_mem_map - 1) ≡ e =
      sym (get_or-take m.c_mem_map (m.c_mem_map - 1) m.p_mem_map zero_entry (omega arith))
      ∙ ap (λ (xs : List Entry). get_or xs (m.c_mem_map - 1) zero_entry) h
      ∙ ap (λ (i : ℕ). get_or (rs ++ (e ∷ [])) i zero_entry) at
      ∙ get_or-append_last rs e zero_entry in
    inr (rw last (omega arith))

IsClear-le : (m : MemMap) {lo pa : ℕ} → IsClear m lo → lo ≤ pa → IsClear m pa
IsClear-le m (inl none_yet) h = inl none_yet
IsClear-le m (inr after) h = inr (omega arith)

-- One addition of the loop.
add_range-Follows :
    {m : MemMap} (lo : ℕ) (e : Entry)
    → IsValid m
    → m.c_mem_map < 0x0010_0000
    → IsClear m lo
    → Follows lo (e ∷ [])
    → let m' = (add_range true m e.pa e.cb e.pa_remap).1 in
      IsValid m' × (ranges m' ≡ ranges m ++ (as_added e ∷ []))
add_range-Follows {m} lo e v small clear (above, paged, ends, _) =
    let whole : trim e.cb ≡ e.cb = ground arith in
    let step = add_range-IsValid true v e.pa e.cb e.pa_remap (rw whole ends) in
    let took : (add_range true m e.pa e.cb e.pa_remap).0 ≡ true =
      (add_range-accepts true v e.pa e.cb e.pa_remap).1
        ((paged.0, rw whole paged.1, (small, inr refl)), IsClear-le m clear above) in
    let same : fresh e.pa (trim e.cb) e.pa_remap ≡ as_added e =
      ap (λ (n : ℕ). fresh e.pa n e.pa_remap) whole in
    (step.0, step.1 ∙ rw (took, same))

add_ranges-Follows :
    (es : List Entry) {m : MemMap} (lo : ℕ)
    → IsValid m
    → m.c_mem_map + length es ≤ 0x0010_0000
    → IsClear m lo
    → Follows lo es
    → IsValid (add_ranges true m es) × (ranges (add_ranges true m es) ≡ ranges m ++ map as_added es)
unfolding add_ranges
add_ranges-Follows [] {m} lo v fits clear f = (v, sym (append-nil (ranges m)))
add_ranges-Follows (e ∷ es) {m} lo v fits clear (above, paged, ends, f) =
    let m' = (add_range true m e.pa e.cb e.pa_remap).1 in
    let one = add_range-Follows lo e v (omega arith) clear (above, paged, ends, tt) in
    let count : m'.c_mem_map ≡ m.c_mem_map + 1 =
      sym (length-ranges one.0)
      ∙ ap length one.1
      ∙ length-append (ranges m) (as_added e ∷ [])
      ∙ omega (arith, length-ranges v) in
    let rest =
      add_ranges-Follows es (e.pa + e.cb) one.0 (omega arith)
        (IsClear-last (ranges m) (as_added e) one.0 one.1 ends) f in
    (
      rest.0,
      rest.1
          ∙ ap (λ (rs : List Entry). rs ++ map as_added es) one.1
          ∙ append_assoc (ranges m) (as_added e ∷ []) (map as_added es),
    )

-- The call with ranges of whole pages, ascending, disjoint and within the address space, at most
-- 0x100000 of them, and with memory to grow, replaces all the ranges of a valid map by exactly these,
-- with a remap address of 0 replaced by the range's own address, and any other one without its top bit.
pub set_ranges_from_struct-ranges :
    {m : MemMap} (es : List Entry)
    → IsValid m
    → length es ≤ 0x0010_0000
    → Follows 0 es
    → let (ok, m') = set_ranges_from_struct true m es in
      (ok ≡ true) × IsValid m' × (ranges m' ≡ map as_added es)
unfolding set_ranges_from_struct
set_ranges_from_struct-ranges {m} es v fits f =
    let empty : IsValid (record m { c_mem_map = 0 }) = record {
      fits = omega arith;
      room = v.room;
      some_room = v.some_room;
      limit = omega arith;
      ascending = λ i h. absurd (omega arith);
      within = λ i h. absurd (omega arith);
      paged = λ i h. absurd (omega arith);
    } in
    let done = add_ranges-Follows es 0 empty (omega arith) (inl refl) f in (refl, done.0, done.1)

-- The ranges of a valid map are in order.
Follows-take :
    (n : ℕ) (xs : List Entry) (lo : ℕ)
    → (0 < n → lo ≤ (get_or xs 0 zero_entry).pa)
    → ((i : ℕ)
        → suc i < n
        → (get_or xs i zero_entry).pa + (get_or xs i zero_entry).cb
          ≤ (get_or xs (suc i) zero_entry).pa)
    → ((i : ℕ)
        → i < n
        → ((get_or xs i zero_entry).pa % 0x1000 ≡ 0) × ((get_or xs i zero_entry).cb % 0x1000 ≡ 0))
    → ((i : ℕ) → i < n → (get_or xs i zero_entry).pa + (get_or xs i zero_entry).cb < qword)
    → Follows lo (take n xs)
Follows-take zero xs lo first asc paged within = tt
Follows-take (suc n) [] lo first asc paged within = tt
Follows-take (suc n) (x ∷ xs) lo first asc paged within = (
  first (omega arith),
  paged 0 (omega arith),
  within 0 (omega arith),
  Follows-take n xs (x.pa + x.cb) (λ h. asc 0 (omega arith)) (λ i h. asc (suc i) (omega arith))
      (λ i h. paged (suc i) (omega arith)) (λ i h. within (suc i) (omega arith)),
)

-- What `LcMemMap_GetRangesAsStruct` reads out of a valid map, `LcMemMap_SetRangesFromStruct` puts
-- back into any valid map when memory can be had, each range with its remap address as an addition
-- stores it: an address of 0 becomes the range's own address, and any other one loses its top bit.
pub set_ranges_from_struct-get_ranges_as_struct :
    {m : MemMap} (other : MemMap)
    → IsValid m
    → IsValid other
    → (es : List Entry) × (get_ranges_as_struct true m ≡ some es)
      × (ranges (set_ranges_from_struct true other es).1 ≡ map as_added (ranges m))
unfolding get_ranges_as_struct
set_ranges_from_struct-get_ranges_as_struct {m} other v w =
    let small : ltb 0x0010_0000 m.c_mem_map ≡ false = ground (arith, v.limit) in
    let f =
      Follows-take m.c_mem_map m.p_mem_map 0 (λ h. omega arith) v.ascending v.paged v.within in
    let done =
      set_ranges_from_struct-ranges (ranges m) w (omega (arith, length-ranges v, v.limit)) f in
    (ranges m, rw small, done.2)
