-- ===== src/MemMap/Tests.antt =====
-- The memory map at concrete inputs.
use leech_core.Base.{
  tabulate, ◌*◌, map, ℕ, suc, zero, ◌+◌, ◌%◌, ◌<◌, ◌≤◌, ◌≡◌, ◌↔◌, inr, refl, arith, true, false,
  some, List, [], ◌∷◌, qword, qword_max, All₂, if◌then◌else◌,
}
use leech_core.MemScatter.{Mem}
use leech_core.MemMap.{
  Entry, MemMap, entry, ranges, create, store_range, add_range, get_ranges_as_struct,
  set_ranges_from_struct, add_ranges,
}
use leech_core.MemMap.Order.{IsValid}
use leech_core.MemMap.Store.{IsClear}
use leech_core.MemMap.Add.{IsAcceptable, add_range-IsValid, add_range-accepts}
use leech_core.MemMap.Rebuild.{
  as_added, Follows, set_ranges_from_struct-ranges, set_ranges_from_struct-get_ranges_as_struct,
}
use leech_core.MemMap.Translate.{
  bisect, start, scan, settle, translate_mem, translate_from, translate_mems, shift,
}
use leech_core.MemMap.Translate.Search.{bisect-lt}
use leech_core.MemMap.Translate.Correct.{Translates, Translates-unique}
use leech_core.MemMap.Translate.Chunks.{Moved, translate_mems-Moved}

-- Low memory, and the rest above a hole, which is stored right behind it.
abbrev low : Entry
low = record { pa = 0; cb = 0xa0000; pa_remap = 0 }

abbrev high : Entry
high = record { pa = 0x100000; cb = 0x200000; pa_remap = 0xa0000 }

abbrev two : List Entry
two = low ∷ high ∷ []

create-IsValid : IsValid create
create-IsValid = record {
  fits = omega arith;
  room = refl;
  some_room = omega arith;
  limit = omega arith;
  ascending = λ i h. absurd (omega arith);
  within = λ i h. absurd (omega arith);
  paged = λ i h. absurd (omega arith);
}

two-Follows : Follows 0 two
two-Follows = omega arith

add_range_runs : (add_range true create 0 0xa0001 0).0 ≡ true
unfolding add_range store_range
add_range_runs = refl

add_range-IsValid_example :
    IsValid (add_range true create 0 0xa0001 0).1
    × (ranges (add_range true create 0 0xa0001 0).1
        ≡ (if (add_range true create 0 0xa0001 0).0 then low ∷ [] else []))
add_range-IsValid_example = add_range-IsValid true create-IsValid 0 0xa0001 0 (omega arith)

add_range-accepts_example :
    ((add_range true create 0 0xa0001 0).0 ≡ true)
    ↔ (IsAcceptable true create-IsValid 0 0xa0001 0 × IsClear create 0)
add_range-accepts_example = add_range-accepts true create-IsValid 0 0xa0001 0

set_ranges_from_struct-ranges_example :
    ((set_ranges_from_struct true create two).0 ≡ true)
    × IsValid (set_ranges_from_struct true create two).1
    × (ranges (set_ranges_from_struct true create two).1 ≡ map as_added two)
set_ranges_from_struct-ranges_example =
    set_ranges_from_struct-ranges two create-IsValid (omega arith) two-Follows

-- A full map of the two ranges.
abbrev pair : MemMap
pair = record { c_mem_map = 2; c_mem_map_max = 2; p_mem_map = two }

pair_ascending :
    (i : ℕ) → suc i < 2 → (entry pair i).pa + (entry pair i).cb ≤ (entry pair (suc i)).pa
pair_ascending zero h = omega arith
pair_ascending (suc i) h = absurd (omega arith)

pair_within : (i : ℕ) → i < 2 → (entry pair i).pa + (entry pair i).cb < qword
pair_within zero h = omega arith
pair_within (suc zero) h = omega arith
pair_within (suc (suc i)) h = absurd (omega arith)

pair_paged : (i : ℕ) → i < 2 → ((entry pair i).pa % 0x1000 ≡ 0) × ((entry pair i).cb % 0x1000 ≡ 0)
pair_paged zero h = (refl, refl)
pair_paged (suc zero) h = (refl, refl)
pair_paged (suc (suc i)) h = absurd (omega arith)

pair-IsValid : IsValid pair
pair-IsValid = record {
  fits = omega arith;
  room = refl;
  some_room = omega arith;
  limit = omega arith;
  ascending = pair_ascending;
  within = pair_within;
  paged = pair_paged;
}

set_ranges_from_struct-get_ranges_as_struct_example :
    (es : List Entry) × (get_ranges_as_struct true pair ≡ some es)
    × (ranges (set_ranges_from_struct true create es).1 ≡ map as_added two)
set_ranges_from_struct-get_ranges_as_struct_example =
    set_ranges_from_struct-get_ranges_as_struct create pair-IsValid create-IsValid

-- The remap address 0 of a range that does not start at 0 becomes the range's own address.
abbrev offset_zero : Entry
offset_zero = record { pa = 0x100000; cb = 0x200000; pa_remap = 0 }

offset_changes :
    ranges (set_ranges_from_struct true create (offset_zero ∷ [])).1
    ≡ record offset_zero { pa_remap = 0x100000 } ∷ []
unfolding set_ranges_from_struct add_ranges add_range store_range
offset_changes = refl

-- A range that ends at 2 ^ 64 + 0x1000 is accepted, and the map is not valid.
abbrev wrapped : MemMap
wrapped = (add_range true create 0xffff_ffff_ffff_f000 0x2000 0).1

wrapped_taken :
    ((add_range true create 0xffff_ffff_ffff_f000 0x2000 0).0 ≡ true) × ¬ IsValid wrapped
unfolding add_range store_range
wrapped_taken = (refl, λ v. let h = v.within 0 (omega arith) in absurd (omega (arith, h)))

abbrev chunk_at : ℕ → Mem
chunk_at qw_a = record { f = false; qw_a = qw_a; cb = 0x1000; pb = 0; i_stack = 0; v_stack = [] }

-- A page of each range, and one of the hole between them.
abbrev request : List Mem
request = chunk_at 0x9f000 ∷ chunk_at 0xa0000 ∷ chunk_at 0x100000 ∷ []

translate_mems_runs :
    translate_mems pair request ≡ chunk_at 0x9f000 ∷ chunk_at qword_max ∷ chunk_at 0xa0000 ∷ []
unfolding translate_mems translate_from translate_mem start scan settle
translate_mems_runs = refl

translate_mems-Moved_example : All₂ (Moved pair) request (translate_mems pair request)
translate_mems-Moved_example = translate_mems-Moved pair-IsValid request (omega arith) (
  inr (omega arith, omega arith),
  (inr (omega arith, omega arith), (inr (omega arith, omega arith), tt)),
)

-- Eight ranges of a page: two turns of the fast find.
abbrev eight : MemMap
eight = record {
  c_mem_map = 8;
  c_mem_map_max = 8;
  p_mem_map = tabulate (λ i. record { pa = i * 0x2000; cb = 0x1000; pa_remap = i * 0x1000 }) 0 8;
}

bisect-lt_example : bisect 32 eight 0xa000 4 4 < 8
bisect-lt_example =
    bisect-lt 32 eight 0xa000 4 4 (omega arith) (omega arith) (omega arith) (omega arith)

high-Translates : Translates pair 0x100000 0x1000 0xa0000
high-Translates = Translates.mapped 1 (omega arith) (omega arith, omega arith) refl

Translates-unique_example : shift high 0x100000 ≡ 0xa0000
Translates-unique_example =
    Translates-unique pair-IsValid (omega arith) (omega arith) high-Translates high-Translates
