-- ===== src/MemMap.antt =====
-- leechcore/memmap.c: the memory map, which is an array of physical memory ranges that grows, and
-- the operations that add ranges to it and read it out.
pub mod Order
pub mod Store
pub mod Add
pub mod Rebuild
pub mod Translate
mod Tests
use leech_core.Base.{
  ℕ, suc, ◌+◌, ◌-◌, ◌*◌, ◌%◌, ◌^◌, Bool, true, false, not, ◌&&◌, ◌||◌, Option, none, some, List, [],
  ◌∷◌, ◌++◌, if◌then◌else◌, ltb, leb, ◌==◌, take, set, get_or, replicate, dword, add64,
}

-- `LC_MEMMAP_ENTRY`
pub record Entry : Type 0 where
  pub pa : ℕ
  pub cb : ℕ
  pub pa_remap : ℕ

-- What `LMEM_ZEROINIT` leaves in an entry.
abbrev pub zero_entry : Entry
zero_entry = record { pa = 0; cb = 0; pa_remap = 0 }

-- The fields cMemMap, cMemMapMax and pMemMap of `LC_CONTEXT`. The array holds cMemMapMax entries.
pub record MemMap : Type 0 where
  pub c_mem_map : ℕ
  pub c_mem_map_max : ℕ
  pub p_mem_map : List Entry

-- `pMemMap[i]`
abbrev pub entry : MemMap → ℕ → Entry
entry m i = get_or m.p_mem_map i zero_entry

-- `pMemMap[i].pa + pMemMap[i].cb`, a QWORD sum.
abbrev pub end : Entry → ℕ
end e = add64 e.pa e.cb

-- The ranges in use.
abbrev pub ranges : MemMap → List Entry
ranges m = take m.c_mem_map m.p_mem_map

-- The map that `LcCreateEx` starts from.
abbrev pub create : MemMap
create = record { c_mem_map = 0; c_mem_map_max = 0x20; p_mem_map = replicate 0x20 zero_entry }

unfoldable pub is_initialized : MemMap → Bool
is_initialized m = ltb 0 m.c_mem_map

-- `if((cb & 0xfff) == 1) { cb--; }`
abbrev pub trim : ℕ → ℕ
trim cb = if cb % 0x1000 == 1 then cb - 1 else cb

-- The map with twice the room.
abbrev pub grow : MemMap → MemMap
grow m = record {
  c_mem_map = m.c_mem_map;
  c_mem_map_max = m.c_mem_map_max * 2 % dword;
  p_mem_map =
      take m.c_mem_map m.p_mem_map ++ replicate (m.c_mem_map_max * 2 - m.c_mem_map) zero_entry;
}

-- `paRemap ? (paRemap & ~LC_MEMMAP_FORCE_OFFSET) : pa`
abbrev pub remap_of : ℕ → ℕ → ℕ
remap_of pa pa_remap = if pa_remap == 0 then pa else pa_remap % 2 ^ 63

-- The part of `LcMemMap_AddRange` below the growth: the overlap test and the write.
unfoldable pub store_range : MemMap → ℕ → ℕ → ℕ → Bool × MemMap
store_range m pa cb pa_remap =
    if not (c == 0) && ltb pa (end (entry m (c - 1))) then (false, m) else (
      true,
      record m {
        p_mem_map =
            set m.p_mem_map c (record { pa = pa; cb = cb; pa_remap = remap_of pa pa_remap });
        c_mem_map = c + 1;
      },
    )
  where
    open m use {c_mem_map as c}

-- `LcMemMap_AddRange`. The first argument says whether the allocation for a growth succeeds.
unfoldable pub add_range : Bool → MemMap → ℕ → ℕ → ℕ → Bool × MemMap
unfolding store_range
add_range alloc m pa cb0 pa_remap =
    let cb = trim cb0 in
    if not (pa % 0x1000 == 0) || not (cb % 0x1000 == 0)
    then (false, m)
    else if leb 0x0010_0000 m.c_mem_map
    then (false, m)
    else if m.c_mem_map == m.c_mem_map_max
    then (if alloc then store_range (grow m) pa cb pa_remap else (false, m))
    else store_range m pa cb pa_remap

unfoldable pub get_max_address : MemMap → ℕ
get_max_address m =
    if m.c_mem_map == 0 then 0x0000_ffff_ffff_ffff else end (entry m (m.c_mem_map - 1))

-- `LcMemMap_GetRangesAsStruct`: the copy of the ranges, or none for FALSE.
unfoldable pub get_ranges_as_struct : Bool → MemMap → Option (List Entry)
get_ranges_as_struct alloc m =
    if ltb 0x0010_0000 m.c_mem_map then none else if alloc then some (ranges m) else none

-- The loop of `LcMemMap_SetRangesFromStruct`. The results of the additions are dropped.
pub add_ranges : Bool → MemMap → List Entry → MemMap
add_ranges alloc m [] = m
add_ranges alloc m (e ∷ es) = add_ranges alloc (add_range alloc m e.pa e.cb e.pa_remap).1 es

unfoldable pub set_ranges_from_struct : Bool → MemMap → List Entry → Bool × MemMap
unfolding add_ranges
set_ranges_from_struct alloc m es = (true, add_ranges alloc (record m { c_mem_map = 0 }) es)
