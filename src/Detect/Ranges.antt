-- ===== src/Detect/Ranges.antt =====
-- leechcore/leechcore.c: the memory map that a handle gets when the device gives none.
use leech_core.Base.{
  ℕ, ◌-◌, ◌%◌, Bool, Option, none, some, List, if◌then◌else◌, ltb, ◌==◌, min, add64,
}
use leech_core.MemScatter.{Mem}
use leech_core.MemMap.{MemMap, is_initialized, add_range}
use leech_core.Scatter.{Context}
use leech_core.Detect.{detect}

-- `(paMax + 0xfff) & ~0xfff`
abbrev pub page_up : ℕ → ℕ
page_up pa = let sum = add64 pa 0xfff in sum - sum % 0x1000

-- `LcCreate_MemMapInitAddressDetect_AddDefaultRange`, for a volatile device or another one. The
-- first argument says whether the allocation for a growth of the map succeeds.
unfoldable pub add_default_range : Bool → Bool → MemMap → ℕ → MemMap
add_default_range alloc volatile m pa_max =
    let top = page_up pa_max in
    let low = (add_range alloc m 0 (min top 0xa_0000) 0).1 in
    if volatile
    then (if ltb 0x10_0000 top
        then (add_range alloc low 0x10_0000 (top - 0x10_0000) 0x10_0000).1
        else low)
    else (add_range alloc m 0 top 0).1

-- `LcCreate_MemMapInitAddressDetect` with the configured size, 0 for none, and the chunks of
-- `LcAllocScatter1`, none when it fails. The result is none when the detection is endless.
unfoldable pub init_address_detect :
    ℕ → Bool → Bool → Context → Option (List Mem) → ℕ → MemMap → Option MemMap
init_address_detect fuel alloc volatile ctx none pa_max m =
    if is_initialized m
    then some m
    else if pa_max == 0
    then some m
    else some (add_default_range alloc volatile m (min pa_max 0xff_ffff_f000))
init_address_detect fuel alloc volatile ctx (some mems) pa_max m =
    let detected : Option MemMap = elim (detect fuel ctx mems) [
      | none ↦ none
      | some top ↦ some (add_default_range alloc volatile m top)
    ] in
    if is_initialized m
    then some m
    else if pa_max == 0
    then detected
    else some (add_default_range alloc volatile m (min pa_max 0xff_ffff_f000))
