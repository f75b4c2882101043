-- ===== src/Options.antt =====
-- leechcore/leechcore.c: the options of a handle, `LcGetOption` and `LcSetOption`. The numbers of the
-- options are those of leechcore/leechcore.h.
pub mod Flags
mod Tests
use leech_core.Base.{
  ℕ, ◌-◌, ◌%◌, Bool, true, false, not, Option, none, some, if◌then◌else◌, ltb, ◌==◌, dword,
}
use leech_core.MemMap.{MemMap, get_max_address}

abbrev pub opt_printf_enable : ℕ
opt_printf_enable = 0x4000_0001_0000_0000

abbrev pub opt_verbose : ℕ
opt_verbose = 0x4000_0002_0000_0000

abbrev pub opt_verbose_extra : ℕ
opt_verbose_extra = 0x4000_0003_0000_0000

abbrev pub opt_verbose_extra_tlp : ℕ
opt_verbose_extra_tlp = 0x4000_0004_0000_0000

-- `fPrintf[4]`
pub record Printf : Type 0 where
  pub enable : Bool
  pub v : Bool
  pub vv : Bool
  pub vvv : Bool

-- What the options of the core read in `LC_CONTEXT`; `call_c` and `call_tm` are the fields of
-- `CallStat.Call`.
pub record Core : Type 0 where
  pub is_open : Bool
  pub f_remote : Bool
  pub f_printf : Printf
  pub mem_map : MemMap
  pub call_c : ℕ → ℕ
  pub call_tm : ℕ → ℕ
  pub f_volatile : Bool
  pub f_writable : Bool

-- The value of a flag.
abbrev pub one_if : Bool → ℕ
one_if b = if b then 1 else 0

-- `fOption & 0xffffffff00000000`
abbrev pub high : ℕ → ℕ
high o = o - o % dword

-- `LC_STATISTICS_ID_MAX`
abbrev pub id_max : ℕ
id_max = 7

-- The value of an option of the core, when the switch of `LcGetOption_DoWork` has a case for it: none
-- for FALSE.
unfoldable pub core_option : Core → ℕ → Option (Option ℕ)
core_option c o =
    let id = o % dword in
    let h = high o in
    if h == opt_printf_enable
    then some (some (one_if c.f_printf.enable))
    else if h == opt_verbose
    then some (some (one_if c.f_printf.v))
    else if h == opt_verbose_extra
    then some (some (one_if c.f_printf.vv))
    else if h == opt_verbose_extra_tlp
    then some (some (one_if c.f_printf.vvv))
    else if h == 0x4000_0005_0000_0000
    then some (some 2)
    else if h == 0x4000_0006_0000_0000
    then some (some 16)
    else if h == 0x4000_0007_0000_0000
    then some (some 9)
    else if h == 0x1000_0008_0000_0000
    then some (some (get_max_address c.mem_map))
    else if h == 0x4000_0009_0000_0000
    then some (if ltb id_max id then none else some (c.call_c id))
    else if h == 0x4000_000a_0000_0000
    then some (if ltb id_max id then none else some (c.call_tm id))
    else if h == 0x1000_000b_0000_0000
    then some (some (one_if c.f_volatile))
    else if h == 0x1000_000c_0000_0000
    then some (some (one_if (not c.f_writable)))
    else none

-- The switch of `LcSetOption_DoWork`.
unfoldable pub set_core_option : Core → ℕ → ℕ → Option Core
set_core_option c o v =
    let flag = not (v == 0) in
    if o == opt_printf_enable
    then some (record c { f_printf = record c.f_printf { enable = flag } })
    else if o == opt_verbose
    then some (record c { f_printf = record c.f_printf { v = flag } })
    else if o == opt_verbose_extra
    then some (record c { f_printf = record c.f_printf { vv = flag } })
    else if o == opt_verbose_extra_tlp
    then some (record c { f_printf = record c.f_printf { vvv = flag } })
    else none

-- `pfnGetOption` and `pfnSetOption` of a device with the state `D`. A value is none for FALSE.
pub record Driver (D : Type 0) : Type 0 where
  pub get_option : Option (D → ℕ → Option ℕ)
  pub set_option : Option (D → ℕ → ℕ → Bool × D)

module _ {D : Type 0} (driver : Driver D) where
  abbrev pub device_get : D → ℕ → Option ℕ
  device_get d o = elim driver.get_option [ some get ↦ get d o | none ↦ none ]

  abbrev pub device_set : D → ℕ → ℕ → Bool × D
  device_set d o v = elim driver.set_option [ some set ↦ set d o v | none ↦ (false, d) ]

  -- `LcGetOption`: the value, none for FALSE. A remote handle has a `pfnGetOption`.
  unfoldable pub get_option : Core → D → ℕ → Option ℕ
  get_option c d o =
      if not c.is_open
      then none
      else if c.f_remote
      then device_get d o
      else elim (core_option c o) [ some r ↦ r | none ↦ device_get d o ]

  -- `LcSetOption`: its result, the core and the device after it. A remote handle has a `pfnSetOption`.
  unfoldable pub set_option : Core → D → ℕ → ℕ → Bool × (Core × D)
  set_option c d o v =
      if not c.is_open
      then (false, (c, d))
      else if c.f_remote
      then (let (ok, d') = device_set d o v in (ok, (c, d')))
      else elim (set_core_option c o v) [
        | some c' ↦ (true, (c', d))
        | none ↦ (let (ok, d') = device_set d o v in (ok, (c, d')))
      ]
