-- ===== src/Scatter.antt =====
-- leechcore/leechcore.c: the scattered transfers of a device handle, `LcReadScatter` and
-- `LcWriteScatter`.
pub mod Restore
mod Tests
use leech_core.Base.{
  ℕ, suc, ◌+◌, Bool, true, false, not, ◌&&◌, ◌||◌, Option, none, some, List, [], ◌∷◌, ◌++◌, map,
  if◌then◌else◌, ltb, ◌==◌, take, drop, get_or, add32, add64,
}
use leech_core.MemScatter.{Mem, addr_is_valid, stack_push, stack_pop}
use leech_core.MemMap.{MemMap}
use leech_core.MemMap.Translate.{translate_mems}
use leech_core.ReadContigious.{Config, Copy, read_scatter_gather}

-- The functions that a device may offer: `pfnReadScatter`, `pfnReadContigious`, `pfnWriteScatter` and
-- `pfnWriteContigious`. A write function is given the address of the buffer, and the first also
-- returns its chunks.
pub record Device : Type 0 where
  pub read_scatter : Option (List Mem → List Mem × List Copy)
  pub read_contigious : ℕ → ℕ → List ℕ
  pub write_scatter : Option (List Mem → List Mem)
  pub write_contigious : Option (ℕ → ℕ → ℕ → Bool)

-- The fields of `LC_CONTEXT` that a transfer reads.
pub record Context : Type 0 where
  pub is_open : Bool
  pub f_remote : Bool
  pub mem_map : MemMap
  pub read_config : Config
  pub device : Device

-- 1: TRANSLATE, with the addresses kept on the chunks' stacks.
abbrev pub save : Mem → Mem
save mem = stack_push mem mem.qw_a

abbrev pub translated : MemMap → List Mem → List Mem
translated m mems = translate_mems m (map save mems)

-- 3: RESTORE
abbrev pub restore : Mem → Mem
restore mem = let (v, mem') = stack_pop mem in record mem' { qw_a = v }

-- 2: FETCH
unfoldable pub fetch : Context → List Mem → List Mem × List Copy
fetch ctx mems = elim ctx.device.read_scatter [
  | some read ↦ read mems
  | none ↦ read_scatter_gather ctx.device.read_contigious ctx.read_config mems
]

unfoldable pub read_local : Context → List Mem → List Mem × List Copy
read_local ctx mems =
    let (mems', copies) = fetch ctx (translated ctx.mem_map mems) in (map restore mems', copies)

-- `LcReadScatter`: the chunks, and the bytes that are copied into their buffers.
unfoldable pub read_scatter : Context → List Mem → List Mem × List Copy
read_scatter ctx mems = if not ctx.is_open then (mems, []) else elim ctx.device.read_scatter [
  | some read ↦ if ctx.f_remote then read mems else read_local ctx mems
  | none ↦ read_local ctx mems
]

-- The variables c, iBase and cbCurrent of `LcWriteScatter_GatherContigious`, and paBase.
pub record Pending : Type 0 where
  pub c : ℕ
  pub i_base : ℕ
  pub pa_base : ℕ
  pub cb_current : ℕ

abbrev pub begin : ℕ → Mem → Pending
begin i mem = record { c = 1; i_base = i; pa_base = mem.qw_a; cb_current = mem.cb }

-- The loop of `LcWriteScatter_GatherContigious`: the writes in their order. A write sets only chunks
-- below the index, so it does not change what the loop sees.
pub gather_writes : ℕ → Pending → List Mem → List Pending
gather_writes i cur [] = if cur.c == 0 then [] else cur ∷ []
gather_writes i cur (mem ∷ mems) =
    let skip = gather_writes (suc i) cur mems in
    let fresh = gather_writes (suc i) (begin i mem) mems in
    let grown =
      gather_writes (suc i)
        (record cur { c = add32 cur.c 1; cb_current = add32 cur.cb_current mem.cb }) mems in
    if mem.f || not (addr_is_valid mem)
    then skip
    else if cur.c == 0
    then fresh
    else if add64 cur.pa_base cur.cb_current == mem.qw_a
    then grown
    else cur ∷ fresh

abbrev pub zero_mem : Mem
zero_mem = record { f = false; qw_a = 0; cb = 0; pb = 0; i_stack = 0; v_stack = [] }

-- One linear write: its address, its size and the address of its buffer.
pub record WriteCall : Type 0 where
  pub pa : ℕ
  pub cb : ℕ
  pub pb : ℕ

module _ (write : ℕ → ℕ → ℕ → Bool) where
  abbrev pub call_of : Pending → List Mem → WriteCall
  call_of p mems =
      let first = get_or mems p.i_base zero_mem in
      record { pa = first.qw_a; cb = p.cb_current; pb = first.pb }

  -- `LcWriteScatter_GatherContigious2`: the chunks after one linear write, and the call.
  unfoldable pub write_chunks : Pending → List Mem → List Mem × WriteCall
  write_chunks p mems =
      let call = call_of p mems in
      (
        (if write call.pa call.cb call.pb
            then take p.i_base mems
              ++ (map (λ (mem : Mem). record mem { f = true }) (take p.c (drop p.i_base mems))
                  ++ drop (p.i_base + p.c) mems)
            else mems),
        call,
      )

  pub write_all : List Pending → List Mem → List Mem × List WriteCall
  write_all [] mems = (mems, [])
  write_all (p ∷ ps) mems =
      let (mems', call) = write_chunks p mems in
      let (mems'', calls) = write_all ps mems' in (mems'', call ∷ calls)

  -- `LcWriteScatter_GatherContigious`
  unfoldable pub write_gather : List Mem → List Mem × List WriteCall
  write_gather mems =
      write_all (gather_writes 0 (record { c = 0; i_base = 0; pa_base = 0; cb_current = 0 }) mems)
        mems

-- The writing part of `LcWriteScatter` for a device that is not remote.
unfoldable pub store : Context → List Mem → List Mem
store ctx mems = elim ctx.device.write_scatter [
  | some write ↦ write mems
  | none ↦ elim ctx.device.write_contigious [
    | some write ↦ (write_gather write mems).0
    | none ↦ mems
  ]
]

pub write_local : Context → List Mem → List Mem
write_local ctx mems = map restore (store ctx (translated ctx.mem_map mems))

-- `pfnWriteScatter` or `pfnWriteContigious` is there.
abbrev pub can_write : Device → Bool
can_write d = elim d.write_scatter [
  | some _ ↦ true
  | none ↦ elim d.write_contigious [ some _ ↦ true | none ↦ false ]
]

-- `LcWriteScatter`
unfoldable pub write_scatter : Context → List Mem → List Mem
write_scatter ctx [] = []
write_scatter ctx (mem ∷ mems) =
    if not ctx.is_open
    then mem ∷ mems
    else if not (can_write ctx.device)
    then mem ∷ mems
    else elim ctx.device.write_scatter [
      | some write ↦ if ctx.f_remote then write (mem ∷ mems) else write_local ctx (mem ∷ mems)
      | none ↦ write_local ctx (mem ∷ mems)
    ]
