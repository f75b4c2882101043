-- ===== src/ReadContigious.antt =====
-- leechcore/leechcore.c: the ReadContigious subsystem, by which a device that reads contiguous
-- memory serves scattered reads. A device is a function from an address and a size to the bytes
-- that it read, fewer where it fails.
pub mod Plan
pub mod Frame
pub mod Exact
pub mod Device
pub mod Hole
mod Tests
use leech_core.Base.{
  ℕ, suc, ◌+◌, ◌*◌, ◌/◌, Bool, true, false, not, ◌&&◌, ◌||◌, List, [], ◌∷◌, ◌++◌, if◌then◌else◌,
  ltb, leb, ◌==◌, take, drop, length, add32, add64, min, max, dword, ◌%◌,
}
use leech_core.MemScatter.{Mem, addr_is_valid}

-- The configuration of a device: `ctxLC->ReadContigious`, and whether the subsystem is active.
pub record Config : Type 0 where
  pub c_thread : ℕ
  pub cb_chunk_size : ℕ
  pub f_load_balance : Bool
  pub f_active : Bool

-- The defaults and limits of `LcReadContigious_Initialize`. The first argument says whether the
-- device has `pfnReadContigious`, the second whether buffers, events and threads could be had; a
-- failure ends in `LcReadContigious_Close`.
unfoldable pub initialize : Bool → Bool → Config → Bool × Config
initialize has_read resources cfg =
    let c_thread : ℕ = min 8 (if cfg.c_thread == 0 then 1 else cfg.c_thread) in
    let cb_chunk_size : ℕ =
      min 0x0100_0000 (if cfg.cb_chunk_size == 0 then 0x0100_0000 else cfg.cb_chunk_size) in
    if not has_read then (true, cfg) else (
      resources,
      record cfg { c_thread = c_thread; cb_chunk_size = cb_chunk_size; f_active = resources },
    )

-- A linear read that is scheduled: `c` chunks from index `i_base` on, `cb` bytes at `pa_base`.
pub record Chunk : Type 0 where
  pub i_base : ℕ
  pub c : ℕ
  pub pa_base : ℕ
  pub cb : ℕ

-- `cbChunkSizeLimit`
abbrev pub chunk_size_limit : Config → ℕ → ℕ
chunk_size_limit cfg c_mems =
    if ltb 1 cfg.c_thread && cfg.f_load_balance
    then min cfg.cb_chunk_size (max 0x0001_0000 (0x1000 * (c_mems / cfg.c_thread) % dword))
    else cfg.cb_chunk_size

-- `if(pMEM->cb && !pMEM->f) { c = 1; iBase = i; ... }` after `c = 0`
abbrev pub open_at : ℕ → Mem → Chunk → Chunk
open_at i mem cur =
    if not (mem.cb == 0) && not mem.f
    then record { i_base = i; c = 1; pa_base = mem.qw_a; cb = mem.cb }
    else record cur { c = 0 }

-- `(paBase + cbCurrent == pMEM->qwA) && (cbCurrent < cbChunkSizeLimit)`
abbrev pub joins : ℕ → Chunk → Mem → Bool
joins limit cur mem = add64 cur.pa_base cur.cb == mem.qw_a && ltb cur.cb limit

-- The loop of `LcReadContigious_ReadScatterGather`, with the index of the next chunk and the values of
-- c, iBase, paBase and cbCurrent: the reads in their order. A read that is scheduled sets only
-- chunks below the index, so it does not change what the loop sees.
pub gather : ℕ → ℕ → Chunk → List Mem → List Chunk
gather limit i cur [] = if cur.c == 0 then [] else cur ∷ []
gather limit i cur (mem ∷ mems) =
    let skip = gather limit (suc i) cur mems in
    let begin = gather limit (suc i) (open_at i mem cur) mems in
    let grown =
      gather limit (suc i) (record cur { c = add32 cur.c 1; cb = add32 cur.cb mem.cb }) mems in
    if not (addr_is_valid mem)
    then skip
    else if cur.c == 0
    then begin
    else if joins limit cur mem
    then grown
    else cur ∷ begin

abbrev pub idle : Chunk
idle = record { i_base = 0; c = 0; pa_base = 0; cb = 0 }

-- A `memcpy` into a chunk's buffer.
pub record Copy : Type 0 where
  pub dst : ℕ
  pub bytes : List ℕ

-- `LcReadContigious_DeviceRead` after the call of the device: the bytes that are left are handed to
-- the chunks while they fill them. The result is the chunks and the copies.
pub device_read : List Mem → List ℕ → List Mem × List Copy
device_read [] bytes = ([], [])
device_read (mem ∷ mems) bytes =
    let (mems', copies) = device_read mems (drop mem.cb bytes) in
    if leb mem.cb (length bytes)
    then (
      record mem { f = true } ∷ mems',
      record { dst = mem.pb; bytes = take mem.cb bytes } ∷ copies,
    )
    else (mem ∷ mems, [])

module _ (device : ℕ → ℕ → List ℕ) where
  -- `LcReadContigious_Read` on the chunks of the whole request.
  unfoldable pub read_chunk : Chunk → List Mem → List Mem × List Copy
  read_chunk ch mems =
      let (done, copies) =
        device_read (take ch.c (drop ch.i_base mems)) (device ch.pa_base ch.cb) in
      (take ch.i_base mems ++ (done ++ drop (ch.i_base + ch.c) mems), copies)

  pub read_chunks : List Chunk → List Mem → List Mem × List Copy
  read_chunks [] mems = (mems, [])
  read_chunks (ch ∷ chs) mems =
      let (mems', copies) = read_chunk ch mems in
      let (mems'', more) = read_chunks chs mems' in (mems'', copies ++ more)

  -- `LcReadContigious_ReadScatterGather`. An inactive subsystem reads nothing.
  unfoldable pub read_scatter_gather : Config → List Mem → List Mem × List Copy
  read_scatter_gather cfg mems =
      if cfg.f_active
      then read_chunks (gather (chunk_size_limit cfg (length mems)) 0 idle mems) mems
      else (mems, [])
