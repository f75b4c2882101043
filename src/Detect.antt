-- ===== src/Detect.antt =====
-- leechcore/leechcore.c: the detection of the largest address of a device,
-- `LcCreate_MemMapInitAddressDetect`.
pub mod Round
pub mod Top
pub mod Ranges
mod Tests
use leech_core.Base.{
  ℕ, zero, suc, ◌+◌, ◌-◌, ◌*◌, ◌/◌, Bool, true, false, not, ◌&&◌, Option, none, some, List, [], ◌∷◌,
  ◌++◌, map, if◌then◌else◌, ltb, ◌==◌, take, drop, get_or, add64, sub64,
}
use leech_core.MemScatter.{Mem}
use leech_core.Scatter.{Context, zero_mem, read_scatter}

-- `ADDRDETECT_MAX`
abbrev pub addrdetect_max : ℕ
addrdetect_max = 16

-- `ppMEMs[i]->qwA = paCurrent + i * cbChunk; ppMEMs[i]->f = FALSE;`
unfoldable pub aim : ℕ → ℕ → ℕ → List Mem → List Mem
aim pa chunk i [] = []
aim pa chunk i (mem ∷ mems) =
    record mem { qw_a = add64 pa (i * chunk); f = false } ∷ aim pa chunk (suc i) mems

-- `if(ppMEMs[i]->f) { paCurrent = ppMEMs[i]->qwA; }` for every chunk.
unfoldable pub last_found : ℕ → List Mem → ℕ
last_found pa [] = pa
last_found pa (mem ∷ mems) = last_found (if mem.f then mem.qw_a else pa) mems

-- One read of the first chunks, which leaves the chunk behind them.
unfoldable pub probe : Context → ℕ → ℕ → List Mem → List Mem
probe ctx pa chunk mems =
    (read_scatter ctx (aim pa chunk 0 (take addrdetect_max mems))).0 ++ drop addrdetect_max mems

-- `ppMEMs[i]->cb = 0x8;`
abbrev pub set_size : List Mem → List Mem
set_size mems =
    map (λ (mem : Mem). record mem { cb = 8 }) (take addrdetect_max mems)
    ++ drop addrdetect_max mems

-- 1: the topmost address of a multiple of 4GB; none when the fuel ends. The chunks are those of the
-- last read.
unfoldable pub detect_coarse : ℕ → Context → ℕ → List Mem → Option (ℕ × List Mem)
detect_coarse zero ctx pa mems = none
detect_coarse (suc fuel) ctx pa mems =
    let mems' = probe ctx pa 0x0001_0000_0000 (set_size mems) in
    let found = take addrdetect_max mems' in
    let pa' = last_found pa found in
    let rest = detect_coarse fuel ctx pa' mems' in
    if (get_or mems' (addrdetect_max - 1) zero_mem).f then rest else some (pa', mems')

-- 2: the exact address in smaller steps, for a device other than the FPGA, and for one whose check of
-- its algorithm passes: the check reads one chunk more and moves no address.
unfoldable pub detect_fine : ℕ → Context → ℕ → ℕ → List Mem → ℕ
detect_fine zero ctx pa chunk mems = pa
detect_fine (suc fuel) ctx pa chunk mems =
    let mems' = probe ctx pa (chunk / 16) mems in
    let rest =
      detect_fine fuel ctx (last_found pa (take addrdetect_max mems')) (chunk / 16) mems' in
    if ltb 0x1000 chunk then rest else pa

-- 3: the size of the memory. A result of 4GB is moved down by a page.
unfoldable pub finish : ℕ → ℕ
finish pa = add64 (if pa == 0x0001_0000_0000 then sub64 pa 0x1000 else pa) 0x1000

-- The detection on a handle without ranges and without a configured size, with the chunks that
-- `LcAllocScatter1` gave. Fuel 6 is enough for the second loop, which goes from 4GB to 4KB.
unfoldable pub detect : ℕ → Context → List Mem → Option ℕ
detect fuel ctx mems = elim (detect_coarse fuel ctx 0x0001_0000_0000 mems) [
  | some (pa, mems') ↦ some (finish (detect_fine 6 ctx pa 0x0001_0000_0000 mems'))
  | none ↦ none
]
