-- ===== src/MemMap/Translate.antt =====
-- leechcore/memmap.c: `LcMemMap_TranslateMEMs`, with its search for the range of an address.
pub mod Search
pub mod Frame
pub mod Correct
pub mod Chunks
use leech_core.Base.{
  ℕ, zero, suc, ◌+◌, ◌-◌, ◌/◌, Bool, ◌&&◌, ◌||◌, List, [], ◌∷◌, if◌then◌else◌, ltb, leb, ◌==◌,
  add32, add64, sub32, sub64, qword_max,
}
use leech_core.MemMap.{Entry, MemMap, entry, end}
use leech_core.MemScatter.{Mem}

-- The chunk of `cb` bytes at `qa` lies within a range.
abbrev pub covers : Entry → ℕ → ℕ → Bool
covers e qa cb = leb e.pa qa && leb (add64 qa cb) (end e)

-- `pMEM->qwA + peMap->paRemap - peMap->pa`
abbrev pub shift : Entry → ℕ → ℕ
shift e qa = sub64 (add64 qa e.pa_remap) e.pa

-- `iMap = (pMEM->qwA > pMemMap[iMap].pa) ? (iMap + oMap) : (iMap - oMap)`
pub turn : MemMap → ℕ → ℕ → ℕ → ℕ
turn m qa i o = if ltb (entry m i).pa qa then add32 i o else sub32 i o

-- `while((oMap = oMap >> 1)) { iMap = ... }`. Fuel 32 is enough for a DWORD.
pub bisect : ℕ → MemMap → ℕ → ℕ → ℕ → ℕ
bisect zero m qa i o = i
bisect (suc fuel) m qa i o =
    let next = bisect fuel m qa (turn m qa i (o / 2)) (o / 2) in if o / 2 == 0 then i else next

-- `while(iMap && (pMEM->qwA < pMemMap[iMap].pa)) { iMap--; }`
pub back : MemMap → ℕ → ℕ → ℕ
back m qa zero = zero
back m qa (suc i) = let rest = back m qa i in if ltb qa (entry m (suc i)).pa then rest else suc i

-- Where the scan starts.
unfoldable pub start : MemMap → ℕ → ℕ
start m qa =
    if ltb 0x40 m.c_mem_map
    then back m qa (bisect 32 m qa (m.c_mem_map / 2) (m.c_mem_map / 2))
    else 0

-- The scan `for(; iMap < cMemMap; iMap++)`, with the number of rounds left, the index iMap and the
-- index of the range that peMap points to. The result is the last of these.
unfoldable pub scan : MemMap → ℕ → ℕ → ℕ → ℕ → ℕ → ℕ
scan m qa cb zero i pe = pe
scan m qa cb (suc k) i pe =
    let rest = scan m qa cb k (suc i) i in
    if covers (entry m i) qa cb || ltb qa (entry m i).pa then i else rest

-- The last test of a round, on the range that the scan ended at.
unfoldable pub settle : Entry → ℕ → ℕ → ℕ
settle e qa cb = if covers e qa cb then shift e qa else qword_max

-- One round of the loop over the chunks: the index of peMap after it, and the chunk.
unfoldable pub translate_mem : MemMap → ℕ → Mem → ℕ × Mem
translate_mem m pe mem =
    if qw_a == qword_max
    then (pe, mem)
    else if covers (entry m pe) qw_a cb
    then (pe, record mem { qw_a = shift (entry m pe) qw_a })
    else (found, record mem { qw_a = settle (entry m found) qw_a cb })
  where
    open mem use {qw_a, cb}

    found : ℕ
    found = scan m qw_a cb (m.c_mem_map - start m qw_a) (start m qw_a) pe

unfoldable pub translate_from : MemMap → ℕ → List Mem → List Mem
translate_from m pe [] = []
translate_from m pe (mem ∷ mems) =
    let (pe', mem') = translate_mem m pe mem in mem' ∷ translate_from m pe' mems

-- `LcMemMap_TranslateMEMs`
unfoldable pub translate_mems : MemMap → List Mem → List Mem
translate_mems m mems = if m.c_mem_map == 0 then mems else translate_from m 0 mems
