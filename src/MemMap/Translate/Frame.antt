-- ===== src/MemMap/Translate/Frame.antt =====
-- What a translation leaves alone: all of a chunk but its address and flag.
use leech_core.Base.{ℕ, arith, Bool-cases, inl, inr, List, [], ◌∷◌, All₂, ◌==◌}
use leech_core.MemScatter.{Mem}
use leech_core.MemScatter.Same.{SameStack, All₂-refl}
use leech_core.MemMap.{MemMap}
use leech_core.MemMap.Translate.{translate_mem, translate_from, translate_mems}

-- A translation keeps buffers and stacks.
translate_mem-SameStack :
    (m : MemMap) (pe : ℕ) (mem : Mem) → SameStack mem (translate_mem m pe mem).1
unfolding translate_mem
translate_mem-SameStack m pe mem = ground arith

translate_from-SameStack :
    (m : MemMap) (pe : ℕ) (mems : List Mem) → All₂ SameStack mems (translate_from m pe mems)
unfolding translate_from
translate_from-SameStack m pe [] = tt
translate_from-SameStack m pe (mem ∷ mems) =
    (translate_mem-SameStack m pe mem, translate_from-SameStack m (translate_mem m pe mem).0 mems)

pub translate_mems-SameStack :
    (m : MemMap) (mems : List Mem) → All₂ SameStack mems (translate_mems m mems)
unfolding translate_mems
translate_mems-SameStack m mems = elim (Bool-cases (m.c_mem_map == 0)) [
  | inl e ↦ rw e (All₂-refl mems)
  | inr e ↦ rw e (translate_from-SameStack m 0 mems)
]
