-- ===== src/MemMap/Translate/Chunks.antt =====
-- `LcMemMap_TranslateMEMs` over all the chunks of a request: the cached range that one chunk leaves
-- behind does not change what the next one gets.
use leech_core.Base.{
  ℕ, ◌+◌, ◌<◌, ◌≡◌, ◌⊎◌, inl, inr, refl, arith, ◌==◌, false, List, [], ◌∷◌, qword, All, All₂,
  qword_max,
}
use leech_core.MemMap.{MemMap}
use leech_core.MemMap.Order.{IsValid}
use leech_core.MemMap.Translate.{translate_mem, translate_from, translate_mems}
use leech_core.MemMap.Translate.Correct.{Translates, translate_mem-Translates}
use leech_core.MemScatter.{Mem}

-- A chunk is invalid already, or has bytes and ends within the address space.
abbrev pub IsRequest : Mem → Type 0
IsRequest mem = (mem.qw_a ≡ qword_max) ⊎ ((0 < mem.cb) × (mem.qw_a + mem.cb < qword))

-- A chunk after the translation: nothing but its address may differ, an invalid address stays, and
-- any other is translated.
abbrev pub Moved : MemMap → Mem → Mem → Type 0
Moved m mem mem' =
    (mem' ≡ record mem { qw_a = mem'.qw_a })
    × ((mem.qw_a ≡ qword_max) × (mem'.qw_a ≡ qword_max) ⊎ Translates m mem.qw_a mem.cb mem'.qw_a)

-- A round touches the address alone.
translate_mem-frame :
    (m : MemMap) (pe : ℕ) (mem : Mem)
    → (translate_mem m pe mem).1 ≡ record mem { qw_a = (translate_mem m pe mem).1.qw_a }
unfolding translate_mem
translate_mem-frame m pe mem = ground arith

translate_mem-invalid :
    (m : MemMap) (pe : ℕ) (mem : Mem) → mem.qw_a ≡ qword_max → translate_mem m pe mem ≡ (pe, mem)
unfolding translate_mem
translate_mem-invalid m pe mem e = ground arith

module _ {m : MemMap} (v : IsValid m) where
  translate_mem-Moved :
      (pe : ℕ) (mem : Mem)
      → pe < m.c_mem_map
      → IsRequest mem
      → ((translate_mem m pe mem).0 < m.c_mem_map) × Moved m mem (translate_mem m pe mem).1
  translate_mem-Moved pe mem p (inl e) =
      rw (translate_mem-invalid m pe mem e) (p, (refl, inl (e, e)))
  translate_mem-Moved pe mem p (inr (pos, small)) =
      let (inside, t) = translate_mem-Translates v pe mem p (omega arith) pos small in
      (inside, (translate_mem-frame m pe mem, inr t))

  translate_from-Moved :
      (pe : ℕ) (mems : List Mem)
      → pe < m.c_mem_map
      → All IsRequest mems
      → All₂ (Moved m) mems (translate_from m pe mems)
  unfolding translate_from
  translate_from-Moved pe [] p h = tt
  translate_from-Moved pe (mem ∷ mems) p h =
      let (inside, moved) = translate_mem-Moved pe mem p h.0 in
      (moved, translate_from-Moved (translate_mem m pe mem).0 mems inside h.1)

  -- On a valid map with at least one range, each chunk of a request is translated as the ranges of
  -- the map say, whatever the chunks before it, and keeps all its other fields. The chunks are
  -- invalid already, or have bytes that end within the address space.
  pub translate_mems-Moved :
      (mems : List Mem)
      → 0 < m.c_mem_map
      → All IsRequest mems
      → All₂ (Moved m) mems (translate_mems m mems)
  unfolding translate_mems
  translate_mems-Moved mems p h =
      let some_range : (m.c_mem_map == 0) ≡ false = ground arith in
      rw some_range (translate_from-Moved 0 mems p h)
