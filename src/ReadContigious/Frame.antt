-- ===== src/ReadContigious/Frame.antt =====
-- What a gathered read leaves alone: all of a chunk but its address and flag.
use mathlib.Core.Path.{subst}
use leech_core.Base.{
  ℕ, zero, suc, ◌+◌, ◌≡◌, refl, sym, ap, ◌∙◌, arith, Bool-cases, inl, inr, leb, List, [], ◌∷◌, ◌++◌,
  length, take, drop, take-append-drop, All₂,
}
use leech_core.MemScatter.{Mem}
use leech_core.MemScatter.Same.{SameStack, SameStack-refl, All₂-refl, All₂-append, All₂-trans}
use leech_core.ReadContigious.{
  Config, Chunk, device_read, read_chunk, read_chunks, read_scatter_gather,
}

drop-drop : (n k : ℕ) (mems : List Mem) → drop k (drop n mems) ≡ drop (n + k) mems
drop-drop zero k mems = let e : k ≡ 0 + k = omega arith in ap (λ (i : ℕ). drop i mems) e
drop-drop (suc n) zero [] = let e : suc n + 0 ≡ suc n = omega arith in rw e
drop-drop (suc n) (suc k) [] = let e : suc n + suc k ≡ suc (n + suc k) = omega arith in rw e
drop-drop (suc n) k (mem ∷ mems) =
    let e : suc n + k ≡ suc (n + k) = omega arith in rw e (drop-drop n k mems)

-- A gathered read keeps buffers and stacks.
device_read-SameStack :
    (mems : List Mem) (bytes : List ℕ) → All₂ SameStack mems (device_read mems bytes).0
unfolding device_read
device_read-SameStack [] bytes = tt
device_read-SameStack (mem ∷ mems) bytes = elim (Bool-cases (leb mem.cb (length bytes))) [
  | inl e ↦ rw e (
    record { cb = refl; pb = refl; i_stack = refl; v_stack = refl },
    device_read-SameStack mems (drop mem.cb bytes),
  )
  | inr e ↦ rw e (SameStack-refl mem, All₂-refl mems)
]

read_chunk-SameStack :
    (device : ℕ → ℕ → List ℕ) (ch : Chunk) (mems : List Mem)
    → All₂ SameStack mems (read_chunk device ch mems).0
unfolding read_chunk
read_chunk-SameStack device ch mems =
    let mid = take ch.c (drop ch.i_base mems) in
    let split : take ch.i_base mems ++ (mid ++ drop (ch.i_base + ch.c) mems) ≡ mems =
      ap (λ (r : List Mem). take ch.i_base mems ++ (mid ++ r)) (sym (drop-drop ch.i_base ch.c mems))
      ∙ ap (λ (r : List Mem). take ch.i_base mems ++ r)
          (take-append-drop ch.c (drop ch.i_base mems))
      ∙ take-append-drop ch.i_base mems in
    let parts = All₂-append (take ch.i_base mems) (take ch.i_base mems) _ _ (All₂-refl _) (
      All₂-append mid (device_read mid (device ch.pa_base ch.cb)).0 _ _
        (device_read-SameStack mid (device ch.pa_base ch.cb))
        (All₂-refl (drop (ch.i_base + ch.c) mems))) in
    subst (λ (ms : List Mem). All₂ SameStack ms (read_chunk device ch mems).0) split parts

read_chunks-SameStack :
    (device : ℕ → ℕ → List ℕ) (chs : List Chunk) (mems : List Mem)
    → All₂ SameStack mems (read_chunks device chs mems).0
unfolding read_chunks
read_chunks-SameStack device [] mems = All₂-refl mems
read_chunks-SameStack device (ch ∷ chs) mems =
    let mems' = (read_chunk device ch mems).0 in
    All₂-trans mems mems' _ (read_chunk-SameStack device ch mems)
      (read_chunks-SameStack device chs mems')

pub read_scatter_gather-SameStack :
    (device : ℕ → ℕ → List ℕ) (cfg : Config) (mems : List Mem)
    → All₂ SameStack mems (read_scatter_gather device cfg mems).0
unfolding read_scatter_gather
read_scatter_gather-SameStack device cfg mems = elim (Bool-cases cfg.f_active) [
  | inl e ↦ rw e (read_chunks-SameStack device _ mems)
  | inr e ↦ rw e (All₂-refl mems)
]
