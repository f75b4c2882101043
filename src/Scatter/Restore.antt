-- ===== src/Scatter/Restore.antt =====
-- `LcReadScatter` gives each chunk its address back, whatever the memory map and the device did with
-- it.
use leech_core.Base.{
  length, ◌<◌, arith, ℕ, false, Option-cases, ◌≡◌, refl, ◌∙◌, ap, List, [], ◌∷◌, map, All, All₂,
  some, get_or, sub32, Bool-cases, inl, inr,
}
use leech_core.MemScatter.{Mem, stack_push, stack_pop}
use leech_core.MemScatter.Stack.{
  HasRoom, pop-push, IsDocumented, IsDocumented-HasRoom, stack_push-HasRoom,
}
use leech_core.MemScatter.Same.{SameStack, SameBelow, All₂-SameBelow, All₂-then}
use leech_core.MemMap.Translate.Frame.{translate_mems-SameStack}
use leech_core.ReadContigious.{Copy}
use leech_core.ReadContigious.Frame.{read_scatter_gather-SameStack}
use leech_core.Scatter.{Context, save, restore, translated, fetch, read_local, read_scatter}

-- The chunk after a transfer: its address, its size, its buffer and the height of its stack are
-- those of before.
pub record IsRestored (mem mem' : Mem) : Type 0 where
  pub qw_a : mem'.qw_a ≡ mem.qw_a
  pub cb : mem'.cb ≡ mem.cb
  pub pb : mem'.pb ≡ mem.pb
  pub i_stack : mem'.i_stack ≡ mem.i_stack

-- What is asked of a device's own scattered read: that it leaves the buffers' places, the heights of
-- the stacks and the values on them alone, for chunks with room for one value. What it pushes itself
-- it pops.
abbrev pub KeepsStacks : (List Mem → List Mem) → Type 0
KeepsStacks f = (mems : List Mem) → All HasRoom mems → All₂ SameBelow mems (f mems)

restore-IsRestored :
    {mem : Mem} (u : Mem) → HasRoom mem → SameBelow (save mem) u → IsRestored mem (restore u)
unfolding stack_push stack_pop
restore-IsRestored {mem} u room s =
    let top = pop-push room mem.qw_a in
    let under : sub32 (save mem).i_stack 1 < (save mem).i_stack = omega (arith, room.free) in
    record {
      qw_a = ap (λ (i : ℕ). get_or u.v_stack (sub32 i 1) 0) s.i_stack ∙ s.below _ under ∙ top.0;
      cb = s.cb;
      pb = s.pb;
      i_stack = ap (λ i. sub32 i 1) s.i_stack ∙ top.1;
    }

map-restore-IsRestored :
    (mems us : List Mem)
    → All HasRoom mems
    → All₂ SameBelow (map save mems) us
    → All₂ IsRestored mems (map restore us)
map-restore-IsRestored [] [] room s = tt
map-restore-IsRestored [] (u ∷ us) room s = elim s [ ]
map-restore-IsRestored (mem ∷ mems) [] room s = elim s [ ]
map-restore-IsRestored (mem ∷ mems) (u ∷ us) (r, room) (s, ss) =
    (restore-IsRestored u r s, map-restore-IsRestored mems us room ss)

All-HasRoom : (mems : List Mem) → All IsDocumented mems → All HasRoom mems
All-HasRoom [] h = tt
All-HasRoom (mem ∷ mems) (d, h) = (IsDocumented-HasRoom d, All-HasRoom mems h)

saved-HasRoom : (mems : List Mem) → All IsDocumented mems → All HasRoom (map save mems)
saved-HasRoom [] h = tt
saved-HasRoom (mem ∷ mems) (d, h) = (stack_push-HasRoom mem d mem.qw_a, saved-HasRoom mems h)

All-HasRoom-same : (mems us : List Mem) → All₂ SameStack mems us → All HasRoom mems → All HasRoom us
All-HasRoom-same [] [] s h = tt
All-HasRoom-same [] (u ∷ us) s h = elim s [ ]
All-HasRoom-same (mem ∷ mems) [] s h = tt
All-HasRoom-same (mem ∷ mems) (u ∷ us) (s, ss) (r, h) = (
  record {
    sized = ap (λ (xs : List ℕ). length xs) s.v_stack ∙ r.sized;
    free = omega (arith, s.i_stack, r.free);
  },
  All-HasRoom-same mems us ss h,
)

IsRestored-refl : (mems : List Mem) → All₂ IsRestored mems mems
IsRestored-refl [] = tt
IsRestored-refl (mem ∷ mems) =
    (record { qw_a = refl; cb = refl; pb = refl; i_stack = refl }, IsRestored-refl mems)

module _ (ctx : Context) where
  -- The device's own scattered read, if it has one, leaves the stacks alone.
  abbrev pub ReadKeepsStacks : Type 0
  ReadKeepsStacks =
      (read : List Mem → List Mem × List Copy)
      → ctx.device.read_scatter ≡ some read
      → KeepsStacks (λ mems. (read mems).0)

  fetch-SameBelow :
      ReadKeepsStacks
      → (mems : List Mem) → All HasRoom mems
      → All₂ SameBelow mems (fetch ctx mems).0
  unfolding fetch
  fetch-SameBelow keeps mems room = elim (Option-cases ctx.device.read_scatter) [
    | inl e ↦ rw e (
        All₂-SameBelow mems _
          (read_scatter_gather-SameStack ctx.device.read_contigious ctx.read_config mems))
    | inr (read, e) ↦ rw e (keeps read e mems room)
  ]

  read_local-IsRestored :
      (mems : List Mem)
      → ReadKeepsStacks
      → All IsDocumented mems
      → All₂ IsRestored mems (read_local ctx mems).0
  unfolding read_local
  read_local-IsRestored mems keeps room =
      let same = translate_mems-SameStack ctx.mem_map (map save mems) in
      map-restore-IsRestored mems (fetch ctx (translated ctx.mem_map mems)).0
        (All-HasRoom mems room)
        (All₂-then (map save mems) (translated ctx.mem_map mems) _ same (
          fetch-SameBelow keeps (translated ctx.mem_map mems)
            (All-HasRoom-same (map save mems) _ same (saved-HasRoom mems room))))

  -- On a handle that is not remote, every chunk comes back from `LcReadScatter` with the address, the
  -- size, the buffer and the stack height that it had, for every memory map. The stacks of the chunks
  -- are at most as high as the header of the library allows, and a scattered read of the device's own
  -- keeps sizes, buffers and stack heights and the values on the stacks.
  pub read_scatter-IsRestored :
      (mems : List Mem)
      → ctx.f_remote ≡ false
      → ReadKeepsStacks
      → All IsDocumented mems
      → All₂ IsRestored mems (read_scatter ctx mems).0
  unfolding read_scatter
  read_scatter-IsRestored mems local keeps room = elim (Bool-cases ctx.is_open) [
    | inr e ↦ rw e (IsRestored-refl mems)
    | inl e ↦ elim (Option-cases ctx.device.read_scatter) [
      | inl d ↦ rw (e, d) (read_local-IsRestored mems keeps room)
      | inr (read, d) ↦ simp (e, d, local) (read_local-IsRestored mems keeps room)
    ]
  ]
