-- ===== src/Scatter/Tests.antt =====
-- Scattered transfers at concrete inputs.
use leech_core.Base.{
  some_inj, refl, arith, false, true, none, some, List, [], ◌∷◌, map, replicate, All, All₂, subst,
}
use leech_core.MemScatter.{Mem, stack_push, stack_pop}
use leech_core.MemScatter.Same.{SameBelow}
use leech_core.MemScatter.Stack.{HasRoom, pop-push-SameBelow}
use leech_core.MemMap.{create, add_range}
use leech_core.ReadContigious.{Copy}
use leech_core.Scatter.{Device, Context, read_scatter}
use leech_core.Scatter.Restore.{IsRestored, ReadKeepsStacks, read_scatter-IsRestored}

-- A device's own scattered read, which counts the bytes of a chunk on the chunk's stack, as that of
-- the FPGA does.
abbrev counted : Mem → Mem
counted mem = record (stack_pop (stack_push mem 0)).1 { f = true }

abbrev fpga : Device
fpga = record {
  read_scatter = some (λ mems. (map counted mems, []));
  read_contigious = λ pa cb. [];
  write_scatter = none;
  write_contigious = none;
}

abbrev handle : Context
handle = record {
  is_open = true;
  f_remote = false;
  mem_map = (add_range true create 0 0x10_0000 0).1;
  read_config = record {
    c_thread = 1;
    cb_chunk_size = 0x0100_0000;
    f_load_balance = false;
    f_active = true;
  };
  device = fpga;
}

abbrev chunk : Mem
chunk = record { f = false; qw_a = 0x1000; cb = 8; pb = 0; i_stack = 0; v_stack = replicate 12 0 }

counted-SameBelow : (mems : List Mem) → All HasRoom mems → All₂ SameBelow mems (map counted mems)
counted-SameBelow [] h = tt
counted-SameBelow (mem ∷ mems) (r, h) =
    let s = pop-push-SameBelow r 0 in
    (
      record { cb = s.cb; pb = s.pb; i_stack = s.i_stack; below = s.below },
      counted-SameBelow mems h,
    )

handle-keeps : ReadKeepsStacks handle
handle-keeps read e mems room =
    subst (λ (f : List Mem → List Mem × List Copy). All₂ SameBelow mems (f mems).0) (some_inj _ _ e)
      (counted-SameBelow mems room)

read_scatter-IsRestored_example : All₂ IsRestored (chunk ∷ []) (read_scatter handle (chunk ∷ [])).0
read_scatter-IsRestored_example =
    read_scatter-IsRestored handle (chunk ∷ []) refl handle-keeps ((refl, omega arith), tt)
