-- ===== src/Detect/Tests.antt =====
-- The detection at a concrete input.
use leech_core.Base.{
  ℕ, zero, suc, ◌≡◌, ◌∙◌, refl, arith, true, false, none, some, List, [], ◌∷◌, map, replicate, ltb,
  All, All₂,
}
use leech_core.MemScatter.{Mem, stack_push, stack_pop}
use leech_core.MemScatter.Stack.{IsDocumented, length-set, pop-push, IsDocumented-HasRoom}
use leech_core.MemMap.{create}
use leech_core.MemMap.Translate.{translate_mems}
use leech_core.Scatter.{Context, save, restore, read_scatter, read_local, fetch}
use leech_core.Transfer.{blank}
use leech_core.Detect.{detect}
use leech_core.Detect.Round.{Answers, IsAimed, HasMemory}
use leech_core.Detect.Top.{detect-top}

-- A read of a chunk of a system with 8GB.
abbrev answer : Mem → Mem
answer mem = record mem { f = ltb mem.qw_a 0x0002_0000_0000 }

-- A local handle before it has ranges, with a scattered read of the device's own.
abbrev handle : Context
handle = record {
  is_open = true;
  f_remote = false;
  mem_map = create;
  read_config = record {
    c_thread = 1;
    cb_chunk_size = 0x0100_0000;
    f_load_balance = false;
    f_active = true;
  };
  device = record {
    read_scatter = some (λ mems. (map answer mems, []));
    read_contigious = λ pa cb. [];
    write_scatter = none;
    write_contigious = none;
  };
}

restored-Answers :
    (mem : Mem) → IsAimed mem → Answers 0x0002_0000_0000 mem (restore (answer (save mem)))
unfolding stack_push stack_pop
restored-Answers mem (_, _, (_, doc)) =
    let back = pop-push {mem = mem} (IsDocumented-HasRoom {mem = mem} doc) mem.qw_a in
    (
      refl,
      back.0,
      λ (size, (sized, low)).
          (size, (length-set mem.v_stack mem.i_stack mem.qw_a ∙ sized, omega (arith, low))),
    )

map-Answers :
    (mems : List Mem)
    → All IsAimed mems
    → All₂ (Answers 0x0002_0000_0000) mems (map restore (map answer (map save mems)))
map-Answers [] h = tt
map-Answers (mem ∷ mems) (aimed, h) = (restored-Answers mem aimed, map-Answers mems h)

handle-HasMemory : HasMemory handle 0x0002_0000_0000
unfolding read_scatter read_local fetch translate_mems
handle-HasMemory = record { answers = map-Answers }

blanks : (n : ℕ) → All IsDocumented (replicate n (blank 0))
blanks zero = tt
blanks (suc n) = ((refl, omega arith), blanks n)

detect-top_example : detect 1 handle (replicate 17 (blank 0)) ≡ some 0x0002_0000_0000
detect-top_example =
    detect-top handle 0x0002_0000_0000 handle-HasMemory (omega arith) 0 (replicate 17 (blank 0))
      refl (blanks 16) refl (omega arith)
