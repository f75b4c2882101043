-- ===== src/MemScatter.antt =====
-- leechcore/leechcore.h: `MEM_SCATTER`, one chunk of memory of a scattered transfer, and the macros
-- for the small stack that each chunk carries.
pub mod Stack
pub mod Same
use leech_core.Base.{
  ℕ, ◌+◌, ◌-◌, Bool, not, List, ◌==◌, get_or, set, add32, sub32, qword_max, dword,
}

-- `MEM_SCATTER`. `pb` is the address of the chunk's buffer.
pub record Mem : Type 0 where
  pub f : Bool
  pub qw_a : ℕ
  pub cb : ℕ
  pub pb : ℕ
  pub i_stack : ℕ
  pub v_stack : List ℕ

-- `MEM_SCATTER_STACK_SIZE`
abbrev pub stack_size : ℕ
stack_size = 12

-- `MEM_SCATTER_ADDR_ISVALID`
abbrev pub addr_is_valid : Mem → Bool
addr_is_valid mem = not (mem.qw_a == qword_max)

-- `MEM_SCATTER_STACK_PUSH`
unfoldable pub stack_push : Mem → ℕ → Mem
stack_push mem v = record mem {
  v_stack = set mem.v_stack mem.i_stack v;
  i_stack = add32 mem.i_stack 1;
}

-- `MEM_SCATTER_STACK_POP`: the value, and the chunk that is left.
unfoldable pub stack_pop : Mem → ℕ × Mem
stack_pop mem = let i = sub32 mem.i_stack 1 in (get_or mem.v_stack i 0, record mem { i_stack = i })
