-- ===== src/Handles.antt =====
-- leechcore/leechcore.c: the contexts that are open, on the list that starts at `g_ctx.FLink`, with
-- the number of handles of each: `LcCreateEx`, `LcClose` and `LcCloseAll`.
pub mod Count
pub mod Create
pub mod CloseAll
mod Tests
use leech_core.Base.{
  ℕ, zero, suc, ◌+◌, Bool, true, false, not, ◌&&◌, Option, none, some, List, [], ◌∷◌, if◌then◌else◌,
  ◌==◌, add32, sub32,
}

-- A context of the list: its address, which is the handle, and `dwHandleCount`.
pub record Open : Type 0 where
  pub handle : ℕ
  pub dw_handle_count : ℕ

pub find : ℕ → List Open → Option Open
find h [] = none
find h (c ∷ cs) = let rest = find h cs in if c.handle == h then some c else rest

-- `ctxLC->dwHandleCount = n`
pub set_count : ℕ → ℕ → List Open → List Open
set_count h n [] = []
set_count h n (c ∷ cs) =
    let rest = set_count h n cs in
    if c.handle == h then record c { dw_handle_count = n } ∷ cs else c ∷ rest

-- The part of `LcClose` that detaches a context from the list.
pub detach : ℕ → List Open → List Open
detach h [] = []
detach h (c ∷ cs) = let rest = detach h cs in if c.handle == h then cs else c ∷ rest

-- `LcClose`. A pointer that is no context of the list fails the test of the version.
unfoldable pub close : ℕ → List Open → List Open
close h s = elim (find h s) [
  | some c ↦ let n = sub32 c.dw_handle_count 1 in if n == 0 then detach h s else set_count h n s
  | none ↦ s
]

-- The loop of `LcCloseAll`. Fuel as large as the number of handles is enough.
pub close_all : ℕ → List Open → List Open
close_all zero s = s
close_all (suc fuel) [] = []
close_all (suc fuel) (c ∷ cs) = close_all fuel (close c.handle (c ∷ cs))

-- The context that `existing` opens: with a number the one of that handle, else the first.
pub choose : ℕ → List Open → Option Open
choose h [] = none
choose h (c ∷ cs) =
    let rest = choose h cs in if not (h == 0) && not (h == c.handle) then rest else some c

-- A call of `LcCreateEx`: whether there is a configuration of the right version, whether it names a
-- remote system and the device `existing`, the handle behind `existing://`, or 0, the address that
-- the allocation of a context gives, if any, and whether its device and its reads are set up.
pub record Request : Type 0 where
  pub version : Bool
  pub remote : Bool
  pub existing : Bool
  pub qw_existing_handle : ℕ
  pub alloc : Option ℕ
  pub created : Bool

-- The opening of a context that is there, which counts one handle more.
unfoldable pub open_existing : ℕ → List Open → Option ℕ × List Open
open_existing h s = elim (choose h s) [
  | some c ↦ (some c.handle, set_count c.handle (add32 c.dw_handle_count 1) s)
  | none ↦ (none, s)
]

-- The opening of a new context. After a failure it is closed, and is not yet on the list.
unfoldable pub open_new : Request → List Open → Option ℕ × List Open
open_new r s = elim r.alloc [
  | some h ↦
      if r.created
      then (some h, record { handle = h; dw_handle_count = 1 } ∷ s)
      else (none, detach h s)
  | none ↦ (none, s)
]

-- `LcCreateEx`: the handle, if any, and the list.
unfoldable pub create_ex : Request → List Open → Option ℕ × List Open
create_ex r s =
    if not r.version
    then (none, s)
    else if not r.remote && r.existing
    then open_existing r.qw_existing_handle s
    else open_new r s
