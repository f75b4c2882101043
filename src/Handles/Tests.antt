-- ===== src/Handles/Tests.antt =====
-- Handles at concrete inputs.
use leech_core.Base.{ℕ, ◌+◌, ◌<◌, ◌≡◌, refl, arith, true, false, some, none, List, [], ◌∷◌, dword}
use leech_core.Handles.{Open, Request, close, close_all, create_ex}
use leech_core.Handles.Count.{IsValid, Agrees, handles, close-Agrees}
use leech_core.Handles.Create.{Opened, create_ex-Opened}
use leech_core.Handles.CloseAll.{total, close_all-empty}

-- A context with two handles and one with a single handle.
abbrev two_open : List Open
two_open =
    record { handle = 0x2000; dw_handle_count = 2 }
    ∷ record { handle = 0x1000; dw_handle_count = 1 }
    ∷ []

two_open-IsValid : IsValid two_open
unfolding handles
two_open-IsValid =
    (omega arith, omega arith, refl, omega arith, (omega arith, omega arith, refl, omega arith, tt))

close-Agrees_example :
    IsValid (close 0x2000 two_open) × Agrees 0x2000 1 two_open (close 0x2000 two_open)
unfolding handles
close-Agrees_example = close-Agrees 0x2000 two_open two_open-IsValid

two_open-few : (x : ℕ) → handles x two_open + 1 < dword
unfolding handles
two_open-few x = ground arith

abbrev opening : Request
opening = record {
  version = true;
  remote = false;
  existing = true;
  qw_existing_handle = 0x1000;
  alloc = none;
  created = false;
}

opening-fresh : (h : ℕ) → opening.alloc ≡ some h → (0 < h) × (handles h two_open ≡ 0)
opening-fresh h e = grind arith

create_ex-Opened_example :
    IsValid (create_ex opening two_open).1
    × Opened (create_ex opening two_open).0 two_open (create_ex opening two_open).1
create_ex-Opened_example =
    create_ex-Opened opening two_open two_open-IsValid two_open-few opening-fresh

close_all-empty_example : close_all 3 two_open ≡ []
unfolding total
close_all-empty_example = close_all-empty 3 two_open two_open-IsValid (omega arith)
