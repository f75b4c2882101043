-- ===== src/Options/Tests.antt =====
-- Options at concrete inputs.
use leech_core.Base.{ℕ, ◌≡◌, ◌≢◌, refl, true, false, some, none, inl, inr, if◌then◌else◌, ◌==◌}
use leech_core.MemMap.{create}
use leech_core.Options.{Core, Driver, high, opt_verbose, get_option, set_option}
use leech_core.Options.Flags.{after, get_option-set_option}

abbrev core : Core
core = record {
  is_open = true;
  f_remote = false;
  f_printf = record { enable = true; v = false; vv = false; vvv = false };
  mem_map = create;
  call_c = λ id. 0;
  call_tm = λ id. 0;
  f_volatile = true;
  f_writable = false;
}

-- A device that knows one option of its own.
abbrev driver : Driver ℕ
driver = record {
  get_option = some (λ d o. if o == 0x0300_0000_0000_0000 then some d else none);
  set_option = some (λ d o v. if o == 0x0300_0000_0000_0000 then (true, v) else (false, d));
}

get_option-set_option_example :
    ((set_option driver core 5 opt_verbose 3).0 ≡ true)
    × ((set_option driver core 5 opt_verbose 3).1.1 ≡ 5)
    × (get_option driver (after driver core 5 opt_verbose 3) 5 opt_verbose ≡ some 1)
    × ((x : ℕ)
        → high x ≢ opt_verbose
        → get_option driver (after driver core 5 opt_verbose 3) 5 x ≡ get_option driver core 5 x)
get_option-set_option_example =
    get_option-set_option driver core 5 opt_verbose 3 refl refl (inr (inl refl))
