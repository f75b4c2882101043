-- ===== src/ObCore/Tests.antt =====
-- Objects at concrete inputs.
use leech_core.Base.{◌≡◌, refl, arith, true, some, [], ◌∷◌}
use leech_core.ObCore.{Ob, header_magic, alloc_ex}
use leech_core.ObCore.Uses.{take, drop, holders, run, Follows, run-Follows}

-- A new object with both callbacks.
abbrev fresh : Ob
fresh = record {
  magic1 = header_magic;
  tag = 5;
  pfn_ref_0 = true;
  pfn_ref_1 = true;
  count = 1;
  cb_data = 8;
  magic2 = header_magic;
}

fresh-alloc_ex : alloc_ex true 5 72 true true ≡ some fresh
unfolding alloc_ex
fresh-alloc_ex = refl

run-Follows_example :
    Follows fresh (holders 1 (take ∷ drop ∷ drop ∷ [])) (run (some fresh) (take ∷ drop ∷ drop ∷ []))
run-Follows_example = run-Follows (take ∷ drop ∷ drop ∷ []) fresh 0 refl refl (omega arith)
