-- ===== src/Handles/CloseAll.antt =====
-- `LcCloseAll` takes every handle back.
use leech_core.Base.{
  ℕ, zero, suc, ◌+◌, ◌-◌, ◌≤◌, ◌≡◌, inl, inr, refl, arith, Bool-cases, true, some, List, [], ◌∷◌,
  ◌==◌, sub32,
}
use leech_core.Handles.{Open, find, set_count, detach, close, close_all}
use leech_core.Handles.Count.{IsValid, close-Agrees}

-- The number of all handles that are out.
unfoldable pub total : List Open → ℕ
total [] = 0
total (c ∷ cs) = c.dw_handle_count + total cs

module _ (c : Open) (cs : List Open) where
  here : (c.handle == c.handle) ≡ true
  here = ground arith

  find-first : find c.handle (c ∷ cs) ≡ some c
  unfolding find
  find-first = rw (find, here) refl

  detach-first : detach c.handle (c ∷ cs) ≡ cs
  unfolding detach
  detach-first = rw (detach, here) refl

  set_count-first : (n : ℕ) → set_count c.handle n (c ∷ cs) ≡ record c { dw_handle_count = n } ∷ cs
  unfolding set_count
  set_count-first n = rw (set_count, here) refl

  close-first : IsValid (c ∷ cs) → total (c ∷ cs) ≡ suc (total (close c.handle (c ∷ cs)))
  unfolding close total
  close-first (some_out, small, _, _, v) =
      let n : sub32 c.dw_handle_count 1 ≡ c.dw_handle_count - 1 = omega arith in
      elim (Bool-cases (c.dw_handle_count - 1 == 0)) [
        | inl t ↦
            let one : c.dw_handle_count - 1 ≡ 0 = ground (arith, t) in
            simp (close, find-first, n, t, detach-first) (omega (arith, one))
        | inr t ↦ simp (close, find-first, n, t, set_count-first) (omega arith)
      ]

-- `LcCloseAll` ends with an empty list, however many handles are out.
pub close_all-empty :
    (fuel : ℕ) (s : List Open) → IsValid s → total s ≤ fuel → close_all fuel s ≡ []
unfolding close_all total
close_all-empty zero [] v enough = refl
close_all-empty zero (c ∷ cs) (some_out, _, _, _, _) enough = absurd (omega arith)
close_all-empty (suc fuel) [] v enough = refl
close_all-empty (suc fuel) (c ∷ cs) v enough =
    close_all-empty fuel (close c.handle (c ∷ cs)) (close-Agrees c.handle (c ∷ cs) v).0
      (omega (arith, close-first c cs v))
