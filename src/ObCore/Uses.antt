-- ===== src/ObCore/Uses.antt =====
-- An object over a sequence of uses.
use leech_core.Base.{
  ℕ, zero, suc, ◌+◌, ◌<◌, ◌≡◌, refl, ap, ◌∙◌, arith, Bool-cases, inl, inr, true, false, ◌&&◌,
  Option, none, some, List, [], ◌∷◌, ◌++◌, append-nil, length, if◌then◌else◌, ◌==◌, add32, sub32,
  dword,
}
use leech_core.ObCore.{Ob, Callback, ref_0, ref_1, has_magic, xincref, xdecref}

-- What a holder of a reference does.
pub data Use : Type 0 where
  take : Use
  drop : Use

abbrev pub step : Use → Ob → Option Ob × List Callback
step take ob = (some (xincref ob).1, [])
step drop ob = ((xdecref ob).ob, (xdecref ob).calls)

-- The callbacks of the first use come first.
abbrev pub after_calls :
    List Callback → Option (Option Ob × List Callback) → Option (Option Ob × List Callback)
after_calls calls r = elim r [ some (o, more) ↦ some (o, calls ++ more) | none ↦ none ]

-- The object after a sequence of uses and the callbacks made, none for a use of a freed object.
unfoldable pub run : Option Ob → List Use → Option (Option Ob × List Callback)
run o [] = some (o, [])
run none (u ∷ us) = none
run (some ob) (u ∷ us) = let (o, calls) = step u ob in after_calls calls (run o us)

-- The number of references that are held, none for a use by one that holds none.
unfoldable pub holders : ℕ → List Use → Option ℕ
holders n [] = some n
holders zero (u ∷ us) = none
holders (suc n) (take ∷ us) = holders (suc (suc n)) us
holders (suc n) (drop ∷ us) = holders n us

-- How often the callback before the freeing was made.
unfoldable pub cleanups : List Callback → ℕ
cleanups [] = 0
cleanups (ref_0 ∷ cs) = suc (cleanups cs)
cleanups (ref_1 ∷ cs) = cleanups cs

-- With `n` references left the object is alive, with this count; with none it was freed, after one
-- call of the callback for it, if there is one.
abbrev pub Leaves : Ob → ℕ → Option Ob × List Callback → Type 0
Leaves ob zero (o, calls) = (o ≡ none) × (cleanups calls ≡ (if ob.pfn_ref_0 then 1 else 0))
Leaves ob (suc n) (o, calls) = (o ≡ some (record ob { count = suc n })) × (cleanups calls ≡ 0)

abbrev pub Follows : Ob → Option ℕ → Option (Option Ob × List Callback) → Type 0
Follows ob (some n) (some out) = Leaves ob n out
Follows ob none none = Unit {0}
Follows ob (some n) none = ⊥
Follows ob none (some out) = ⊥

incref_lem :
    (ob : Ob) (n : ℕ)
    → has_magic ob ≡ true
    → ob.count ≡ n
    → n + 1 < dword
    → xincref ob ≡ (true, record ob { count = suc n })
unfolding xincref
incref_lem ob n magic is few =
    let more : add32 ob.count 1 ≡ suc n = omega (arith, is, few) in simp (xincref, magic, more)

decref-last :
    (ob : Ob)
    → has_magic ob ≡ true
    → ob.count ≡ 1
    → (xdecref ob).ob ≡ none × (cleanups (xdecref ob).calls ≡ (if ob.pfn_ref_0 then 1 else 0))
unfolding xdecref cleanups
decref-last ob magic is =
    let less : sub32 ob.count 1 ≡ 0 = omega (arith, is) in
    elim (Bool-cases ob.pfn_ref_0) [
      | inl t ↦ simp (xdecref, magic, less, t) (refl, refl)
      | inr t ↦ simp (xdecref, magic, less, t) (refl, refl)
    ]

decref-more :
    (ob : Ob) (n : ℕ)
    → has_magic ob ≡ true
    → ob.count ≡ suc (suc n)
    → suc (suc n) < dword
    → ((xdecref ob).ob ≡ some (record ob { count = suc n })) × (cleanups (xdecref ob).calls ≡ 0)
unfolding xdecref cleanups
decref-more ob n magic is few =
    let less : sub32 ob.count 1 ≡ suc n = omega (arith, is, few) in
    let more : (suc n == 0) ≡ false = ground arith in
    elim (Bool-cases (suc n == 1 && ob.pfn_ref_1)) [
      | inl t ↦ simp (xdecref, magic, less, more, t) (refl, refl)
      | inr t ↦ simp (xdecref, magic, less, more, t) (refl, refl)
    ]

cleanups-append : (cs ds : List Callback) → cleanups (cs ++ ds) ≡ cleanups cs + cleanups ds
unfolding cleanups
cleanups-append [] ds = omega arith
cleanups-append (ref_0 ∷ cs) ds = omega (arith, cleanups-append cs ds)
cleanups-append (ref_1 ∷ cs) ds = cleanups-append cs ds

after_calls-Follows :
    (ob : Ob) (h : Option ℕ) (r : Option (Option Ob × List Callback)) (calls : List Callback)
    → cleanups calls ≡ 0
    → Follows ob h r
    → Follows ob h (after_calls calls r)
after_calls-Follows ob (some zero) (some (o, more)) calls e (freed, once) =
    (freed, cleanups-append calls more ∙ omega (arith, e, once))
after_calls-Follows ob (some (suc n)) (some (o, more)) calls e (alive, never) =
    (alive, cleanups-append calls more ∙ omega (arith, e, never))
after_calls-Follows ob none none calls e f = f
after_calls-Follows ob (some n) none calls e f = f
after_calls-Follows ob none (some out) calls e f = f

-- Over a sequence of uses, with fewer than 2 ^ 32 references in all, an object is there, with the
-- count of the references that are held, as long as one is held. It is freed when the last is
-- dropped, after exactly one call of its callback for that. A use by a holder of no reference, and
-- no other, meets a freed object.
pub run-Follows :
    (us : List Use) (ob : Ob) (n : ℕ)
    → has_magic ob ≡ true
    → ob.count ≡ suc n
    → suc n + length us < dword
    → Follows ob (holders (suc n) us) (run (some ob) us)
unfolding run holders cleanups
run-Follows [] ob n magic is few = (ap (λ (k : ℕ). some (record ob { count = k })) is, refl)
run-Follows (take ∷ us) ob n magic is few =
    let to : some (xincref ob).1 ≡ some (record ob { count = suc (suc n) }) =
      ap (λ t. some t.1) (incref_lem ob (suc n) magic is (omega (arith, few))) in
    rw to (
      after_calls-Follows ob (holders (suc (suc n)) us)
        (run (some (record ob { count = suc (suc n) })) us) [] refl
        (run-Follows us (record ob { count = suc (suc n) }) (suc n) magic refl
          (omega (arith, few))))
run-Follows (drop ∷ []) ob zero magic is few =
    let (freed, once) = decref-last ob magic is in
    (freed, ap cleanups (append-nil (xdecref ob).calls) ∙ once)
run-Follows (drop ∷ (u ∷ us)) ob zero magic is few = rw (decref-last ob magic is).0 tt
run-Follows (drop ∷ us) ob (suc m) magic is few =
    let (alive, never) = decref-more ob m magic is (omega (arith, few)) in
    rw alive (
      after_calls-Follows ob (holders (suc m) us) (run (some (record ob { count = suc m })) us)
        (xdecref ob).calls never
        (run-Follows us (record ob { count = suc m }) m magic refl (omega (arith, few))))
