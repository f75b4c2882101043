-- ===== src/Handles/Count.antt =====
-- How many handles of each context are out.
use leech_core.Base.{
  ℕ, ◌-◌, ◌<◌, ◌≡◌, inl, inr, refl, ◌∙◌, ap, sym, arith, Bool-cases, Option-cases, none, some, List,
  [], ◌∷◌, if◌then◌else◌, ◌==◌, sub32, dword,
}
use leech_core.Handles.{Open, find, set_count, detach, close}

-- The number of handles of a context that are out: 0 for one that is not open.
unfoldable pub handles : ℕ → List Open → ℕ
handles h [] = 0
handles h (c ∷ cs) = let rest = handles h cs in if c.handle == h then c.dw_handle_count else rest

-- Every context has a handle out, at most 2 ^ 32 - 2 of them, and stands on the list once.
abbrev pub IsValid : List Open → Type 0
IsValid [] = Unit {0}
IsValid (c ∷ cs) =
    (0 < c.dw_handle_count)
    × (c.dw_handle_count < dword)
    × (handles c.handle cs ≡ 0)
    × (0 < c.handle)
    × IsValid cs

-- The list that has `n` for one context and agrees with `s` on all others.
abbrev pub Agrees : ℕ → ℕ → List Open → List Open → Type 0
Agrees h n s s' = (x : ℕ) → handles x s' ≡ (if x == h then n else handles x s)

find-handles :
    (h : ℕ) (s : List Open) (c : Open)
    → find h s ≡ some c
    → (handles h s ≡ c.dw_handle_count) × (c.handle ≡ h)
unfolding find handles
find-handles h [] c e = grind arith
find-handles h (x ∷ xs) c e = grind (arith, find-handles h xs c)

find-none : (h : ℕ) (s : List Open) → find h s ≡ none → handles h s ≡ 0
unfolding find handles
find-none h [] e = refl
find-none h (x ∷ xs) e = grind (arith, find-none h xs)

pub set_count-handles :
    (h n : ℕ) (s : List Open)
    → 0 < handles h s
    → (x : ℕ) → handles x (set_count h n s) ≡ (if x == h then n else handles x s)
unfolding set_count handles
set_count-handles h n [] some_out x = absurd (omega arith)
set_count-handles h n (c ∷ cs) some_out x = grind (arith, set_count-handles h n cs)

pub detach-handles :
    (h : ℕ) (s : List Open)
    → IsValid s
    → (x : ℕ) → handles x (detach h s) ≡ (if x == h then 0 else handles x s)
unfolding detach handles
detach-handles h [] v x = ground arith
detach-handles h (c ∷ cs) (_, _, once, _, v) x = grind (arith, detach-handles h cs v)

set_count-none :
    (h n x : ℕ) (s : List Open) → IsValid s → handles x s ≡ 0 → handles x (set_count h n s) ≡ 0
unfolding set_count handles
set_count-none h n x [] v e = refl
set_count-none h n x (c ∷ cs) (some_out, _, _, _, v) e = grind (arith, set_count-none h n x cs)

detach-none : (h x : ℕ) (s : List Open) → IsValid s → handles x s ≡ 0 → handles x (detach h s) ≡ 0
unfolding detach handles
detach-none h x [] v e = refl
detach-none h x (c ∷ cs) (some_out, _, _, _, v) e = grind (arith, detach-none h x cs)

pub set_count-IsValid :
    (h n : ℕ) (s : List Open) → 0 < n → n < dword → IsValid s → IsValid (set_count h n s)
unfolding set_count
set_count-IsValid h n [] lo hi v = tt
set_count-IsValid h n (c ∷ cs) lo hi (a, b, once, d, v) = elim (Bool-cases (c.handle == h)) [
  | inl e ↦ rw e (lo, hi, once, d, v)
  | inr e ↦ rw e (a, b, set_count-none h n c.handle cs v once, d, set_count-IsValid h n cs lo hi v)
]

pub detach-IsValid : (h : ℕ) (s : List Open) → IsValid s → IsValid (detach h s)
unfolding detach
detach-IsValid h [] v = tt
detach-IsValid h (c ∷ cs) (a, b, once, d, v) = elim (Bool-cases (c.handle == h)) [
  | inl e ↦ rw e v
  | inr e ↦ rw e (a, b, detach-none h c.handle cs v once, d, detach-IsValid h cs v)
]

pub handles-lt : (h : ℕ) (s : List Open) → IsValid s → handles h s < dword
unfolding handles
handles-lt h [] v = omega arith
handles-lt h (c ∷ cs) (a, b, once, d, v) = grind (arith, handles-lt h cs)

find-IsValid :
    (h : ℕ) (s : List Open) (c : Open) → IsValid s → find h s ≡ some c → 0 < c.dw_handle_count
unfolding find
find-IsValid h [] c v e = grind arith
find-IsValid h (x ∷ xs) c (some_out, _, _, _, v) e = grind (arith, find-IsValid h xs c v)

pub handles-Agrees : (h : ℕ) (s : List Open) (n : ℕ) → n ≡ handles h s → Agrees h n s s
handles-Agrees h s n e x = elim (Bool-cases (x == h)) [
  | inl t ↦ let at : x ≡ h = ground (arith, t) in rw t (ap (λ y. handles y s) at ∙ sym e)
  | inr t ↦ rw t refl
]

-- A close takes one handle of its context back, and no other; the last one takes the context off the
-- list. A handle that is not out changes nothing.
pub close-Agrees :
    (h : ℕ) (s : List Open)
    → IsValid s
    → IsValid (close h s) × Agrees h (handles h s - 1) s (close h s)
unfolding close
close-Agrees h s v = elim (Option-cases (find h s)) [
  | inl e ↦
      let out : handles h s ≡ 0 = find-none h s e in
      simp (close, e) (v, handles-Agrees h s (handles h s - 1) (omega arith))
  | inr (c, e) ↦
      let (count, _) = find-handles h s c e in
      let some_out = find-IsValid h s c v e in
      let fewer : sub32 c.dw_handle_count 1 ≡ handles h s - 1 =
        omega (arith, count, some_out, handles-lt h s v) in
      elim (Bool-cases (handles h s - 1 == 0)) [
        | inl t ↦
            let last : handles h s - 1 ≡ 0 = ground (arith, t) in
            simp (close, e, fewer, last) (detach-IsValid h s v, detach-handles h s v)
        | inr t ↦
            let more : 0 < handles h s - 1 = ground (arith, t) in
            simp (close, e, fewer, t)
              (
                set_count-IsValid h (handles h s - 1) s more (omega (arith, handles-lt h s v)) v,
                set_count-handles h (handles h s - 1) s (omega (arith, count, some_out)),
              )
      ]
]
