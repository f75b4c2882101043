-- ===== src/Handles/Create.antt =====
-- `LcCreateEx` and the handles that are out.
use leech_core.Base.{
  ℕ, ◌+◌, ◌<◌, ◌≡◌, inl, inr, refl, ◌∙◌, sym, arith, Bool-cases, not, ◌&&◌, Option, Option-cases,
  none, some, List, [], ◌∷◌, add32, dword,
}
use leech_core.Handles.{Open, choose, Request, open_existing, open_new, create_ex}
use leech_core.Handles.Count.{
  IsValid, Agrees, handles, set_count-handles, detach-handles, set_count-IsValid, detach-IsValid,
  handles-Agrees,
}

-- One handle more is out for the context that was opened, if one was.
abbrev pub Opened : Option ℕ → List Open → List Open → Type 0
Opened o s s' = elim o [
  | some h ↦ Agrees h (handles h s + 1) s s'
  | none ↦ (x : ℕ) → handles x s' ≡ handles x s
]

choose-handles :
    (h : ℕ) (s : List Open) (c : Open)
    → IsValid s
    → choose h s ≡ some c
    → (handles c.handle s ≡ c.dw_handle_count) × (0 < c.dw_handle_count)
unfolding choose handles
choose-handles h [] c v e = grind arith
choose-handles h (x ∷ xs) c (some_out, _, once, _, v) e = grind (arith, choose-handles h xs c v)

open_existing-Opened :
    (h : ℕ) (s : List Open)
    → IsValid s
    → ((x : ℕ) → handles x s + 1 < dword)
    → IsValid (open_existing h s).1 × Opened (open_existing h s).0 s (open_existing h s).1
unfolding open_existing
open_existing-Opened h s v few = elim (Option-cases (choose h s)) [
  | inl e ↦ simp (open_existing, e) (v, λ x. refl)
  | inr (c, e) ↦
      let (count, some_out) = choose-handles h s c v e in
      let more : add32 c.dw_handle_count 1 ≡ handles c.handle s + 1 =
        omega (arith, count, few c.handle) in
      simp (open_existing, e, more)
        (
          set_count-IsValid c.handle (handles c.handle s + 1) s (omega arith) (few c.handle) v,
          set_count-handles c.handle (handles c.handle s + 1) s (omega (arith, count, some_out)),
        )
]

open_new-Opened :
    (r : Request) (s : List Open)
    → IsValid s
    → ((h : ℕ) → r.alloc ≡ some h → (0 < h) × (handles h s ≡ 0))
    → IsValid (open_new r s).1 × Opened (open_new r s).0 s (open_new r s).1
unfolding open_new handles
open_new-Opened r s v fresh = elim (Option-cases r.alloc) [
  | inl e ↦ simp (open_new, e) (v, λ x. refl)
  | inr (h, e) ↦
      let (positive, unused) = fresh h e in
      elim (Bool-cases r.created) [
        | inl t ↦
            simp (open_new, e, t)
              ((omega arith, omega arith, unused, positive, v), λ x. ground (arith, unused))
        | inr t ↦
            simp (open_new, e, t)
              (
                detach-IsValid h s v,
                λ x. detach-handles h s v x ∙ sym (handles-Agrees h s 0 (sym unused) x),
              )
      ]
]

-- `LcCreateEx` keeps the list valid, when a new context gets an address of its own. When it gives a
-- handle out, one more is out for that context, and no other changes; else none does.
pub create_ex-Opened :
    (r : Request) (s : List Open)
    → IsValid s
    → ((x : ℕ) → handles x s + 1 < dword)
    → ((h : ℕ) → r.alloc ≡ some h → (0 < h) × (handles h s ≡ 0))
    → IsValid (create_ex r s).1 × Opened (create_ex r s).0 s (create_ex r s).1
unfolding create_ex
create_ex-Opened r s v few fresh = elim (Bool-cases r.version) [
  | inl t ↦ elim (Bool-cases (not r.remote && r.existing)) [
    | inl u ↦ simp (create_ex, t, u) (open_existing-Opened r.qw_existing_handle s v few)
    | inr u ↦ simp (create_ex, t, u) (open_new-Opened r s v fresh)
  ]
  | inr t ↦ simp (create_ex, t) (v, λ x. refl)
]
