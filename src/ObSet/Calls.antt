-- ===== src/ObSet/Calls.antt =====
-- leechcore/ob/ob_set.c: sequences of calls on the value set.
use leech_core.Base.{
  some_inj, ℕ, zero, suc, ◌+◌, ◌-◌, ◌*◌, ◌/◌, ◌%◌, ◌≤◌, ◌≡◌, inl, inr, refl, ◌∙◌, ap, sym, subst,
  arith, Bool, false, Bool-cases, ◌==◌, ltb, some, List, [], ◌∷◌, ◌++◌, append-nil, append_assoc,
  add64, qword,
}
use leech_core.ObSet.{ObSet, Allocations, new, exists, pop, clear}
use leech_core.ObSet.Push.{
  push, with_pushed, push_list, push_pages, push_page_align, push_set, push_data,
}
use leech_core.ObSet.Valid.{IsValid, new-IsValid}
use leech_core.ObSet.Elements.{elements, member, exists-member}
use leech_core.ObSet.Pushed.{push-elements}
use leech_core.ObSet.Drop.{pop-elements, clear-elements}

-- The sets that the calls of `ObSet_New`, `ObSet_Push`, `ObSet_Pop` and `ObSet_Clear` lead to.
pub data Calls : ObSet → Type 0 where
  created : Calls new
  pushed :
      (a : Allocations) (s : ObSet) (v : ℕ) (p : Bool × ObSet)
      → Calls s
      → push a s v ≡ some p
      → Calls p.1
  popped : (s : ObSet) (p : ℕ × ObSet) → Calls s → pop s ≡ some p → Calls p.1
  cleared : (s : ObSet) → Calls s → Calls (clear s)

-- Any push keeps the elements, in front of those that it adds.
abbrev Extends : ObSet → ObSet → Type 0
Extends s s' = (added : List ℕ) × (elements s' ≡ elements s ++ added)

push-Extends :
    (a : Allocations) {s : ObSet}
    → IsValid s
    → (v : ℕ) → (p : Bool × ObSet) × (push a s v ≡ some p) × IsValid p.1 × Extends s p.1
push-Extends a {s} valid v =
    let (p, it, outcome) = push-elements a valid v in
    elim outcome [
      | inl (_, e) ↦ (
        p,
        it,
        subst (λ q. IsValid q.1) (sym e) valid,
        ([], ap (λ q. elements q.1) e ∙ sym (append-nil (elements s))),
      )
      | inr (_, _, (valid', inl (_, e))) ↦ (p, it, valid', (v ∷ [], e))
      | inr (_, _, (valid', inr (_, e, _))) ↦
          (p, it, valid', ([], e ∙ sym (append-nil (elements s))))
    ]

Calls-IsValid : (s : ObSet) → Calls s → IsValid s
Calls-IsValid _ created = new-IsValid
Calls-IsValid _ (pushed a s v p calls e) =
    let (p', it, valid, _) = push-Extends a (Calls-IsValid s calls) v in
    subst (λ q. IsValid q.1) (some_inj p' p (sym it ∙ e)) valid
Calls-IsValid _ (popped s p calls e) =
    let (p', it, valid, _) = pop-elements (Calls-IsValid s calls) in
    subst (λ q. IsValid q.1) (some_inj p' p (sym it ∙ e)) valid
Calls-IsValid _ (cleared s calls) = (clear-elements (Calls-IsValid s calls)).0

-- After any calls of push, pop and clear on a new set, the set is valid, and no search for a value is
-- endless: each test of a value, each push and each pop ends.
pub Calls-end :
    (s : ObSet)
    → Calls s
    → IsValid s
      × ((v : ℕ) → (b : Bool) × (exists s v ≡ some b))
      × ((a : Allocations) (v : ℕ) → (p : Bool × ObSet) × (push a s v ≡ some p))
      × ((p : ℕ × ObSet) × (pop s ≡ some p))
Calls-end s calls =
    let valid = Calls-IsValid s calls in
    (
      valid,
      λ v. (member v (elements s), exists-member valid v),
      λ a v. let (p, it, _, _) = push-Extends a valid v in (p, it),
      let (p, it, _, _) = pop-elements valid in (p, it),
    )

push_list-Extends :
    (a : ℕ → Allocations) (k : ℕ) {s : ObSet}
    → IsValid s
    → (vs : List ℕ) → (s' : ObSet) × (push_list a k s vs ≡ some s') × IsValid s' × Extends s s'
unfolding push_list
push_list-Extends a k {s} valid [] = (s, refl, valid, ([], sym (append-nil (elements s))))
push_list-Extends a k {s} valid (v ∷ vs) =
    let (p, it, valid', (added, e)) = push-Extends (a k) valid v in
    let (s', it', valid'', (added', e')) = push_list-Extends a (suc k) valid' vs in
    (
      s',
      ap (λ o. with_pushed o (λ x. push_list a (suc k) x vs)) it ∙ it',
      valid'',
      (added ++ added', e' ∙ ap (λ xs. xs ++ added') e ∙ append_assoc (elements s) added added'),
    )

push_pages-Extends :
    (fuel : ℕ) (a : ℕ → Allocations) {s : ObSet}
    → IsValid s
    → (page end : ℕ) → end + 0x1000 ≤ qword
    → end ≤ page + fuel * 0x1000
    → (s' : ObSet) × (push_pages (suc fuel) a s page end ≡ some s') × IsValid s' × Extends s s'
unfolding push_pages
push_pages-Extends zero a {s} valid page end top enough =
    let stop : ltb page end ≡ false = ground (arith, enough) in
    (s, rw stop refl, valid, ([], sym (append-nil (elements s))))
push_pages-Extends (suc fuel) a {s} valid page end top enough = elim (Bool-cases (ltb page end)) [
  | inl lt ↦
      let (p, it, valid', (added, e)) = push-Extends (a (suc fuel)) valid page in
      let next : add64 page 0x1000 ≡ page + 0x1000 = ground (arith, lt, top) in
      let (s', it', valid'', (added', e')) =
        push_pages-Extends fuel a valid' (add64 page 0x1000) end top
          (omega (arith, next, enough)) in
      (
        s',
        rw lt (
            ap (λ o. with_pushed o (λ x. push_pages (suc fuel) a x (add64 page 0x1000) end)) it
            ∙ it'),
        valid'',
        (added ++ added', e' ∙ ap (λ xs. xs ++ added') e ∙ append_assoc (elements s) added added'),
      )
  | inr ge ↦ (s, rw ge refl, valid, ([], sym (append-nil (elements s))))
]

-- The insertion of the pages of a range that ends before the last page of the address space ends, in
-- one round for each page that the range can touch and the last test. The set stays valid, and
-- keeps its elements in front of those that were added.
pub push_page_align-ends :
    (a : ℕ → Allocations) {s : ObSet}
    → IsValid s
    → (address cb : ℕ) → address + cb + 0x1000 ≤ qword
    → (s' : ObSet) × (push_page_align a s address cb ≡ some s')
      × IsValid s'
      × ((added : List ℕ) × (elements s' ≡ elements s ++ added))
unfolding push_page_align
push_page_align-ends a {s} valid address cb top =
    let page = address - address % 0x1000 in
    let end : add64 address cb ≡ address + cb = omega arith in
    let rounds : cb / 0x1000 + 3 ≡ suc (cb / 0x1000 + 2) = omega arith in
    elim (Bool-cases (page == 0xffff_ffff_ffff_f000)) [
      | inl e ↦ (s, rw e refl, valid, ([], sym (append-nil (elements s))))
      | inr e ↦
          let (s', it, valid', added) =
            push_pages-Extends (cb / 0x1000 + 2) a valid page (add64 address cb)
              (omega (arith, end, top)) (omega (arith, end)) in
          (s', rw e (ap (λ n. push_pages n a s page (add64 address cb)) rounds ∙ it), valid', added)
    ]

-- The values of another set, and those of a list, are pushed to the end. The elements stay in front.
pub push_set-Extends :
    (a : ℕ → Allocations) {s : ObSet}
    → IsValid s
    → (source : ObSet) (qwords : List ℕ)
    → ((s' : ObSet) × (push_set a s source ≡ some s')
        × IsValid s'
        × ((added : List ℕ) × (elements s' ≡ elements s ++ added)))
      × ((s' : ObSet) × (push_data a s qwords ≡ some s')
          × IsValid s'
          × ((added : List ℕ) × (elements s' ≡ elements s ++ added)))
unfolding push_set push_data
push_set-Extends a {s} valid source qwords =
    (push_list-Extends a 0 valid _, push_list-Extends a 0 valid qwords)
