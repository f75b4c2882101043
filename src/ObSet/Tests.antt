-- ===== src/ObSet/Tests.antt =====
-- leechcore/ob/ob_set.c: the value set on concrete calls.
use leech_core.Base.{
  inr, ℕ, ◌≡◌, ◌≢◌, refl, arith, ◌⊎◌, ◌++◌, true, false, Bool, Option, none, some, List, [], ◌∷◌,
}
use leech_core.ObSet.{
  ObSet, Allocations, index_of, set_value, get_all_from, new, get_value, exists, pop, remove,
  get_all, hash_function, hashing,
}
use leech_core.Probe.{insert, first_free, seek, clear_slot, rehash}
use leech_core.ObSet.Push.{push_new, push, push_list, push_page_align, push_data}
use leech_core.ObSet.Valid.{IsValid, InUse}
use leech_core.Probe.Paths.{Holds}
use leech_core.Probe.Clear.{clear_slot-Holds}
use leech_core.ObSet.Elements.{elements, member, exists-member}
use leech_core.ObSet.Pushed.{Refuses, Appends, push-elements}
use leech_core.ObSet.Drop.{pop-elements}
use leech_core.ObSet.Removed.{MovesLast, Stays, remove-moves}
use leech_core.ObSet.Calls.{Calls, created, pushed, Calls-end, push_page_align-ends}

abbrev plenty : ℕ → Allocations
plenty i = record { new_hash_map = true; new_table = true; new_store = true }

abbrev set_or_new : Option ObSet → ObSet
set_or_new none = new
set_or_new (some s) = s

abbrev removed : Option (Bool × ObSet) → ObSet
removed none = new
removed (some (_, s)) = s

abbrev map_pop : Option (ℕ × ObSet) → Option (ℕ × List ℕ)
map_pop none = none
map_pop (some (v, s)) = some (v, get_all s)

abbrev three : ObSet
three = set_or_new (push_data plenty new (5 ∷ 6 ∷ 5 ∷ 7 ∷ 0 ∷ []))

three_values : get_all three ≡ 5 ∷ 6 ∷ 7 ∷ []
unfolding push_data push_list push push_new exists index_of get_value set_value hashing
    hash_function insert first_free seek new get_all get_all_from clear_slot rehash remove pop
three_values = refl

three-pop : map_pop (pop three) ≡ some (7, 5 ∷ 6 ∷ [])
unfolding push_data push_list push push_new exists index_of get_value set_value hashing
    hash_function insert first_free seek new get_all get_all_from clear_slot rehash remove pop
three-pop = refl

-- Values that hash to one slot are pushed, and some of them removed.
abbrev colliding : ObSet
colliding = set_or_new (push_data plenty new (1 ∷ 1279 ∷ 2557 ∷ 2684 ∷ 3962 ∷ []))

abbrev with_sixth : ObSet
with_sixth = set_or_new (push_data plenty (removed (remove colliding 1)) (5367 ∷ []))

abbrev fewer : ObSet
fewer = removed (remove (removed (remove with_sixth 1279)) 3962)

-- The value 5367 is still stored, but it is not found: the slot of the last removed value was found
-- before the first rehashing, which moved the entry of 5367 there.
lost_value : (get_all fewer ≡ 2684 ∷ 5367 ∷ 2557 ∷ []) × (exists fewer 5367 ≡ some false)
unfolding push_data push_list push push_new exists index_of get_value set_value hashing
    hash_function insert first_free seek new get_all get_all_from clear_slot rehash remove pop
lost_value = (refl, refl)

abbrev five : ℕ
five = 5

abbrev seven : ℕ
seven = 7

abbrev one : ObSet
one = removed (push (plenty 0) new 5)

abbrev two : ObSet
two = removed (push (plenty 0) one 6)

two_calls : Calls two
unfolding push push_new exists index_of get_value set_value hashing hash_function insert first_free
    seek new
two_calls =
    pushed (plenty 0) one 6 (true, two) (pushed (plenty 0) new 5 (true, one) created refl) refl

abbrev two_valid : IsValid two
two_valid = (Calls-end two two_calls).0

Calls-end_example :
    IsValid two
    × ((v : ℕ) → (b : Bool) × (exists two v ≡ some b))
    × ((a : Allocations) (v : ℕ) → (p : Bool × ObSet) × (push a two v ≡ some p))
    × ((p : ℕ × ObSet) × (pop two ≡ some p))
Calls-end_example = Calls-end two two_calls

push-elements_example :
    (p : Bool × ObSet) × (push (plenty 0) two seven ≡ some p)
    × ((((seven ≡ 0) ⊎ (member seven (elements two) ≡ true)) × (p ≡ (false, two)))
        ⊎ ((seven ≢ 0)
            × (member seven (elements two) ≡ false)
            × Appends (Refuses (plenty 0) two) (elements two) seven p))
push-elements_example = push-elements (plenty 0) two_valid seven

pop-elements_example :
    (p : ℕ × ObSet) × (pop two ≡ some p)
    × IsValid p.1
    × (((elements two ≡ []) × (p ≡ (0, two)))
        ⊎ ((p.0 ≢ 0) × (elements two ≡ elements p.1 ++ (p.0 ∷ []))))
pop-elements_example = pop-elements two_valid

-- The entry of the first value stays in its slot when the second value is dropped.
five-Stays : Stays two five
unfolding push push_new exists index_of get_value set_value hashing hash_function insert first_free
    seek new clear_slot rehash
five-Stays e = inr refl

remove-moves_example :
    (p : Bool × ObSet) × (remove two five ≡ some p)
    × IsValid p.1
    × ((((five ≡ 0) ⊎ (member five (elements two) ≡ false)) × (p ≡ (false, two)))
        ⊎ ((p.0 ≡ true) × ((i : ℕ) × InUse two i × (get_value two i ≡ five) × MovesLast two i p.1)))
remove-moves_example = remove-moves two_valid five five-Stays

push_page_align-ends_example :
    (s' : ObSet) × (push_page_align plenty two 0x1ff0 0x20 ≡ some s')
    × IsValid s'
    × ((added : List ℕ) × (elements s' ≡ elements two ++ added))
push_page_align-ends_example = push_page_align-ends plenty two_valid 0x1ff0 0x20 (omega arith)

exists-member_example : exists two 6 ≡ some (member 6 (elements two))
exists-member_example = exists-member two_valid 6

clear_slot-Holds_example :
    Holds
      (hashing two)
      (λ i. InUse two i × (i ≢ two.hash_map 193))
      1
      (clear_slot (hashing two) two.hash_map 193)
unfolding push push_new exists index_of get_value set_value hashing hash_function insert first_free
    seek new
clear_slot-Holds_example =
    clear_slot-Holds two_valid.hashed (omega arith) 193 (omega arith) (omega arith) (hashing two)
      refl (λ i used ne. two_valid.hashed.live i used) (λ i used ne. refl)
