-- ===== src/MemScatter/Stack.antt =====
-- The stack of a `MEM_SCATTER` while it is not full.
use leech_core.Base.{
  ◌≢◌, ap, ◌∙◌, ◌≤◌, ◌+◌, ℕ, zero, suc, ◌<◌, ◌≡◌, refl, arith, List, [], ◌∷◌, length, get_or, set,
  sub32, add32,
}
use leech_core.MemScatter.Same.{SameBelow}
use leech_core.MemScatter.{Mem, stack_size, stack_push, stack_pop}

get_or-set_self : (xs : List ℕ) (i v d : ℕ) → i < length xs → get_or (set xs i v) i d ≡ v
get_or-set_self [] i v d h = absurd (omega arith)
get_or-set_self (x ∷ xs) zero v d h = refl
get_or-set_self (x ∷ xs) (suc i) v d h = get_or-set_self xs i v d (omega arith)

get_or-set_other : (xs : List ℕ) (i k v d : ℕ) → k ≢ i → get_or (set xs i v) k d ≡ get_or xs k d
get_or-set_other [] i k v d ne = refl
get_or-set_other (x ∷ xs) zero zero v d ne = absurd (ne refl)
get_or-set_other (x ∷ xs) zero (suc k) v d ne = refl
get_or-set_other (x ∷ xs) (suc i) zero v d ne = refl
get_or-set_other (x ∷ xs) (suc i) (suc k) v d ne = get_or-set_other xs i k v d (λ e. ne (ap suc e))

pub length-set : (xs : List ℕ) (i v : ℕ) → length (set xs i v) ≡ length xs
length-set [] i v = refl
length-set (x ∷ xs) zero v = refl
length-set (x ∷ xs) (suc i) v = ap suc (length-set xs i v)

-- A chunk whose stack takes one more value.
pub record HasRoom (mem : Mem) : Type 0 where
  pub sized : length mem.v_stack ≡ stack_size
  pub free : mem.i_stack < stack_size

module _ {mem : Mem} (r : HasRoom mem) (v : ℕ) where
  -- A pop after a push gives the value back and leaves the stack's height as it was.
  pub pop-push :
      ((stack_pop (stack_push mem v)).0 ≡ v)
      × ((stack_pop (stack_push mem v)).1.i_stack ≡ mem.i_stack)
  unfolding stack_pop stack_push
  pop-push =
      let back : sub32 (add32 mem.i_stack 1) 1 ≡ mem.i_stack = omega (arith, r.free) in
      rw back (get_or-set_self mem.v_stack mem.i_stack v 0 (omega (arith, r.free, r.sized)), refl)

-- The stack of a chunk as the header of the library allows it on a call: two values below its size.
abbrev pub IsDocumented : Mem → Type 0
IsDocumented mem = (length mem.v_stack ≡ stack_size) × (mem.i_stack + 2 ≤ stack_size)

pub IsDocumented-HasRoom : {mem : Mem} → IsDocumented mem → HasRoom mem
IsDocumented-HasRoom (sized, low) = record { sized = sized; free = omega (arith, low) }

-- With one value more it still has room for another one.
pub stack_push-HasRoom : (mem : Mem) → IsDocumented mem → (v : ℕ) → HasRoom (stack_push mem v)
unfolding stack_push
stack_push-HasRoom mem (sized, low) v = record {
  sized = length-set mem.v_stack mem.i_stack v ∙ sized;
  free = omega (arith, low);
}

-- A value that is pushed and popped leaves the values below it.
pub pop-push-SameBelow :
    {mem : Mem} → HasRoom mem → (v : ℕ) → SameBelow mem (stack_pop (stack_push mem v)).1
unfolding stack_pop stack_push
pop-push-SameBelow {mem} r v = record {
  cb = refl;
  pb = refl;
  i_stack = omega (arith, r.free);
  below = λ k lt. get_or-set_other mem.v_stack mem.i_stack k v 0 (omega (arith, lt));
}
