-- ===== src/MemMap/Translate/Search.antt =====
-- The fast find of `LcMemMap_TranslateMEMs`: it stays within the map and never passes the range that
-- holds the address.
use leech_core.Base.{
  ℕ, zero, suc, ◌+◌, ◌/◌, ◌^◌, ◌≤◌, ◌<◌, ◌≡◌, ◌⊎◌, inl, inr, refl, arith, Bool-cases, ◌==◌, ltb,
  dword, add32, sub32,
}
use native.Mathlib.Nat.{pow-suc}
use leech_core.MemMap.{MemMap, entry}
use leech_core.MemMap.Translate.{turn, bisect, back}

turn-cases : (m : MemMap) (qa i o : ℕ) → (turn m qa i o ≡ add32 i o) ⊎ (turn m qa i o ≡ sub32 i o)
unfolding turn
turn-cases m qa i o = elim (Bool-cases (ltb (entry m i).pa qa)) [
  | inl e ↦ rw e (inl refl)
  | inr e ↦ rw e (inr refl)
]

-- After any number of steps, which is the fuel, the index of the bisection is below cMemMap, when it
-- starts with a step that is not 0 and leads out of the map on neither side. The count of ranges is a
-- DWORD, and so are the steps.
pub bisect-lt :
    (fuel : ℕ) (m : MemMap) (qa i o : ℕ)
    → o ≤ i
    → i + o ≤ m.c_mem_map
    → m.c_mem_map < dword
    → 0 < o
    → bisect fuel m qa i o < m.c_mem_map
unfolding bisect
bisect-lt zero m qa i o lo hi word p = omega arith
bisect-lt (suc fuel) m qa i o lo hi word p = elim (Bool-cases (o / 2 == 0)) [
  | inl e ↦ rw e (omega arith)
  | inr e ↦
      let q : 0 < o / 2 = ground arith in
      rw e (
        bisect-lt fuel m qa (turn m qa i (o / 2)) (o / 2) (omega (arith, turn-cases m qa i (o / 2)))
          (omega (arith, turn-cases m qa i (o / 2))) word q)
]

-- More fuel than the step has bits changes nothing.
pub bisect_fuel :
    (fuel : ℕ) (m : MemMap) (qa i o : ℕ)
    → o < 2 ^ suc fuel
    → bisect (suc (suc fuel)) m qa i o ≡ bisect (suc fuel) m qa i o
unfolding bisect
bisect_fuel zero m qa i o h = let e : o / 2 ≡ 0 = omega arith in rw e refl
bisect_fuel (suc fuel) m qa i o h =
    let h' : o / 2 < 2 ^ suc fuel = omega (arith, pow-suc 2 (suc fuel)) in
    rw (bisect_fuel fuel m qa (turn m qa i (o / 2)) (o / 2) h')

-- The step back ends at the first range or at one that starts no later than the address.
pub back_lem :
    (m : MemMap) (qa i : ℕ)
    → (back m qa i ≤ i) × ((back m qa i ≡ 0) ⊎ ((entry m (back m qa i)).pa ≤ qa))
unfolding back
back_lem m qa zero = (omega arith, inl refl)
back_lem m qa (suc i) = ground (arith, back_lem m qa i)
