-- ===== src/ObSet/Valid.antt =====
-- leechcore/ob/ob_set.c: the valid states of the value set, and the search in them.
use leech_core.Base.{ℕ, ◌-◌, ◌*◌, ◌%◌, ◌≤◌, ◌<◌, ◌≡◌, ◌≢◌, ◌⊎◌, inl, inr, refl, arith, true, ◌==◌}
use leech_core.Probe.{found, absent}
use leech_core.Probe.Paths.{Live, Holds, Holds-empty}
use leech_core.Probe.Find.{seek-found, seek-absent}
use leech_core.ObSet.{ObSet, max_capacity, new, get_value, hashing, hash_function, index_of}

-- The indices in use; item zero is reserved.
abbrev pub InUse : ObSet → ℕ → Type 0
InUse s i = (1 ≤ i) × (i < s.c)

-- The sizes of the set and of its table.
pub record Sized (s : ObSet) : Type 0 where
  pub some_c : 1 ≤ s.c
  pub max_c : s.c ≤ max_capacity
  pub below : s.c ≤ s.c_hash_grow_threshold
  pub ratio : s.c_hash_grow_threshold * 4 ≡ s.c_hash_max * 3
  pub few : s.c_hash_grow_threshold < 0x200_0000
  pub mode : (s.large ≡ true) ⊎ (s.c_hash_max ≡ 0x400)

pub record IsValid (s : ObSet) : Type 0 where
  pub sized : Sized s
  pub nonzero : (i : ℕ) → InUse s i → get_value s i ≢ 0
  pub once : (i j : ℕ) → InUse s i → InUse s j → get_value s i ≡ get_value s j → i ≡ j
  pub hashed : Holds (hashing s) (InUse s) (s.c - 1) s.hash_map

-- An entry with a value goes into the table as it is.
pub Live-hashing :
    (s : ObSet) (i : ℕ)
    → 0 < s.c_hash_max
    → get_value s i ≢ 0
    → (s.large ≡ true) ⊎ (i < 0x1_0000)
    → Live (hashing s) i
unfolding hashing
Live-hashing s i pos full mode = record {
  within = omega (arith, pos);
  inserts = ground (arith, full);
  cast = elim mode [ inl e ↦ rw e refl | inr lt ↦ ground (arith, lt) ];
}

pub new-IsValid : IsValid new
unfolding new get_value hashing
new-IsValid = record {
  sized = record {
    some_c = omega arith;
    max_c = omega arith;
    below = omega arith;
    ratio = refl;
    few = omega arith;
    mode = inr refl;
  };
  nonzero = λ i (lo, hi). absurd (omega arith);
  once = λ i j (lo, hi). absurd (omega arith);
  hashed = Holds-empty (hashing new) (InUse new) (λ _. 0) (λ i (lo, hi). omega arith) (λ _ _. refl);
}

module _ {s : ObSet} (valid : IsValid s) where
  -- The table has a free slot.
  pub IsValid-room : s.c - 1 < s.c_hash_max
  IsValid-room = omega (arith, valid.sized.some_c, valid.sized.below, valid.sized.ratio)

  -- A value of the set is found at its index.
  pub index_of-hit :
      (i : ℕ)
      → InUse s i
      → (slot : ℕ) × (slot < s.c_hash_max)
        × (s.hash_map slot ≡ i)
        × (index_of s (get_value s i) ≡ found i slot)
  unfolding index_of hashing
  index_of-hit i used =
      seek-found valid.hashed (λ k. get_value s i == get_value s k) i used (ground arith)
        (λ k used' same. valid.once k i used' used (ground (arith, same)))

  pub index_of-miss : (v : ℕ) → ((i : ℕ) → InUse s i → v ≢ get_value s i) → index_of s v ≡ absent
  unfolding index_of hashing
  index_of-miss v other =
      seek-absent valid.hashed (λ k. v == get_value s k) IsValid-room
        (λ i used. let ne = other i used in ground (arith, ne)) (hash_function v % s.c_hash_max)
        (omega (arith, IsValid-room))
