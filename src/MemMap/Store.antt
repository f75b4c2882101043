-- ===== src/MemMap/Store.antt =====
-- The two steps of `LcMemMap_AddRange`, the growth of the array and the write at its end, on a valid
-- map.
use leech_core.Base.{
  ℕ, zero, suc, ◌+◌, ◌-◌, ◌*◌, ◌%◌, ◌≤◌, ◌<◌, ◌≡◌, ◌⊎◌, inl, inr, refl, arith, true, false, List,
  [], ◌∷◌, ◌++◌, length, take, set, get_or, replicate, length-append, length-take, length-replicate,
  length-set, if◌then◌else◌, qword, ap, ◌∙◌,
}
use native.Mathlib.Numerals.{add-one}
use native.Mathlib.Decide.{dec_lt}
use leech_core.MemMap.{Entry, zero_entry, MemMap, entry, end, ranges, grow, remap_of, store_range}
use leech_core.MemMap.Order.{IsValid, end-eq}

module _ {ℓ} {A : Type ℓ} where
  get_or-set_self : (xs : List A) (i : ℕ) (v d : A) → i < length xs → get_or (set xs i v) i d ≡ v
  get_or-set_self [] i v d h = absurd (omega arith)
  get_or-set_self (x ∷ xs) zero v d h = refl
  get_or-set_self (x ∷ xs) (suc i) v d h = get_or-set_self xs i v d (omega arith)

  get_or-set_below :
      (xs : List A) (i j : ℕ) (v d : A) → j < i → get_or (set xs i v) j d ≡ get_or xs j d
  get_or-set_below [] i j v d h = refl
  get_or-set_below (x ∷ xs) zero j v d h = absurd (omega arith)
  get_or-set_below (x ∷ xs) (suc i) zero v d h = refl
  get_or-set_below (x ∷ xs) (suc i) (suc j) v d h = get_or-set_below xs i j v d (omega arith)

  get_or-take_append :
      (n : ℕ) (xs ys : List A) (j : ℕ) (d : A)
      → j < n
      → n ≤ length xs
      → get_or (take n xs ++ ys) j d ≡ get_or xs j d
  get_or-take_append zero xs ys j d h k = absurd (omega arith)
  get_or-take_append (suc n) [] ys j d h k = absurd (omega arith)
  get_or-take_append (suc n) (x ∷ xs) ys zero d h k = refl
  get_or-take_append (suc n) (x ∷ xs) ys (suc j) d h k =
      get_or-take_append n xs ys j d (omega arith) (omega arith)

  take-set :
      (xs : List A) (n : ℕ) (v : A)
      → n < length xs
      → take (suc n) (set xs n v) ≡ take n xs ++ (v ∷ [])
  take-set [] n v h = absurd (omega arith)
  take-set (x ∷ xs) zero v h = refl
  take-set (x ∷ xs) (suc n) v h = ap (λ r. x ∷ r) (take-set xs n v (omega arith))

  take-take_append : (n : ℕ) (xs ys : List A) → n ≤ length xs → take n (take n xs ++ ys) ≡ take n xs
  take-take_append zero xs ys h = refl
  take-take_append (suc n) [] ys h = absurd (omega arith)
  take-take_append (suc n) (x ∷ xs) ys h = ap (λ r. x ∷ r) (take-take_append n xs ys (omega arith))

-- Growth keeps the ranges and makes room.
module _ {m : MemMap} (v : IsValid m) where
  pub ranges-grow : ranges (grow m) ≡ ranges m
  ranges-grow = take-take_append m.c_mem_map m.p_mem_map _ (omega (arith, v))

  pub entry-grow : (i : ℕ) → i < m.c_mem_map → entry (grow m) i ≡ entry m i
  entry-grow i h = get_or-take_append m.c_mem_map m.p_mem_map _ i zero_entry h (omega arith)

  pub grow-IsValid : m.c_mem_map_max ≤ 0x0010_0000 → IsValid (grow m)
  grow-IsValid small = record {
    fits = omega arith;
    room = omega (
      arith,
      v.room,
      length-append (take m.c_mem_map m.p_mem_map)
          (replicate (m.c_mem_map_max * 2 - m.c_mem_map) zero_entry),
      length-take m.c_mem_map m.p_mem_map,
      length-replicate (m.c_mem_map_max * 2 - m.c_mem_map) zero_entry,
    );
    some_room = omega arith;
    limit = v.limit;
    ascending = λ i h. rw (entry-grow i (omega arith), entry-grow (suc i) h) (v.ascending i h);
    within = λ i h. rw (entry-grow i h) (v.within i h);
    paged = λ i h. rw (entry-grow i h) (v.paged i h);
  }

-- The range that an addition writes.
abbrev pub fresh : ℕ → ℕ → ℕ → Entry
fresh pa cb pa_remap = record { pa = pa; cb = cb; pa_remap = remap_of pa pa_remap }

-- An address is where the last range of the map ends, or past it.
abbrev pub IsClear : MemMap → ℕ → Type 0
IsClear m pa = (m.c_mem_map ≡ 0) ⊎ (end (entry m (m.c_mem_map - 1)) ≤ pa)

abbrev added : MemMap → Entry → MemMap
added m e = record m { p_mem_map = set m.p_mem_map m.c_mem_map e; c_mem_map = m.c_mem_map + 1 }

-- The write at the end of a map: the overlap test decides.
module _ {m : MemMap} (v : IsValid m) (pa cb pa_remap : ℕ) where
  abbrev e_new : Entry
  e_new = fresh pa cb pa_remap

  abbrev m_new : MemMap
  m_new = added m e_new

  pub store_range-cases :
      (IsClear m pa × (store_range m pa cb pa_remap ≡ (true, m_new)))
      ⊎ ((¬ IsClear m pa) × (store_range m pa cb pa_remap ≡ (false, m)))
  unfolding store_range
  store_range-cases = ground arith

  module _ (room : m.c_mem_map < m.c_mem_map_max) where
    entry-added : (i : ℕ) → i < m.c_mem_map → entry m_new i ≡ entry m i
    entry-added i h = get_or-set_below m.p_mem_map m.c_mem_map i e_new zero_entry h

    entry-added_last : entry m_new m.c_mem_map ≡ e_new
    entry-added_last =
        get_or-set_self m.p_mem_map m.c_mem_map e_new zero_entry (omega (arith, v.room))

    ranges-added : ranges m_new ≡ ranges m ++ (e_new ∷ [])
    ranges-added = rw add-one (take-set m.p_mem_map m.c_mem_map e_new (omega (arith, v.room)))

    entry-added_at : (i : ℕ) → i ≡ m.c_mem_map → entry m_new i ≡ e_new
    entry-added_at i e = ap (entry m_new) e ∙ entry-added_last

    clear_of_last :
        IsClear m pa → (i : ℕ) → suc i ≡ m.c_mem_map → (entry m i).pa + (entry m i).cb ≤ pa
    clear_of_last (inl none_yet) i e = absurd (omega arith)
    clear_of_last (inr after) i e =
        let at : m.c_mem_map - 1 ≡ i = omega arith in
        omega (arith, end-eq v i (omega arith), rw at at after)

    added-IsValid :
        IsClear m pa
        → m.c_mem_map < 0x0010_0000
        → pa + cb < qword
        → pa % 0x1000 ≡ 0
        → cb % 0x1000 ≡ 0
        → IsValid m_new
    added-IsValid clear small ends p q = record {
      fits = omega arith;
      room = omega (arith, v.room, length-set m.p_mem_map m.c_mem_map e_new);
      some_room = v.some_room;
      limit = omega arith;
      ascending = λ i h. elim (dec_lt (suc i) m.c_mem_map) [
        | yes l ↦ rw (entry-added i (omega arith), entry-added (suc i) l) (v.ascending i l)
        | no l ↦
            rw (entry-added i (omega arith), entry-added_at (suc i) (omega arith))
              (clear_of_last clear i (omega arith))
      ];
      within = λ i h. elim (dec_lt i m.c_mem_map) [
        | yes l ↦ rw (entry-added i l) (v.within i l)
        | no l ↦ rw (entry-added_at i (omega arith)) ends
      ];
      paged = λ i h. elim (dec_lt i m.c_mem_map) [
        | yes l ↦ rw (entry-added i l) (v.paged i l)
        | no l ↦ rw (entry-added_at i (omega arith)) (p, q)
      ];
    }

    -- What the end of `LcMemMap_AddRange` does to a valid map with room.
    pub store_range_lem :
        m.c_mem_map < 0x0010_0000
        → pa + cb < qword
        → pa % 0x1000 ≡ 0
        → cb % 0x1000 ≡ 0
        → let (ok, m') = store_range m pa cb pa_remap in
          IsValid m' × (ranges m' ≡ (if ok then ranges m ++ (e_new ∷ []) else ranges m))
    store_range_lem small ends p q = elim store_range-cases [
      | inl (clear, e) ↦ rw e (added-IsValid clear small ends p q, ranges-added)
      | inr (_, e) ↦ rw e (v, refl)
    ]
