-- ===== src/MemMap/Order.antt =====
-- The order of the ranges of a memory map, read by index.
use leech_core.Base.{ℕ, zero, suc, ◌+◌, ◌%◌, ◌≤◌, ◌<◌, ◌≡◌, arith, length, qword}
use leech_core.MemMap.{MemMap, entry, end}

-- What every memory map keeps: the array is as large as its count says and not over-full, and the
-- ranges are whole pages, ascending and disjoint, and end within the 64-bit address space.
pub record IsValid (m : MemMap) : Type 0 where
  pub fits : m.c_mem_map ≤ m.c_mem_map_max
  pub room : m.c_mem_map_max ≡ length m.p_mem_map
  pub some_room : 0 < m.c_mem_map_max
  pub limit : m.c_mem_map ≤ 0x0010_0000
  pub ascending :
      (i : ℕ) → suc i < m.c_mem_map → (entry m i).pa + (entry m i).cb ≤ (entry m (suc i)).pa
  pub within : (i : ℕ) → i < m.c_mem_map → (entry m i).pa + (entry m i).cb < qword
  pub paged :
      (i : ℕ) → i < m.c_mem_map → ((entry m i).pa % 0x1000 ≡ 0) × ((entry m i).cb % 0x1000 ≡ 0)

module _ {m : MemMap} (v : IsValid m) where
  -- Neighbours in order put any two ranges in order.
  pub ascending_lt :
      (i k : ℕ)
      → suc (i + k) < m.c_mem_map
      → (entry m i).pa + (entry m i).cb ≤ (entry m (suc (i + k))).pa
  ascending_lt i zero h = let e : i + 0 ≡ i = omega arith in rw e (v.ascending i (omega arith))
  ascending_lt i (suc k) h =
      let e : i + suc k ≡ suc (i + k) = omega arith in
      rw e (omega (arith, ascending_lt i k (omega arith), v.ascending (suc (i + k)) (omega arith)))

  pub end-eq : (i : ℕ) → i < m.c_mem_map → end (entry m i) ≡ (entry m i).pa + (entry m i).cb
  end-eq i h = omega (arith, v.within i h)
