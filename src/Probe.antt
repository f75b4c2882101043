-- ===== src/Probe.antt =====
-- leechcore/ob/ob_set.c and leechcore/ob/ob_map.c: the hash tables of the value set and of the map.
-- Both probe linearly, with 0 for a free slot, and both remove an entry by clearing its slot and
-- inserting the entries of the slots behind it again.
pub mod Cycle
pub mod Contents
pub mod Paths
pub mod Rehash
pub mod Clear
pub mod Find
use leech_core.Base.{ℕ, zero, suc, ◌+◌, ◌%◌, Bool, if◌then◌else◌, ◌==◌}

-- A table: the entry of each slot.
abbrev pub Table : Type 0
Table = ℕ → ℕ

-- What the probing of a table depends on: `cHashMax`, the slot that an entry hashes to, whether
-- an entry is inserted at all, and the cast of an entry to the type of a slot.
pub record Hashing : Type 0 where
  pub size : ℕ
  pub preferred : ℕ → ℕ
  pub inserts : ℕ → Bool
  pub cast : ℕ → ℕ

-- `(iHash + 1) & dwHashMask`, where the mask is `cHashMax - 1` and `cHashMax` a power of 2.
abbrev pub next_slot : ℕ → ℕ → ℕ
next_slot m s = (s + 1) % m

abbrev pub write : Table → ℕ → ℕ → Table
write t s v = λ x. if x == s then v else t x

-- `while(pHashMap[iHash]) { iHash = (iHash + 1) & dwHashMask; }`. Fuel `m` is enough for a table with
-- a free slot.
unfoldable pub first_free : ℕ → ℕ → Table → ℕ → ℕ
first_free zero m t s = s
first_free (suc fuel) m t s =
    let rest = first_free fuel m t (next_slot m s) in if t s == 0 then s else rest

-- The insertion of an entry, `_ObSet_InsertHash` and `_ObMap_InsertHash`.
unfoldable pub insert : Hashing → Table → ℕ → Table
insert h t e =
    if h.inserts e then write t (first_free h.size h.size t (h.preferred e)) (h.cast e) else t

-- The insertion of the entries `i`, `i + 1`, …, of `k` of them.
unfoldable pub insert_all : Hashing → ℕ → ℕ → Table → Table
insert_all h zero i t = t
insert_all h (suc k) i t = insert_all h k (i + 1) (insert h t i)

-- The second loop of `_ObSet_RemoveHash` and `_ObMap_RemoveHash`, from the slot `s` on.
unfoldable pub rehash : ℕ → Hashing → Table → ℕ → Table
rehash zero h t s = t
rehash (suc fuel) h t s =
    let s' = next_slot h.size s in
    let stay = rehash fuel h t s' in
    let moved = rehash fuel h (insert h (write t s' 0) (t s')) s' in
    if t s' == 0 then t else if s' == h.preferred (t s') then stay else moved

-- The slot `s` is cleared, and the slots behind it are rehashed.
unfoldable pub clear_slot : Hashing → Table → ℕ → Table
clear_slot h t s = rehash h.size h (write t s 0) s

-- The result of a search: the entry and its slot, or none; `lost` when the fuel ends.
pub data Seek : Type 0 where
  found : ℕ → ℕ → Seek
  absent : Seek
  lost : Seek

-- The search for an entry that passes a test, from the slot `s` on.
unfoldable pub seek : ℕ → ℕ → Table → (ℕ → Bool) → ℕ → Seek
seek zero m t test s = lost
seek (suc fuel) m t test s =
    let rest = seek fuel m t test (next_slot m s) in
    if t s == 0 then absent else if test (t s) then found (t s) s else rest
