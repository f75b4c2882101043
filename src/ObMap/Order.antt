-- ===== src/ObMap/Order.antt =====
-- leechcore/ob/ob_map.c: the search in a map that is sorted by its keys, and the sorting.
pub mod Sorted
use leech_core.Base.{
  ℕ, zero, suc, ◌+◌, ◌-◌, ◌*◌, ◌/◌, ◌%◌, ◌^◌, Bool, true, false, not, ◌&&◌, ◌||◌, Option, none,
  some, List, [], ◌∷◌, ◌++◌, if◌then◌else◌, ltb, leb, ◌==◌, dword, add32, sub32, min, tabulate,
}
use leech_core.Probe.{Seek, found, absent, lost}
use leech_core.ObMap.{
  MapEntry, ObMap, Touch, entry_at, set_entry, get_by_entry_index, dropping, after_touch,
  entry_index_of, map_insert_hash, get_from_index,
}

-- How the search ends: with an index or without, and `endless`.
pub data Place : Type 0 where
  at : ℕ → Place
  nowhere : Place
  endless : Place

-- `for(i = 1; ((cMap - 1) >> i); i++);`, on at most 32 bits.
unfoldable pub bit_count : ℕ → ℕ → ℕ → ℕ
bit_count zero n i = i
bit_count (suc fuel) n i = let rest = bit_count fuel n (i + 1) in if n / 2 ^ i == 0 then i else rest

-- Where the search starts among `count` entries.
unfoldable pub first_index : ℕ → ℕ
first_index count =
    let i = min (2 ^ (bit_count 32 (count - 1) 1 - 1)) ((count - 1) / 2) in if i == 0 then 1 else i

-- The loop that halves the step; the index where the linear search starts.
unfoldable pub approach : ℕ → (ℕ → ℕ) → ℕ → ℕ → ℕ → ℕ → ℕ
approach zero keys count key i step = i
approach (suc fuel) keys count key i step =
    let up =
      approach fuel keys count key (if leb (i + step) count then i + step else i) (step / 2) in
    let down = approach fuel keys count key (i - step) (step / 2) in
    if leb step 1 then i else if ltb (keys i) key then up else if ltb key (keys i) then down else i

-- The linear search.
unfoldable pub walk : ℕ → (ℕ → ℕ) → ℕ → ℕ → ℕ → Place
walk zero keys count key i = endless
walk (suc fuel) keys count key i =
    let up = walk fuel keys count key (i + 1) in
    let down = walk fuel keys count key (i - 1) in
    if ltb (keys i) key
    then (if i == count then nowhere else if leb key (keys (i + 1)) then at (i + 1) else up)
    else if ltb key (keys i)
    then (if i == 1 then at 1 else if ltb (keys (i - 1)) key then at i else down)
    else at i

abbrev pub key_at : ObMap → ℕ → ℕ
key_at m i = (entry_at m i).k

-- `_ObMap_QFind`. An index where the first loop finds the key is one where the second ends at once.
unfoldable pub qfind : ObMap → ℕ → Place
qfind m key =
    let count = m.c - 1 in
    let i = first_index count in
    if leb m.c 1
    then nowhere
    else walk (m.c + 1) (key_at m) count key (approach 32 (key_at m) count key i (i / 2))

abbrev pub get_place : ObMap → Place → Option (ℕ × List Touch)
get_place m (at i) = some (get_by_entry_index m i)
get_place m nowhere = some (0, [])
get_place m endless = none

abbrev pub get_after_key : ObMap → ℕ → Seek → Option (ℕ × List Touch)
get_after_key m key (found i slot) = some (get_by_entry_index m (add32 i 1))
get_after_key m key absent = get_place m (qfind m key)
get_after_key m key lost = none

-- `_ObMap_GetNextByKeySorted`
unfoldable pub get_next_by_key_sorted : ObMap → ℕ → ℕ → Option (ℕ × List Touch)
get_next_by_key_sorted m key v = after_touch (dropping m v) (
    if key == 0
    then some (get_by_entry_index m 1)
    else get_after_key m key (entry_index_of m false key))

-- `_ObMap_GetKey`
abbrev pub key_found : ObMap → Seek → Option ℕ
key_found m (found i slot) = some (entry_at m i).k
key_found m absent = some 0
key_found m lost = none

unfoldable pub get_key : ObMap → ℕ → Option ℕ
get_key m v = key_found m (entry_index_of m true v)

-- The loop of `_ObMap_Filter`, with a callback that changes the state of its context.
unfoldable pub filter_entries {ℓ} : {A : Type ℓ} → (A → MapEntry → A) → ObMap → ℕ → ℕ → A → A
filter_entries callback m zero i context = context
filter_entries callback m (suc n) i context =
    filter_entries callback m n (suc i) (callback context (entry_at m i))

-- `_ObMap_Filter`
unfoldable pub map_filter {ℓ} : {A : Type ℓ} → (A → MapEntry → A) → ObMap → A → A
map_filter callback m context = filter_entries callback m (m.c - 1) 1 context

-- The entries are written back behind the index `i`.
unfoldable pub write_back : ObMap → ℕ → List MapEntry → ObMap
write_back m i [] = m
write_back m i (e ∷ es) = write_back (set_entry m i e) (suc i) es

-- The entries from `i` on are hashed again into one of the tables.
unfoldable pub hash_again : Bool → ℕ → ℕ → ObMap → ObMap
hash_again by_value zero i m = m
hash_again by_value (suc n) i m = hash_again by_value n (suc i) (map_insert_hash m by_value i)

abbrev pub entries_of : ObMap → List MapEntry
entries_of m = tabulate (entry_at m) 1 (m.c - 1)

-- `_ObMap_SortEntryIndex` after its allocation; `sort` is `qsort` with the comparison of the caller.
unfoldable pub sort_entry_index : (List MapEntry → List MapEntry) → ObMap → ObMap
sort_entry_index sort m =
    let sorted = write_back m 1 (sort (entries_of m)) in
    let keyed =
      if m.has_key
      then hash_again false (m.c - 1) 1
          (record sorted { hash_key = λ s. if ltb s m.c_hash_max then 0 else sorted.hash_key s })
      else sorted in
    hash_again true (m.c - 1) 1
      (record keyed { hash_value = λ s. if ltb s m.c_hash_max then 0 else keyed.hash_value s })
