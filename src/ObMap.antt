-- ===== src/ObMap.antt =====
-- leechcore/ob/ob_map.c: the hashed map. The entries, pairs of a key and an object, stand in stores in
-- the order of their insertion, from the index 1 on; two hash tables map keys and objects to indices.
pub mod Change
pub mod Order
pub mod Both
pub mod Valid
pub mod Take
pub mod Taken
pub mod Search
pub mod Put
pub mod Pointers
pub mod Ways
pub mod Putting
pub mod Calls
pub mod Close
mod Tests
use leech_core.Base.{
  ℕ, zero, suc, ◌+◌, ◌-◌, ◌*◌, ◌/◌, ◌%◌, Bool, true, false, not, ◌&&◌, ◌||◌, Option, none, some,
  List, [], ◌∷◌, ◌++◌, if◌then◌else◌, ltb, leb, ◌==◌, dword, qword, add32, sub32,
}
use leech_core.Probe.{
  Table, Hashing, write, insert, insert_all, clear_slot, next_slot, Seek, found, absent, lost, seek,
}
use leech_core.ObSet.{hash_function, yes_or_no}

-- `OB_MAP_ENTRY`; an object is its address.
pub record MapEntry : Type 0 where
  pub k : ℕ
  pub v : ℕ

-- `OB_MAP`, without its lock. Only the hash tables of the mode in use are kept: the small ones
-- share their memory with the directory. `tables` and `stores` tell which pointers are set.
pub record ObMap : Type 0 where
  pub c : ℕ
  pub c_hash_max : ℕ
  pub c_hash_grow_threshold : ℕ
  pub large : Bool
  pub has_key : Bool
  pub objects_ob : Bool
  pub objects_local_free : Bool
  pub hash_key : Table
  pub hash_value : Table
  pub tables : ℕ → Bool
  pub stores : ℕ → ℕ → Bool
  pub entries : ℕ → ℕ → ℕ → MapEntry

-- What the map does to the objects that it holds.
pub data Touch : Type 0 where
  incref : ℕ → Touch
  decref : ℕ → Touch
  local_free : ℕ → Touch

-- `OB_MAP_TABLE_MAX_CAPACITY`
abbrev pub map_capacity : ℕ
map_capacity = 0x200_0000

-- `OB_MAP_INDEX_DIRECTORY`, `OB_MAP_INDEX_TABLE` and `OB_MAP_INDEX_STORE`
abbrev pub map_directory : ℕ → ℕ
map_directory i = i / 0x2_0000 % 0x100

abbrev pub map_table : ℕ → ℕ
map_table i = i / 0x100 % 0x200

abbrev pub map_store : ℕ → ℕ
map_store i = i % 0x100

abbrev pub empty_map : Bool → Bool → Bool → ObMap
empty_map object_ob object_local_free no_key = record {
  c = 1;
  c_hash_max = 0x100;
  c_hash_grow_threshold = 0xc0;
  large = false;
  has_key = not no_key;
  objects_ob = object_ob;
  objects_local_free = object_local_free;
  hash_key = λ _. 0;
  hash_value = λ _. 0;
  tables = λ d. d == 0;
  stores = λ d t. (d == 0) && (t == 0);
  entries = λ _ _ _. record { k = 0; v = 0 };
}

-- `ObMap_New` with its flags, when the allocation succeeds; `none` when they contradict each other.
unfoldable pub map_new : Bool → Bool → Bool → Option ObMap
map_new object_ob object_local_free no_key =
    if object_ob && object_local_free
    then none
    else some (empty_map object_ob object_local_free no_key)

-- The pointers to the table and to the store of an index are set.
abbrev pub is_stored : ObMap → ℕ → Bool
is_stored m i = m.tables (map_directory i) && m.stores (map_directory i) (map_table i)

-- What stands for a read through a pointer that is NULL, which C does not define: an entry of zeros,
-- which no entry that was pushed equals.
abbrev pub null_entry : MapEntry
null_entry = record { k = 0; v = 0 }

-- The entry at an index, in use or not, read through the directory and its table.
abbrev pub entry_at : ObMap → ℕ → MapEntry
entry_at m i =
    if is_stored m i then m.entries (map_directory i) (map_table i) (map_store i) else null_entry

abbrev pub set_entry : ObMap → ℕ → MapEntry → ObMap
set_entry m i e = record m {
  entries = λ d t o.
      if (d == map_directory i) && ((t == map_table i) && (o == map_store i))
      then e
      else m.entries d t o;
}

-- `_ObMap_GetFromIndex`, with the entry that its pointer leads to.
unfoldable pub get_from_index : ObMap → ℕ → Option MapEntry
get_from_index m i = if i == 0 then none else if leb m.c i then none else some (entry_at m i)

abbrev pub part : Bool → MapEntry → ℕ
part true e = e.v
part false e = e.k

abbrev pub part_or_zero : Bool → Option MapEntry → ℕ
part_or_zero by_value none = 0
part_or_zero by_value (some e) = part by_value e

-- `_ObMap_GetFromEntryIndex`
unfoldable pub get_from_entry_index : ObMap → Bool → ℕ → ℕ
get_from_entry_index m by_value i = part_or_zero by_value (get_from_index m i)

abbrev pub hash_of : ObMap → Bool → Table
hash_of m true = m.hash_value
hash_of m false = m.hash_key

abbrev pub with_hash : ObMap → Bool → Table → ObMap
with_hash m true t = record m { hash_value = t }
with_hash m false t = record m { hash_key = t }

-- The hash table of the objects or of the keys is kept.
abbrev pub is_hashed : ObMap → Bool → Bool
is_hashed m by_value = by_value || m.has_key

-- The table of the objects or of the keys, as `_ObMap_InsertHash` and `_ObMap_RemoveHash` see it.
unfoldable pub map_hashing : ObMap → Bool → Hashing
map_hashing m by_value = record {
  size = m.c_hash_max;
  preferred = λ i. hash_function (get_from_entry_index m by_value i) % m.c_hash_max;
  inserts = λ _. true;
  cast = λ i. i;
}

-- `_ObMap_InsertHash`
abbrev pub map_insert_hash : ObMap → Bool → ℕ → ObMap
map_insert_hash m by_value i =
    if is_hashed m by_value
    then with_hash m by_value (insert (map_hashing m by_value) (hash_of m by_value) i)
    else m

-- The first loop of `_ObMap_RemoveHash`: the slot of an entry. Unlike a search it goes on over free
-- slots; `none` when it is endless.
unfoldable pub locate : ℕ → ℕ → Table → ℕ → ℕ → Option ℕ
locate zero m t e s = none
locate (suc fuel) m t e s =
    let rest = locate fuel m t e (next_slot m s) in if t s == e then some s else rest

abbrev pub clear_located : ObMap → Bool → Option ℕ → Option ObMap
clear_located m by_value none = none
clear_located m by_value (some s) =
    some (with_hash m by_value (clear_slot (map_hashing m by_value) (hash_of m by_value) s))

-- `_ObMap_RemoveHash`
unfoldable pub map_remove_hash : ObMap → Bool → ℕ → ℕ → Option ObMap
map_remove_hash m by_value kv i =
    if is_hashed m by_value
    then clear_located m by_value
        (locate m.c_hash_max m.c_hash_max (hash_of m by_value) i (hash_function kv % m.c_hash_max))
    else some m

-- `_ObMap_GetEntryIndexFromKeyOrValue`
unfoldable pub entry_index_of : ObMap → Bool → ℕ → Seek
entry_index_of m by_value kv =
    if is_hashed m by_value
    then seek m.c_hash_max m.c_hash_max (hash_of m by_value)
        (λ i. kv == get_from_entry_index m by_value i) (hash_function kv % m.c_hash_max)
    else absent

-- `_ObMap_Exists`; `none` when the search is endless.
unfoldable pub map_exists : ObMap → Bool → ℕ → Option Bool
map_exists m by_value kv =
    if not (is_hashed m by_value) || (by_value && (kv == 0))
    then some false
    else yes_or_no (entry_index_of m by_value kv)

-- `_ObMap_GetByEntryIndex`: the object, and what happens to it. The reference count of NULL is
-- left alone by `Ob_INCREF`.
unfoldable pub get_by_entry_index : ObMap → ℕ → ℕ × List Touch
get_by_entry_index m i =
    let v = get_from_entry_index m true i in (v, if m.objects_ob then incref v ∷ [] else [])

abbrev pub get_found : ObMap → (ℕ → ℕ) → Seek → Option (ℕ × List Touch)
get_found m f (found i slot) = some (get_by_entry_index m (f i))
get_found m f absent = some (0, [])
get_found m f lost = none

-- `_ObMap_GetByKey`
unfoldable pub get_by_key : ObMap → ℕ → Option (ℕ × List Touch)
get_by_key m key = get_found m (λ i. i) (entry_index_of m false key)

abbrev pub after_touch : List Touch → Option (ℕ × List Touch) → Option (ℕ × List Touch)
after_touch ts none = none
after_touch ts (some (v, us)) = some (v, ts ++ us)

abbrev pub dropping : ObMap → ℕ → List Touch
dropping m v = if m.objects_ob then decref v ∷ [] else []

-- `_ObMap_GetNext`
unfoldable pub map_get_next : ObMap → ℕ → Option (ℕ × List Touch)
map_get_next m v =
    if v == 0
    then some (get_by_entry_index m 1)
    else after_touch (dropping m v) (get_found m (λ i. add32 i 1) (entry_index_of m true v))

-- `_ObMap_GetNextByKey`
unfoldable pub get_next_by_key : ObMap → ℕ → ℕ → Option (ℕ × List Touch)
get_next_by_key m key v =
    if v == 0
    then some (get_by_entry_index m 1)
    else after_touch (dropping m v) (get_found m (λ i. add32 i 1) (entry_index_of m false key))

-- `_ObMap_GetNextByIndex`, with `*pdwIndex` after the call.
unfoldable pub map_get_next_by_index : ObMap → ℕ → ℕ → ℕ × ℕ × List Touch
map_get_next_by_index m index v =
    let index' = if v == 0 then sub32 index 1 else sub32 m.c 1 in
    let (w, ts) = get_by_entry_index m index' in (w, index', dropping m v ++ ts)

-- `ObMap_Size`, `ObMap_GetByIndex`, `ObMap_Peek` and `ObMap_PeekKey`
unfoldable pub map_size : ObMap → ℕ
map_size m = sub32 m.c 1

unfoldable pub get_by_index : ObMap → ℕ → ℕ × List Touch
get_by_index m index = get_by_entry_index m (add32 index 1)

unfoldable pub map_peek : ObMap → ℕ × List Touch
map_peek m = get_by_entry_index m (sub32 m.c 1)

unfoldable pub peek_key : ObMap → ℕ
peek_key m = get_from_entry_index m false (sub32 m.c 1)
