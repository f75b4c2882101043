-- ===== src/ObMap/Change.antt =====
-- leechcore/ob/ob_map.c: the operations that change the map.
use leech_core.Base.{
  ℕ, zero, suc, ◌-◌, ◌*◌, ◌%◌, Bool, true, false, not, ◌&&◌, Option, none, some, List, [], ◌∷◌,
  ◌++◌, if◌then◌else◌, ltb, leb, ◌==◌, dword, add32, sub32,
}
use leech_core.Probe.{found, absent, lost}
use leech_core.ObSet.{Allocations}
use leech_core.ObMap.{
  MapEntry, ObMap, Touch, incref, decref, local_free, map_capacity, map_directory, map_table,
  entry_at, set_entry, get_from_index, map_insert_hash, map_remove_hash, entry_index_of, map_exists,
}

abbrev pub and_then {ℓ κ} : {A : Type ℓ} {B : Type κ} → Option A → (A → Option B) → Option B
and_then none k = none
and_then (some a) k = k a

-- Both hash entries of an index are removed, and both are inserted.
unfoldable pub unhash : ObMap → MapEntry → ℕ → Option ObMap
unhash m e i = and_then (map_remove_hash m false e.k i) (λ m'. map_remove_hash m' true e.v i)

abbrev pub rehash_entry : ObMap → ℕ → ObMap
rehash_entry m i = map_insert_hash (map_insert_hash m false i) true i

-- "not last item removed -> move last item into empty bucket"
unfoldable pub move_last : ObMap → ℕ → Option ObMap
move_last m i =
    let last = entry_at m (sub32 m.c 1) in
    and_then (unhash m last (sub32 m.c 1)) (λ m'. some (rehash_entry (set_entry m' i last) i))

-- The entry that was removed, none at an index that is not in use, and the map.
abbrev pub Removal : Type 0
Removal = Option MapEntry × ObMap

abbrev pub remove_entry_at : ObMap → ℕ → Option MapEntry → Option Removal
remove_entry_at m i none = some (none, m)
remove_entry_at m i (some e) = and_then (unhash m e i) (λ m1.
    and_then (if ltb i (sub32 m1.c 1) then move_last m1 i else some m1)
      (λ m2. some (some e, record m2 { c = sub32 m2.c 1 })))

-- `_ObMap_RetrieveAndRemoveByEntryIndex`
unfoldable pub remove_entry : ObMap → ℕ → Option Removal
remove_entry m i = remove_entry_at m i (get_from_index m i)

-- `_ObMap_RemoveOrRemoveByKey`, for `ObMap_Remove` and `ObMap_RemoveByKey`.
unfoldable pub remove_by : ObMap → Bool → ℕ → Option Removal
remove_by m by_value kv =
    let searched : Option Removal = elim (entry_index_of m by_value kv) [
      | found i slot ↦ remove_entry m i
      | absent ↦ some (none, m)
      | lost ↦ none
    ] in
    if by_value && (kv == 0) then some (none, m) else searched

-- `ObMap_Pop` and `ObMap_PopWithKey`
unfoldable pub map_pop : ObMap → Option Removal
map_pop m = remove_entry m (sub32 m.c 1)

-- What happens to an object that is freed with its entry.
abbrev pub release : ObMap → ℕ → List Touch
release m v =
    (if m.objects_ob then decref v ∷ [] else [])
    ++ (if m.objects_local_free then local_free v ∷ [] else [])

abbrev pub object_of : Option MapEntry → ℕ
object_of none = 0
object_of (some e) = e.v

-- The loop of `_ObMap_RemoveByFilter`, from the last entry down: the number of removed entries, what
-- happened to their objects, and the map.
unfoldable pub remove_filtered : (MapEntry → Bool) → ℕ → ObMap → Option (ℕ × List Touch × ObMap)
remove_filtered filter zero m = some (0, [], m)
remove_filtered filter (suc i) m =
    if filter (entry_at m (suc i))
    then and_then (remove_entry m (suc i)) (λ (e, m').
      and_then (remove_filtered filter i m')
        (λ (n, ts, m''). some (add32 n 1, release m' (object_of e) ++ ts, m'')))
    else remove_filtered filter i m

-- `_ObMap_RemoveByFilter`
unfoldable pub remove_by_filter : (MapEntry → Bool) → ObMap → Option (ℕ × List Touch × ObMap)
remove_by_filter filter m = remove_filtered filter (sub32 m.c 1) m

-- `_ObMap_ObFreeAllObjects`
unfoldable pub free_objects : ObMap → ℕ → ℕ → List Touch
free_objects m zero i = []
free_objects m (suc n) i =
    let rest = free_objects m n (suc i) in
    if m.objects_ob
    then decref (entry_at m i).v ∷ rest
    else if m.objects_local_free
    then local_free (entry_at m i).v ∷ rest
    else []

-- `ObMap_Clear`
unfoldable pub map_clear : ObMap → ObMap × List Touch
map_clear m = if leb m.c 1 then (m, []) else (
  record m {
    c = 1;
    hash_value = λ s. if ltb s m.c_hash_max then 0 else m.hash_value s;
    hash_key = λ s. if ltb s m.c_hash_max then 0 else m.hash_key s;
  },
  free_objects m (m.c - 1) 1,
)

-- The map with empty tables of twice the size. The first growth leaves the directory with one new
-- table, whose first store is that of the small map.
abbrev pub map_grown : ObMap → ObMap
map_grown m = record m {
  tables = if m.large then m.tables else (λ d. d == 0);
  stores = if m.large then m.stores else (λ d t. (d == 0) && (t == 0));
  large = true;
  c_hash_max = m.c_hash_max * 2 % dword;
  c_hash_grow_threshold = m.c_hash_grow_threshold * 2 % dword;
  hash_value = λ _. 0;
  hash_key = λ _. 0;
}

-- The entries `i`, `i + 1`, … are inserted into both tables.
unfoldable pub hash_all : ℕ → ℕ → ObMap → ObMap
hash_all zero i m = m
hash_all (suc n) i m = hash_all n (suc i) (map_insert_hash (map_insert_hash m true i) false i)

-- `_ObMap_Grow`; FALSE when an allocation fails. A failed allocation of the directory's table leaves
-- its pointer NULL.
unfoldable pub map_grow : Allocations → ObMap → Bool × ObMap
map_grow a m =
    if not a.new_hash_map
    then (false, m)
    else if not m.large && not a.new_table
    then (false, record m { tables = λ d. if d == 0 then false else m.tables d })
    else (true, hash_all (m.c - 1) 1 (map_grown m))

-- The end of `_ObMap_Push`: the entry is stored and hashed.
abbrev pub push_entry : ObMap → ℕ → MapEntry → Bool × ObMap × List Touch
push_entry m i e = (
  true,
  map_insert_hash (map_insert_hash (set_entry (record m { c = add32 m.c 1 }) i e) true i) false i,
  if m.objects_ob then incref e.v ∷ [] else [],
)

abbrev pub map_push_store : Allocations → ObMap → ℕ → MapEntry → Bool × ObMap × List Touch
map_push_store a m i e =
    let d = map_directory i in
    let t = map_table i in
    if m.stores d t
    then push_entry m i e
    else if a.new_store
    then push_entry
        (record m { stores = λ d' t'. if (d' == d) && (t' == t) then true else m.stores d' t' }) i e
    else (false, m, [])

abbrev pub map_push_table : Allocations → ObMap → ℕ → MapEntry → Bool × ObMap × List Touch
map_push_table a m i e =
    let d = map_directory i in
    if m.tables d
    then map_push_store a m i e
    else if a.new_table
    then map_push_store a
        (record m {
          tables = λ d'. if d' == d then true else m.tables d';
          stores = λ d' t. if d' == d then false else m.stores d' t;
        })
        i e
    else (false, m, [])

-- What is done after the growth.
abbrev pub after_growth : Allocations → MapEntry → ℕ → Bool × ObMap → Bool × ObMap × List Touch
after_growth a e i (grown, m) = if grown then map_push_table a m i e else (false, m, [])

abbrev pub map_push_new : Allocations → Allocations → ObMap → MapEntry → Bool × ObMap × List Touch
map_push_new growing a m e =
    if m.c == map_capacity
    then (false, m, [])
    else if m.c == m.c_hash_grow_threshold
    then after_growth a e m.c (map_grow growing m)
    else map_push_table a m m.c e

abbrev pub unless_key :
    Allocations → Allocations → ObMap → MapEntry → Bool → Option (Bool × ObMap × List Touch)
unless_key growing a m e key_there =
    if key_there then some (false, m, []) else some (map_push_new growing a m e)

abbrev pub unless_value :
    Allocations → Allocations → ObMap → MapEntry → Bool → Option (Bool × ObMap × List Touch)
unless_value growing a m e value_there =
    if value_there
    then some (false, m, [])
    else and_then (map_exists m false e.k) (unless_key growing a m e)

-- `_ObMap_Push`, with the allocations of the growth and the others; `none` when a search is endless.
unfoldable pub map_push :
    Allocations → Allocations → ObMap → MapEntry → Option (Bool × ObMap × List Touch)
map_push growing a m e =
    if e.v == 0
    then some (false, m, [])
    else and_then (map_exists m true e.v) (unless_value growing a m e)

-- The copy is freed when it is not inserted.
abbrev pub unless_pushed : ℕ → Bool × ObMap × List Touch → Bool × ObMap × List Touch
unless_pushed v (pushed, m, ts) =
    if pushed then (true, m, ts) else (false, m, ts ++ (local_free v ∷ []))

-- `_ObMap_PushCopy`; the copy is the address of the new memory, none when its allocation fails.
unfoldable pub map_push_copy :
    Allocations → Allocations → ObMap → ℕ → Option ℕ → Option (Bool × ObMap × List Touch)
map_push_copy growing a m key none = some (false, m, [])
map_push_copy growing a m key (some copy) =
    if m.objects_local_free
    then and_then (map_push growing a m (record { k = key; v = copy }))
        (λ p. some (unless_pushed copy p))
    else some (false, m, [])
