-- ===== src/ObSet.antt =====
-- leechcore/ob/ob_set.c: the hashed value set. The values stand in stores in the order of their
-- insertion, from the index 1 on; a hash table maps a value to its index.
pub mod Push
mod Store
pub mod Valid
pub mod Elements
pub mod Grow
pub mod Insert
pub mod Pushed
pub mod Drop
pub mod Replace
pub mod Removed
pub mod Calls
pub mod Close
mod Tests
use leech_core.Base.{
  ℕ, zero, suc, ◌+◌, ◌-◌, ◌*◌, ◌/◌, ◌%◌, Bool, true, false, not, ◌&&◌, Option, none, some, List, [],
  ◌∷◌, if◌then◌else◌, ltb, leb, ◌==◌, dword, qword, add32, sub32, add64,
}
use leech_core.Probe.{
  Table, Hashing, write, insert, insert_all, clear_slot, Seek, found, absent, lost, seek,
}

-- `_rotr16(v, 9)`, `_rotr(v, 17)` and `_rotr64(v, 31)` of leechcore/oscompatibility.h. The first is an
-- `int`: its upper bits are not cut off.
abbrev pub rotr16 : ℕ → ℕ
rotr16 v = v % 0x1_0000 / 0x200 + v % 0x1_0000 * 0x80

abbrev pub rotr32 : ℕ → ℕ
rotr32 v = v % dword / 0x2_0000 + v % dword * 0x8000 % dword

abbrev pub rotr64 : ℕ → ℕ
rotr64 v = v % qword / 0x8000_0000 + v % qword * 0x2_0000_0000 % qword

-- `OB_SET_HASH_FUNCTION`
unfoldable pub hash_function : ℕ → ℕ
hash_function v = 13 * (v + rotr16 v + rotr32 v + rotr64 v) % qword

-- `OB_SET`, without its lock. Only the hash table of the mode in use is kept: the small one
-- shares its memory with the directory. `tables` and `stores` tell which pointers are set.
pub record ObSet : Type 0 where
  pub c : ℕ
  pub c_hash_max : ℕ
  pub c_hash_grow_threshold : ℕ
  pub large : Bool
  pub hash_map : Table
  pub tables : ℕ → Bool
  pub stores : ℕ → ℕ → Bool
  pub values : ℕ → ℕ → ℕ → ℕ

-- `OB_SET_TABLE_MAX_CAPACITY`
abbrev pub max_capacity : ℕ
max_capacity = 0x100_0000

-- `OB_SET_INDEX_DIRECTORY`, `OB_SET_INDEX_TABLE` and `OB_SET_INDEX_STORE`
abbrev pub index_directory : ℕ → ℕ
index_directory i = i / 0x1_0000 % 0x100

abbrev pub index_table : ℕ → ℕ
index_table i = i / 0x200 % 0x80

abbrev pub index_store : ℕ → ℕ
index_store i = i % 0x200

-- `ObSet_New`, when the allocation succeeds. The memory is zeroed.
unfoldable pub new : ObSet
new = record {
  c = 1;
  c_hash_max = 0x400;
  c_hash_grow_threshold = 0x300;
  large = false;
  hash_map = λ _. 0;
  tables = λ _. false;
  stores = λ d t. (d == 0) && (t == 0);
  values = λ _ _ _. 0;
}

-- The directory that an index is looked up in: `pTable0` in the small mode.
abbrev pub directory_of : ObSet → ℕ → ℕ
directory_of s i = if s.large then index_directory i else 0

-- `_ObSet_GetValueFromIndex`
unfoldable pub get_value : ObSet → ℕ → ℕ
get_value s i =
    if i == 0
    then 0
    else if leb s.c i
    then 0
    else s.values (directory_of s i) (index_table i) (index_store i)

-- `_ObSet_SetValueFromIndex`
unfoldable pub set_value : ObSet → ℕ → ℕ → ObSet
set_value s i v = record s {
  values = λ d t o.
      if (d == directory_of s i) && ((t == index_table i) && (o == index_store i))
      then v
      else s.values d t o;
}

-- `_ObSet_InsertHash` and `_ObSet_RemoveHash` on the table of this state. A slot of the small
-- table is a WORD.
unfoldable pub hashing : ObSet → Hashing
hashing s = record {
  size = s.c_hash_max;
  preferred = λ i. hash_function (get_value s i) % s.c_hash_max;
  inserts = λ i. not (get_value s i == 0);
  cast = λ i. if s.large then i else i % 0x1_0000;
}

abbrev pub insert_hash : ObSet → ℕ → ObSet
insert_hash s i = record s { hash_map = insert (hashing s) s.hash_map i }

abbrev pub remove_hash : ObSet → ℕ → ObSet
remove_hash s slot = record s { hash_map = clear_slot (hashing s) s.hash_map slot }

-- `_ObSet_GetIndexFromValue`: the index of a value and its slot. `lost` is an endless search.
unfoldable pub index_of : ObSet → ℕ → Seek
index_of s v =
    seek s.c_hash_max s.c_hash_max s.hash_map (λ i. v == get_value s i)
      (hash_function v % s.c_hash_max)

abbrev pub yes_or_no : Seek → Option Bool
yes_or_no (found i slot) = some true
yes_or_no absent = some false
yes_or_no lost = none

-- `_ObSet_Exists`; `none` when the search is endless.
unfoldable pub exists : ObSet → ℕ → Option Bool
exists s v = yes_or_no (index_of s v)

-- `ObSet_Get`
unfoldable pub get : ObSet → ℕ → ℕ
get s index = get_value s (add32 index 1)

abbrev pub value_after : ObSet → Seek → Option ℕ
value_after s (found i slot) = some (get_value s (add32 i 1))
value_after s absent = some 0
value_after s lost = none

-- `_ObSet_GetNext`
unfoldable pub get_next : ObSet → ℕ → Option ℕ
get_next s v = if v == 0 then some (get_value s 1) else value_after s (index_of s v)

-- `_ObSet_GetNextByIndex`: the value, and `*pdwIndex` after the call.
unfoldable pub get_next_by_index : ObSet → ℕ → ℕ × ℕ
get_next_by_index s index =
    let index' = if index == 0 then sub32 s.c 1 else sub32 index 1 in (get_value s index', index')

-- The loop of `_ObSet_GetAll`, from the last value down, into the front of the list.
unfoldable pub get_all_from : ObSet → ℕ → List ℕ → List ℕ
get_all_from s zero rest = rest
get_all_from s (suc i) rest = get_all_from s i (get_value s (suc i) ∷ rest)

-- `_ObSet_GetAll`, when the allocation succeeds.
unfoldable pub get_all : ObSet → List ℕ
get_all s = get_all_from s (sub32 s.c 1) []

-- `ObSet_Size`
unfoldable pub size : ObSet → ℕ
size s = sub32 s.c 1

-- What is done when the value is found at an index and a slot.
abbrev pub when_found {ℓ} : {A : Type ℓ} → Seek → A → (ℕ → ℕ → A) → Option A
when_found (found i slot) none_found k = some (k i slot)
when_found absent none_found k = some none_found
when_found lost none_found k = none

-- The value of an index is cleared, and its slot, and the count goes down.
abbrev pub drop_last : ObSet → ℕ → ℕ → ObSet
drop_last s i slot = record (remove_hash (set_value s i 0) slot) { c = sub32 s.c 1 }

-- The end of `_ObSet_Remove`: the last value moves to where the removed one was. The slot of the
-- removed value is the one found before the slot of the last value was cleared.
abbrev pub remove_found : ObSet → ℕ → ℕ → ℕ → ℕ → ℕ → ObSet
remove_found s last i_remove remove_slot i_last last_slot =
    let s' = drop_last s i_last last_slot in
    if i_last == i_remove
    then s'
    else insert_hash (set_value (remove_hash s' remove_slot) i_remove last) i_remove

abbrev pub remove_last : ObSet → ℕ → ℕ → ℕ → Option (Bool × ObSet)
remove_last s last i_remove remove_slot =
    when_found (index_of s last) (false, s)
      (λ i slot. (true, remove_found s last i_remove remove_slot i slot))

abbrev pub remove_at : ObSet → ℕ → Seek → Option (Bool × ObSet)
remove_at s last (found i slot) = if last == 0 then some (false, s) else remove_last s last i slot
remove_at s last absent = some (false, s)
remove_at s last lost = none

-- `_ObSet_Remove`
unfoldable pub remove : ObSet → ℕ → Option (Bool × ObSet)
remove s v =
    if v == 0 then some (false, s) else remove_at s (get_value s (sub32 s.c 1)) (index_of s v)

-- `ObSet_Clear`
unfoldable pub clear : ObSet → ObSet
clear s = if leb s.c 1 then s else record s {
  hash_map =
      λ slot. if ltb slot (if s.large then s.c_hash_max else 0x400) then 0 else s.hash_map slot;
  c = 1;
}

abbrev pub pop_value : ObSet → ℕ → Option (ℕ × ObSet)
pop_value s last =
    if last == 0
    then some (0, s)
    else when_found (index_of s last) (0, s) (λ i slot. (last, drop_last s i slot))

-- `_ObSet_Pop`: the value, or 0.
unfoldable pub pop : ObSet → Option (ℕ × ObSet)
pop s = pop_value s (get_value s (sub32 s.c 1))

-- Whether each `LocalAlloc` of a call succeeds.
pub record Allocations : Type 0 where
  pub new_hash_map : Bool
  pub new_table : Bool
  pub new_store : Bool

-- The set with an empty table of twice the size.
abbrev pub grown : ObSet → ObSet
grown s = record s {
  tables = if s.large then s.tables else (λ d. d == 0);
  large = true;
  c_hash_max = s.c_hash_max * 2 % dword;
  c_hash_grow_threshold = s.c_hash_grow_threshold * 2 % dword;
  hash_map = λ _. 0;
}

-- `_ObSet_Grow`, when the allocation succeeds.
unfoldable pub grow : ObSet → ObSet
grow s = record (grown s) { hash_map = insert_all (hashing (grown s)) (s.c - 1) 1 (λ _. 0) }
