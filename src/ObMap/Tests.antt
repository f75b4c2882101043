-- ===== src/ObMap/Tests.antt =====
-- leechcore/ob/ob_map.c: the map on concrete calls.
use leech_core.Base.{
  ℕ, ◌-◌, ◌<◌, ◌≡◌, ◌≢◌, ◌⊎◌, refl, sym, subst, arith, true, false, Bool, Option, none, some, List,
  [],
}
use leech_core.Probe.{insert, first_free, seek}
use leech_core.ObSet.{Allocations, hash_function}
use leech_core.ObSet.Elements.{member}
use leech_core.ObMap.{
  is_hashed, MapEntry, ObMap, Touch, empty_map, entry_at, get_from_index, get_from_entry_index,
  map_hashing, entry_index_of, map_exists, get_by_entry_index, map_get_next_by_index,
}
use leech_core.ObMap.Change.{remove_entry, map_push, map_grow}
use leech_core.ObMap.Order.{at, qfind, bit_count, first_index, approach, walk, key_at}
use leech_core.ObMap.Order.Sorted.{Ascends, IsFirst, qfind-IsFirst}
use leech_core.ObMap.Valid.{MapValid}
use leech_core.ObMap.Take.{Takes}
use leech_core.ObMap.Calls.{MapCalls, map_created, map_pushed, push_true, MapCalls-end}
use leech_core.ObMap.Change.{Removal}
use leech_core.ObMap.Taken.{remove_entry-Takes}
use leech_core.ObMap.Search.{parts, map_exists-member}
use leech_core.ObMap.Ways.{PushEnds}
use leech_core.ObMap.Putting.{map_push-Puts, empty_map-MapValid}

abbrev plenty : Allocations
plenty = record { new_hash_map = true; new_table = true; new_store = true }

abbrev start : ObMap
start = empty_map false false false

abbrev pair : ℕ → ℕ → MapEntry
pair key object = record { k = key; v = object }

abbrev map_after : Option (Bool × ObMap × List Touch) → ObMap
map_after none = start
map_after (some (_, m, _)) = m

abbrev first_pushed : ObMap
first_pushed = map_after (map_push plenty plenty start (pair 10 100))

abbrev both_pushed : ObMap
both_pushed = map_after (map_push plenty plenty first_pushed (pair 20 200))

first_valid : MapValid first_pushed
unfolding map_push map_exists entry_index_of map_hashing get_from_entry_index get_from_index
    hash_function insert first_free seek map_grow
first_valid =
    push_true plenty plenty (empty_map-MapValid false false false) (pair 10 100) first_pushed []
      refl

both_valid : MapValid both_pushed
unfolding map_push map_exists entry_index_of map_hashing get_from_entry_index get_from_index
    hash_function insert first_free seek map_grow
both_valid = push_true plenty plenty first_valid (pair 20 200) both_pushed [] refl

calls : MapCalls both_pushed
unfolding map_push map_exists entry_index_of map_hashing get_from_entry_index get_from_index
    hash_function insert first_free seek map_grow
calls =
    map_pushed plenty plenty first_pushed both_pushed (pair 20 200) []
      (map_pushed plenty plenty start first_pushed (pair 10 100) [] (map_created false false false)
        refl)
      refl

MapCalls-end_example :
    MapValid both_pushed
    × ((growing a : Allocations) (e : MapEntry)
        → (p : Bool × ObMap × List Touch) × (map_push growing a both_pushed e ≡ some p))
    × ((i : ℕ) → (r : Removal) × (remove_entry both_pushed i ≡ some r))
    × ((v : ℕ) → (b : Bool) × (map_exists both_pushed true v ≡ some b))
MapCalls-end_example = MapCalls-end both_pushed calls

remove_entry-Takes_example :
    (m' : ObMap) × (remove_entry both_pushed 1 ≡ some (some (entry_at both_pushed 1), m'))
    × Takes both_pushed 1 m'
unfolding map_push map_exists entry_index_of map_hashing get_from_entry_index get_from_index
    hash_function insert first_free seek map_grow
remove_entry-Takes_example = remove_entry-Takes both_valid 1 (omega arith, omega arith)

map_push-Puts_example :
    (p : Bool × ObMap × List Touch) × (map_push plenty plenty both_pushed (pair 30 300) ≡ some p)
    × (((((pair 30 300).v ≡ 0)
            ⊎ ((member (pair 30 300).v (parts both_pushed true) ≡ true)
                ⊎ ((both_pushed.has_key ≡ true)
                    × (member (pair 30 300).k (parts both_pushed false) ≡ true))))
          × (p ≡ (false, both_pushed, [])))
        ⊎ (((pair 30 300).v ≢ 0)
            × (member (pair 30 300).v (parts both_pushed true) ≡ false)
            × (both_pushed.has_key ≡ true
                → member (pair 30 300).k (parts both_pushed false) ≡ false)
            × PushEnds plenty both_pushed (pair 30 300) p))
map_push-Puts_example = map_push-Puts plenty plenty both_valid (pair 30 300)

hashed : is_hashed both_pushed false ≡ true
unfolding map_push map_exists entry_index_of map_hashing get_from_entry_index get_from_index
    hash_function insert first_free seek map_grow
hashed = refl

map_exists-member_example :
    map_exists both_pushed false 20 ≡ some (member 20 (parts both_pushed false))
map_exists-member_example = map_exists-member both_valid false hashed 20

-- The key and the object are there, and the object is no key.
members :
    (member 20 (parts both_pushed false) ≡ true)
    × (member 200 (parts both_pushed true) ≡ true)
    × (member 200 (parts both_pushed false) ≡ false)
unfolding map_push map_exists entry_index_of map_hashing get_from_entry_index get_from_index
    hash_function insert first_free seek map_grow member parts
members = (refl, refl, refl)

ascending : Ascends (key_at both_pushed) (both_pushed.c - 1)
unfolding map_push map_exists entry_index_of map_hashing get_from_entry_index get_from_index
    hash_function insert first_free seek map_grow
ascending i j lo lt hi =
    let i_is : i ≡ 1 = omega arith in
    let j_is : j ≡ 2 = omega arith in
    subst (λ x. key_at both_pushed x < key_at both_pushed j) (sym i_is)
      (subst (λ y. key_at both_pushed 1 < key_at both_pushed y) (sym j_is) (omega arith))

qfind-IsFirst_example : IsFirst (key_at both_pushed) (both_pushed.c - 1) 15 (qfind both_pushed 15)
qfind-IsFirst_example = qfind-IsFirst both_pushed 15 ascending

found_behind : qfind both_pushed 15 ≡ at 2
unfolding map_push map_exists entry_index_of map_hashing get_from_entry_index get_from_index
    hash_function insert first_free seek map_grow qfind first_index bit_count approach walk
found_behind = refl

-- The iteration by index that starts with NULL, at the index 0, gives nothing, and with an object it
-- starts again at the last entry.
iteration :
    ((map_get_next_by_index both_pushed 0 0).0 ≡ 0)
    × ((map_get_next_by_index both_pushed 1 200).0 ≡ 200)
unfolding map_push map_exists entry_index_of map_hashing get_from_entry_index get_from_index
    hash_function insert first_free seek map_grow map_get_next_by_index get_by_entry_index
iteration = (refl, refl)
