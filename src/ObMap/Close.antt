-- ===== src/ObMap/Close.antt =====
-- leechcore/ob/ob_map.c: what is freed when the reference count of the map reaches zero, and the
-- filtering of a map into a set of values.
use leech_core.Base.{◌-◌, true, Option, some, List, [], ◌∷◌, ◌++◌, if◌then◌else◌}
use leech_core.ObSet.{ObSet, Allocations}
use leech_core.ObSet.{new as new_set}
use leech_core.ObSet.Push.{push, with_pushed}
use leech_core.ObSet.Close.{Block, hash_block, free_directory}
use leech_core.ObMap.{MapEntry, ObMap, Touch}
use leech_core.ObMap.Change.{free_objects}
use leech_core.ObMap.Order.{map_filter}

-- `_ObMap_ObCloseCallback`
unfoldable pub close_map : ObMap → List Touch × List Block
close_map m = (
  free_objects m (m.c - 1) 1,
  if m.large then free_directory true 0x200 m.tables m.stores 0x100 0 ++ (hash_block ∷ []) else [],
)

-- `_ObMap_FilterSet`, when the set is allocated, with the callback of the caller.
unfoldable pub map_filter_set : (ObSet → MapEntry → ObSet) → ObMap → ObSet
map_filter_set callback m = map_filter callback m new_set

-- `ObMap_FilterSet_FilterAllKey`; `none` when a search of the set is endless.
unfoldable pub filter_all_key : Allocations → ObSet → MapEntry → Option ObSet
filter_all_key a s e = with_pushed (push a s e.k) (λ s'. some s')
