-- ===== src/ObSet/Push.antt =====
-- leechcore/ob/ob_set.c: the insertions into the value set, with the growth of its memory.
use leech_core.Base.{
  ℕ, zero, suc, ◌+◌, ◌-◌, ◌/◌, ◌%◌, Bool, true, false, ◌&&◌, Option, none, some, List, [], ◌∷◌,
  if◌then◌else◌, ltb, ◌==◌, add32, add64,
}
use leech_core.ObSet.{
  ObSet, Allocations, max_capacity, index_directory, index_table, get_value, set_value, insert_hash,
  exists, grow,
}

-- "Ensure Table Exists": the memory of a new table is zeroed.
abbrev pub with_table : ObSet → ℕ → ObSet
with_table s d = record s {
  tables = λ d'. if d' == d then true else s.tables d';
  stores = λ d' t. if d' == d then false else s.stores d' t;
}

-- "Ensure Store Exists"
abbrev pub with_store : ObSet → ℕ → ℕ → ObSet
with_store s d t = record s {
  stores = λ d' t'. if (d' == d) && (t' == t) then true else s.stores d' t';
}

-- The value is stored under the index `i`, and hashed.
abbrev pub push_value : ObSet → ℕ → ℕ → ObSet
push_value s i v = insert_hash (set_value (record s { c = add32 s.c 1 }) i v) i

abbrev pub push_store : Allocations → ObSet → ℕ → ℕ → Bool × ObSet
push_store a s i v =
    if s.stores (index_directory i) (index_table i)
    then (true, push_value s i v)
    else if a.new_store
    then (true, push_value (with_store s (index_directory i) (index_table i)) i v)
    else (false, s)

abbrev pub push_table : Allocations → ObSet → ℕ → ℕ → Bool × ObSet
push_table a s i v =
    if index_directory i == 0
    then push_store a s i v
    else if s.tables (index_directory i)
    then push_store a s i v
    else if a.new_table
    then push_store a (with_table s (index_directory i)) i v
    else (false, s)

-- `_ObSet_Push` of a value that the set does not have.
unfoldable pub push_new : Allocations → ObSet → ℕ → Bool × ObSet
push_new a s v =
    if s.c == max_capacity
    then (false, s)
    else if s.c == s.c_hash_grow_threshold
    then (if a.new_hash_map then push_table a (grow s) s.c v else (false, s))
    else push_table a s s.c v

-- `_ObSet_Push`; `none` when the search for the value is endless.
unfoldable pub push : Allocations → ObSet → ℕ → Option (Bool × ObSet)
push a s v =
    let checked : Option (Bool × ObSet) = elim (exists s v) [
      | none ↦ none
      | some true ↦ some (false, s)
      | some false ↦ some (push_new a s v)
    ] in
    if v == 0 then some (false, s) else checked

-- The set after a push, whose result is not read.
abbrev pub with_pushed : Option (Bool × ObSet) → (ObSet → Option ObSet) → Option ObSet
with_pushed none k = none
with_pushed (some (_, s)) k = k s

-- A list of values is pushed, in order, with the memory of each push. The results are not read.
unfoldable pub push_list : (ℕ → Allocations) → ℕ → ObSet → List ℕ → Option ObSet
push_list a k s [] = some s
push_list a k s (v ∷ vs) = with_pushed (push (a k) s v) (λ s'. push_list a (suc k) s' vs)

-- The values in the order of `_ObSet_PushSet`, from the last down.
unfoldable pub values_down : ObSet → ℕ → List ℕ
values_down s zero = []
values_down s (suc i) = get_value s (suc i) ∷ values_down s i

-- `_ObSet_PushSet` and `_ObSet_PushData`; both return TRUE.
unfoldable pub push_set : (ℕ → Allocations) → ObSet → ObSet → Option ObSet
push_set a s source = push_list a 0 s (values_down source (source.c - 1))

unfoldable pub push_data : (ℕ → Allocations) → ObSet → List ℕ → Option ObSet
push_data a s qwords = push_list a 0 s qwords

-- The loop of `ObSet_Push_PageAlign` at the page `page`, in at most `fuel` rounds.
unfoldable pub push_pages : ℕ → (ℕ → Allocations) → ObSet → ℕ → ℕ → Option ObSet
push_pages zero a s page end = none
push_pages (suc fuel) a s page end =
    let rest =
      with_pushed (push (a fuel) s page) (λ s'. push_pages fuel a s' (add64 page 0x1000) end) in
    if ltb page end then rest else some s

-- `ObSet_Push_PageAlign`, with one round for each page that `cb` bytes can touch, and the last test.
unfoldable pub push_page_align : (ℕ → Allocations) → ObSet → ℕ → ℕ → Option ObSet
push_page_align a s address cb =
    let page = address - address % 0x1000 in
    if page == 0xffff_ffff_ffff_f000
    then some s
    else push_pages (cb / 0x1000 + 3) a s page (add64 address cb)
