-- ===== src/ObSet/Close.antt =====
-- leechcore/ob/ob_set.c: the memory that is freed when the reference count of the set reaches zero.
use leech_core.Base.{
  ℕ, zero, suc, ◌+◌, Bool, false, not, ◌||◌, List, [], ◌∷◌, ◌++◌, if◌then◌else◌, ◌==◌,
}
use leech_core.ObSet.{ObSet}

-- A block that is freed: a store, a table of the directory, or the hash table.
pub data Block : Type 0 where
  store_block : ℕ → ℕ → Block
  table_block : ℕ → Block
  hash_block : Block

-- The loop over the stores of a table, from the store `t` on, up to the first that is not there.
unfoldable pub free_stores : (ℕ → ℕ → Bool) → ℕ → ℕ → ℕ → List Block
free_stores stores d zero t = []
free_stores stores d (suc n) t =
    let rest = free_stores stores d n (t + 1) in
    if not (stores d t)
    then []
    else if not (d == 0) || not (t == 0)
    then store_block d t ∷ rest
    else rest

-- The loop over the directory, up to the first table that is not there; `first` tells whether the
-- table of the directory's first entry is freed too.
unfoldable pub free_directory : Bool → ℕ → (ℕ → Bool) → (ℕ → ℕ → Bool) → ℕ → ℕ → List Block
free_directory first per_table tables stores zero d = []
free_directory first per_table tables stores (suc n) d =
    let rest = free_directory first per_table tables stores n (d + 1) in
    if not (tables d)
    then []
    else free_stores stores d per_table 0
      ++ (if not (d == 0) || first then table_block d ∷ rest else rest)

-- `_ObSet_ObCloseCallback`
unfoldable pub close_set : ObSet → List Block
close_set s =
    if s.large
    then free_directory false 0x80 s.tables s.stores 0x100 0 ++ (hash_block ∷ [])
    else free_stores s.stores 0 0x7f 1
