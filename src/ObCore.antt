-- ===== src/ObCore.antt =====
-- leechcore/ob/ob_core.c: objects with a count of references.
pub mod Uses
mod Tests
use leech_core.Base.{
  ℕ, ◌-◌, ◌+◌, Bool, true, false, not, ◌&&◌, ◌||◌, Option, none, some, List, [], ◌∷◌, ◌++◌, length,
  if◌then◌else◌, ltb, ◌==◌, add32, sub32, dword,
}

-- `OB_HEADER_MAGIC`
abbrev pub header_magic : ℕ
header_magic = 0x0c0e_fefe

-- `sizeof(OB)`
abbrev pub ob_size : ℕ
ob_size = 64

-- The header `OB`. Of the callbacks `_pfnRef_0` and `_pfnRef_1` it says whether they are there.
pub record Ob : Type 0 where
  pub magic1 : ℕ
  pub tag : ℕ
  pub pfn_ref_0 : Bool
  pub pfn_ref_1 : Bool
  pub count : ℕ
  pub cb_data : ℕ
  pub magic2 : ℕ

-- A call of one of the callbacks.
pub data Callback : Type 0 where
  ref_0 : Callback
  ref_1 : Callback

-- `Ob_AllocEx`. The first argument says whether the allocation succeeds.
unfoldable pub alloc_ex : Bool → ℕ → ℕ → Bool → Bool → Option Ob
alloc_ex alloc tag bytes pfn_ref_0 pfn_ref_1 =
    if ltb 0x4000_0000 bytes || ltb bytes ob_size
    then none
    else if alloc
    then some (record {
      magic1 = header_magic;
      tag = tag;
      pfn_ref_0 = pfn_ref_0;
      pfn_ref_1 = pfn_ref_1;
      count = 1;
      cb_data = bytes - ob_size;
      magic2 = header_magic;
    })
    else none

-- `(pOb->_magic2 == OB_HEADER_MAGIC) && (pOb->_magic1 == OB_HEADER_MAGIC)`
abbrev pub has_magic : Ob → Bool
has_magic ob = ob.magic2 == header_magic && ob.magic1 == header_magic

-- `Ob_XINCREF` of an object: whether its pointer comes back, and the object.
unfoldable pub xincref : Ob → Bool × Ob
xincref ob = if has_magic ob then (true, record ob { count = add32 ob.count 1 }) else (false, ob)

-- What a call of `Ob_XDECREF` gives: whether the pointer comes back, the object, none if it was freed,
-- and the callbacks that were made.
pub record Decref : Type 0 where
  pub back : Bool
  pub ob : Option Ob
  pub calls : List Callback

-- `Ob_XDECREF` of an object, with callbacks that do not change it.
unfoldable pub xdecref : Ob → Decref
xdecref ob =
    let c = sub32 ob.count 1 in
    let left = record ob { count = c } in
    if not (has_magic ob)
    then record { back = false; ob = some ob; calls = [] }
    else if c == 0
    then record { back = false; ob = none; calls = if ob.pfn_ref_0 then ref_0 ∷ [] else [] }
    else if c == 1 && ob.pfn_ref_1
    then record { back = true; ob = some left; calls = ref_1 ∷ [] }
    else record { back = true; ob = some left; calls = [] }

-- `Ob_VALID_TAG`, which assigns the tag where it means to compare it: the result and the object.
unfoldable pub valid_tag : Ob → ℕ → Bool × Ob
valid_tag ob tag = if has_magic ob then (not (tag == 0), record ob { tag = tag }) else (false, ob)

-- `ObData_New`: the object and its bytes.
unfoldable pub data_new : Bool → ℕ → List ℕ → Option (Ob × List ℕ)
data_new alloc tag bytes = elim (alloc_ex alloc tag (ob_size + length bytes) false false) [
  | some ob ↦ some (ob, bytes)
  | none ↦ none
]
