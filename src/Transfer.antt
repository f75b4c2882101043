-- ===== src/Transfer.antt =====
-- leechcore/leechcore.c: the transfers between a linear buffer and physical memory, `LcRead` and
-- `LcWrite`, and the allocation of chunks, `LcAllocScatter1` to `LcAllocScatter3`.
pub mod Copies
pub mod Buffers
pub mod Pages
pub mod Parts
pub mod Read
pub mod Frame
pub mod Mapped
pub mod Device
pub mod Write
mod Tests
use leech_core.Base.{
  length, ℕ, zero, suc, ◌+◌, ◌-◌, ◌*◌, ◌/◌, ◌%◌, Bool, true, false, not, ◌&&◌, ◌||◌, Option, none,
  some, List, [], ◌∷◌, if◌then◌else◌, ltb, leb, ◌==◌, min, replicate, get_or, add32, sub32, add64,
  sub64, dword, qword,
}
use leech_core.Base.Memory.{Memory, blit, load}
use leech_core.MemScatter.{Mem, stack_size}
use leech_core.ReadContigious.{Copy}
use leech_core.Scatter.{Context, zero_mem, read_scatter, write_scatter}

-- A chunk of a page as the allocations set it up.
abbrev pub blank : ℕ → Mem
blank pb = record {
  f = false;
  qw_a = 0;
  cb = 0x1000;
  pb = pb;
  i_stack = 0;
  v_stack = replicate stack_size 0;
}

-- The separate buffer of chunk `i` of `c`, if it has one: that of the first or of the last page.
unfoldable pub own_buffer : Option ℕ → Option ℕ → ℕ → ℕ → Option ℕ
own_buffer first last c i = elim (if i == 0 then first else none) [
  | some p ↦ some p
  | none ↦ if i == sub32 c 1 then last else none
]

-- The loop of `LcAllocScatter3`, with the rounds left and the values of i and o.
unfoldable pub alloc_chunks : Option ℕ → Option ℕ → ℕ → ℕ → ℕ → ℕ → ℕ → List Mem
alloc_chunks first last pb c zero i o = []
alloc_chunks first last pb c (suc k) i o =
    let in_line = blank (pb + o) ∷ alloc_chunks first last pb c k (suc i) (add32 o 0x1000) in
    let rest = alloc_chunks first last pb c k (suc i) o in
    elim (own_buffer first last c i) [ some p ↦ blank p ∷ rest | none ↦ in_line ]

-- `LcAllocScatter1`. The first argument is the address of the pages, if the allocation succeeds.
unfoldable pub alloc_scatter1 : Option ℕ → ℕ → Option (List Mem)
alloc_scatter1 alloc c = elim alloc [
  | some pb_data ↦ some (alloc_chunks none none pb_data c c 0 0)
  | none ↦ none
]

-- `LcAllocScatter2`. The first argument says whether the allocation succeeds.
unfoldable pub alloc_scatter2 : Bool → ℕ → ℕ → ℕ → Option (List Mem)
alloc_scatter2 alloc cb_data pb_data c =
    if ltb (c * 0x1000 % dword) cb_data
    then none
    else if alloc
    then some (alloc_chunks none none pb_data c c 0 0)
    else none

abbrev pub page_more : Option ℕ → ℕ → ℕ
page_more p cb = elim p [ some _ ↦ add32 cb 0x1000 | none ↦ cb ]

-- `LcAllocScatter3`
unfoldable pub alloc_scatter3 : Bool → Option ℕ → Option ℕ → ℕ → ℕ → ℕ → Option (List Mem)
alloc_scatter3 alloc first last cb_data pb_data c =
    if ltb (c * 0x1000 % dword) (page_more last (page_more first cb_data))
    then none
    else if alloc
    then some (alloc_chunks first last pb_data c c 0 0)
    else none

-- `ppMEMs[i]->qwA = paBase + (i << 12)`
pub set_addresses : ℕ → ℕ → List Mem → List Mem
set_addresses base i [] = []
set_addresses base i (mem ∷ mems) =
    record mem { qw_a = add64 base (i * 0x1000) } ∷ set_addresses base (suc i) mems

-- `for(i = 0; i < cMEMs; i++) { if(!ppMEMs[i]->f) { goto fail; } }`
pub all_read : List Mem → Bool
all_read [] = true
all_read (mem ∷ mems) = let rest = all_read mems in if mem.f then rest else false

-- The copies of a read, one after the other.
pub copy_all : List Copy → Memory → Memory
copy_all [] m = m
copy_all (c ∷ cs) m = copy_all cs (blit c.dst c.bytes m)

-- `BYTE pbFirst[0x1000] = { 0 }`
abbrev pub zero_page : ℕ → Memory → Memory
zero_page p m = λ a. if leb p a && ltb a (p + 0x1000) then 0 else m a

-- A call `LcRead(hLC, pa, cb, pb)`, with the addresses of its buffers pbFirst and pbLast.
pub record ReadCall : Type 0 where
  pub pa : ℕ
  pub cb : ℕ
  pub pb : ℕ
  pub pb_first : ℕ
  pub pb_last : ℕ

-- `pa & 0xfff`, `cMEMs`, `fFirst`, `fLast` and `paBase`
abbrev pub offset : ℕ → ℕ
offset pa = pa % 0x1000

abbrev pub c_mems : ReadCall → ℕ
c_mems r = (offset r.pa + r.cb + 0xfff) / 0x1000

abbrev pub f_first : ReadCall → Bool
f_first r = not (offset r.pa == 0) || ltb r.cb 0x1000

abbrev pub f_last : ReadCall → Bool
f_last r = ltb 1 (c_mems r) && not ((r.pa + r.cb) % 0x1000 == 0)

abbrev pub pa_base : ReadCall → ℕ
pa_base r = r.pa - offset r.pa

-- The arguments cbData, of a DWORD, and pbData of the allocation.
abbrev pub cb_middle : ReadCall → ℕ
cb_middle r =
    (r.cb
      + dword
      - (if f_first r then 0x1000 - offset r.pa else 0)
      + dword
      - (if f_last r then (r.pa + r.cb) % 0x1000 else 0))
    % dword

abbrev pub pb_middle : ReadCall → ℕ
pb_middle r = r.pb + (if offset r.pa == 0 then 0 else 0x1000 - offset r.pa)

unfoldable pub chunks_of : Bool → ReadCall → Option (List Mem)
chunks_of alloc r =
    alloc_scatter3 alloc (if f_first r then some r.pb_first else none)
      (if f_last r then some r.pb_last else none) (cb_middle r) (pb_middle r) (c_mems r % dword)

-- The copies out of the first and the last page, after every chunk was read.
unfoldable pub copy_first : ReadCall → List Mem → Memory → Memory
copy_first r mems m =
    if f_first r
    then blit r.pb
        (load ((get_or mems 0 zero_mem).pb + offset r.pa) (min r.cb (0x1000 - offset r.pa)) m) m
    else m

unfoldable pub copy_last : ReadCall → List Mem → Memory → Memory
copy_last r mems m =
    let mem = get_or mems (c_mems r - 1) zero_mem in
    if f_last r
    then blit (r.pb + sub64 mem.qw_a r.pa) (load mem.pb (sub64 (add64 r.pa r.cb) mem.qw_a) m) m
    else m

-- What follows the allocation in `LcRead`.
unfoldable pub read_pages : Context → ReadCall → List Mem → Memory → Bool × Memory
read_pages ctx r mems m =
    let (mems', copies) = read_scatter ctx (set_addresses (pa_base r) 0 mems) in
    let got = copy_all copies m in
    if all_read mems' then (true, copy_last r mems' (copy_first r mems' got)) else (false, got)

-- `LcRead`: its result, and the memory after it. The flag says whether the allocation succeeds.
unfoldable pub lc_read : Context → Bool → ReadCall → Memory → Bool × Memory
lc_read ctx alloc r m =
    let m0 = zero_page r.pb_last (zero_page r.pb_first m) in
    let none_left = c_mems r == 0 in
    if not ctx.is_open
    then (false, m0)
    else if r.cb == 0
    then (true, m0)
    else if none_left
    then (false, m0)
    else elim (chunks_of alloc r) [ some mems ↦ read_pages ctx r mems m0 | none ↦ (false, m0) ]

-- The loop of `LcWrite` over the pages, with the value of oA. Fuel `cb` is enough. The addresses are
-- QWORDs, oA and cb DWORDs.
unfoldable pub write_pages : ℕ → ℕ → ℕ → ℕ → ℕ → List Mem
write_pages zero pa cb pb o = []
write_pages (suc fuel) pa cb pb o =
    let n = min (0x1000 - (pa + o) % 0x1000) (cb - o) in
    let rest = write_pages fuel pa cb pb (add32 o n) in
    if ltb o cb then record (blank (pb + o)) { qw_a = add64 pa o; cb = n } ∷ rest else []

-- The pointers that `LcWrite` hands on, one for each of the pages that it counts: none if one of them
-- was left NULL by the loop.
abbrev pub pointers : ℕ → ℕ → List Mem → Option (List Mem)
pointers pa cb mems = if length mems == (offset pa + cb + 0xfff) / 0x1000 then some mems else none

-- `LcWrite`: its result and the chunks, or none where `LcWriteScatter` is given a NULL pointer.
unfoldable pub lc_write : Context → Bool → ℕ → ℕ → ℕ → Option (Bool × List Mem)
lc_write ctx alloc pa cb pb =
    if ctx.is_open && alloc
    then elim (pointers pa cb (write_pages cb pa cb pb 0)) [
      | some mems ↦ some (true, write_scatter ctx mems)
      | none ↦ none
    ]
    else some (false, [])
