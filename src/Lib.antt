-- ===== src/Lib.antt =====
-- LeechCore: acquisition of physical memory. A client asks for scattered chunks of memory, each
-- a `MEM_SCATTER`. The core translates their addresses by the memory map of the device, hands
-- them to the device, by the device's own scattered read or as linear reads that the
-- ReadContigious subsystem gathers, and gives the addresses back.
--
-- - MemScatter: `MEM_SCATTER` and its stack macros (leechcore/leechcore.h).
-- - MemMap: the memory map (leechcore/memmap.c). `add_range` is LcMemMap_AddRange with the
--   growth of the array, `translate_mems` is LcMemMap_TranslateMEMs with its cached range and
--   its fast find.
-- - ReadContigious: the gathering of linear reads (LcReadContigious_* in leechcore/leechcore.c).
-- - Scatter: LcReadScatter and LcWriteScatter (leechcore/leechcore.c).
-- - Transfer: LcRead, LcWrite and LcAllocScatter1 to LcAllocScatter3 (leechcore/leechcore.c).
--   LcRead changes a memory of buffers, the caller's and the two pages on its stack. `Buffers`
--   says which page goes where, `Pages` what the allocation sets up, `Parts` what the copies
--   leave, `Mapped` how the pages move in a range of the memory map, `Read` and `Device` what a
--   call does, `Frame` what it leaves alone, `Write` how a write is split.
-- - Handles: the open contexts with their handle counts, LcCreateEx, LcClose and LcCloseAll
--   (leechcore/leechcore.c). A context is its address and its count; the set-up of a device is a
--   Boolean of the request.
-- - Detect: the detection of the largest address (leechcore/leechcore.c), by reads of the
--   scattered transfers. The one chunk more that an FPGA reads for the check of its algorithm
--   moves no address and is left out. `Round` is one read, `Top` the whole, and `Ranges` the map
--   that is made from the result.
-- - Options: LcGetOption and LcSetOption (leechcore/leechcore.c). The device's functions and
--   their state are parameters.
-- - ObCore: objects with a count of references (leechcore/ob/ob_core.c). The callbacks of an
--   object are values; `Uses` runs sequences of uses.
-- - ByteQueue: packets on a ring of bytes (leechcore/ob/ob_bytequeue.c). The buffer is a memory
--   of bytes at offsets, and the queue reads and writes the fields of a packet there. `Starts`
--   and `Fifo` run pushes and pops, and `Peek` compares the two reads.
-- - Probe: the hash tables with linear probing that leechcore/ob/ob_set.c and
--   leechcore/ob/ob_map.c share. `Cycle` has the order of the slots on a cycle, `Contents` the
--   entries with the free slots, `Paths` the tables in which every entry is found, `Find` the
--   search, and `Rehash` and `Clear` the removal of a slot.
-- - ObSet: the hashed value set (leechcore/ob/ob_set.c). `Push` has the insertions. `Store`
--   keeps the values apart, `Valid` says when a set is valid, `Elements` reads the values as a
--   list, `Grow`, `Insert` and `Pushed` are about a push, `Drop` is about the pop and the
--   clearing, `Replace` and `Removed` about the removal, `Calls` runs sequences of calls, and
--   `Close` says what is freed. A search that meets no free slot has no result (`lost`, `none`).
-- - ObMap: the hashed map (leechcore/ob/ob_map.c), with two hash tables. The entries are read
--   through the pointers to tables and stores; a read through NULL, which C does not define,
--   gives an entry of zeros. `Change` has the operations that change it, `Order` the search by
--   key and the sorting, with `Sorted` about the search, `Close` what is freed. `Valid` says
--   when a map is valid, `Both` is about the two tables, `Search` about the tests, `Take` and
--   `Taken` about a removal, `Put`, `Pointers`, `Ways` and `Putting` about a push, with what a
--   failed growth loses, and `Calls` runs sequences of calls.
-- - Util: the hex dump (leechcore/util.c). A text is the list of the characters that the loop
--   writes; `Rows` counts them.
-- - Base: what the other modules share.
--
-- Words are native numbers with the wrap-around written out. Addresses of buffers are numbers,
-- and a copy into a buffer is a value (`Copy`), so that a transfer returns the copies that it
-- makes in their order. A device is a parameter: a function from an address and a size to bytes,
-- or a function on chunks. Whether an allocation succeeds is a Boolean parameter.
--
-- Thirteen recursions are on fuel. The four loops of a hash table have the number of its slots,
-- which is enough when one slot is free (`first_free-First`, `seek-hit`, `locate-hit`). The
-- search by key counts at most 32 bits, halves its step at most 32 times (`approach`), and then
-- takes one step for each entry at most (`walk`). `push_pages` has a round for each page of its
-- range. `detect_coarse` needs a round for every 56GB above 4GB at most, and `detect_fine` has 6
-- for its five steps from 4GB to 4KB (`Detect.Top`). `close_all` has the number of handles as
-- its fuel, and each round takes one back (`Handles.CloseAll`). `write_pages` has the number of
-- bytes as its fuel, and each round takes one at least (`Transfer.Write`). The other is the
-- bisection of the fast find, with fuel 32: its step is below 2 ^ 32 and is halved in each round
-- (`bisect_fuel`).
--
-- Not modelled: locks, events and threads (a scheduled read is done in the order of scheduling;
-- the reads of one request name disjoint chunks), call statistics, log output, and everything
-- that only calls the operating system or a driver.
pub mod Base
pub mod MemScatter
pub mod MemMap
pub mod ReadContigious
pub mod Scatter
pub mod ByteQueue
pub mod Transfer
pub mod Handles
pub mod Options
pub mod ObCore
pub mod Detect
pub mod Probe
pub mod ObSet
pub mod ObMap
pub mod Util
