-- ===== src/ReadContigious/Hole.antt =====
-- What `LcReadContigious_ReadScatterGather` does with a chunk whose address is invalid between two chunks
-- whose addresses are adjacent, as the memory map leaves them for a hole that the device's file does
-- not store.
use leech_core.Base.{
  ℕ, ◌+◌, ◌-◌, ◌<◌, ◌≡◌, arith, true, false, leb, List, [], ◌∷◌, length, qword_max, add32, ◌==◌,
  not, ◌&&◌,
}
use leech_core.MemScatter.{Mem, addr_is_valid}
use leech_core.ReadContigious.{
  Config, Chunk, chunk_size_limit, gather, idle, joins, device_read, read_chunk, read_chunks,
  read_scatter_gather,
}
use leech_core.ReadContigious.Exact.{IsWanted}
use leech_core.ReadContigious.Device.{bytes_at, length-bytes_at, take-bytes_at, drop-bytes_at}

-- A hole between two adjacent chunks.
pub record IsHole (a hole b : Mem) : Type 0 where
  pub first : IsWanted a
  pub invalid : hole.qw_a ≡ qword_max
  pub last : IsWanted b
  pub adjacent : b.qw_a ≡ a.qw_a + a.cb
  pub same_size : hole.cb ≡ b.cb

module _ {a hole b : Mem} (h : IsHole a hole b) (limit : ℕ) (big : 0x1000 < limit) where
  -- One read of two chunks is scheduled, and it starts at the first.
  gather-hole :
      gather limit 0 idle (a ∷ hole ∷ b ∷ [])
      ≡ record { i_base = 0; c = 2; pa_base = a.qw_a; cb = a.cb + b.cb } ∷ []
  unfolding gather
  gather-hole =
      let va : addr_is_valid a ≡ true = ground (arith, h.first.ends, h.first.some_bytes) in
      let vh : addr_is_valid hole ≡ false = ground (arith, h.invalid) in
      let vb : addr_is_valid b ≡ true = ground (arith, h.last.ends, h.last.some_bytes) in
      let start : (not (a.cb == 0) && not a.f) ≡ true =
        ground (arith, h.first.unread, h.first.some_bytes) in
      let first : Chunk = record { i_base = 0; c = 1; pa_base = a.qw_a; cb = a.cb } in
      let j : joins limit first b ≡ true = ground (arith, h.adjacent, h.first.ends, h.first.page) in
      let sum : add32 a.cb b.cb ≡ a.cb + b.cb = omega (arith, h.first.page, h.last.page) in
      rw (va, start, vh, vb, j, sum)

-- A hole between two adjacent chunks, on an active single-threaded subsystem over a device that reads
-- all that it is asked for: the hole is marked as read and gets the bytes of the chunk behind it,
-- and that chunk stays unread.
pub read_scatter_gather-hole :
    (phys : ℕ → ℕ) (device : ℕ → ℕ → List ℕ) (cfg : Config) {a hole b : Mem}
    → ((pa cb : ℕ) → device pa cb ≡ bytes_at phys pa cb)
    → cfg.f_active ≡ true
    → cfg.c_thread ≡ 1
    → 0x1000 < cfg.cb_chunk_size
    → IsHole a hole b
    → read_scatter_gather device cfg (a ∷ hole ∷ b ∷ []) ≡ (
      record a { f = true } ∷ record hole { f = true } ∷ b ∷ [],
      record { dst = a.pb; bytes = bytes_at phys a.qw_a a.cb }
          ∷ record { dst = hole.pb; bytes = bytes_at phys b.qw_a b.cb }
          ∷ [],
    )
unfolding read_scatter_gather read_chunks read_chunk device_read
read_scatter_gather-hole phys device cfg {a} {hole} {b} reads active single big h =
    let limit : chunk_size_limit cfg 3 ≡ cfg.cb_chunk_size = ground arith in
    let both = bytes_at phys a.qw_a (a.cb + b.cb) in
    let after = bytes_at phys (a.qw_a + a.cb) (a.cb + b.cb - a.cb) in
    let left : a.cb + b.cb - a.cb ≡ b.cb = omega arith in
    let t1 : leb a.cb (length both) ≡ true =
      ground (arith, length-bytes_at phys a.qw_a (a.cb + b.cb)) in
    let t2 : leb hole.cb (length after) ≡ true =
      ground (arith, length-bytes_at phys (a.qw_a + a.cb) (a.cb + b.cb - a.cb), h.same_size) in
    rw (
      active,
      limit,
      gather-hole h cfg.cb_chunk_size big,
      reads,
      t1,
      take-bytes_at phys a.cb a.qw_a (a.cb + b.cb) (omega arith),
      drop-bytes_at phys a.cb a.qw_a (a.cb + b.cb) (omega arith),
      t2,
      left,
      h.same_size,
      h.adjacent,
      take-bytes_at phys b.cb (a.qw_a + a.cb) b.cb (omega arith),
    )
