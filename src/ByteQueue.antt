-- ===== src/ByteQueue.antt =====
-- leechcore/ob/ob_bytequeue.c: the byte queue, packets on a ring of bytes. A packet is a header of
-- 16 bytes, the fields qwTag (8), cboNext (4) and cb (4), with its bytes behind it.
pub mod Packet
pub mod Starts
pub mod Fifo
pub mod Peek
mod Tests
use leech_core.Base.{
  ℕ, ◌+◌, ◌-◌, ◌%◌, Bool, true, false, Option, none, some, List, [], if◌then◌else◌, ltb, leb, ◌==◌,
  length, dword, qword, add32, sub32,
}
use leech_core.Base.Memory.{Memory, blit, load, le_bytes, le_value}

-- `OB_BYTEQUEUE`, without its lock. The offsets are counted from the start of `pb`.
pub record ByteQueue : Type 0 where
  pub c_packets : ℕ
  pub cbo_head : ℕ
  pub cbo_tail : ℕ
  pub cb : ℕ
  pub pb : Memory

-- `sizeof(BYTEQUEUE_PACKET)`
abbrev pub header : ℕ
header = 16

-- The fields of the `BYTEQUEUE_PACKET` at an offset.
unfoldable pub qw_tag : ℕ → Memory → ℕ
qw_tag p f = le_value (load p 8 f)

unfoldable pub cbo_next : ℕ → Memory → ℕ
cbo_next p f = le_value (load (p + 8) 4 f)

unfoldable pub packet_cb : ℕ → Memory → ℕ
packet_cb p f = le_value (load (p + 12) 4 f)

unfoldable pub payload : ℕ → Memory → List ℕ
payload p f = load (p + header) (packet_cb p f) f

unfoldable pub set_cbo_next : ℕ → ℕ → Memory → Memory
set_cbo_next p v f = blit (p + 8) (le_bytes 4 v) f

-- `p->qwTag = qwTag; p->cb = (DWORD)cb; p->cboNext = 0; memcpy(p->pb, pb, cb);`
unfoldable pub write_packet : ℕ → ℕ → List ℕ → Memory → Memory
write_packet p tag bytes f = blit (p + header) bytes (
    blit (p + 8) (le_bytes 4 0)
      (blit (p + 12) (le_bytes 4 (length bytes % dword)) (blit p (le_bytes 8 tag) f)))

-- What a read of the queue gives: the result, the tag and the bytes on success, and `*pcbRead`.
pub record Reply : Type 0 where
  pub ok : Bool
  pub tag : Option ℕ
  pub bytes : List ℕ
  pub cb_read : ℕ

abbrev pub refused : ℕ → Reply
refused n = record { ok = false; tag = none; bytes = []; cb_read = n }

abbrev pub taken : ByteQueue → Reply
taken q = record {
  ok = true;
  tag = some (qw_tag q.cbo_head q.pb);
  bytes = payload q.cbo_head q.pb;
  cb_read = packet_cb q.cbo_head q.pb;
}

-- `_ObByteQueue_Peek`, with a buffer of `cb` bytes.
unfoldable pub peek : ByteQueue → ℕ → Reply
peek q cb =
    let n = packet_cb q.cbo_head q.pb in
    if q.c_packets == 0 then refused 0 else if ltb n cb then refused n else taken q

-- The queue without its first packet.
unfoldable pub advance : ByteQueue → ByteQueue
advance q =
    let c = sub32 q.c_packets 1 in
    if c == 0
    then record q { c_packets = 0; cbo_head = 0; cbo_tail = 0 }
    else record q { c_packets = c; cbo_head = cbo_next q.cbo_head q.pb }

-- `_ObByteQueue_Pop`, with a buffer of `cb` bytes.
unfoldable pub pop : ByteQueue → ℕ → Reply × ByteQueue
pop q cb =
    let n = packet_cb q.cbo_head q.pb in
    if q.c_packets == 0
    then (refused 0, q)
    else if ltb cb n
    then (refused n, q)
    else (taken q, advance q)

-- The offset for a new packet, or none, and the memory with the last packet linked to it. The room
-- is a SIZE_T, which wraps.
unfoldable pub place : ByteQueue → ℕ → Option (ℕ × Memory)
place q cb =
    let tail = q.cbo_tail in
    let n = packet_cb tail q.pb in
    let next = (tail + header + n) % dword in
    if q.c_packets == 0
    then (if leb (cb + header) q.cb then some (0, q.pb) else none)
    else if leb (cb + header) ((q.cb + qword + qword - header - n) % qword)
    then some (next, set_cbo_next tail next q.pb)
    else if leb (cb + header) q.cbo_head
    then some (0, set_cbo_next tail 0 q.pb)
    else none

-- `_ObByteQueue_Push`
unfoldable pub push : ByteQueue → ℕ → List ℕ → Bool × ByteQueue
push q tag bytes =
    if leb 0x8000_0000 (length bytes) then (false, q) else elim (place q (length bytes)) [
      | none ↦ (false, q)
      | some (p, f) ↦
          (true, record q { c_packets = add32 q.c_packets 1; pb = write_packet p tag bytes f })
    ]

-- `ObByteQueue_New` on memory that is all zero; none for a size that is too small or an allocation
-- that fails.
unfoldable pub new : Bool → ℕ → Option ByteQueue
new alloc cb =
    if ltb cb 0x1000
    then none
    else if alloc
    then some (record { c_packets = 0; cbo_head = 0; cbo_tail = 0; cb = cb; pb = λ a. 0 })
    else none

-- `ObByteQueue_Size`
unfoldable pub size : ByteQueue → ℕ
size q = q.c_packets
