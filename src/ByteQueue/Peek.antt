-- ===== src/ByteQueue/Peek.antt =====
-- What buffers a peek and a pop of the byte queue take.
use leech_core.Base.{ℕ, ◌≡◌, ◌≢◌, ap, ◌∙◌, arith, false, length, leb, ◌==◌}
use leech_core.ByteQueue.{ByteQueue, packet_cb, peek, pop}
use leech_core.ByteQueue.Starts.{Item}
use leech_core.ByteQueue.Fifo.{Leads}

-- A pop gives the first packet out exactly when it fits the buffer; a peek exactly when the buffer
-- is not larger than the packet, so that it writes past the end of every smaller buffer. Both
-- report the size of the packet in any case.
pub peek-ok :
    {q : ByteQueue} {n p next : ℕ} {x : Item} (cb : ℕ)
    → Leads q n p next x
    → n ≢ 0
    → ((pop q cb).0.ok ≡ leb (length x.bytes) cb)
      × ((peek q cb).ok ≡ leb cb (length x.bytes))
      × ((pop q cb).0.cb_read ≡ length x.bytes)
      × ((peek q cb).cb_read ≡ length x.bytes)
unfolding peek pop
peek-ok {q} {x} cb l some_in =
    let some_left : (q.c_packets == 0) ≡ false = ground (arith, l.count) in
    let size = ap (λ (p : ℕ). packet_cb p q.pb) l.head ∙ l.first.cb_is in
    rw (some_left, size) (ground arith, ground arith, ground arith, ground arith)
