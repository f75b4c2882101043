-- ===== src/ByteQueue/Starts.antt =====
-- Pushes onto the byte queue while its first packet is at offset 0.
use leech_core.Base.{
  ℕ, ◌+◌, ◌-◌, ◌%◌, ◌≤◌, ◌<◌, ◌≡◌, ◌≢◌, inl, refl, ap, ◌∙◌, arith, true, false, some, List, length,
  dword, qword, leb, ◌==◌, add32,
}
use leech_core.Base.Memory.{Memory}
use leech_core.ByteQueue.{ByteQueue, header, packet_cb, set_cbo_next, Reply, place, push}
use leech_core.ByteQueue.Packet.{
  HasPacket, write_packet-HasPacket, write_packet-apart, set_cbo_next-HasPacket,
}

-- What a caller pushes: a tag, and fewer than 2 ^ 31 bytes.
pub record Item : Type 0 where
  pub tag : ℕ
  pub bytes : List ℕ
  pub tag_fits : tag < qword
  pub bytes_fit : length bytes < 0x8000_0000

-- The space that an item takes in the queue.
abbrev pub space : Item → ℕ
space x = header + length x.bytes

abbrev pub Stored : Memory → ℕ → ℕ → Item → Type 0
Stored f p next x = HasPacket f p x.tag next x.bytes

-- The reply of a pop that gives an item out.
abbrev pub reply_of : Item → Reply
reply_of x = record { ok = true; tag = some x.tag; bytes = x.bytes; cb_read = length x.bytes }

pub record IsEmpty (q : ByteQueue) : Type 0 where
  pub none_left : q.c_packets ≡ 0
  pub head : q.cbo_head ≡ 0
  pub tail : q.cbo_tail ≡ 0
  pub small : q.cb < dword

-- The queue holds `n` packets and its first one at offset 0.
pub record Starts (q : ByteQueue) (n : ℕ) (next : ℕ) (x : Item) : Type 0 where
  pub count : q.c_packets ≡ n
  pub head : q.cbo_head ≡ 0
  pub tail : q.cbo_tail ≡ 0
  pub small : q.cb < dword
  pub first : Stored q.pb 0 next x

pub push-IsEmpty :
    {q : ByteQueue} (x : Item)
    → IsEmpty q
    → space x ≤ q.cb
    → ((push q x.tag x.bytes).0 ≡ true)
      × Starts (push q x.tag x.bytes).1 1 0 x
      × ((push q x.tag x.bytes).1.cb ≡ q.cb)
unfolding push place
push-IsEmpty {q} x e fits =
    let t1 : leb 0x8000_0000 (length x.bytes) ≡ false = ground (arith, x.bytes_fit) in
    let t2 : leb (length x.bytes + header) q.cb ≡ true = ground arith in
    rw (t1, e.none_left, t2)
      (
        refl,
        record {
          count = ap (λ (n : ℕ). add32 n 1) e.none_left;
          head = e.head;
          tail = e.tail;
          small = e.small;
          first =
              write_packet-HasPacket q.pb 0 x.tag x.bytes x.tag_fits (omega (arith, x.bytes_fit));
        },
        refl,
      )

room_lem :
    (size a b : ℕ)
    → size < dword
    → header + a + (header + b) ≤ size
    → leb (b + header) ((size + qword + qword - header - a) % qword) ≡ true
room_lem size a b small fits =
    let free : (size + qword + qword - header - a) % qword ≡ size - header - a = omega arith in
    rw free (ground arith)

module _ {q : ByteQueue} {n next : ℕ} {x : Item} (s : Starts q n next x) (some_in : n ≢ 0)
    (few : n + 1 < dword) where
  -- The place of the next packet is right behind the first one, however many packets there are.
  place-Starts :
      (y : Item)
      → space x + space y ≤ q.cb
      → place q (length y.bytes) ≡ some (space x, set_cbo_next 0 (space x) q.pb)
  unfolding place
  place-Starts y fits =
      let some_left : (q.c_packets == 0) ≡ false = ground (arith, s.count) in
      let size : packet_cb q.cbo_tail q.pb ≡ length x.bytes =
        ap (λ (p : ℕ). packet_cb p q.pb) s.tail ∙ s.first.cb_is in
      let at : (q.cbo_tail + header + packet_cb q.cbo_tail q.pb) % dword ≡ space x =
        omega (arith, s.tail, x.bytes_fit) in
      let room : leb (length y.bytes + header)
            ((q.cb + qword + qword - header - packet_cb q.cbo_tail q.pb) % qword)
          ≡ true =
        rw size (room_lem q.cb (length x.bytes) (length y.bytes) s.small fits) in
      rw (some_left, room, at, s.tail)

  pub push-Starts :
      (y : Item)
      → space x + space y ≤ q.cb
      → ((push q y.tag y.bytes).0 ≡ true)
        × Starts (push q y.tag y.bytes).1 (n + 1) (space x) x
        × Stored (push q y.tag y.bytes).1.pb (space x) 0 y
        × ((push q y.tag y.bytes).1.cb ≡ q.cb)
  unfolding push
  push-Starts y fits =
      let t1 : leb 0x8000_0000 (length y.bytes) ≡ false = ground (arith, y.bytes_fit) in
      let f = set_cbo_next 0 (space x) q.pb in
      let linked = set_cbo_next-HasPacket (space x) (omega (arith, x.bytes_fit)) s.first in
      rw (t1, place-Starts y fits)
        (
          refl,
          record {
            count = ap (λ (k : ℕ). add32 k 1) s.count ∙ omega arith;
            head = s.head;
            tail = s.tail;
            small = s.small;
            first = write_packet-apart (space x) y.tag y.bytes (inl (omega arith)) linked;
          },
          write_packet-HasPacket f (space x) y.tag y.bytes y.tag_fits (omega (arith, y.bytes_fit)),
          refl,
        )
