-- ===== src/ByteQueue/Fifo.antt =====
-- Pushes and pops of the byte queue, from the empty queue on.
use leech_core.Base.{
  ℕ, ◌+◌, ◌≤◌, ◌<◌, ◌≡◌, ◌≢◌, refl, sym, subst, ap, ◌∙◌, arith, true, false, some, length, dword,
  ltb, ◌==◌, sub32,
}
use leech_core.Base.Memory.{Memory}
use leech_core.ByteQueue.{ByteQueue, qw_tag, cbo_next, packet_cb, payload, advance, pop, push}
use leech_core.ByteQueue.Packet.{payload-HasPacket}
use leech_core.ByteQueue.Starts.{Item, space, Stored, reply_of, IsEmpty, push-IsEmpty, push-Starts}

-- The queue holds `n` packets and its first one at offset `p`.
pub record Leads (q : ByteQueue) (n p next : ℕ) (x : Item) : Type 0 where
  pub count : q.c_packets ≡ n
  pub head : q.cbo_head ≡ p
  pub first : Stored q.pb p next x

pub pop-Leads :
    {q : ByteQueue} {n p next : ℕ} {x : Item} {cb : ℕ}
    → Leads q n p next x
    → n ≢ 0
    → length x.bytes ≤ cb
    → pop q cb ≡ (reply_of x, advance q)
unfolding pop
pop-Leads {q} {x} {cb} l some_in room =
    let some_left : (q.c_packets == 0) ≡ false = ground (arith, l.count) in
    let at : (f : ℕ → ℕ) → f q.cbo_head ≡ f _ = λ f. ap f l.head in
    let size = at (λ p. packet_cb p q.pb) ∙ l.first.cb_is in
    let tag = at (λ p. qw_tag p q.pb) ∙ l.first.tag_is in
    let enough : ltb cb (packet_cb q.cbo_head q.pb) ≡ false = rw size (ground arith) in
    let whole : payload q.cbo_head q.pb ≡ x.bytes =
      ap (λ (p : ℕ). payload p q.pb) l.head ∙ payload-HasPacket l.first in
    rw (some_left, enough)
      (λ i.
        (record { ok = true; tag = some (tag i); bytes = whole i; cb_read = size i }, advance q))

advance-last : (q : ByteQueue) → q.c_packets ≡ 1 → q.cb < dword → IsEmpty (advance q)
unfolding advance
advance-last q one small =
    let last : sub32 q.c_packets 1 ≡ 0 = ap (λ (n : ℕ). sub32 n 1) one in
    rw last (record { none_left = refl; head = refl; tail = refl; small = small })

advance-more :
    {q : ByteQueue} (n : ℕ) {p next : ℕ} {x : Item}
    → Leads q (n + 2) p next x
    → n + 2 < dword
    → advance q ≡ record q { c_packets = n + 1; cbo_head = next }
unfolding advance
advance-more {q} n {next} l few =
    let fewer : sub32 q.c_packets 1 ≡ n + 1 = ap (λ (k : ℕ). sub32 k 1) l.count ∙ omega arith in
    let to : cbo_next q.cbo_head q.pb ≡ next =
      ap (λ (p : ℕ). cbo_next p q.pb) l.head ∙ l.first.next_is in
    let more : (n + 1 == 0) ≡ false = ground arith in rw (fewer, to, more) refl

abbrev pub pushed : ByteQueue → Item → ByteQueue
pushed q x = (push q x.tag x.bytes).1

abbrev pub popped : ByteQueue → ℕ → ByteQueue
popped q cb = (pop q cb).1

pub push-IsEmpty-Leads :
    {q : ByteQueue} (x : Item) → IsEmpty q → space x ≤ q.cb → Leads (pushed q x) 1 0 0 x
push-IsEmpty-Leads x e fits =
    let (_, s, _) = push-IsEmpty x e fits in
    record { count = s.count; head = s.head; first = s.first }

pop-next :
    {q : ByteQueue} (n : ℕ) {p next next' : ℕ} {x y : Item} {cb : ℕ}
    → Leads q (n + 2) p next x
    → n + 2 < dword
    → length x.bytes ≤ cb
    → Stored q.pb next next' y
    → Leads (popped q cb) (n + 1) next next' y
      × ((popped q cb).pb ≡ q.pb)
      × ((popped q cb).cb ≡ q.cb)
pop-next n {next} {next'} {y} l few room behind =
    let left = ap (λ r. r.1) (pop-Leads l (omega arith) room) ∙ advance-more n l few in
    let kept = ap (λ (r : ByteQueue). r.pb) left in
    (
      record {
        count = ap (λ (r : ByteQueue). r.c_packets) left;
        head = ap (λ (r : ByteQueue). r.cbo_head) left;
        first = subst (λ (f : Memory). Stored f next next' y) (sym kept) behind;
      },
      kept,
      ap (λ (r : ByteQueue). r.cb) left,
    )

pop-last :
    {q : ByteQueue} {p next : ℕ} {x : Item} {cb : ℕ}
    → Leads q 1 p next x
    → q.cb < dword
    → length x.bytes ≤ cb
    → ((pop q cb).0 ≡ reply_of x) × IsEmpty (popped q cb)
pop-last {q} l small room =
    let out = pop-Leads l (omega arith) room in
    (ap (λ r. r.0) out, subst IsEmpty (sym (ap (λ r. r.1) out)) (advance-last q l.count small))

-- Two items that together fit an empty queue are taken in by pushes one after the other, the pops
-- that follow give them out in the order in which they came, with their tags and bytes, and leave
-- the queue empty.
pub pop-push :
    {q : ByteQueue} (a b : Item) (cb : ℕ)
    → IsEmpty q
    → space a + space b ≤ q.cb
    → length a.bytes ≤ cb
    → length b.bytes ≤ cb
    → let q2 = pushed (pushed q a) b in
      ((push q a.tag a.bytes).0 ≡ true)
      × ((push (pushed q a) b.tag b.bytes).0 ≡ true)
      × ((pop q2 cb).0 ≡ reply_of a)
      × ((pop (popped q2 cb) cb).0 ≡ reply_of b)
      × IsEmpty (popped (popped q2 cb) cb)
pop-push {q} a b cb e fits room_a room_b =
    let q2 = pushed (pushed q a) b in
    let (t1, s1, c1) = push-IsEmpty a e (omega arith) in
    let (t2, s2, in_b, c2) = push-Starts s1 (omega arith) (omega arith) b (omega (arith, c1)) in
    let first : Leads q2 2 0 (space a) a = record {
      count = s2.count;
      head = s2.head;
      first = s2.first;
    } in
    let (second, _, c3) = pop-next 0 {y = b} first (omega arith) room_a in_b in
    let (out_b, empty) = pop-last second (omega (arith, c3, c2, c1, e.small)) room_b in
    (t1, t2, ap (λ r. r.0) (pop-Leads first (omega arith) room_a), out_b, empty)

-- Of three items, each of which fits the queue behind the first, all pushes succeed, but the third
-- item overwrites the second one, and after the third one the first comes out again.
pub pop-push_overwrites :
    {q : ByteQueue} (a b c : Item) (cb : ℕ)
    → IsEmpty q
    → space a + space b ≤ q.cb
    → space a + space c ≤ q.cb
    → length a.bytes ≤ cb
    → length c.bytes ≤ cb
    → let q2 = pushed (pushed q a) b in
      let q3 = pushed q2 c in
      let rest = popped q3 cb in
      ((push (pushed q a) b.tag b.bytes).0 ≡ true)
      × ((push q2 c.tag c.bytes).0 ≡ true)
      × ((pop q3 cb).0 ≡ reply_of a)
      × ((pop rest cb).0 ≡ reply_of c)
      × ((pop (popped rest cb) cb).0 ≡ reply_of a)
      × IsEmpty (popped (popped rest cb) cb)
pop-push_overwrites {q} a b c cb e fits_b fits_c room_a room_c =
    let q2 = pushed (pushed q a) b in
    let q3 = pushed q2 c in
    let (_, s1, c1) = push-IsEmpty a e (omega arith) in
    let (t2, s2, _, c2) = push-Starts s1 (omega arith) (omega arith) b (omega (arith, c1)) in
    let (t3, s3, in_c, c3) = push-Starts s2 (omega arith) (omega arith) c (omega (arith, c2, c1)) in
    let first : Leads q3 3 0 (space a) a = record {
      count = s3.count;
      head = s3.head;
      first = s3.first;
    } in
    let (second, pb4, c4) = pop-next 1 {y = c} first (omega arith) room_a in_c in
    let again = subst (λ (f : Memory). Stored f 0 (space a) a) (sym pb4) s3.first in
    let (third, _, c5) = pop-next 0 {y = a} second (omega arith) room_c again in
    let (out_a, empty) = pop-last third (omega (arith, c5, c4, c3, c2, c1, e.small)) room_a in
    (
      t2,
      t3,
      ap (λ r. r.0) (pop-Leads first (omega arith) room_a),
      ap (λ r. r.0) (pop-Leads second (omega arith) room_c),
      out_a,
      empty,
    )
