-- ===== src/ByteQueue/Tests.antt =====
-- The byte queue at concrete inputs.
use leech_core.Base.{◌≡◌, refl, arith, true, false, some, [], ◌∷◌}
use leech_core.ByteQueue.{ByteQueue, new, push, pop, peek}
use leech_core.ByteQueue.Starts.{Item, IsEmpty, reply_of}
use leech_core.ByteQueue.Fifo.{
  Leads, pushed, popped, pop-push, pop-push_overwrites, push-IsEmpty-Leads,
}
use leech_core.ByteQueue.Peek.{peek-ok}

abbrev fresh : ByteQueue
fresh = record { c_packets = 0; cbo_head = 0; cbo_tail = 0; cb = 0x1000; pb = λ a. 0 }

fresh-new : new true 0x1000 ≡ some fresh
unfolding new
fresh-new = refl

fresh-IsEmpty : IsEmpty fresh
fresh-IsEmpty = record { none_left = refl; head = refl; tail = refl; small = omega arith }

abbrev one : Item
one = record { tag = 1; bytes = 10 ∷ 11 ∷ 12 ∷ []; tag_fits = omega arith; bytes_fit = omega arith }

abbrev two : Item
two = record { tag = 2; bytes = 20 ∷ []; tag_fits = omega arith; bytes_fit = omega arith }

abbrev three : Item
three = record { tag = 3; bytes = 30 ∷ 31 ∷ []; tag_fits = omega arith; bytes_fit = omega arith }

pop-push_example :
    let q2 = pushed (pushed fresh one) two in
    ((push fresh 1 one.bytes).0 ≡ true)
    × ((push (pushed fresh one) 2 two.bytes).0 ≡ true)
    × ((pop q2 8).0 ≡ reply_of one)
    × ((pop (popped q2 8) 8).0 ≡ reply_of two)
    × IsEmpty (popped (popped q2 8) 8)
pop-push_example = pop-push one two 8 fresh-IsEmpty (omega arith) (omega arith) (omega arith)

pop-push_overwrites_example :
    let q2 = pushed (pushed fresh one) two in
    let q3 = pushed q2 three in
    let rest = popped q3 8 in
    ((push (pushed fresh one) 2 two.bytes).0 ≡ true)
    × ((push q2 3 three.bytes).0 ≡ true)
    × ((pop q3 8).0 ≡ reply_of one)
    × ((pop rest 8).0 ≡ reply_of three)
    × ((pop (popped rest 8) 8).0 ≡ reply_of one)
    × IsEmpty (popped (popped rest 8) 8)
pop-push_overwrites_example =
    pop-push_overwrites one two three 8 fresh-IsEmpty (omega arith) (omega arith) (omega arith)
      (omega arith)

held : Leads (pushed fresh one) 1 0 0 one
held = push-IsEmpty-Leads one fresh-IsEmpty (omega arith)

peek-ok_example :
    ((pop (pushed fresh one) 2).0.ok ≡ false)
    × ((peek (pushed fresh one) 2).ok ≡ true)
    × ((pop (pushed fresh one) 2).0.cb_read ≡ 3)
    × ((peek (pushed fresh one) 2).cb_read ≡ 3)
peek-ok_example = peek-ok 2 held (omega arith)
