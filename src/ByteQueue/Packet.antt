-- ===== src/ByteQueue/Packet.antt =====
-- A packet in memory, and what the writes of the queue do to it.
use leech_core.Base.{
  ℕ, ◌+◌, ◌%◌, ◌≤◌, ◌<◌, ◌≡◌, ◌⊎◌, refl, ap, ◌∙◌, arith, List, length, dword, qword,
}
use leech_core.Base.Memory.{
  Memory, load, le_bytes, le_value, load-blit, load-blit_apart, length-le_bytes, le_value-le_bytes,
}
use leech_core.ByteQueue.{header, qw_tag, cbo_next, packet_cb, payload, set_cbo_next, write_packet}

-- The packet at offset `p` has this tag, link and content.
pub record HasPacket (f : Memory) (p tag next : ℕ) (bytes : List ℕ) : Type 0 where
  pub tag_is : qw_tag p f ≡ tag
  pub next_is : cbo_next p f ≡ next
  pub cb_is : packet_cb p f ≡ length bytes
  pub bytes_are : load (p + header) (length bytes) f ≡ bytes

pub payload-HasPacket :
    {f : Memory} {p tag next : ℕ} {bytes : List ℕ}
    → HasPacket f p tag next bytes
    → payload p f ≡ bytes
unfolding payload
payload-HasPacket {f} {p} h = ap (λ (n : ℕ). load (p + header) n f) h.cb_is ∙ h.bytes_are

pub write_packet-HasPacket :
    (f : Memory) (p tag : ℕ) (bytes : List ℕ)
    → tag < qword
    → length bytes < dword
    → HasPacket (write_packet p tag bytes f) p tag 0 bytes
unfolding write_packet qw_tag cbo_next packet_cb
write_packet-HasPacket f p tag bytes t l =
    let small : length bytes % dword ≡ length bytes = omega arith in
    let n8 = length-le_bytes 8 tag in
    let n4 = length-le_bytes 4 0 in
    let n4' = length-le_bytes 4 (length bytes) in
    record {
      tag_is =
          rw
            (
              small,
              load-blit_apart p 8 (p + header) bytes _ (omega arith),
              load-blit_apart p 8 (p + 8) (le_bytes 4 0) _ (omega arith),
              load-blit_apart p 8 (p + 12) (le_bytes 4 (length bytes)) _ (omega arith),
              load-blit p 8 (le_bytes 8 tag) f (omega arith),
            )
            (le_value-le_bytes 8 tag t);
      next_is =
          rw
            (
              small,
              load-blit_apart (p + 8) 4 (p + header) bytes _ (omega arith),
              load-blit (p + 8) 4 (le_bytes 4 0) _ (omega arith),
            )
            (le_value-le_bytes 4 0 (omega arith));
      cb_is =
          rw
            (
              small,
              load-blit_apart (p + 12) 4 (p + header) bytes _ (omega arith),
              load-blit_apart (p + 12) 4 (p + 8) (le_bytes 4 0) _ (omega arith),
              load-blit (p + 12) 4 (le_bytes 4 (length bytes)) _ (omega arith),
            )
            (le_value-le_bytes 4 (length bytes) l);
      bytes_are = load-blit (p + header) (length bytes) bytes _ refl;
    }

-- A write past the end of a packet, or before it, leaves it.
pub write_packet-apart :
    {f : Memory} {p tag next : ℕ} {bytes : List ℕ} (q tag' : ℕ) (bytes' : List ℕ)
    → (p + header + length bytes ≤ q) ⊎ (q + header + length bytes' ≤ p)
    → HasPacket f p tag next bytes
    → HasPacket (write_packet q tag' bytes' f) p tag next bytes
unfolding write_packet qw_tag cbo_next packet_cb
write_packet-apart {f} {p} {bytes} q tag' bytes' away h =
    let n8 = length-le_bytes 8 tag' in
    let n4 = length-le_bytes 4 0 in
    let n4' = length-le_bytes 4 (length bytes' % dword) in
    let keep : (a n : ℕ)
        → p ≤ a
        → a + n ≤ p + header + length bytes
        → load a n (write_packet q tag' bytes' f) ≡ load a n f =
      λ a n lo hi.
        load-blit_apart a n (q + header) bytes' _ (omega arith)
        ∙ load-blit_apart a n (q + 8) (le_bytes 4 0) _ (omega arith)
        ∙ load-blit_apart a n (q + 12) (le_bytes 4 (length bytes' % dword)) _ (omega arith)
        ∙ load-blit_apart a n q (le_bytes 8 tag') f (omega arith) in
    record {
      tag_is = ap le_value (keep p 8 (omega arith) (omega arith)) ∙ h.tag_is;
      next_is = ap le_value (keep (p + 8) 4 (omega arith) (omega arith)) ∙ h.next_is;
      cb_is = ap le_value (keep (p + 12) 4 (omega arith) (omega arith)) ∙ h.cb_is;
      bytes_are = keep (p + header) (length bytes) (omega arith) (omega arith) ∙ h.bytes_are;
    }

-- The link of a packet is set, and the rest of it stays.
pub set_cbo_next-HasPacket :
    {f : Memory} {p tag next : ℕ} {bytes : List ℕ} (v : ℕ)
    → v < dword
    → HasPacket f p tag next bytes
    → HasPacket (set_cbo_next p v f) p tag v bytes
unfolding set_cbo_next qw_tag cbo_next packet_cb
set_cbo_next-HasPacket {f} {p} {bytes} v small h =
    let n4 = length-le_bytes 4 v in
    record {
      tag_is = ap le_value (load-blit_apart p 8 (p + 8) (le_bytes 4 v) f (omega arith)) ∙ h.tag_is;
      next_is =
          ap le_value (load-blit (p + 8) 4 (le_bytes 4 v) f (omega arith))
          ∙ le_value-le_bytes 4 v small;
      cb_is =
          ap le_value (load-blit_apart (p + 12) 4 (p + 8) (le_bytes 4 v) f (omega arith)) ∙ h.cb_is;
      bytes_are =
          load-blit_apart (p + header) (length bytes) (p + 8) (le_bytes 4 v) f (omega arith)
          ∙ h.bytes_are;
    }
