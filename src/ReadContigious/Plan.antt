-- ===== src/ReadContigious/Plan.antt =====
-- The reads that `LcReadContigious_ReadScatterGather` schedules stay within their buffer and within the
-- request.
use leech_core.Base.{
  ℕ, suc, ◌+◌, ◌≤◌, ◌<◌, ◌≡◌, ◌⊎◌, inl, inr, refl, arith, Bool-cases, true, false, not, ◌&&◌, ◌==◌,
  List, [], ◌∷◌, length, All, All-map, add32,
}
use leech_core.MemScatter.{Mem, addr_is_valid}
use leech_core.ReadContigious.{Config, Chunk, chunk_size_limit, open_at, joins, gather, idle}

-- A chunk holds at most a page.
abbrev pub IsPage : Mem → Type 0
IsPage mem = mem.cb ≤ 0x1000

-- A read is no larger than `room`, and its chunks lie below index `n`.
pub record Fits (room n : ℕ) (ch : Chunk) : Type 0 where
  pub sized : ch.cb ≤ room
  pub placed : ch.i_base + ch.c ≤ n

-- The same of the read that is being gathered, if there is one.
abbrev Pending : ℕ → ℕ → Chunk → Type 0
Pending room i cur = (cur.c ≡ 0) ⊎ Fits room i cur

module _ (limit : ℕ) where
  open_at-Pending :
      (i : ℕ) (mem : Mem) (cur : Chunk)
      → IsPage mem
      → Pending (limit + 0x1000) (suc i) (open_at i mem cur)
  open_at-Pending i mem cur h = elim (Bool-cases (not (mem.cb == 0) && not mem.f)) [
    | inl t ↦ rw t (inr (record { sized = omega arith; placed = omega arith }))
    | inr t ↦ rw t (inl refl)
  ]

  Pending_suc :
      {i : ℕ} {cur : Chunk} → Pending (limit + 0x1000) i cur → Pending (limit + 0x1000) (suc i) cur
  Pending_suc (inl e) = inl e
  Pending_suc (inr h) = inr (record { sized = h.sized; placed = omega (arith, h.placed) })

  grown-Pending :
      (i : ℕ) (mem : Mem) (cur : Chunk)
      → IsPage mem
      → (cur.c == 0) ≡ false
      → joins limit cur mem ≡ true
      → Pending (limit + 0x1000) i cur
      → Pending
          (limit + 0x1000)
          (suc i)
          (record cur { c = add32 cur.c 1; cb = add32 cur.cb mem.cb })
  grown-Pending i mem cur h ne j (inl e) = ground arith
  grown-Pending i mem cur h ne j (inr p) =
      let below : cur.cb < limit = ground arith in
      inr (record { sized = omega arith; placed = omega (arith, p.placed) })

  gather-Fits :
      (i n : ℕ) (cur : Chunk) (mems : List Mem)
      → i + length mems ≡ n
      → All IsPage mems
      → Pending (limit + 0x1000) i cur
      → All (Fits (limit + 0x1000) n) (gather limit i cur mems)
  unfolding gather
  gather-Fits i n cur [] e a p = elim (Bool-cases (cur.c == 0)) [
    | inl t ↦ rw t tt
    | inr t ↦ rw t (last p t, tt)
  ]
    where
      last : Pending (limit + 0x1000) i cur → (cur.c == 0) ≡ false → Fits (limit + 0x1000) n cur
      last (inl z) t = ground arith
      last (inr h) t = record { sized = h.sized; placed = omega (arith, h.placed) }
  gather-Fits i n cur (mem ∷ mems) e (page, a) p = elim (Bool-cases (addr_is_valid mem)) [
    | inr bad ↦ rw bad (gather-Fits (suc i) n cur mems (omega arith) a (Pending_suc p))
    | inl good ↦ elim (Bool-cases (cur.c == 0)) [
      | inl none_open ↦
          rw (good, none_open)
            (gather-Fits (suc i) n (open_at i mem cur) mems (omega arith) a
              (open_at-Pending i mem cur page))
      | inr some_open ↦ elim (Bool-cases (joins limit cur mem)) [
        | inl j ↦
            rw (good, some_open, j)
              (gather-Fits (suc i) n _ mems (omega arith) a
                (grown-Pending i mem cur page some_open j p))
        | inr j ↦
            rw (good, some_open, j)
              (
                emitted p some_open,
                gather-Fits (suc i) n (open_at i mem cur) mems (omega arith) a
                    (open_at-Pending i mem cur page),
              )
      ]
    ]
  ]
    where
      emitted : Pending (limit + 0x1000) i cur → (cur.c == 0) ≡ false → Fits (limit + 0x1000) n cur
      emitted (inl z) t = ground arith
      emitted (inr h) t = record { sized = h.sized; placed = omega (arith, h.placed) }

pub chunk_size_limit-le : (cfg : Config) (n : ℕ) → chunk_size_limit cfg n ≤ cfg.cb_chunk_size
chunk_size_limit-le cfg n = ground arith

-- Whatever the addresses and flags of the chunks, a request of chunks of at most a page is read by
-- linear reads that fit the buffer of cbChunkSize + 0x1000 bytes which is allocated for them, and that
-- name only chunks of the request.
pub gather-within :
    (cfg : Config) (mems : List Mem)
    → All IsPage mems
    → All
        (Fits (cfg.cb_chunk_size + 0x1000) (length mems))
        (gather (chunk_size_limit cfg (length mems)) 0 idle mems)
gather-within cfg mems pages =
    let limit = chunk_size_limit cfg (length mems) in
    All-map (gather limit 0 idle mems)
      (λ ch h. record {
        sized = omega (arith, h.sized, chunk_size_limit-le cfg (length mems));
        placed = h.placed;
      })
      (gather-Fits limit 0 (length mems) idle mems (omega arith) pages (inl refl))
