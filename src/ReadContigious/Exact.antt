-- ===== src/ReadContigious/Exact.antt =====
-- `LcReadContigious_ReadScatterGather` on a request whose chunks all have a valid address and are still
-- to be read: the reads split the request, in order, into runs of adjacent chunks.
use leech_core.Base.{
  ℕ, suc, ◌+◌, ◌-◌, ◌≤◌, ◌<◌, ◌≡◌, inl, inr, refl, ap, arith, Bool-cases, true, false, not, ◌&&◌,
  ◌==◌, List, [], ◌∷◌, ◌++◌, length, length-append, take, drop, All, add32, take-append_left,
  drop-append_left, append_assoc, qword, dword,
}
use leech_core.MemScatter.{Mem, addr_is_valid}
use leech_core.ReadContigious.{Chunk, open_at, joins, gather}

-- A chunk that is to be read: it has bytes, at most a page of them, within the address space.
pub record IsWanted (mem : Mem) : Type 0 where
  pub unread : mem.f ≡ false
  pub some_bytes : 0 < mem.cb
  pub page : mem.cb ≤ 0x1000
  pub ends : mem.qw_a + mem.cb < qword

-- The chunks lie one behind the other from `pa` on, and make up `cb` bytes.
abbrev pub IsRun : ℕ → ℕ → List Mem → Type 0
IsRun pa cb [] = cb ≡ 0
IsRun pa cb (mem ∷ mems) = (mem.qw_a ≡ pa) × (mem.cb ≤ cb) × IsRun (pa + mem.cb) (cb - mem.cb) mems

-- The reads cover the chunks from index `i` on, in order, and each reads one run.
abbrev pub Tiles : ℕ → List Chunk → List Mem → Type 0
Tiles i [] mems = mems ≡ []
Tiles i (ch ∷ chs) mems =
    (ch.i_base ≡ i)
    × (length (take ch.c mems) ≡ ch.c)
    × IsRun ch.pa_base ch.cb (take ch.c mems)
    × Tiles (i + ch.c) chs (drop ch.c mems)

IsRun-append :
    (pa cb : ℕ) (mems : List Mem) (mem : Mem)
    → IsRun pa cb mems
    → mem.qw_a ≡ pa + cb
    → IsRun pa (cb + mem.cb) (mems ++ (mem ∷ []))
IsRun-append pa cb [] mem e at = (omega arith, omega arith, omega arith)
IsRun-append pa cb (x ∷ mems) mem (e, le, run) at =
    let less : cb + mem.cb - x.cb ≡ cb - x.cb + mem.cb = omega arith in
    (e, omega arith, rw less (IsRun-append (pa + x.cb) (cb - x.cb) mems mem run (omega arith)))

-- What is known of the read that is being gathered: `seen` are its chunks.
record Gathered (limit i : ℕ) (cur : Chunk) (seen : List Mem) : Type 0 where
  count : length seen ≡ cur.c
  some_seen : 0 < cur.c
  place : cur.i_base + cur.c ≡ i
  run : IsRun cur.pa_base cur.cb seen
  sized : cur.cb ≤ limit + 0x1000
  ends : cur.pa_base + cur.cb < qword

module _ (limit : ℕ) (small : limit ≤ 0x0100_0000) where
  emit :
      {i : ℕ} (cur : Chunk) (seen mems : List Mem) (chs : List Chunk)
      → Gathered limit i cur seen
      → Tiles i chs mems
      → Tiles cur.i_base (cur ∷ chs) (seen ++ mems)
  emit cur seen mems chs g t =
      let first = take-append_left cur.c seen mems g.count in
      let rest = drop-append_left cur.c seen mems g.count in
      (refl, rw first g.count, rw first g.run, rw (rest, g.place) t)

  open_at-Gathered :
      (i : ℕ) (mem : Mem) (cur : Chunk)
      → IsWanted mem
      → (open_at i mem cur ≡ record { i_base = i; c = 1; pa_base = mem.qw_a; cb = mem.cb })
        × Gathered limit (suc i) (open_at i mem cur) (mem ∷ [])
  open_at-Gathered i mem cur w =
      let t : (not (mem.cb == 0) && not mem.f) ≡ true = ground (arith, w.unread, w.some_bytes) in
      rw t (
        refl,
        record {
          count = refl;
          some_seen = omega arith;
          place = omega arith;
          run = omega arith;
          sized = omega (arith, w.page);
          ends = w.ends;
        },
      )

  grown-Gathered :
      (i : ℕ) (mem : Mem) (cur : Chunk) (seen : List Mem)
      → IsWanted mem
      → suc i < dword
      → joins limit cur mem ≡ true
      → Gathered limit i cur seen
      → Gathered limit
          (suc i)
          (record cur { c = add32 cur.c 1; cb = add32 cur.cb mem.cb })
          (seen ++ (mem ∷ []))
  grown-Gathered i mem cur seen w few j g =
      let at : mem.qw_a ≡ cur.pa_base + cur.cb = ground (arith, g.ends) in
      let below : cur.cb < limit = ground arith in
      let sum : add32 cur.cb mem.cb ≡ cur.cb + mem.cb = omega (arith, w.page) in
      record {
        count = omega (arith, length-append seen (mem ∷ []), g.count);
        some_seen = omega arith;
        place = omega (arith, g.place);
        run = rw sum (IsRun-append cur.pa_base cur.cb seen mem g.run at);
        sized = omega (arith, w.page);
        ends = omega (arith, w.ends, w.page);
      }

  gather_open-Tiles :
      (i : ℕ) (cur : Chunk) (seen mems : List Mem)
      → Gathered limit i cur seen
      → i + length mems < dword
      → All IsWanted mems
      → Tiles cur.i_base (gather limit i cur mems) (seen ++ mems)
  unfolding gather
  gather_open-Tiles i cur seen [] g few a =
      let opened : (cur.c == 0) ≡ false = ground (arith, g.some_seen) in
      rw opened (emit cur seen [] [] g refl)
  gather_open-Tiles i cur seen (mem ∷ mems) g few (w, a) =
      let good : addr_is_valid mem ≡ true = ground (arith, w.ends, w.some_bytes) in
      let opened : (cur.c == 0) ≡ false = ground (arith, g.some_seen) in
      elim (Bool-cases (joins limit cur mem)) [
        | inl j ↦
            rw (good, opened, j)
              (rw append_assoc at (
                gather_open-Tiles (suc i) _ (seen ++ (mem ∷ [])) mems
                  (grown-Gathered i mem cur seen w (omega arith) j g) (omega arith) a))
        | inr j ↦
            let (fresh, started) = open_at-Gathered i mem cur w in
            rw (good, opened, j)
              (emit cur seen (mem ∷ mems) _ g (
                rw (ap (λ (ch : Chunk). ch.i_base) fresh) at (
                  gather_open-Tiles (suc i) (open_at i mem cur) (mem ∷ []) mems started
                    (omega arith) a)))
      ]

  -- On a request of unread chunks with valid addresses, the scheduled reads cover it in order, each
  -- read being one run of adjacent chunks.
  pub gather-Tiles :
      (cur : Chunk) (mems : List Mem)
      → cur.c ≡ 0
      → length mems < dword
      → All IsWanted mems
      → Tiles 0 (gather limit 0 cur mems) mems
  unfolding gather
  gather-Tiles cur [] e few a = ground arith
  gather-Tiles cur (mem ∷ mems) e few (w, a) =
      let good : addr_is_valid mem ≡ true = ground (arith, w.ends, w.some_bytes) in
      let closed : (cur.c == 0) ≡ true = ground arith in
      let (fresh, started) = open_at-Gathered 0 mem cur w in
      rw (good, closed)
        (rw (ap (λ (ch : Chunk). ch.i_base) fresh) at
          (gather_open-Tiles 1 (open_at 0 mem cur) (mem ∷ []) mems started (omega arith) a))
