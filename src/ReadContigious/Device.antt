-- ===== src/ReadContigious/Device.antt =====
-- Scattered reads over a device that reads all that it is asked for.
use leech_core.Base.{
  ℕ, zero, suc, ◌+◌, ◌-◌, ◌≤◌, ◌<◌, ◌≡◌, refl, ap, arith, true, leb, List, [], ◌∷◌, ◌++◌, map,
  map-take-drop, length, length-map, length-append, take, drop, All, take-append_left,
  drop-append_left, drop-drop_append, append_assoc, dword,
}
use leech_core.MemScatter.{Mem}
use leech_core.ReadContigious.{
  Config, Chunk, Copy, chunk_size_limit, gather, idle, device_read, read_chunk, read_chunks,
  read_scatter_gather,
}
use leech_core.ReadContigious.Plan.{chunk_size_limit-le}
use leech_core.ReadContigious.Exact.{IsWanted, IsRun, Tiles, gather-Tiles}

module _ (phys : ℕ → ℕ) where
  -- The `n` bytes of the device's memory from `pa` on.
  abbrev pub bytes_at : ℕ → ℕ → List ℕ
  bytes_at pa zero = []
  bytes_at pa (suc n) = phys pa ∷ bytes_at (suc pa) n

  -- A chunk that was read, and the copy that the read made.
  abbrev pub done : Mem → Mem
  done mem = record mem { f = true }

  abbrev pub copy_of : Mem → Copy
  copy_of mem = record { dst = mem.pb; bytes = bytes_at mem.qw_a mem.cb }

  pub length-bytes_at : (pa n : ℕ) → length (bytes_at pa n) ≡ n
  length-bytes_at pa zero = refl
  length-bytes_at pa (suc n) = ap suc (length-bytes_at (suc pa) n)

  pub take-bytes_at : (k pa n : ℕ) → k ≤ n → take k (bytes_at pa n) ≡ bytes_at pa k
  take-bytes_at zero pa n h = refl
  take-bytes_at (suc k) pa zero h = absurd (omega arith)
  take-bytes_at (suc k) pa (suc n) h =
      ap (λ r. phys pa ∷ r) (take-bytes_at k (suc pa) n (omega arith))

  pub drop-bytes_at : (k pa n : ℕ) → k ≤ n → drop k (bytes_at pa n) ≡ bytes_at (pa + k) (n - k)
  drop-bytes_at zero pa n h =
      let p : pa + 0 ≡ pa = omega arith in let q : n - 0 ≡ n = omega arith in rw (p, q)
  drop-bytes_at (suc k) pa zero h = absurd (omega arith)
  drop-bytes_at (suc k) pa (suc n) h =
      let p : pa + suc k ≡ suc pa + k = omega arith in
      let q : suc n - suc k ≡ n - k = omega arith in
      rw (p, q) (drop-bytes_at k (suc pa) n (omega arith))

  -- The bytes of a run fill its chunks, each with its own bytes.
  pub device_read-IsRun :
      (pa cb : ℕ) (mems : List Mem)
      → IsRun pa cb mems
      → device_read mems (bytes_at pa cb) ≡ (map done mems, map copy_of mems)
  unfolding device_read
  device_read-IsRun pa cb [] e = refl
  device_read-IsRun pa cb (mem ∷ mems) (at, le, run) =
      let enough : leb mem.cb (length (bytes_at pa cb)) ≡ true =
        ground (arith, length-bytes_at pa cb) in
      rw (
        enough,
        drop-bytes_at mem.cb pa cb le,
        take-bytes_at mem.cb pa cb le,
        device_read-IsRun (pa + mem.cb) (cb - mem.cb) mems run,
        at,
      )

  module _ (device : ℕ → ℕ → List ℕ) (reads : (pa cb : ℕ) → device pa cb ≡ bytes_at pa cb) where
    -- One read of a run changes its chunks and no others.
    read_chunk-IsRun :
        (ch : Chunk) (pre mems : List Mem)
        → ch.i_base ≡ length pre
        → IsRun ch.pa_base ch.cb (take ch.c mems)
        → read_chunk device ch (pre ++ mems)
          ≡ ((pre ++ map done (take ch.c mems)) ++ drop ch.c mems, map copy_of (take ch.c mems))
    unfolding read_chunk
    read_chunk-IsRun ch pre mems at run = rw (
      at,
      take-append_left (length pre) pre mems refl,
      drop-append_left (length pre) pre mems refl,
      drop-drop_append (length pre) ch.c pre mems refl,
      reads,
      device_read-IsRun ch.pa_base ch.cb (take ch.c mems) run,
      append_assoc,
    )

    read_chunks-Tiles :
        (chs : List Chunk) (pre mems : List Mem)
        → Tiles (length pre) chs mems
        → read_chunks device chs (pre ++ mems) ≡ (pre ++ map done mems, map copy_of mems)
    unfolding read_chunks
    read_chunks-Tiles [] pre mems e = rw e
    read_chunks-Tiles (ch ∷ chs) pre mems (at, n, run, t) =
        let first = take ch.c mems in
        let rest = drop ch.c mems in
        let size : length (pre ++ map done first) ≡ length pre + ch.c =
          omega (arith, length-append pre (map done first), length-map first done, n) in
        rw (
          read_chunk-IsRun ch pre mems at run,
          read_chunks-Tiles chs (pre ++ map done first) rest (rw size t),
          append_assoc,
          map-take-drop done ch.c mems,
          map-take-drop copy_of ch.c mems,
        )

    -- On an active subsystem, a request of unread chunks with valid addresses (fewer than 2 ^ 32, each
    -- of at most a page) is read in full by a device that reads all that it is asked for: every chunk
    -- is marked as read and keeps its other fields, and its buffer is filled, once, with the bytes of
    -- the device's memory at its address.
    pub read_scatter_gather_complete :
        (cfg : Config) (mems : List Mem)
        → cfg.f_active ≡ true
        → cfg.cb_chunk_size ≤ 0x0100_0000
        → length mems < dword
        → All IsWanted mems
        → read_scatter_gather device cfg mems ≡ (map done mems, map copy_of mems)
    unfolding read_scatter_gather
    read_scatter_gather_complete cfg mems active small few wanted =
        let limit = chunk_size_limit cfg (length mems) in
        let t =
          gather-Tiles limit (omega (arith, chunk_size_limit-le cfg (length mems))) idle mems refl
            few wanted in
        rw active (read_chunks-Tiles (gather limit 0 idle mems) [] mems t)
