-- ===== src/ReadContigious/Tests.antt =====
-- The ReadContigious subsystem at concrete inputs.
use leech_core.Base.{
  ℕ, ◌+◌, ◌≡◌, refl, arith, true, false, List, [], ◌∷◌, map, qword_max, qword, ◌<◌, All,
}
use leech_core.MemScatter.{Mem}
use leech_core.ReadContigious.{Config, gather, idle, chunk_size_limit, read_scatter_gather}
use leech_core.ReadContigious.Plan.{Fits, gather-within}
use leech_core.ReadContigious.Exact.{IsWanted, Tiles, gather-Tiles}
use leech_core.ReadContigious.Device.{bytes_at, done, copy_of, read_scatter_gather_complete}
use leech_core.ReadContigious.Hole.{read_scatter_gather-hole}

abbrev one_thread : Config
one_thread = record {
  c_thread = 1;
  cb_chunk_size = 0x0100_0000;
  f_load_balance = false;
  f_active = true;
}

abbrev chunk_at : ℕ → ℕ → Mem
chunk_at qw_a pb = record { f = false; qw_a = qw_a; cb = 8; pb = pb; i_stack = 0; v_stack = [] }

-- Two adjacent chunks and one apart.
abbrev request : List Mem
request = chunk_at 0x1000 0 ∷ chunk_at 0x1008 8 ∷ chunk_at 0x4000 16 ∷ []

abbrev hole : Mem
hole = chunk_at qword_max 8

-- A device whose memory holds at each address the address's last byte and no more.
abbrev memory : ℕ → ℕ
memory pa = pa

abbrev device : ℕ → ℕ → List ℕ
device pa cb = bytes_at memory pa cb

request_is_two_reads :
    gather 0x0100_0000 0 idle request
    ≡ record { i_base = 0; c = 2; pa_base = 0x1000; cb = 16 }
      ∷ record { i_base = 2; c = 1; pa_base = 0x4000; cb = 8 }
      ∷ []
unfolding gather
request_is_two_reads = refl

gather-within_example :
    All (Fits 0x0100_1000 3) (gather (chunk_size_limit one_thread 3) 0 idle request)
gather-within_example = gather-within one_thread request (omega arith)

chunk_at-IsWanted : (qw_a pb : ℕ) → qw_a + 8 < qword → IsWanted (chunk_at qw_a pb)
chunk_at-IsWanted qw_a pb h = record {
  unread = refl;
  some_bytes = omega arith;
  page = omega arith;
  ends = h;
}

wanted : All IsWanted request
wanted = (
  chunk_at-IsWanted 0x1000 0 (omega arith),
  (chunk_at-IsWanted 0x1008 8 (omega arith), (chunk_at-IsWanted 0x4000 16 (omega arith), tt)),
)

gather-Tiles_example : Tiles 0 (gather 0x1000 0 idle request) request
gather-Tiles_example = gather-Tiles 0x1000 (omega arith) idle request refl (omega arith) wanted

read_scatter_gather_complete_example :
    read_scatter_gather device one_thread request
    ≡ (map (done memory) request, map (copy_of memory) request)
read_scatter_gather_complete_example =
    read_scatter_gather_complete memory device (λ pa cb. refl) one_thread request refl (omega arith)
      (omega arith) wanted

read_scatter_gather-hole_example :
    read_scatter_gather device one_thread (chunk_at 0x1000 0 ∷ hole ∷ chunk_at 0x1008 16 ∷ []) ≡ (
      record (chunk_at 0x1000 0) { f = true } ∷ record hole { f = true } ∷ chunk_at 0x1008 16 ∷ [],
      record { dst = 0; bytes = bytes_at memory 0x1000 8 }
          ∷ record { dst = 8; bytes = bytes_at memory 0x1008 8 }
          ∷ [],
    )
read_scatter_gather-hole_example =
    read_scatter_gather-hole memory device one_thread (λ pa cb. refl) refl refl (omega arith)
      (record {
        first = chunk_at-IsWanted 0x1000 0 (omega arith);
        invalid = refl;
        last = chunk_at-IsWanted 0x1008 16 (omega arith);
        adjacent = refl;
        same_size = refl;
      })
