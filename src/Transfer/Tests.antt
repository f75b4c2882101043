-- ===== src/Transfer/Tests.antt =====
-- Linear transfers at concrete inputs.
use leech_core.Base.{
  ℕ, zero, suc, ◌<◌, ◌%◌, ◌≡◌, ◌↔◌, refl, arith, true, false, none, some, List, [], ◌∷◌, All, inl,
  inr, tabulate, get_or,
}
use leech_core.Base.Memory.{Memory, load}
use leech_core.MemScatter.{Mem, stack_push, stack_pop}
use leech_core.MemMap.{MemMap, entry, create, add_range, store_range}
use leech_core.MemMap.Order.{IsValid}
use leech_core.MemMap.Add.{add_range-IsValid}
use leech_core.MemMap.Translate.{shift, translate_mems}
use leech_core.Scatter.{Context, zero_mem, read_scatter, read_local, fetch, write_scatter}
use leech_core.Transfer.{ReadCall, own_buffer, lc_read, lc_write, write_pages, c_mems}
use leech_core.Transfer.Buffers.{Fits, IsLaidOut}
use leech_core.Transfer.Pages.{page}
use leech_core.Transfer.Read.{lc_read_lem, lc_read-true}
use leech_core.Transfer.Frame.{IsOutside, IsContained, lc_read-out}
use leech_core.Transfer.Mapped.{IsMapped}
use leech_core.Transfer.Device.{IsLinear, seen, linear-IsFaithful, lc_read_device}
use leech_core.Transfer.Write.{Splits, lc_write-Splits, lc_write_empty}

abbrev physical : Memory
physical a = a % 256

-- Low memory, and the rest above a hole, which is stored right behind it.
abbrev low_map : MemMap
low_map = (add_range true create 0 0xa_0000 0).1

abbrev two_ranges : MemMap
two_ranges = (add_range true low_map 0x10_0000 0x20_0000 0xa_0000).1

abbrev handle : Context
handle = record {
  is_open = true;
  f_remote = false;
  mem_map = two_ranges;
  read_config = record {
    c_thread = 1;
    cb_chunk_size = 0x0100_0000;
    f_load_balance = false;
    f_active = true;
  };
  device = record {
    read_scatter = none;
    read_contigious = λ pa cb. load pa cb physical;
    write_scatter = none;
    write_contigious = some (λ pa cb pb. true);
  };
}

handle-IsLinear : IsLinear handle physical
handle-IsLinear = record {
  up = refl;
  no_scatter = refl;
  active = refl;
  limit = omega arith;
  reads = λ pa cb. refl;
}

-- The end of one page, a whole page and the start of a third.
abbrev call : ReadCall
call = record { pa = 0x10_1ffe; cb = 0x1004; pb = 0; pb_first = 0x0010_0000; pb_last = 0x0020_0000 }

call-Fits : Fits call
call-Fits = record { some_bytes = omega arith; words = omega arith; ends = omega arith }

call-IsLaidOut : IsLaidOut call
call-IsLaidOut = record {
  first_last = inl (omega arith);
  first_pb = inr (omega arith);
  last_pb = inr (omega arith);
}

abbrev nothing : Memory
nothing a = 0

no_ranges : IsValid create
no_ranges = record {
  fits = omega arith;
  room = refl;
  some_room = omega arith;
  limit = omega arith;
  ascending = λ i h. absurd (omega arith);
  within = λ i h. absurd (omega arith);
  paged = λ i h. absurd (omega arith);
}

low_map-IsValid : IsValid low_map
low_map-IsValid = (add_range-IsValid true no_ranges 0 0xa_0000 0 (omega arith)).0

call-IsMapped : IsMapped two_ranges call 1
unfolding add_range store_range
call-IsMapped = record {
  valid = (add_range-IsValid true low_map-IsValid 0x10_0000 0x20_0000 0xa_0000 (omega arith)).0;
  inside = omega arith;
  starts = omega arith;
  ends = omega arith;
  place_ends = omega arith;
}

lc_read_device_example :
    ((lc_read handle true call nothing).0 ≡ true)
    × (load call.pb call.cb (lc_read handle true call nothing).1
        ≡ load (shift (entry two_ranges 1) call.pa) call.cb physical)
lc_read_device_example =
    lc_read_device handle physical call 1 handle-IsLinear call-Fits call-IsMapped nothing
      call-IsLaidOut

-- The place of the request in the device.
call_place : shift (entry two_ranges 1) call.pa ≡ 0xa_1ffe
unfolding add_range store_range
call_place = refl

lc_read_lem_example :
    ((lc_read handle true call nothing).0 ≡ true)
    × (load call.pb call.cb (lc_read handle true call nothing).1
        ≡ load call.pa call.cb
            (seen handle physical call 1 handle-IsLinear call-Fits call-IsMapped))
lc_read_lem_example =
    lc_read_lem handle call refl call-Fits
      (seen handle physical call 1 handle-IsLinear call-Fits call-IsMapped) call-IsLaidOut nothing
      (linear-IsFaithful handle physical call 1 handle-IsLinear call-Fits call-IsMapped)

-- A device of its own scattered read that gets three bytes of the first page and marks that page.
abbrev first_only : List Mem → List Mem
first_only [] = []
first_only (mem ∷ mems) = record mem { f = true } ∷ mems

abbrev partial : Context
partial = record handle {
  mem_map = create;
  device = record {
    read_scatter =
        some
          (λ mems. (first_only mems, record { dst = call.pb_first; bytes = 7 ∷ 8 ∷ 9 ∷ [] } ∷ []));
    read_contigious = λ pa cb. [];
    write_scatter = none;
    write_contigious = none;
  };
}

lc_read-true_example :
    ((lc_read partial true call nothing).0 ≡ true)
    ↔ All (λ mem. mem.f ≡ true) (read_scatter partial (tabulate (page call) 0 (c_mems call))).0
lc_read-true_example = lc_read-true partial call refl call-Fits nothing

partial_places :
    (i : ℕ)
    → i < 3
    → ((get_or (read_scatter partial (tabulate (page call) 0 3)).0 i zero_mem).qw_a
        ≡ (page call i).qw_a)
      × ((get_or (read_scatter partial (tabulate (page call) 0 3)).0 i zero_mem).pb
          ≡ (page call i).pb)
unfolding read_scatter read_local fetch translate_mems stack_push stack_pop own_buffer
partial_places zero lt = (refl, refl)
partial_places (suc zero) lt = (refl, refl)
partial_places (suc (suc zero)) lt = (refl, refl)
partial_places (suc (suc (suc i))) lt = absurd (omega arith)

partial-IsContained :
    IsContained call
      (read_scatter partial (tabulate (page call) 0 (c_mems call))).0
      (read_scatter partial (tabulate (page call) 0 (c_mems call))).1
unfolding read_scatter read_local fetch own_buffer
partial-IsContained = record {
  inside = ((0, omega arith, omega arith, omega arith), tt);
  places = partial_places;
}

outside : IsOutside call 0x0030_0000
outside = record { first = inr (omega arith); last = inr (omega arith); pb = inr (omega arith) }

lc_read-out_example : (lc_read partial true call nothing).1 0x0030_0000 ≡ 0
lc_read-out_example =
    lc_read-out partial call nothing 0x0030_0000 refl call-Fits call-IsLaidOut partial-IsContained
      outside

lc_write-Splits_example :
    Splits 0x1ffe 0 4 (write_pages 4 0x1ffe 4 0 0)
    × (lc_write handle true 0x1ffe 4 0
        ≡ some (true, write_scatter handle (write_pages 4 0x1ffe 4 0 0)))
lc_write-Splits_example =
    lc_write-Splits handle 0x1ffe 4 0 refl (omega arith) (omega arith) (omega arith)

lc_write_empty_example : lc_write handle true 1 0 0 ≡ none
lc_write_empty_example = lc_write_empty handle 1 0 refl (omega arith)
