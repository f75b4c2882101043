-- ===== src/Transfer/Device.antt =====
-- `LcRead` on a device with linear reads, down to the bytes of the device's memory.
use leech_core.Base.{
  ℕ, zero, suc, ◌+◌, ◌-◌, ◌≡◌, ◌≤◌, ◌<◌, refl, ◌∙◌, ap, sym, arith, true, none, List, ◌∷◌, map,
  length, All, All₂, tabulate, length-tabulate, tabulate-same, All₂-tabulate, subst, map-tabulate,
  All-tabulate, dword,
}
use leech_core.Base.Memory.{Memory, load, load-ext}
use leech_core.MemScatter.{Mem, stack_push, stack_pop}
use leech_core.MemMap.{Entry, entry}
use leech_core.MemMap.Translate.{shift}
use leech_core.ReadContigious.Exact.{IsWanted}
use leech_core.ReadContigious.Device.{bytes_at, done, copy_of, read_scatter_gather_complete}
use leech_core.Scatter.{Context, read_scatter, fetch, read_local, restore}
use leech_core.Transfer.{ReadCall, c_mems, lc_read}
use leech_core.Transfer.Buffers.{Fits, c_mems-bounds, IsLaidOut}
use leech_core.Transfer.Pages.{page}
use leech_core.Transfer.Mapped.{
  IsMapped, shift-add, moved, shift-page, shift-page_start, translated-pages,
}
use leech_core.Transfer.Parts.{fill, IsRead}
use leech_core.Transfer.Read.{IsFaithful, lc_read_lem}

-- An open handle whose device reads linearly all that it is asked for.
pub record IsLinear (ctx : Context) (phys : Memory) : Type 0 where
  pub up : ctx.is_open ≡ true
  pub no_scatter : ctx.device.read_scatter ≡ none
  pub active : ctx.read_config.f_active ≡ true
  pub limit : ctx.read_config.cb_chunk_size ≤ 0x0100_0000
  pub reads : (pa cb : ℕ) → ctx.device.read_contigious pa cb ≡ load pa cb phys

bytes_at-load : (phys : Memory) (pa n : ℕ) → bytes_at phys pa n ≡ load pa n phys
unfolding load
bytes_at-load phys pa zero = refl
bytes_at-load phys pa (suc n) = ap (λ t. phys pa ∷ t) (bytes_at-load phys (suc pa) n)

module _ (ctx : Context) (phys : Memory) (r : ReadCall) (i : ℕ) (linear : IsLinear ctx phys)
    (fits : Fits r) (mapped : IsMapped ctx.mem_map r i) where
  abbrev place : Entry
  place = entry ctx.mem_map i

  -- The memory of the device as the addresses of the handle name it.
  abbrev pub seen : Memory
  seen a = phys (shift place a)

  -- The chunk of a page as the device gets it.
  abbrev at_place : ℕ → Mem
  at_place = moved ctx.mem_map r i mapped

  moved-IsWanted : All IsWanted (tabulate at_place 0 (c_mems r))
  unfolding stack_push
  moved-IsWanted = All-tabulate IsWanted at_place 0 (c_mems r) (λ j lo hi.
      let at = shift-page_start ctx.mem_map r i mapped j (omega (arith, hi)) in
      record {
        unread = refl;
        some_bytes = omega arith;
        page = omega arith;
        ends = omega (arith, at, mapped.starts, mapped.ends, mapped.place_ends, hi);
      })

  abbrev moved_pages : List Mem
  moved_pages = tabulate at_place 0 (c_mems r)

  fetched : fetch ctx moved_pages ≡ (map (done phys) moved_pages, map (copy_of phys) moved_pages)
  unfolding fetch
  fetched =
      let reads : (pa cb : ℕ) → ctx.device.read_contigious pa cb ≡ bytes_at phys pa cb =
        λ pa cb. linear.reads pa cb ∙ sym (bytes_at-load phys pa cb) in
      let few : length moved_pages < dword =
        omega (arith, length-tabulate at_place 0 (c_mems r), c_mems-bounds r fits) in
      simp (fetch, linear.no_scatter)
        (read_scatter_gather_complete phys ctx.device.read_contigious reads ctx.read_config
          moved_pages linear.active linear.limit few moved-IsWanted)

  read_scatter-pages :
      read_scatter ctx (tabulate (page r) 0 (c_mems r))
      ≡ (map restore (map (done phys) moved_pages), map (copy_of phys) moved_pages)
  unfolding read_scatter read_local
  read_scatter-pages =
      simp
        (linear.up, linear.no_scatter, read_local, translated-pages ctx.mem_map r i mapped, fetched)

  restored : (j : ℕ) → IsRead (page r j) (restore (done phys (at_place j)))
  unfolding stack_push stack_pop
  restored j = (refl, refl, refl)

  -- The bytes of a page, read at the page's place in the device.
  page_bytes :
      (j : ℕ)
      → j < c_mems r
      → bytes_at phys (shift place (page r j).qw_a) 0x1000 ≡ load (page r j).qw_a 0x1000 seen
  page_bytes j lt =
      bytes_at-load phys (shift place (page r j).qw_a) 0x1000
      ∙ load-ext (shift place (page r j).qw_a) (page r j).qw_a 0x1000 phys seen (λ k small.
        ap phys (
          ap (λ a. a + k) (shift-page_start ctx.mem_map r i mapped j lt)
          ∙ sym (shift-page ctx.mem_map r i mapped j k lt (omega (arith, small)))))

  same_copies :
      tabulate (λ j. copy_of phys (at_place j)) 0 (c_mems r)
      ≡ tabulate (λ j. fill seen (page r j)) 0 (c_mems r)
  unfolding stack_push
  same_copies =
      tabulate-same (λ j. copy_of phys (at_place j)) (λ j. fill seen (page r j)) 0 (c_mems r)
        (λ j lo hi.
          ap (λ b. record { dst = (page r j).pb; bytes = b }) (page_bytes j (omega (arith, hi))))

  pub linear-IsFaithful : IsFaithful ctx seen (tabulate (page r) 0 (c_mems r))
  linear-IsFaithful = record {
    copies =
        ap (λ t. t.1) read_scatter-pages
        ∙ map-tabulate (copy_of phys) at_place 0 (c_mems r)
        ∙ same_copies
        ∙ sym (map-tabulate (fill seen) (page r) 0 (c_mems r));
    answers =
        subst (All₂ IsRead (tabulate (page r) 0 (c_mems r)))
          (sym (
            ap (λ t. t.0) read_scatter-pages
            ∙ ap (map restore) (map-tabulate (done phys) at_place 0 (c_mems r))
            ∙ map-tabulate restore (λ j. done phys (at_place j)) 0 (c_mems r)))
          (All₂-tabulate IsRead (page r) (λ j. restore (done phys (at_place j))) 0 (c_mems r)
            restored);
  }

  -- A request that fits, all of whose pages lie in one range of a valid memory map, on an open handle
  -- whose device reads linearly all that it is asked for, into buffers that do not overlap: the read
  -- returns TRUE, and the caller's buffer then holds the bytes of the device from the place on to which
  -- the range moves the address.
  pub lc_read_device :
      (m : Memory)
      → IsLaidOut r
      → ((lc_read ctx true r m).0 ≡ true)
        × (load r.pb r.cb (lc_read ctx true r m).1
            ≡ load (shift (entry ctx.mem_map i) r.pa) r.cb phys)
  lc_read_device m laid =
      let (ok, bytes) = lc_read_lem ctx r linear.up fits seen laid m linear-IsFaithful in
      let words = mapped.valid.within i mapped.inside in
      let at : (k : ℕ)
          → k ≤ r.cb
          → shift place (r.pa + k) ≡ place.pa_remap + (r.pa - place.pa) + k =
        λ k le.
          shift-add place r.pa k (omega (arith, mapped.starts)) (omega (arith, mapped.ends, le))
            words mapped.place_ends in
      let none_more : r.pa ≡ r.pa + 0 = omega arith in
      let start : shift place r.pa ≡ place.pa_remap + (r.pa - place.pa) =
        ap (shift place) none_more ∙ at 0 (omega arith) ∙ omega arith in
      (
        ok,
        bytes
            ∙ load-ext r.pa (shift place r.pa) r.cb seen phys
                (λ k small. ap phys (at k (omega (arith, small)) ∙ sym (ap (λ a. a + k) start))),
      )
