-- ===== src/Transfer/Write.antt =====
-- `LcWrite`: the pages that a write is split into.
use leech_core.Base.{
  ℕ, zero, suc, ◌+◌, ◌-◌, ◌/◌, ◌%◌, ◌≤◌, ◌<◌, ◌≡◌, ◌⊎◌, inl, inr, refl, ap, subst, ◌∙◌, arith, true,
  false, none, some, ◌==◌, List, [], ◌∷◌, length, ltb, min, add32, if◌then◌else◌, dword, qword,
}
use leech_core.MemScatter.{Mem}
use leech_core.Scatter.{Context, write_scatter}
use leech_core.Transfer.{write_pages, lc_write}

-- Chunks that lie one behind the other, from address `a` and buffer `p` on, make up `n` bytes, and
-- none of them is empty, was written or crosses the end of a page.
abbrev pub Splits : ℕ → ℕ → ℕ → List Mem → Type 0
Splits a p n [] = n ≡ 0
Splits a p n (mem ∷ mems) =
    (mem.f ≡ false)
    × (mem.qw_a ≡ a)
    × (mem.pb ≡ p)
    × (0 < mem.cb)
    × (mem.cb ≤ n)
    × (a % 0x1000 + mem.cb ≤ 0x1000)
    × Splits (a + mem.cb) (p + mem.cb) (n - mem.cb) mems

write_pages-Splits :
    (fuel pa cb pb o : ℕ)
    → cb ≤ fuel + o
    → o ≤ cb
    → cb < dword
    → pa + cb ≤ qword
    → Splits (pa + o) (pb + o) (cb - o) (write_pages fuel pa cb pb o)
unfolding write_pages
write_pages-Splits zero pa cb pb o enough lo few ends = omega arith
write_pages-Splits (suc fuel) pa cb pb o enough lo few ends =
    let n = min (0x1000 - (pa + o) % 0x1000) (cb - o) in
    let more : (o < cb) ⊎ (o ≡ cb) = omega arith in
    elim more [
      | inl lt ↦
          let t : ltb o cb ≡ true = ground arith in
          let on : add32 o n ≡ o + n = omega arith in
          let left : cb - o - n ≡ cb - (o + n) = omega arith in
          let at_pa : pa + o + n ≡ pa + (o + n) = omega arith in
          let at_pb : pb + o + n ≡ pb + (o + n) = omega arith in
          rw (t, on)
            (
              refl,
              omega (arith, lt),
              refl,
              omega (arith, lt),
              omega arith,
              omega arith,
              rw (left, at_pa, at_pb)
                  (write_pages-Splits fuel pa cb pb (o + n) (omega (arith, lt)) (omega arith) few
                    ends),
            )
      | inr at ↦ let t : ltb o cb ≡ false = ground arith in rw t (omega arith)
    ]

length-write_pages :
    (fuel pa cb pb o : ℕ)
    → cb ≤ fuel + o
    → o ≤ cb
    → cb < dword
    → length (write_pages fuel pa cb pb o)
      ≡ (if o == cb then 0 else ((pa + o) % 0x1000 + (cb - o) + 0xfff) / 0x1000)
unfolding write_pages
length-write_pages zero pa cb pb o enough lo few = ground arith
length-write_pages (suc fuel) pa cb pb o enough lo few =
    let n = min (0x1000 - (pa + o) % 0x1000) (cb - o) in
    let more : (o < cb) ⊎ (o ≡ cb) = omega arith in
    elim more [
      | inl lt ↦
          let t : ltb o cb ≡ true = ground arith in
          let u : (o == cb) ≡ false = ground arith in
          let on : add32 o n ≡ o + n = omega arith in
          let rest =
            length-write_pages fuel pa cb pb (o + n) (omega (arith, lt)) (omega arith) few in
          let ends : (o + n < cb) ⊎ (o + n ≡ cb) = omega arith in
          elim ends [
            | inl before ↦
                let v : (o + n == cb) ≡ false = ground (arith, before) in
                rw (t, u, on, rest, v) (omega (arith, before, lt))
            | inr end ↦
                let v : (o + n == cb) ≡ true = ground (arith, end) in
                rw (t, u, on, rest, v) (omega (arith, end, lt))
          ]
      | inr at ↦
          let t : ltb o cb ≡ false = ground arith in
          let u : (o == cb) ≡ true = ground arith in rw (t, u) refl
    ]

-- A write of at least one byte, that ends within the address space, hands `LcWriteScatter` chunks
-- that split it in order into parts of pages, as many as it counts, and returns TRUE.
pub lc_write-Splits :
    (ctx : Context) (pa cb pb : ℕ)
    → ctx.is_open ≡ true
    → 0 < cb
    → cb < dword
    → pa + cb ≤ qword
    → Splits pa pb cb (write_pages cb pa cb pb 0)
      × (lc_write ctx true pa cb pb ≡ some (true, write_scatter ctx (write_pages cb pa cb pb 0)))
unfolding lc_write
lc_write-Splits ctx pa cb pb up some_bytes few ends =
    let mems = write_pages cb pa cb pb 0 in
    let split : Splits pa pb cb mems =
      subst (λ c. Splits pa pb c mems) (omega arith)
        (subst (λ b. Splits pa b (cb - 0) mems) (omega arith)
          (subst (λ a. Splits a (pb + 0) (cb - 0) mems) (omega arith)
            (write_pages-Splits cb pa cb pb 0 (omega arith) (omega arith) few ends))) in
    let u : (0 == cb) ≡ false = ground arith in
    let number : length mems ≡ (pa % 0x1000 + cb + 0xfff) / 0x1000 =
      length-write_pages cb pa cb pb 0 (omega arith) (omega arith) few
      ∙ rw u (ap (λ t. t / 0x1000) (omega arith)) in
    let counted : (length mems == (pa % 0x1000 + cb + 0xfff) / 0x1000) ≡ true =
      ground (arith, number) in
    (split, simp (up, counted))

-- A write of no bytes at an address within a page counts one page, sets up none, and hands the
-- pointer NULL on.
pub lc_write_empty :
    (ctx : Context) (pa pb : ℕ)
    → ctx.is_open ≡ true
    → 0 < pa % 0x1000
    → lc_write ctx true pa 0 pb ≡ none
unfolding lc_write write_pages
lc_write_empty ctx pa pb up inside =
    let counted : (0 == (pa % 0x1000 + 0 + 0xfff) / 0x1000) ≡ false = ground arith in
    simp (up, counted)
