-- ===== src/Transfer/Buffers.antt =====
-- Where `LcRead` has each page of its request read to.
use leech_core.Base.{
  ℕ, ◌+◌, ◌-◌, ◌*◌, ◌%◌, ◌≤◌, ◌<◌, ◌≡◌, ◌≢◌, ◌⊎◌, inl, inr, ◌∙◌, ap, sym, arith, Bool-cases, true,
  false, Option, none, some, if◌then◌else◌, sub32, dword, qword,
}
use leech_core.Transfer.{ReadCall, offset, c_mems, f_first, f_last, own_buffer}

-- A request that a DWORD counts, with its last page, and that ends before the address space does.
pub record Fits (r : ReadCall) : Type 0 where
  pub some_bytes : 0 < r.cb
  pub words : offset r.pa + r.cb + 0xfff < dword
  pub ends : r.pa + r.cb + 0xfff < qword

-- The three buffers do not overlap.
pub record IsLaidOut (r : ReadCall) : Type 0 where
  pub first_last : (r.pb_first + 0x1000 ≤ r.pb_last) ⊎ (r.pb_last + 0x1000 ≤ r.pb_first)
  pub first_pb : (r.pb_first + 0x1000 ≤ r.pb) ⊎ (r.pb + r.cb ≤ r.pb_first)
  pub last_pb : (r.pb_last + 0x1000 ≤ r.pb) ⊎ (r.pb + r.cb ≤ r.pb_last)

abbrev pub own : ReadCall → ℕ → Option ℕ
own r i =
    own_buffer (if f_first r then some r.pb_first else none)
      (if f_last r then some r.pb_last else none) (c_mems r) i

-- The buffer of page `i`: one of the two on the stack, or the part of the caller's that it fills.
abbrev pub buffer_of : ReadCall → ℕ → Option ℕ → ℕ
buffer_of r i o = elim o [ some p ↦ p | none ↦ r.pb + i * 0x1000 - offset r.pa ]

abbrev pub page_buffer : ReadCall → ℕ → ℕ
page_buffer r i = buffer_of r i (own r i)

module _ (r : ReadCall) (fits : Fits r) where
  pub c_mems-bounds : (0 < c_mems r) × (c_mems r * 0x1000 < dword)
  c_mems-bounds = (omega (arith, fits.some_bytes), omega (arith, fits.words))

  pub f_first-true : f_first r ≡ true → (0 < offset r.pa) ⊎ (c_mems r ≡ 1)
  f_first-true e =
      let short : (0 < offset r.pa) ⊎ (r.cb < 0x1000) = ground arith in
      elim short [ inl h ↦ inl h | inr h ↦ omega (arith, h, fits.some_bytes) ]

  pub f_first-false : f_first r ≡ false → (offset r.pa ≡ 0) × (0x1000 ≤ r.cb)
  f_first-false e = ground arith

  pub f_last-true : f_last r ≡ true → (1 < c_mems r) × (0 < (r.pa + r.cb) % 0x1000)
  f_last-true e = ground arith

  pub f_last-false : f_last r ≡ false → (c_mems r ≤ 1) ⊎ ((r.pa + r.cb) % 0x1000 ≡ 0)
  f_last-false e = ground arith

  -- The three kinds of pages.
  pub own-cases :
      (i : ℕ)
      → i < c_mems r
      → ((own r i ≡ some r.pb_first) × (f_first r ≡ true) × (i ≡ 0))
        ⊎ (((own r i ≡ some r.pb_last) × (f_last r ≡ true) × (i + 1 ≡ c_mems r))
            ⊎ ((own r i ≡ none)
                × ((f_first r ≡ false) ⊎ (i ≢ 0))
                × ((f_last r ≡ false) ⊎ (i + 1 ≢ c_mems r))))
  unfolding own_buffer
  own-cases i lt =
      let last_index : sub32 (c_mems r) 1 + 1 ≡ c_mems r = omega (arith, lt, c_mems-bounds) in
      elim (Bool-cases (f_first r)) [
        | inl b ↦ elim (Bool-cases (f_last r)) [
          | inl c ↦ rw (b, c) (ground arith)
          | inr c ↦ rw (b, c) (ground arith)
        ]
        | inr b ↦ elim (Bool-cases (f_last r)) [
          | inl c ↦ rw (b, c) (ground arith)
          | inr c ↦ rw (b, c) (ground arith)
        ]
      ]

  -- A page of the caller's buffer lies within it.
  pub page_buffer-cases :
      (i : ℕ)
      → i < c_mems r
      → ((page_buffer r i ≡ r.pb_first) × (f_first r ≡ true) × (i ≡ 0))
        ⊎ (((page_buffer r i ≡ r.pb_last) × (f_last r ≡ true) × (i + 1 ≡ c_mems r))
            ⊎ ((page_buffer r i ≡ r.pb + i * 0x1000 - offset r.pa)
                × (offset r.pa ≤ i * 0x1000)
                × (i * 0x1000 + 0x1000 ≤ offset r.pa + r.cb)))
  page_buffer-cases i lt = elim (own-cases i lt) [
    | inl (e, b, at) ↦ inl (ap (buffer_of r i) e, b, at)
    | inr (inl (e, b, at)) ↦ inr (inl (ap (buffer_of r i) e, b, at))
    | inr (inr (e, no_first, no_last)) ↦ inr (
        inr (
          ap (buffer_of r i) e,
          elim no_first [ inl b ↦ omega (arith, f_first-false b) | inr ne ↦ omega arith ],
          elim no_last [
            | inl c ↦ elim (f_last-false c) [
              | inl one ↦ elim no_first [
                | inl b ↦ omega (arith, f_first-false b)
                | inr ne ↦ absurd (ne (omega arith))
              ]
              | inr even ↦ omega (arith, even)
            ]
            | inr ne ↦ omega arith
          ],
        ))
  ]

  pub page_buffer-apart :
      (i j : ℕ)
      → IsLaidOut r
      → i < c_mems r
      → j < c_mems r
      → i ≢ j
      → (page_buffer r i + 0x1000 ≤ page_buffer r j) ⊎ (page_buffer r j + 0x1000 ≤ page_buffer r i)
  page_buffer-apart i j laid lt_i lt_j ne = elim (page_buffer-cases i lt_i) [
    | inl (e, _, at) ↦ elim (page_buffer-cases j lt_j) [
      | inl (e', _, at') ↦ absurd (ne (at ∙ sym at'))
      | inr (inl (e', _, at')) ↦ omega (arith, e, e', laid.first_last)
      | inr (inr (e', lo', hi')) ↦ omega (arith, e, e', lo', hi', laid.first_pb)
    ]
    | inr (inl (e, _, at)) ↦ elim (page_buffer-cases j lt_j) [
      | inl (e', _, at') ↦ omega (arith, e, e', laid.first_last)
      | inr (inl (e', _, at')) ↦ absurd (ne (omega arith))
      | inr (inr (e', lo', hi')) ↦ omega (arith, e, e', lo', hi', laid.last_pb)
    ]
    | inr (inr (e, lo, hi)) ↦ elim (page_buffer-cases j lt_j) [
      | inl (e', _, at') ↦ omega (arith, e, e', lo, hi, laid.first_pb)
      | inr (inl (e', _, at')) ↦ omega (arith, e, e', lo, hi, laid.last_pb)
      | inr (inr (e', lo', hi')) ↦ omega (arith, e, e', lo, hi, lo', hi', ne)
    ]
  ]
