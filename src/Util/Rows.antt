-- ===== src/Util/Rows.antt =====
-- leechcore/util.c: the length of the hex dump.
use leech_core.Base.{
  add32, ℕ, zero, suc, ◌+◌, ◌-◌, ◌*◌, ◌/◌, ◌%◌, ◌≤◌, ◌<◌, ◌≡◌, ◌≢◌, ◌⊎◌, inl, inr, refl, ◌∙◌, ap,
  arith, false, Bool-cases, not, ◌||◌, ltb, leb, ◌==◌, if◌then◌else◌, some, List, ◌++◌, length,
  length-append,
}
use leech_core.Util.{
  before_byte, byte_text, after_byte, fill_from, fill_end, rows, rows_size, fill_size,
  fill_hex_ascii,
}

-- The characters of a position of a row.
abbrev width : ℕ → ℕ
width i =
    (if i % 16 == 0 then 8 else if i % 8 == 0 then 1 else 0) + 3 + (if i % 16 == 15 then 19 else 0)

length-before_byte :
    (i : ℕ) → length (before_byte i) ≡ (if i % 16 == 0 then 8 else if i % 8 == 0 then 1 else 0)
length-before_byte i = elim (Bool-cases (i % 16 == 0)) [
  | inl e ↦ rw e refl
  | inr e ↦ rw e (elim (Bool-cases (i % 8 == 0)) [ inl h ↦ rw h refl | inr h ↦ rw h refl ])
]

length-byte_text : (pb : List ℕ) (cb i : ℕ) → length (byte_text pb cb i) ≡ 3
length-byte_text pb cb i = elim (Bool-cases (ltb i cb)) [ inl e ↦ rw e refl | inr e ↦ rw e refl ]

length-after_byte :
    (pb : List ℕ) (cb i : ℕ) → length (after_byte pb cb i) ≡ (if i % 16 == 15 then 19 else 0)
length-after_byte pb cb i = elim (Bool-cases (i % 16 == 15)) [
  | inl e ↦ rw e refl
  | inr e ↦ rw e refl
]

-- The width of the positions from `i` on.
widths : ℕ → ℕ → ℕ
widths zero i = 0
widths (suc n) i = width i + widths n (suc i)

length-fill_from : (pb : List ℕ) (cb n i : ℕ) → length (fill_from pb cb n i) ≡ widths n i
unfolding fill_from widths
length-fill_from pb cb zero i = refl
length-fill_from pb cb (suc n) i =
    let a =
      length-append (before_byte i)
        (byte_text pb cb i ++ (after_byte pb cb i ++ fill_from pb cb n (suc i))) in
    let b = length-append (byte_text pb cb i) (after_byte pb cb i ++ fill_from pb cb n (suc i)) in
    let c = length-append (after_byte pb cb i) (fill_from pb cb n (suc i)) in
    let x = length-before_byte i in
    let y = length-byte_text pb cb i in
    let z = length-after_byte pb cb i in
    let rest = length-fill_from pb cb n (suc i) in omega (arith, a, b, c, x, y, z, rest)

width_first : (i : ℕ) → i % 16 ≡ 0 → width i ≡ 11
width_first i h = ground (arith, h)

width_inner : (i : ℕ) → i % 16 ≢ 0 → i % 8 ≢ 0 → i % 16 ≢ 15 → width i ≡ 3
width_inner i h g l = ground (arith, h, g, l)

width_middle : (i : ℕ) → i % 16 ≡ 8 → width i ≡ 4
width_middle i h = ground (arith, h)

width_last : (i : ℕ) → i % 16 ≡ 15 → width i ≡ 22
width_last i h = ground (arith, h)

-- The positions inside a half of a row, three characters each.
inner_widths : (n i : ℕ) → 1 ≤ i % 8 → i % 8 + n ≤ 8 → i % 16 + n ≤ 15 → widths n i ≡ n * 3
unfolding widths
inner_widths zero i lo hi last = refl
inner_widths (suc n) i lo hi last =
    let here = width_inner i (omega arith) (omega arith) (omega arith) in
    let side : (n ≡ 0) ⊎ (1 ≤ n) = omega arith in
    elim side [
      | inl e ↦ ap (λ k. width i + widths k (suc i)) e ∙ omega (arith, here, e)
      | inr more ↦
          let rest = inner_widths n (suc i) (omega arith) (omega arith) (omega arith) in
          omega (arith, here, rest)
    ]

widths-add : (n k i : ℕ) → widths (n + k) i ≡ widths n i + widths k (i + n)
unfolding widths
widths-add zero k i =
    let same : 0 + k ≡ k = omega arith in
    let at : i ≡ i + 0 = omega arith in
    let none_before : widths k (i + 0) ≡ 0 + widths k (i + 0) = omega arith in
    ap (λ m. widths m i) same ∙ ap (widths k) at ∙ none_before
widths-add (suc n) k i =
    let step : suc n + k ≡ suc (n + k) = omega arith in
    let at : suc i + n ≡ i + suc n = omega arith in
    let rest = widths-add n k (suc i) in
    ap (λ m. widths m i) step ∙ omega (arith, rest, ap (widths k) at)

-- One position.
widths_one : (i : ℕ) → widths 1 i ≡ width i
unfolding widths
widths_one i = omega arith

row_width : (i : ℕ) → i % 16 ≡ 0 → widths 16 i ≡ 76
row_width i h =
    let a = widths-add 1 15 i in
    let b = widths-add 7 8 (i + 1) in
    let c = widths-add 1 7 (i + 1 + 7) in
    let d = widths-add 6 1 (i + 1 + 7 + 1) in
    let first = widths_one i ∙ width_first i h in
    let left = inner_widths 7 (i + 1) (omega arith) (omega arith) (omega arith) in
    let middle = widths_one (i + 1 + 7) ∙ width_middle (i + 1 + 7) (omega arith) in
    let right = inner_widths 6 (i + 1 + 7 + 1) (omega arith) (omega arith) (omega arith) in
    let last = widths_one (i + 1 + 7 + 1 + 6) ∙ width_last (i + 1 + 7 + 1 + 6) (omega arith) in
    omega (arith, a, b, c, d, first, left, middle, right, last)

rows_width : (k i : ℕ) → i % 16 ≡ 0 → widths (k * 16) i ≡ k * 76
unfolding widths
rows_width zero i h = refl
rows_width (suc k) i h =
    let more : suc k * 16 ≡ 16 + k * 16 = omega arith in
    let rest = rows_width k (i + 16) (omega arith) in
    ap (λ n. widths n i) more ∙ widths-add 16 (k * 16) i ∙ omega (arith, row_width i h, rest)

-- The text of a buffer from an offset of whole rows on fits, with its terminator, the size that a call
-- without a text buffer gives; it has 76 characters for each row behind the offset. The buffer has at
-- most 768 MB, so that no sum or product of the call wraps, and the offset is at most 4 KB.
pub fill_hex_ascii-fits :
    (pb : List ℕ) (cb initial : ℕ)
    → initial ≤ cb
    → initial ≤ 0x1000
    → initial % 16 ≡ 0
    → cb ≤ 0x3000_0000
    → (csz : ℕ) × (text : List ℕ) × (fill_size cb initial ≡ some csz)
      × (fill_hex_ascii pb cb initial csz ≡ some text)
      × (length text ≡ (rows cb - initial / 16) * 76)
      × (length text < csz)
unfolding fill_size fill_hex_ascii
fill_hex_ascii-fits pb cb initial le small aligned bounded =
    let fine : (ltb cb initial || (ltb 0x1000 initial || not (initial % 16 == 0))) ≡ false =
      ground (arith, le, small, aligned) in
    let no_wrap : rows_size cb ≡ rows cb * 76 = omega arith in
    let size : add32 1 (rows_size cb) ≡ 1 + rows cb * 76 = omega (arith, no_wrap) in
    let large : leb (add32 1 (rows_size cb)) (rows_size cb) ≡ false =
      ground (arith, no_wrap, size) in
    let number : fill_end cb - initial ≡ (rows cb - initial / 16) * 16 =
      ground (arith, le, aligned) in
    let text = fill_from pb cb (fill_end cb - initial) initial in
    let count : length text ≡ (rows cb - initial / 16) * 76 =
      length-fill_from pb cb (fill_end cb - initial) initial
      ∙ ap (λ n. widths n initial) number
      ∙ rows_width (rows cb - initial / 16) initial aligned in
    (
      add32 1 (rows_size cb),
      text,
      rw fine refl,
      rw fine (rw large refl),
      count,
      omega (arith, count, size),
    )
