-- ===== src/Util.antt =====
-- leechcore/util.c: the hex dump of a buffer.
pub mod Rows
mod Tests
use leech_core.Base.{
  ℕ, zero, suc, ◌+◌, ◌-◌, ◌*◌, ◌/◌, ◌%◌, Bool, true, false, not, ◌&&◌, ◌||◌, Option, none, some,
  List, [], ◌∷◌, ◌++◌, if◌then◌else◌, ltb, leb, ◌==◌, get_or, tabulate, add32, dword, map,
}

-- `Util_2HexChar`
abbrev pub hex_char : ℕ → ℕ
hex_char x = (if leb (x % 16) 9 then 48 else 87) + x % 16

-- `UTIL_PRINTASCII`: the characters from the space up to `~`, a space for 127, and dots.
unfoldable pub print_ascii : ℕ → ℕ
print_ascii b = if ltb b 32 then 46 else if ltb b 127 then b else if b == 127 then 32 else 46

-- What the text of a row has in front of its first byte, and in the middle.
abbrev pub before_byte : ℕ → List ℕ
before_byte i =
    if i % 16 == 0
    then hex_char (i % 0x1_0000 / 0x1000)
      ∷ hex_char (i % 0x1_0000 / 0x100)
      ∷ hex_char (i % 0x1_0000 / 0x10)
      ∷ hex_char (i % 0x1_0000)
      ∷ 32
      ∷ 32
      ∷ 32
      ∷ 32
      ∷ []
    else if i % 8 == 0
    then 32 ∷ []
    else []

-- The two digits of a byte, or spaces behind the last one.
abbrev pub byte_text : List ℕ → ℕ → ℕ → List ℕ
byte_text pb cb i =
    if ltb i cb
    then hex_char (get_or pb i 0 / 16) ∷ hex_char (get_or pb i 0) ∷ 32 ∷ []
    else 32 ∷ 32 ∷ 32 ∷ []

abbrev pub ascii_text : List ℕ → ℕ → ℕ → ℕ
ascii_text pb cb j = if leb cb j then 32 else print_ascii (get_or pb j 0)

-- The characters of the row that ends at `i`.
abbrev pub after_byte : List ℕ → ℕ → ℕ → List ℕ
after_byte pb cb i =
    if i % 16 == 15 then 32 ∷ 32 ∷ (tabulate (ascii_text pb cb) (i - 15) 16 ++ (10 ∷ [])) else []

-- The loop of `Util_FillHexAscii` over `n` positions from `i` on: the characters that it writes.
unfoldable pub fill_from : List ℕ → ℕ → ℕ → ℕ → List ℕ
fill_from pb cb zero i = []
fill_from pb cb (suc n) i =
    before_byte i ++ (byte_text pb cb i ++ (after_byte pb cb i ++ fill_from pb cb n (suc i)))

-- Where the loop ends.
abbrev pub fill_end : ℕ → ℕ
fill_end cb = add32 cb (if cb % 16 == 0 then 0 else 16 - cb % 16)

-- `cRows`, and the characters of its rows.
abbrev pub rows : ℕ → ℕ
rows cb = add32 cb 15 / 16

abbrev pub rows_size : ℕ → ℕ
rows_size cb = rows cb * 76 % dword

-- `Util_FillHexAscii` with no buffer: `*pcsz`, or none for FALSE.
unfoldable pub fill_size : ℕ → ℕ → Option ℕ
fill_size cb initial =
    if ltb cb initial || (ltb 0x1000 initial || not (initial % 16 == 0))
    then none
    else some (add32 1 (rows_size cb))

-- `Util_FillHexAscii` with a buffer of `csz` characters: the text, without its terminator. The loop
-- does not run when its end has wrapped below its start.
unfoldable pub fill_hex_ascii : List ℕ → ℕ → ℕ → ℕ → Option (List ℕ)
fill_hex_ascii pb cb initial csz =
    if ltb cb initial || (ltb 0x1000 initial || not (initial % 16 == 0))
    then none
    else if leb csz (rows_size cb)
    then none
    else some (fill_from pb cb (fill_end cb - initial) initial)
