-- ===== src/Util/Tests.antt =====
-- leechcore/util.c: the hex dump of a few bytes.
use leech_core.Base.{ℕ, ◌-◌, ◌*◌, ◌/◌, ◌<◌, ◌≡◌, refl, arith, some, List, [], ◌∷◌, length, take}
use leech_core.Util.{rows, fill_from, fill_size, fill_hex_ascii}
use leech_core.Util.Rows.{fill_hex_ascii-fits}

abbrev three_bytes : List ℕ
three_bytes = 0x4c ∷ 0x43 ∷ 0x0a ∷ []

fill_hex_ascii-fits_example :
    (csz : ℕ) × (text : List ℕ) × (fill_size 3 0 ≡ some csz)
    × (fill_hex_ascii three_bytes 3 0 csz ≡ some text)
    × (length text ≡ (rows 3 - 0 / 16) * 76)
    × (length text < csz)
fill_hex_ascii-fits_example =
    fill_hex_ascii-fits three_bytes 3 0 (omega arith) (omega arith) (omega arith) (omega arith)

-- "0000    4c 43 0a "
first_digits :
    take 17 (fill_from three_bytes 3 16 0)
    ≡ 48 ∷ 48 ∷ 48 ∷ 48 ∷ 32 ∷ 32 ∷ 32 ∷ 32 ∷ 52 ∷ 99 ∷ 32 ∷ 52 ∷ 51 ∷ 32 ∷ 48 ∷ 97 ∷ 32 ∷ []
unfolding fill_from
first_digits = refl
