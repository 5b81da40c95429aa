-- ===== src/Utf8.antt =====
-- base/json_reader.cc: `AppendCharacterAsUtf8`.
pub mod RoundTrip
use cheaproute.Prelude.{ℕ, ◌+◌, ◌*◌, ◌/◌, ◌%◌, List, [], ◌∷◌, leb, if◌then◌else◌, bit_and, bit_or}

-- The bytes that are pushed for a character that is not negative.
unfoldable pub utf8 : ℕ → List ℕ
utf8 ch =
    if leb ch 0x7f
    then ch ∷ []
    else if leb ch 0x07ff
    then bit_or 0xc0 (bit_and ch 0x07c0 / 64) ∷ bit_or 0x80 (bit_and ch 0x3f) ∷ []
    else if leb ch 0xffff
    then bit_or 0xe0 (bit_and ch 0xf000 / 4096)
      ∷ bit_or 0x80 (bit_and ch 0x0fc0 / 64)
      ∷ bit_or 0x80 (bit_and ch 0x3f)
      ∷ []
    else if leb ch 0x1fffff
    then bit_or 0xf0 (bit_and ch 0x1c_0000 / 262144)
      ∷ bit_or 0x80 (bit_and ch 0x3_f000 / 4096)
      ∷ bit_or 0x80 (bit_and ch 0x0fc0 / 64)
      ∷ bit_or 0x80 (bit_and ch 0x3f)
      ∷ []
    else []
