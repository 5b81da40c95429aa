-- ===== src/Tests/HexText.antt =====
-- base/common.cc: `FormatHex` and `ParseHex` on concrete inputs.
use cheaproute.Prelude.{◌≡◌, [], ◌∷◌, ◌++◌, ascii, arith}
use cheaproute.Hex.{format_hex, parse_hex}
use cheaproute.Hex.RoundTrip.{parse_hex-format_hex}
use cheaproute.Hex.Accepts.{Outcome, parse_hex-Outcome}

parse_hex-format_hex_example :
    parse_hex (format_hex (0 ∷ 0x1f ∷ 255 ∷ []) ++ ascii " 0A") (7 ∷ [])
    ≡ parse_hex (ascii " 0A") (7 ∷ 0 ∷ 0x1f ∷ 255 ∷ [])
parse_hex-format_hex_example =
    parse_hex-format_hex (0 ∷ 0x1f ∷ 255 ∷ []) (ascii " 0A") (7 ∷ [])
      (omega arith, (omega arith, (omega arith, tt)))

parse_hex-Outcome_example : Outcome (ascii "0a Fg") (7 ∷ []) (parse_hex (ascii "0a Fg") (7 ∷ []))
parse_hex-Outcome_example =
    parse_hex-Outcome (ascii "0a Fg") (7 ∷ [])
      (omega arith, (omega arith, (omega arith, (omega arith, (omega arith, tt)))))
