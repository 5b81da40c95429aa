-- ===== src/Prelude/Bytes.antt =====
-- Bytes, and the characters of the source's literals, as native numbers.
use Prim.Native.Nat.{ℕ, ◌<◌}
use Prim.Native.Char.{code}
use Prim.Native.String.{String}
use mathlib.Core.List.{List, [], ◌∷◌}

abbrev pub IsByte : ℕ → Type 0
IsByte b = b < 256

-- The bytes of a literal, which has ASCII characters only.
abbrev pub ascii : (literal : String) → List ℕ
ascii String.[] = []
ascii (String.◌∷◌ letter letters) = code letter ∷ ascii letters
