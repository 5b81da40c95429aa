-- ===== src/Packet/Deserialize/Parsing.antt =====
-- net/json_packet.cc: what the functions that read a packet from JSON share, their `bool` result with
-- `out_err`, the reader and the destination, as a monad.
use cheaproute.Prelude.{ℕ, suc, Bool, Option, List, ◌++◌, ascii, length}
use cheaproute.JsonReader.State.{JsonReader}

-- What the C library does: whether `strtod` reports ERANGE, and the four bytes that `inet_pton`
-- makes of an address.
pub record Platform : Type 0 where
  pub strtod_overflows : List ℕ → Bool
  pub inet_pton : List ℕ → Option (List ℕ)

-- The reader and `dest_buffer`.
pub record Parsing : Type 0 where
  pub reader : JsonReader
  pub dest : List ℕ

-- True, with the results and the state; false, with `out_err`; the fuel of a loop ran out; or the
-- behaviour is undefined.
pub data Result (A : Type 0) : Type 0 where
  ok : A → Parsing → Result A
  error : List ℕ → Parsing → Result A
  out_of_fuel : Result A
  undefined : Result A

abbrev pub Parser : Type 0 → Type 0
Parser A = Platform → Parsing → Result A

abbrev pub bind : {A B : Type 0} → Result A → (A → Parsing → Result B) → Result B
bind (ok a s) k = k a s
bind (error e s) k = error e s
bind out_of_fuel k = out_of_fuel
bind undefined k = undefined

infixl 5 ◌>>=◌ ◌>>◌
abbrev pub ◌>>=◌ : {A B : Type 0} → Parser A → (A → Parser B) → Parser B
◌>>=◌ p k env s = bind (p env s) (λ a t. k a env t)

abbrev pub ◌>>◌ : {A B : Type 0} → Parser A → Parser B → Parser B
p >> q = p >>= λ _. q

abbrev pub pure : {A : Type 0} → A → Parser A
pure a env s = ok a s

-- `Error`
abbrev pub fails : {A : Type 0} → List ℕ → Parser A
fails message env s = error message s

abbrev pub add_prefix : {A : Type 0} → List ℕ → Result A → Result A
add_prefix context (ok a s) = ok a s
add_prefix context (error e s) = error (context ++ (ascii ": " ++ e)) s
add_prefix context out_of_fuel = out_of_fuel
add_prefix context undefined = undefined

-- `PrefixError`
abbrev pub prefixed : {A : Type 0} → List ℕ → Parser A → Parser A
prefixed context p env s = add_prefix context (p env s)

abbrev pub current : Parser JsonReader
current env s = ok s.reader s

abbrev pub destination : Parser (List ℕ)
destination env s = ok s.dest s

-- `AppendVectorU8` to the destination.
abbrev pub emit : List ℕ → Parser (Unit {0})
emit bytes env s = ok tt (record s { dest = s.dest ++ bytes })

abbrev pub modify : (List ℕ → List ℕ) → Parser (Unit {0})
modify f env s = ok tt (record s { dest = f s.dest })

-- Each round of a loop over the reader takes a byte of its stream.
abbrev pub with_fuel : {A : Type 0} → (ℕ → Parser A) → Parser A
with_fuel p env s = p (suc (length s.reader.stream)) env s
