-- ===== src/Packet/Texts.antt =====
-- What `SerializePacket` prints of a packet's bytes: its texts hold no zero byte, and its numbers are
-- small.
use cheaproute.Prelude.{
  ℕ, zero, suc, ◌+◌, ◌^◌, ◌<◌, ◌≡◌, refl, sym, ◌∙◌, ap, subst, Bool, true, false, ◌&&◌, none, some,
  List, [], ◌∷◌, ◌++◌, append-nil, arith, ◌==◌, ltb, ltb→lt, and_parts, All, All-append, IsByte,
  take, drop, bit_and, if◌then◌else◌,
}
use cheaproute.Prelude.Table.{passes, passes-at}
use cheaproute.Hex.{high_char, low_char, separator, next_position, format_hex_loop, format_hex}
use cheaproute.JsonWriter.Text.{decimal}
use cheaproute.JsonRoundTrip.Escapes.{IsChar}
use cheaproute.JsonRoundTrip.Digits.{IsDigit, digits-Printed}
use cheaproute.Packet.Fields.{byte, u16, u32, ip4_text}
use cheaproute.Packet.Names.{Name, name_at}

-- `All IsChar` as a test.
abbrev pub is_chars : List ℕ → Bool
is_chars [] = true
is_chars (ch ∷ text) = ltb 0 ch && (ltb ch 256 && is_chars text)

pub is_chars-All : (text : List ℕ) → is_chars text ≡ true → All IsChar text
is_chars-All [] h = tt
is_chars-All (ch ∷ text) h =
    let (a, b) = and_parts (ltb 0 ch) _ h in
    let (c, d) = and_parts (ltb ch 256) _ b in
    ((ltb→lt 0 ch a, ltb→lt ch 256 c), is_chars-All text d)

-- `All IsByte` as a test.
abbrev pub are_bytes : List ℕ → Bool
are_bytes [] = true
are_bytes (b ∷ bytes) = ltb b 256 && are_bytes bytes

pub are_bytes-All : (bytes : List ℕ) → are_bytes bytes ≡ true → All IsByte bytes
are_bytes-All [] h = tt
are_bytes-All (b ∷ bytes) h =
    let (first, others) = and_parts (ltb b 256) _ h in
    (ltb→lt b 256 first, are_bytes-All bytes others)

abbrev pub are_names : List Name → Bool
are_names [] = true
are_names (none ∷ names) = are_names names
are_names (some text ∷ names) = is_chars text && are_names names

abbrev pub IsName : Name → Type 0
IsName none = Unit
IsName (some text) = All IsChar text

pub name_at-IsName :
    (names : List Name) (value : ℕ) → are_names names ≡ true → IsName (name_at names value)
unfolding name_at
name_at-IsName [] value h = tt
name_at-IsName (none ∷ names) zero h = tt
name_at-IsName (some text ∷ names) zero h = is_chars-All text (and_parts (is_chars text) _ h).0
name_at-IsName (none ∷ names) (suc value) h = name_at-IsName names value h
name_at-IsName (some text ∷ names) (suc value) h =
    name_at-IsName names value (and_parts (is_chars text) _ h).1

pub All-drop {ℓ κ} :
    {A : Type ℓ} (P : A → Type κ) (n : ℕ) (xs : List A) → All P xs → All P (drop n xs)
All-drop P zero xs h = h
All-drop P (suc n) [] h = h
All-drop P (suc n) (x ∷ xs) h = All-drop P n xs h.1

pub All-take {ℓ κ} :
    {A : Type ℓ} (P : A → Type κ) (n : ℕ) (xs : List A) → All P xs → All P (take n xs)
All-take P zero xs h = tt
All-take P (suc n) [] h = h
All-take P (suc n) (x ∷ xs) h = (h.0, All-take P n xs h.1)

pub byte-small : (packet : List ℕ) (i : ℕ) → All IsByte packet → byte packet i < 256
unfolding byte
byte-small [] i h = omega arith
byte-small (b ∷ packet) zero h = h.0
byte-small (b ∷ packet) (suc i) h = byte-small packet i h.1

pub u16-small : (packet : List ℕ) (i : ℕ) → All IsByte packet → u16 packet i < 65536
unfolding u16
u16-small packet i h = omega (arith, byte-small packet i h, byte-small packet (i + 1) h)

pub u32-small : (packet : List ℕ) (i : ℕ) → All IsByte packet → u32 packet i < 2 ^ 32
unfolding u32
u32-small packet i h = omega (arith, u16-small packet i h, u16-small packet (i + 2) h)

digits-All : (text : List ℕ) → All IsDigit text → All IsChar text
digits-All [] h = tt
digits-All (ch ∷ text) h = (omega arith, digits-All text h.1)

pub decimal-All : (n : ℕ) → n < 256 → All IsChar (decimal n)
unfolding decimal
decimal-All n h =
    let (ch, rest, e, d, ds, l, p) = digits-Printed 20 n [] (omega arith) (omega arith) in
    subst (All IsChar) (sym (e ∙ ap (λ t. ch ∷ t) (append-nil rest)))
      (omega arith, digits-All rest ds)

pub ip4_text-All : (packet : List ℕ) (i : ℕ) → All IsByte packet → All IsChar (ip4_text packet i)
unfolding ip4_text
ip4_text-All packet i h = dotted (byte packet i) _ (byte-small packet i h) (
    dotted (byte packet (i + 1)) _ (byte-small packet (i + 1) h) (
      dotted (byte packet (i + 2)) _ (byte-small packet (i + 2) h)
        (decimal-All (byte packet (i + 3)) (byte-small packet (i + 3) h))))
  where
    dotted :
        (n : ℕ) (rest : List ℕ)
        → n < 256
        → All IsChar rest
        → All IsChar (decimal n ++ (b'.' ∷ rest))
    dotted n rest h k =
        All-append IsChar (decimal n) (b'.' ∷ rest) (decimal-All n h) (omega arith, k)

hex_are_chars : ℕ → Bool
hex_are_chars b = is_chars (high_char b ∷ low_char b ∷ [])

hex_table : passes hex_are_chars 256 ≡ true
unfolding passes hex_are_chars high_char low_char
hex_table = refl

high-low-All : (b : ℕ) → IsByte b → All IsChar (high_char b ∷ low_char b ∷ [])
unfolding hex_are_chars
high-low-All b h =
    is_chars-All (high_char b ∷ low_char b ∷ []) (passes-at hex_are_chars 256 hex_table b h)

separator-All : (pos : ℕ) → All IsChar (separator pos)
unfolding separator
separator-All pos = is_chars-All _ (choose (pos == 8) (pos == 16))
  where
    choose :
        (a b : Bool)
        → is_chars ((if a then b' ' ∷ [] else []) ++ (if b then b'\n' ∷ [] else b' ' ∷ [])) ≡ true
    choose true true = refl
    choose true false = refl
    choose false true = refl
    choose false false = refl

format_hex_loop-All :
    (bytes : List ℕ) (pos : ℕ) → All IsByte bytes → All IsChar (format_hex_loop pos bytes)
unfolding format_hex_loop
format_hex_loop-All [] pos h = tt
format_hex_loop-All (b ∷ []) pos h = high-low-All b h.0
format_hex_loop-All (b ∷ c ∷ rest) pos h =
    let (x, (y, _)) = high-low-All b h.0 in
    (
      x,
      (
        y,
        All-append IsChar (separator (pos + 1)) _ (separator-All (pos + 1))
            (format_hex_loop-All (c ∷ rest) (next_position (pos + 1)) h.1),
      ),
    )

pub format_hex-All : (bytes : List ℕ) → All IsByte bytes → All IsChar (format_hex bytes)
unfolding format_hex
format_hex-All bytes h = format_hex_loop-All bytes 0 h

fragment_is_small : ℕ → Bool
fragment_is_small n = ltb (bit_and n 0x1fff) 65536

fragment_table : passes fragment_is_small 65536 ≡ true
unfolding passes fragment_is_small
fragment_table = refl

pub fragment-small : (n : ℕ) → n < 65536 → bit_and n 0x1fff < 65536
unfolding fragment_is_small
fragment-small n h = ltb→lt _ _ (passes-at fragment_is_small 65536 fragment_table n h)
