-- ===== src/Utf8/RoundTrip.antt =====
-- UTF-8 as RFC 3629 defines it, and what `AppendCharacterAsUtf8` makes of the characters that the
-- reader's escapes can name.
use cheaproute.Prelude.{
  ℕ, ◌+◌, ◌-◌, ◌*◌, ◌<◌, ◌≡◌, refl, ap, Bool, true, false, not, ◌&&◌, Option, none, some, List, [],
  ◌∷◌, ltb, leb, ◌==◌, ==_iff, if◌then◌else◌,
}
use cheaproute.Prelude.Table.{passes, passes-at}
use cheaproute.Utf8.{utf8}

abbrev pub is_surrogate : ℕ → Bool
is_surrogate ch = leb 0xd800 ch && leb ch 0xdfff

abbrev in_range : ℕ → ℕ → ℕ → Bool
in_range low high b = leb low b && ltb b high

-- The character of a well-formed sequence: the shortest form, and no surrogate.
unfoldable pub decode : List ℕ → Option ℕ
decode (a ∷ []) = if ltb a 0x80 then some a else none
decode (a ∷ b ∷ []) =
    let ch = (a - 0xc0) * 64 + (b - 0x80) in
    if in_range 0xc0 0xe0 a && (in_range 0x80 0xc0 b && leb 0x80 ch) then some ch else none
decode (a ∷ b ∷ c ∷ []) =
    let ch = (a - 0xe0) * 4096 + (b - 0x80) * 64 + (c - 0x80) in
    if in_range 0xe0 0xf0 a
      && (in_range 0x80 0xc0 b && (in_range 0x80 0xc0 c && (leb 0x800 ch && not (is_surrogate ch))))
    then some ch
    else none
decode _ = none

same : Option ℕ → Option ℕ → Bool
same none none = true
same none (some b) = false
same (some a) none = false
same (some a) (some b) = a == b

same_sound : (a b : Option ℕ) → same a b ≡ true → a ≡ b
unfolding same
same_sound none none h = refl
same_sound none (some b) h = cc
same_sound (some a) none h = cc
same_sound (some a) (some b) h = ap some ((==_iff a b).0 h)

decodes : ℕ → Bool
decodes ch = same (decode (utf8 ch)) (if is_surrogate ch then none else some ch)

decodes_table : passes decodes 65536 ≡ true
unfolding passes decodes same decode utf8
decodes_table = refl

-- For each character below 65536 the bytes that are pushed are the UTF-8 form of the character;
-- a surrogate gets three bytes that are not well formed.
pub decode-utf8 :
    (ch : ℕ) → ch < 65536 → decode (utf8 ch) ≡ (if is_surrogate ch then none else some ch)
unfolding decodes
decode-utf8 ch h = same_sound _ _ (passes-at decodes 65536 decodes_table ch h)
