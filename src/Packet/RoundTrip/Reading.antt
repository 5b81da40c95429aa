-- ===== src/Packet/RoundTrip/Reading.antt =====
-- net/json_packet.cc: the functions that expect a token, a name or a value, where a reader yields
-- it.
use cheaproute.Prelude.{
  ℕ, suc, ◌≤◌, ◌<◌, ◌≡◌, refl, sym, ◌∙◌, ap, subst, true, Option, some, List, [], ◌∷◌, ◌++◌,
  append-nil, append_assoc, arith, ascii, ==_refl, le→leb, length,
}
use cheaproute.Prelude.Int.{pos}
use Prim.Native.String.{String}
use cheaproute.JsonReader.State.{JsonReader, JsonToken, index, token_eq}
use cheaproute.JsonRoundTrip.Calls.{Call, name, text, number, seen}
use cheaproute.Packet.Deserialize.Parsing.{
  Platform, Parsing, Result, ok, Parser, bind, ◌>>=◌, ◌>>◌, pure, prefixed, add_prefix, current,
  emit, with_fuel,
}
use cheaproute.Packet.Deserialize.Tables.{text_eq}
use cheaproute.Packet.Deserialize.Expect.{
  expect_next, expect_current, expect_next_token, expect_current_name, expect_next_name,
  found_or_unknown, expect_enum_value, expect_enum_property, value_in, value_or_error,
  expect_current_value, expect_value, current_property, next_property, next_property_in,
}
use cheaproute.Packet.RoundTrip.Says.{Front, one}
use cheaproute.Packet.RoundTrip.Yields.{
  token_of, seen-token, seen-str, seen-int, Yields-room, Stands-next, Stands,
}

token_eq_refl : (t : JsonToken) → token_eq t t ≡ true
token_eq_refl t = ==_refl (index t)

pub text_eq_refl : (str : List ℕ) → text_eq str str ≡ true
unfolding text_eq
text_eq_refl [] = refl
text_eq_refl (ch ∷ str) = rw (==_refl ch) (text_eq_refl str)

module _ (env : Platform) where
  abbrev pub At : Call → List Call → JsonReader → Type 0
  At now calls r = Stands env.strtod_overflows now calls r

  -- True is returned, with the result `a` and the destination `dest`.
  abbrev pub Given : {A : Type 0} → Call → List Call → A → List ℕ → Result A → Type 0
  Given now calls a dest r = (s : Parsing) × (r ≡ ok a s) × At now calls s.reader × (s.dest ≡ dest)

  -- From a reader that shows `now` and yields the calls `f`, to one that shows `end` and yields what
  -- follows them: the result is `a`, and `bytes` are appended.
  pub record Gives {A : Type 0} (now : Call) (f : Front) (end : Call) (p : Parser A) (a : A)
      (bytes : List ℕ) : Type 0 where
    pub run :
        (rest : List Call) (s : Parsing)
        → At now (f rest) s.reader
        → Given end rest a (s.dest ++ bytes) (p env s)

module _ {env : Platform} where
  pub chain :
      {A B : Type 0} {now mid end : Call} {f g : Front} {p : Parser A} {a : A} {b : B}
      {xs ys : List ℕ} (k : A → Parser B)
      → Gives env now f mid p a xs
      → Gives env mid g end (k a) b ys
      → Gives env now (λ r. f (g r)) end (p >>= k) b (xs ++ ys)
  chain {g = g} {a = a} {xs = xs} {ys = ys} k m n = record {
    run = λ rest s h.
        let (t, e, w, d) = m.run (g rest) s h in
        let (u, e', w', d') = n.run rest t w in
        (
          u,
          ap (λ o. bind o (λ a t. k a env t)) e ∙ e',
          w',
          d' ∙ ap (λ x. x ++ ys) d ∙ append_assoc s.dest xs ys,
        );
  }

  infixr 4 ◌▸◌
  pub ◌▸◌ :
      {A B : Type 0} {now mid end : Call} {f g : Front} {p : Parser A} {q : Parser B} {a : A}
      {b : B} {xs ys : List ℕ}
      → Gives env now f mid p a xs
      → Gives env mid g end q b ys
      → Gives env now (λ r. f (g r)) end (p >> q) b (xs ++ ys)
  ◌▸◌ {q = q} m n = chain (λ _. q) m n

  pub same_bytes :
      {A : Type 0} {now end : Call} {f : Front} {p : Parser A} {a : A} {xs ys : List ℕ}
      → xs ≡ ys
      → Gives env now f end p a xs
      → Gives env now f end p a ys
  same_bytes {now = now} {end} {f} {p} {a} e m = subst (Gives env now f end p a) e m

  pub pure-Gives : {A : Type 0} {now : Call} (a : A) → Gives env now (λ r. r) now (pure a) a []
  pure-Gives a = record { run = λ rest s h. (s, refl, h, sym (append-nil s.dest)) }

  pub emit-Gives : {now : Call} (bytes : List ℕ) → Gives env now (λ r. r) now (emit bytes) tt bytes
  emit-Gives bytes = record {
    run = λ rest s h. (record s { dest = s.dest ++ bytes }, refl, h, refl);
  }

  pub prefixed-Gives :
      {A : Type 0} {now end : Call} {f : Front} {p : Parser A} {a : A} {bytes : List ℕ}
      (context : List ℕ)
      → Gives env now f end p a bytes
      → Gives env now f end (prefixed context p) a bytes
  prefixed-Gives context m = record {
    run = λ rest s h. let (t, e, w, d) = m.run rest s h in (t, ap (add_prefix context) e, w, d);
  }

  pub current-Gives :
      {B : Type 0} {now end : Call} {f : Front} {b : B} {bytes : List ℕ} (k : JsonReader → Parser B)
      → ((r : JsonReader) → seen r ≡ some now → Gives env now f end (k r) b bytes)
      → Gives env now f end (current >>= k) b bytes
  current-Gives k m = record { run = λ rest s h. (m s.reader h.shows).run rest s h }

  pub expect_next-Gives : {now : Call} (c : Call) → Gives env now (one c) c expect_next tt []
  unfolding expect_next
  expect_next-Gives {now} c = record {
    run = λ rest s h.
        let (r, e, w) = Stands-next env.strtod_overflows now c rest s.reader h in
        (record s { reader = r }, rw e refl, w, sym (append-nil s.dest));
  }

  -- A function that only looks at the reader.
  pub looks :
      {A : Type 0} {now : Call} {p : Parser A} {a : A}
      → ((s : Parsing) → seen s.reader ≡ some now → p env s ≡ ok a s)
      → Gives env now (λ r. r) now p a []
  looks f = record { run = λ rest s h. (s, f s h.shows, h, sym (append-nil s.dest)) }

  -- A loop with a round of fuel for each byte that is left, which needs `n` rounds more than one.
  pub with_fuel-Gives :
      {A : Type 0} {now end : Call} {f : Front} {a : A} {bytes : List ℕ} (n : ℕ) (p : ℕ → Parser A)
      → ((rest : List Call) → n ≤ length (f rest))
      → ((fuel : ℕ) → n < fuel → Gives env now f end (p fuel) a bytes)
      → Gives env now f end (with_fuel p) a bytes
  with_fuel-Gives {f = f} n p l m = record {
    run = λ rest s h.
        (m (suc (length s.reader.stream)) (
            omega (
              arith,
              l rest,
              Yields-room env.strtod_overflows (f rest) s.reader h.yields h.nested,
            ))).run
          rest s h;
  }

  pub expect_current-Gives : (c : Call) → Gives env c (λ r. r) c (expect_current (token_of c)) tt []
  unfolding expect_current
  expect_current-Gives c =
      looks (λ s h. rw (seen-token s.reader c h, token_eq_refl (token_of c)) refl)

  pub expect_next_token-Gives :
      {now : Call} (c : Call) → Gives env now (one c) c (expect_next_token (token_of c)) tt []
  unfolding expect_next_token
  expect_next_token-Gives c = expect_next-Gives c ▸ expect_current-Gives c

  pub expect_current_name-Gives :
      (str : String)
      → Gives env (name (ascii str)) (λ r. r) (name (ascii str)) (expect_current_name str) tt []
  unfolding expect_current_name
  expect_current_name-Gives str = looks (λ s h.
      rw
        (
          seen-token s.reader (name (ascii str)) h,
          seen-str s.reader (name (ascii str)) h,
          text_eq_refl (ascii str),
        )
        refl)

  pub expect_next_name-Gives :
      {now : Call} (str : String)
      → Gives env now (one (name (ascii str))) (name (ascii str)) (expect_next_name str) tt []
  unfolding expect_next_name
  expect_next_name-Gives str = expect_next-Gives (name (ascii str)) ▸ expect_current_name-Gives str

  pub expect_enum_property-Gives :
      {now : Call} (property : String) (lookup : List ℕ → Option ℕ) (str : List ℕ) (value : ℕ)
      → lookup str ≡ some value
      → Gives env now
          (λ r. name (ascii property) ∷ text str ∷ r)
          (text str)
          (expect_enum_property property lookup)
          value
          []
  unfolding expect_enum_property expect_enum_value found_or_unknown
  expect_enum_property-Gives property lookup str value e =
      expect_next_name-Gives property
      ▸ prefixed-Gives (ascii "Error with property '" ++ (ascii property ++ ascii "'")) (
          expect_next-Gives (text str)
          ▸ current-Gives (λ r. found_or_unknown r.str_value (lookup r.str_value))
              (λ r h. looks (λ s _. rw (seen-str r (text str) h, e) refl)))

  pub expect_value-Gives :
      {now : Call} (low high value : ℕ)
      → low ≤ value
      → value ≤ high
      → Gives env now
          (one (number (pos value)))
          (number (pos value))
          (expect_value low high)
          value
          []
  unfolding expect_value expect_current_value value_in value_or_error
  expect_value-Gives low high value l h =
      expect_next-Gives (number (pos value))
      ▸ looks (λ s e.
        rw
          (
            seen-token s.reader (number (pos value)) e,
            seen-int s.reader (number (pos value)) e,
            le→leb low value l,
            le→leb value high h,
          )
          refl)

  pub next_property-Gives :
      {now : Call} (property : String) (high value : ℕ)
      → value ≤ high
      → Gives env now
          (λ r. name (ascii property) ∷ number (pos value) ∷ r)
          (number (pos value))
          (next_property property high)
          value
          []
  unfolding next_property current_property
  next_property-Gives property high value h =
      expect_next-Gives (name (ascii property))
      ▸ (expect_current_name-Gives property
          ▸ prefixed-Gives (ascii "Error with property '" ++ (ascii property ++ ascii "'"))
              (expect_value-Gives 0 high value (omega arith) h))

  pub next_property_in-Gives :
      {now : Call} (property : String) (low high value : ℕ)
      → low ≤ value
      → value ≤ high
      → Gives env now
          (λ r. name (ascii property) ∷ number (pos value) ∷ r)
          (number (pos value))
          (next_property_in property low high)
          value
          []
  unfolding next_property_in
  next_property_in-Gives property low high value l h =
      expect_next_name-Gives property
      ▸ prefixed-Gives (ascii "Error parsing property " ++ ascii property)
          (expect_value-Gives low high value l h)
