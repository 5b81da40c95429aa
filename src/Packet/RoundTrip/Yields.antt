-- ===== src/Packet/RoundTrip/Yields.antt =====
-- base/json_reader.cc: a reader that still has given calls of the printer to yield, one by one.
use cheaproute.Prelude.{
  ℕ, zero, suc, ◌-◌, ◌≤◌, ◌≡◌, refl, sym, ◌∙◌, ap, subst, Bool, true, false, Option, none, some,
  List, [], ◌∷◌, map, arith, length, if◌then◌else◌,
}
use cheaproute.Prelude.Int.{ℤ}
use cheaproute.JsonReader.State.{
  JsonReader, JsonToken, no_token, start_array, end_array, start_object, end_object, property_name,
  string_token, integer, float, boolean, null,
}
use cheaproute.JsonReader.{next}
use cheaproute.JsonReader.Values.{IsNested}
use cheaproute.JsonReader.Next.{next-Goes}
use cheaproute.JsonRoundTrip.Calls.{
  Call, opens_array, closes_array, opens_object, closes_object, name, text, number, truth, nothing,
  seen, seen_as, read_all,
}
use cheaproute.Packet.Deserialize.Taking.{next-end}

-- What the accessors show of a call; without one, what they are given.
abbrev pub token_of : Call → JsonToken
token_of opens_array = start_array
token_of closes_array = end_array
token_of opens_object = start_object
token_of closes_object = end_object
token_of (name str) = property_name
token_of (text str) = string_token
token_of (number value) = integer
token_of (truth b) = boolean
token_of nothing = null

abbrev pub str_of : List ℕ → Call → List ℕ
str_of other (name str) = str
str_of other (text str) = str
str_of other _ = other

abbrev pub int_of : ℤ → Call → ℤ
int_of other (number value) = value
int_of other _ = other

abbrev or_none : {A : Type 0} → A → (Call → A) → Option Call → A
or_none other f none = other
or_none other f (some c) = f c

abbrev shown : JsonToken → JsonReader → JsonToken × (List ℕ × ℤ)
shown t r = (t, (r.str_value, r.int_value))

abbrev shown_by : JsonReader → Call → JsonToken × (List ℕ × ℤ)
shown_by r c = (token_of c, (str_of r.str_value c, int_of r.int_value c))

accessors :
    (t : JsonToken) (r : JsonReader) (c : Call) → seen_as t r ≡ some c → shown t r ≡ shown_by r c
accessors no_token r c h = cc
accessors start_array r c h = ap (or_none (shown start_array r) (shown_by r)) h
accessors end_array r c h = ap (or_none (shown end_array r) (shown_by r)) h
accessors start_object r c h = ap (or_none (shown start_object r) (shown_by r)) h
accessors end_object r c h = ap (or_none (shown end_object r) (shown_by r)) h
accessors property_name r c h = ap (or_none (shown property_name r) (shown_by r)) h
accessors string_token r c h = ap (or_none (shown string_token r) (shown_by r)) h
accessors integer r c h = ap (or_none (shown integer r) (shown_by r)) h
accessors float r c h = cc
accessors boolean r c h = ap (or_none (shown boolean r) (shown_by r)) h
accessors null r c h = ap (or_none (shown null r) (shown_by r)) h

pub seen-token : (r : JsonReader) (c : Call) → seen r ≡ some c → r.token_type ≡ token_of c
seen-token r c h = ap (λ a. a.0) (accessors r.token_type r c h)

pub seen-str : (r : JsonReader) (c : Call) → seen r ≡ some c → r.str_value ≡ str_of r.str_value c
seen-str r c h = ap (λ a. a.1.0) (accessors r.token_type r c h)

pub seen-int : (r : JsonReader) (c : Call) → seen r ≡ some c → r.int_value ≡ int_of r.int_value c
seen-int r c h = ap (λ a. a.1.1) (accessors r.token_type r c h)

differ : false ≡ true → ⊥
differ e = cc

empty : {o : Option Call} {os : List (Option Call)} → [] ≡ o ∷ os → ⊥
empty e = cc

abbrev first : List (Option Call) → Option Call
first [] = none
first (o ∷ os) = o

abbrev others : List (Option Call) → List (Option Call)
others [] = []
others (o ∷ os) = os

-- A round of the loop, with what the others give.
abbrev round : Bool × JsonReader → List (Option Call) × JsonReader → List (Option Call) × JsonReader
round (read, r) more = if read then (seen r ∷ more.0, more.1) else ([], r)

module _ (strtod_overflows : List ℕ → Bool) where
  unfoldable pub Yields : List Call → JsonReader → Type 0
  unfolding next
  Yields [] r = Unit
  Yields (c ∷ calls) r =
      (r' : JsonReader) × (next strtod_overflows r ≡ (true, r'))
      × (seen r' ≡ some c)
      × Yields calls r'

  -- The reader shows the call `now`, and the others follow.
  pub record Stands (now : Call) (calls : List Call) (r : JsonReader) : Type 0 where
    pub shows : seen r ≡ some now
    pub nested : IsNested r
    pub yields : Yields calls r

  -- The next token.
  pub Stands-next :
      (now c : Call) (calls : List Call) (r : JsonReader)
      → Stands now (c ∷ calls) r
      → (r' : JsonReader) × (next strtod_overflows r ≡ (true, r')) × Stands c calls r'
  unfolding Yields
  Stands-next now c calls r h =
      let (r', e, shown, y) = h.yields in
      (
        r',
        e,
        record {
          shows = shown;
          nested = subst (λ a. IsNested a.1) e (next-Goes strtod_overflows r h.nested).1;
          yields = y;
        },
      )

  -- Each call that follows takes a byte at least.
  pub Yields-room :
      (calls : List Call) (r : JsonReader)
      → Yields calls r
      → IsNested r
      → length calls ≤ length r.stream
  unfolding Yields
  Yields-room [] r y v = omega arith
  Yields-room (c ∷ calls) r (r', e, s, y) v = go (Yields-room calls r' y goes.1) r.stream refl
    where
      goes : (length r'.stream ≤ length r.stream - 1) × IsNested r'
      goes =
          subst (λ a. (length a.1.stream ≤ length r.stream - 1) × IsNested a.1) e
            (next-Goes strtod_overflows r v)

      go :
          length calls ≤ length r'.stream
          → (stream : List ℕ) → r.stream ≡ stream
          → suc (length calls) ≤ length r.stream
      go l [] h = absurd (differ (sym (next-end strtod_overflows r h) ∙ ap (λ a. a.0) e))
      go l (ch ∷ stream) h = omega (arith, ap length h, goes.0, l)

  -- What the loop over `Next` saw, it yields.
  pub read_all-Yields :
      (fuel : ℕ) (calls : List Call) (r last : JsonReader)
      → read_all strtod_overflows fuel r ≡ (map some calls, last)
      → Yields calls r
  unfolding read_all Yields
  read_all-Yields fuel [] r last h = tt
  read_all-Yields zero (c ∷ calls) r last h = absurd (empty (ap (λ a. a.0) h))
  read_all-Yields (suc fuel) (c ∷ calls) r last h =
      go (next strtod_overflows r) refl (read_all-Yields fuel calls) h
    where
      go :
          (a : Bool × JsonReader)
          → next strtod_overflows r ≡ a
          → ((r' last : JsonReader)
              → read_all strtod_overflows fuel r' ≡ (map some calls, last)
              → Yields calls r')
          → round a (read_all strtod_overflows fuel a.1) ≡ (some c ∷ map some calls, last)
          → Yields (c ∷ calls) r
      go (true, r') e f k =
          (r', e, ap (λ b. first b.0) k, f r' last (ap (λ b. (others b.0, b.1)) k))
      go (false, r') e f k = absurd (empty (ap (λ b. b.0) k))
