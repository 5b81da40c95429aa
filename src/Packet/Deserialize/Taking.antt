-- ===== src/Packet/Deserialize/Taking.antt =====
-- net/json_packet.cc: reading a token takes a byte at least, so that a loop with a round of fuel for
-- each byte that is left comes to its end.
use cheaproute.Prelude.{
  ℕ, zero, suc, ◌-◌, ◌≤◌, ◌<◌, ◌≡◌, refl, Bool, true, false, List, [], ◌∷◌, arith, length,
  if◌then◌else◌, ascii,
}
use cheaproute.JsonReader.State.{JsonReader}
use cheaproute.JsonReader.{next, skipping, skip_whitespace}
use cheaproute.JsonReader.Values.{IsNested, Goes}
use cheaproute.JsonReader.Next.{next-Goes}
use cheaproute.Packet.Deserialize.Parsing.{Platform, Parsing, Result, ok, error, bind}
use cheaproute.Packet.Deserialize.Expect.{expect_next}
use cheaproute.Packet.Deserialize.Returning.{
  Ends, Ends-mono, Returns, Any, IsEmpty, bind_silent, nothing_more,
}

-- Reading a token takes a byte at least.
next_or_error :
    (n : ℕ) (s : Parsing) (message : List ℕ) (a : Bool × JsonReader)
    → Goes n a
    → Ends Any IsEmpty n s.dest (
        if a.0
        then ok tt (record s { reader = a.1 })
        else error message (record s { reader = a.1 }))
next_or_error n s message (true, r) (l, v) = (tt, l, v, nothing_more s.dest)
next_or_error n s message (false, r) h = tt

pub expect_next-Ends :
    (env : Platform) (s : Parsing)
    → IsNested s.reader
    → Ends Any IsEmpty (length s.reader.stream - 1) s.dest (expect_next env s)
unfolding expect_next
expect_next-Ends env s v =
    next_or_error (length s.reader.stream - 1) s _ (next env.strtod_overflows s.reader)
      (next-Goes env.strtod_overflows s.reader v)

pub expect_next-Returns : Returns Any IsEmpty expect_next
expect_next-Returns = record {
  run = λ env s g v.
      Ends-mono Any IsEmpty (length s.reader.stream - 1) (length s.reader.stream) s.dest
        (expect_next env s) (omega arith) (expect_next-Ends env s v);
}

-- At the end of the stream there is no token.
pub next-end :
    (strtod_overflows : List ℕ → Bool) (r : JsonReader)
    → r.stream ≡ []
    → (next strtod_overflows r).0 ≡ false
unfolding next skipping skip_whitespace
next-end strtod_overflows r e = rw (e, skipping, skip_whitespace)

expect_next-end :
    (env : Platform) (s : Parsing) (input : List ℕ)
    → s.reader.stream ≡ input
    → length input ≤ 0
    → (e : List ℕ) × (t : Parsing) × (expect_next env s ≡ error e t)
unfolding expect_next next skipping skip_whitespace
expect_next-end env s [] h l = (
  ascii "Unexpected end of file",
  record s { reader = record s.reader { stream = [] } },
  rw (h, skipping) refl,
)
expect_next-end env s (x ∷ input) h l = absurd (omega arith)

-- The body of a loop: one round of fuel for each byte that is left.
pub take_token :
    {B : Type 0} (R : B → Type 0) (G : List ℕ → Type 0) (fuel : ℕ) (env : Platform) (s : Parsing)
    (k : Unit {0} → Parsing → Result B)
    → IsNested s.reader
    → length s.reader.stream < suc fuel
    → ((t : Parsing)
        → length t.reader.stream < fuel
        → IsNested t.reader
        → Ends R G (length t.reader.stream) t.dest (k tt t))
    → Ends R G (length s.reader.stream) s.dest (bind (expect_next env s) k)
take_token R G zero env s k v l f =
    let (e, t, h) = expect_next-end env s s.reader.stream refl (omega arith) in rw h tt
take_token R G (suc fuel) env s k v l f =
    Ends-mono R G (length s.reader.stream - 1) (length s.reader.stream) s.dest _ (omega arith) (
      bind_silent Any R G (length s.reader.stream - 1) s.dest (expect_next env s) k
        (expect_next-Ends env s v) (λ a t q b w. f t (omega arith) w))
