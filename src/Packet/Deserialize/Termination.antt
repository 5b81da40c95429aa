-- ===== src/Packet/Deserialize/Termination.antt =====
-- net/json_packet.cc: `DeserializePacket` returns, and what it made begins with an IP header.
use cheaproute.Prelude.{ℕ, ◌≤◌, ◌≡◌, ◌≢◌, refl, ◌∙◌, ap, List, ◌++◌, append_assoc, length}
use cheaproute.JsonReader.State.{start_object}
use cheaproute.JsonReader.Values.{IsNested}
use cheaproute.Packet.Fields.{byte}
use cheaproute.Packet.Deserialize.Parsing.{
  Platform, Parsing, Result, ok, error, out_of_fuel, undefined, Parser, ◌>>=◌, bind, modify,
}
use cheaproute.Packet.Deserialize.Completion.{complete}
use cheaproute.Packet.Deserialize.Whole.{
  deserialize_transport, deserialize_rest, deserialize_parts, deserialize_packet,
}
use cheaproute.Packet.Deserialize.Returning.{
  Ends, Ends-mono, Returns, Any, GivesAddresses, ◌▹◌, ◌▹▹◌,
}
use cheaproute.Packet.Deserialize.Parts.{expect_current-Returns, expect_next_name-Returns}
use cheaproute.Packet.Deserialize.HeaderParts.{IsIp4Header, deserialize_ip4_header-Returns}
use cheaproute.Packet.Deserialize.WholeParts.{
  deserialize_transport-Returns, deserialize_rest-Returns,
}

-- Bytes that begin with some in `G`.
abbrev pub Starts : (List ℕ → Type 0) → List ℕ → Type 0
Starts G bytes = (front rest : List ℕ) × (bytes ≡ front ++ rest) × G front

begins :
    {B : Type 0} (R : B → Type 0) (G : List ℕ → Type 0) (n : ℕ) (dest front dest' : List ℕ)
    (r : Result B)
    → dest' ≡ dest ++ front
    → G front
    → Ends R Any n dest' r
    → Ends R (Starts G) n dest r
begins R G n dest front dest' (ok b s) e g (q, l, v, (rest, e', _)) = (
  q,
  l,
  v,
  (
    front ++ rest,
    e' ∙ ap (λ d. d ++ rest) e ∙ append_assoc dest front rest,
    (front, rest, refl, g),
  ),
)
begins R G n dest front dest' (error m s) e g h = tt
begins R G n dest front dest' out_of_fuel e g h = h
begins R G n dest front dest' undefined e g h = tt

-- A part that appends bytes in `G`, then others.
bind_starting :
    {A B : Type 0} (Q : A → Type 0) (R : B → Type 0) (G : List ℕ → Type 0) (n : ℕ) (dest : List ℕ)
    (r : Result A) (k : A → Parsing → Result B)
    → Ends Q G n dest r
    → ((a : A) (s : Parsing)
        → Q a
        → length s.reader.stream ≤ n
        → IsNested s.reader
        → Ends R Any (length s.reader.stream) s.dest (k a s))
    → Ends R (Starts G) n dest (bind r k)
bind_starting Q R G n dest (ok a s) k (q, b, v, (front, e, g)) f =
    begins R G n dest front s.dest (k a s) e g
      (Ends-mono R Any (length s.reader.stream) n s.dest (k a s) b (f a s q b v))
bind_starting Q R G n dest (error e s) k h f = tt
bind_starting Q R G n dest out_of_fuel k h f = h
bind_starting Q R G n dest undefined k h f = tt

starting :
    {A B : Type 0} {Q : A → Type 0} {R : B → Type 0} {G : List ℕ → Type 0} {p : Parser A}
    {k : A → Parser B}
    → Returns Q G p
    → ((a : A) → Q a → Returns R Any (k a))
    → Returns R (Starts G) (p >>= k)
starting {Q} {R} {G} {p} {k} h f = record {
  run = λ env s g v.
      bind_starting Q R G (length s.reader.stream) s.dest (p env s) (λ a t. k a env t)
        (h.run env s g v) (λ a t q l w. (f a q).run env t g w);
}

pub deserialize_parts-Returns : Returns Any (Starts IsIp4Header) deserialize_parts
unfolding deserialize_parts
deserialize_parts-Returns = expect_current-Returns start_object ▹ λ _ _.
    (expect_next_name-Returns "ip" ▹ λ _ _.
    starting deserialize_ip4_header-Returns
      (λ _ _. record { run = λ env s g v. (headers s.dest).run env s g v }))
  where
    headers :
        (dest : List ℕ)
        → Returns Any Any (deserialize_transport (byte dest 9) >>= λ _. deserialize_rest)
    headers dest = deserialize_transport-Returns (byte dest 9) ▹▹ λ _ _. deserialize_rest-Returns

packet_result :
    (n : ℕ) (dest : List ℕ) (env : Platform) (r : Result (Unit {0}))
    → Ends Any (Starts IsIp4Header) n dest r
    → bind r (λ _ t. modify complete env t) ≢ out_of_fuel
packet_result n dest env (ok a s) h e = cc
packet_result n dest env (error m s) h e = cc
packet_result n dest env out_of_fuel h e = h
packet_result n dest env undefined h e = cc

-- Where `inet_pton` gives four bytes and the reader's modes are nested, `DeserializePacket` returns:
-- each of its loops over flags, over TCP options and over lines of data ends before the bytes that
-- are left to read are used up as fuel.
pub deserialize_packet-Returns :
    (env : Platform) (s : Parsing)
    → GivesAddresses env
    → IsNested s.reader
    → deserialize_packet env s ≢ out_of_fuel
unfolding deserialize_packet
deserialize_packet-Returns env s g v =
    packet_result (length s.reader.stream) s.dest env (deserialize_parts env s)
      (deserialize_parts-Returns.run env s g v)
