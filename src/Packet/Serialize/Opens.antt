-- ===== src/Packet/Serialize/Opens.antt =====
-- net/json_packet.cc: the text of `SerializePacket` at the top of a document begins with a brace.
use cheaproute.JsonRoundTrip.Written.{IsResumed}
use cheaproute.Prelude.{
  sym, append_assoc, subst, some, ◌++◌, ℕ, ◌≡◌, refl, ◌∙◌, ap, Bool, true, false, ◌&&◌, List, [],
  ◌∷◌, All, IsByte, if◌then◌else◌,
}
use cheaproute.Prelude.Int.{ℤ}
use cheaproute.JsonWriter.{
  JsonWriter, JsonWriterMode, document_start, start_object, object_property_name, begin_object,
  begin_value, begin_value_in, deeper,
}
use cheaproute.Packet.Traced.{Traced}
use cheaproute.JsonRoundTrip.Document.{Prints-Reads}
use cheaproute.Packet.Writing.{Action, wrote, ◌>>◌, done, close_object}
use cheaproute.Packet.Landing.{at, empty_object, properties}
use cheaproute.Packet.Moves.{Moves, ◌▹◌, done-Moves, close_object-Moves}
use cheaproute.Packet.Serialize.{write_headers, serialize_packet}
use cheaproute.Packet.Serialize.Headers.{ip_header_size}
use cheaproute.Packet.Serialize.Options.{Advances}
use cheaproute.Packet.Serialize.Whole.{
  is_ip, has_tcp, writes_tcp, packet_options, packing_after, write_headers-Moves,
}

-- What `SerializePacket` writes behind the brace.
abbrev rest_of : List ℕ → Action
rest_of packet = (if is_ip packet then write_headers packet else done) >> close_object

serialize_packet_opens :
    (packet : List ℕ) (w v : JsonWriter)
    → begin_object w ≡ some v
    → serialize_packet packet w ≡ rest_of packet v
unfolding serialize_packet
serialize_packet_opens packet w v e = rw e refl

rest-Moves :
    {P : Type 0} (n : JsonWriterMode) (st : List JsonWriterMode) (p : ℤ) (packet : List ℕ)
    → (writes_tcp packet ≡ true → Advances (packet_options packet))
    → (P → All IsByte packet)
    → Moves P
        (at start_object (n ∷ st) p)
        (at n st (packing_after (writes_tcp packet) p))
        (rest_of packet)
rest-Moves {P} n st p packet a b =
    choose (is_ip packet) (has_tcp (ip_header_size packet) packet) (write_headers packet) (λ e.
      write_headers-Moves packet
        (λ t. a (ap (λ b. b && has_tcp (ip_header_size packet) packet) e ∙ t)) b)
  where
    choose :
        (ip tcp : Bool) (x : Action)
        → (ip ≡ true
            → Moves P
                (at start_object (n ∷ st) p)
                (at object_property_name (n ∷ st) (packing_after tcp p))
                x)
        → Moves P
            (at start_object (n ∷ st) p)
            (at n st (packing_after (ip && tcp) p))
            ((if ip then x else done) >> close_object)
    choose true tcp x f = f refl ▹ close_object-Moves properties
    choose false tcp x f = done-Moves ▹ close_object-Moves empty_object

-- The printer behind the brace.
abbrev opened : JsonWriter → JsonWriter
opened w = record w {
  out = w.out ++ b'{' ∷ [];
  mode_stack = document_start ∷ w.mode_stack;
  mode = start_object;
  indent = deeper w.indent;
}

begin_object_top : (w : JsonWriter) → w.mode ≡ document_start → begin_object w ≡ some (opened w)
unfolding begin_object begin_value begin_value_in
begin_object_top w e = rw e refl

-- At the top of a document what `SerializePacket` writes begins with a brace.
pub serialize_packet-Brace :
    (packet : List ℕ) (w u : JsonWriter)
    → (writes_tcp packet ≡ true → Advances (packet_options packet))
    → All IsByte packet
    → w.mode ≡ document_start
    → w.mode_stack ≡ []
    → serialize_packet packet w ≡ wrote u
    → (text : List ℕ) × (u.out ≡ w.out ++ b'{' ∷ text)
serialize_packet-Brace packet w u a b m s e =
    let (calls, p) = subst (Traced (opened w)) (sym opens ∙ e) traced in
    let x = Prints-Reads (λ text. false) p (subst (All IsResumed) (sym below) (tt, tt)) in
    (x.bytes, x.prints ∙ append_assoc w.out (b'{' ∷ []) x.bytes)
  where
    opens : serialize_packet packet w ≡ rest_of packet (opened w)
    opens = serialize_packet_opens packet w (opened w) (begin_object_top w m)

    below : document_start ∷ w.mode_stack ≡ document_start ∷ []
    below = ap (λ st. document_start ∷ st) s

    traced : Traced (opened w) (rest_of packet (opened w))
    traced =
        (rest-Moves {P = All IsByte packet} document_start [] w.pack packet a (λ c. c)).trace b
          (opened w) (ap (λ st. at start_object (document_start ∷ st) w.pack) s)
