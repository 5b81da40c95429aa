-- ===== src/Packet/Serialize/Whole.antt =====
-- net/json_packet.cc: the calls of `WriteTcpHeader` and `SerializePacket` fit together.
use cheaproute.Prelude.{
  All, IsByte, ℕ, ◌+◌, ◌-◌, ◌%◌, Bool, true, false, ◌&&◌, List, ◌∷◌, ◌==◌, leb, ltb, length, drop,
  ◌≡◌, refl, arith, ap, ◌∙◌, if◌then◌else◌,
}
use cheaproute.Prelude.Int.{ℤ, increment}
use cheaproute.JsonWriter.{JsonWriterMode, JsonWriter, object_property_name, start_object}
use cheaproute.Packet.Traced.{Traced}
use cheaproute.Packet.Texts.{All-take, All-drop}
use cheaproute.Packet.Moves.Fields.{u16-Moves, u32-Moves}
use cheaproute.Packet.Fields.{byte, bit}
use cheaproute.Packet.Writing.{Action, ◌>>◌, done, open_object, close_object}
use cheaproute.JsonWriter.Values.{Value, named}
use cheaproute.Packet.Landing.{at, view, Lands, empty_object, properties}
use cheaproute.Packet.Moves.{
  Moves, ◌▹◌, done-Moves, if-Moves, open_object-Moves, close_object-Moves, property-Moves,
  pack-Moves, unpack-Moves,
}
use cheaproute.Packet.Moves.Arrays.{
  opened, filled, closed, entered, done-Fills, if-Fills, string-Fills,
}
use cheaproute.Packet.Serialize.{
  write_transport, transport_size, write_data, write_headers, serialize_packet,
}
use cheaproute.Packet.Serialize.Headers.{ip_header_size}
use cheaproute.Packet.Serialize.Tcp.{write_tcp_flags, options_of, write_options, write_tcp_header}
use cheaproute.Packet.Serialize.Calls.{
  write_udp_header-Moves, write_icmp_header-Moves, write_ip_header-Moves,
}
use cheaproute.Packet.Serialize.DataCalls.{write_bytes-Moves}
use cheaproute.Packet.Serialize.Options.{Advances, options_loop-Fills}

module _ {P : Type 0} {m n : JsonWriterMode} {st : List JsonWriterMode} {p : ℤ}
    (v : Value m n) where
  write_tcp_flags-Moves : (flags : ℕ) → Moves P (at m st p) (at n st p) (write_tcp_flags flags)
  unfolding write_tcp_flags
  write_tcp_flags-Moves flags = closed (
      filled
        (filled
          (filled
            (filled
              (filled
                (filled (opened v) (if-Fills (bit flags 5) (string-Fills "URG" refl) done-Fills))
                (if-Fills (bit flags 4) (string-Fills "ACK" refl) done-Fills))
              (if-Fills (bit flags 3) (string-Fills "PSH" refl) done-Fills))
            (if-Fills (bit flags 2) (string-Fills "RST" refl) done-Fills))
          (if-Fills (bit flags 1) (string-Fills "SYN" refl) done-Fills))
        (if-Fills (bit flags 0) (string-Fills "FIN" refl) done-Fills))

options_of-All : (h : List ℕ) (size : ℕ) → All IsByte h → All IsByte (options_of h size)
unfolding options_of
options_of-All h size b = All-take IsByte _ (drop 20 h) (All-drop IsByte 20 h b)

write_options-Moves :
    {P : Type 0} {st : List JsonWriterMode} {p : ℤ} (options : List ℕ)
    → Advances options
    → (P → All IsByte options)
    → Moves P (at object_property_name st p) (at object_property_name st p) (write_options options)
unfolding write_options
write_options-Moves options a b =
    if-Moves (ltb 0 (length options))
      (closed (
          filled (entered (property-Moves properties "options" refl ▹ pack-Moves) (opened named))
            (options_loop-Fills (length options) a (omega arith) b))
        ▹ unpack-Moves)
      done-Moves

-- The calls of `BeginPack` are one more than those of `EndPack`.
write_tcp_header-Moves :
    {P : Type 0} {m n : JsonWriterMode} {st : List JsonWriterMode} {p : ℤ} (v : Value m n)
    (h : List ℕ) (size : ℕ)
    → Advances (options_of h size)
    → (P → All IsByte h)
    → Moves P (at m st p) (at n st (increment p)) (write_tcp_header h size)
unfolding write_tcp_header
write_tcp_header-Moves v h size a b =
    open_object-Moves v
    ▹ property-Moves empty_object "sourcePort" refl
    ▹ pack-Moves
    ▹ u16-Moves h 0 b
    ▹ property-Moves properties "destPort" refl
    ▹ u16-Moves h 2 b
    ▹ unpack-Moves
    ▹ property-Moves properties "seqNumber" refl
    ▹ pack-Moves
    ▹ u32-Moves h 4 b
    ▹ if-Moves (bit (byte h 13) 4) (property-Moves properties "ackNumber" refl ▹ u32-Moves h 8 b)
        done-Moves
    ▹ unpack-Moves
    ▹ property-Moves properties "flags" refl
    ▹ pack-Moves
    ▹ write_tcp_flags-Moves named (byte h 13)
    ▹ property-Moves properties "windowSize" refl
    ▹ pack-Moves
    ▹ u16-Moves h 14 b
    ▹ if-Moves (bit (byte h 13) 5)
        (property-Moves properties "urgentPointer" refl ▹ u16-Moves h 18 b) done-Moves
    ▹ unpack-Moves
    ▹ write_options-Moves (options_of h size) a (λ q. options_of-All h size (b q))
    ▹ close_object-Moves properties

dropped :
    {P : Type 0} (offset : ℕ) (packet : List ℕ)
    → (P → All IsByte packet)
    → P
    → All IsByte (drop offset packet)
dropped offset packet b q = All-drop IsByte offset packet (b q)

-- Whether `SerializePacket` writes a TCP header for the packet's bytes from `offset` on.
abbrev pub has_tcp : ℕ → List ℕ → Bool
has_tcp offset packet = byte packet 9 == 6 && leb (offset + 20) (length packet)

-- The options in the packet's TCP header.
abbrev pub packet_options : List ℕ → List ℕ
packet_options packet =
    options_of (drop (ip_header_size packet) packet) (length packet - ip_header_size packet)

abbrev pub is_ip : List ℕ → Bool
is_ip packet = leb 20 (length packet) && leb 5 (byte packet 0 % 16)

abbrev pub writes_tcp : List ℕ → Bool
writes_tcp packet = is_ip packet && has_tcp (ip_header_size packet) packet

-- The packing level afterwards.
abbrev pub packing_after : Bool → ℤ → ℤ
packing_after tcp p = if tcp then increment p else p

module _ {P : Type 0} {st : List JsonWriterMode} {p : ℤ} where
  write_transport-Moves :
      (offset : ℕ) (packet : List ℕ)
      → (has_tcp offset packet ≡ true
          → Advances (options_of (drop offset packet) (length packet - offset)))
      → (P → All IsByte packet)
      → Moves P
          (at object_property_name st p)
          (at object_property_name st (packing_after (has_tcp offset packet) p))
          (write_transport offset packet)
  unfolding write_transport
  write_transport-Moves offset packet a b =
      choose (has_tcp offset packet)
        (λ e.
          property-Moves properties "tcp" refl
          ▹ write_tcp_header-Moves named (drop offset packet) (length packet - offset) (a e)
              (dropped offset packet b))
        (if-Moves (byte packet 9 == 17 && leb (offset + 8) (length packet))
          (property-Moves properties "udp" refl
            ▹ write_udp_header-Moves named (drop offset packet) (dropped offset packet b))
          (if-Moves (byte packet 9 == 1 && leb (offset + 8) (length packet))
            (property-Moves properties "icmp" refl
              ▹ write_icmp_header-Moves named (drop offset packet) (dropped offset packet b))
            done-Moves))
    where
      choose :
          (b : Bool) {x y : Action}
          → (b ≡ true
              → Moves P (at object_property_name st p) (at object_property_name st (increment p)) x)
          → Moves P (at object_property_name st p) (at object_property_name st p) y
          → Moves P
              (at object_property_name st p)
              (at object_property_name st (packing_after b p))
              (if b then x else y)
      choose true f g = f refl
      choose false f g = g

  write_data-Moves :
      (offset : ℕ) (packet : List ℕ)
      → (P → All IsByte packet)
      → Moves P
          (at object_property_name st p)
          (at object_property_name st p)
          (write_data offset packet)
  unfolding write_data
  write_data-Moves offset packet b =
      if-Moves (ltb offset (length packet))
        (property-Moves properties "data" refl
          ▹ write_bytes-Moves named (drop offset packet) (dropped offset packet b))
        done-Moves

pub write_headers-Moves :
    {P : Type 0} {st : List JsonWriterMode} {p : ℤ} (packet : List ℕ)
    → (has_tcp (ip_header_size packet) packet ≡ true → Advances (packet_options packet))
    → (P → All IsByte packet)
    → Moves P
        (at start_object st p)
        (at object_property_name st (packing_after (has_tcp (ip_header_size packet) packet) p))
        (write_headers packet)
unfolding write_headers
write_headers-Moves packet a b =
    property-Moves empty_object "ip" refl
    ▹ write_ip_header-Moves named packet b
    ▹ write_transport-Moves (ip_header_size packet) packet a b
    ▹ write_data-Moves (ip_header_size packet + transport_size (ip_header_size packet) packet)
        packet b

serialize_packet-Moves :
    {P : Type 0} {m n : JsonWriterMode} {st : List JsonWriterMode} {p : ℤ} (v : Value m n)
    (packet : List ℕ)
    → (writes_tcp packet ≡ true → Advances (packet_options packet))
    → (P → All IsByte packet)
    → Moves P (at m st p) (at n st (packing_after (writes_tcp packet) p)) (serialize_packet packet)
unfolding serialize_packet
serialize_packet-Moves {P} {m} {n} {st} {p} v packet a b =
    object (is_ip packet) (has_tcp (ip_header_size packet) packet) (write_headers packet) (λ e.
      write_headers-Moves packet
        (λ t. a (ap (λ b. b && has_tcp (ip_header_size packet) packet) e ∙ t)) b)
  where
    object :
        (ip tcp : Bool) (x : Action)
        → (ip ≡ true
            → Moves P
                (at start_object (n ∷ st) p)
                (at object_property_name (n ∷ st) (packing_after tcp p))
                x)
        → Moves P
            (at m st p)
            (at n st (packing_after (ip && tcp) p))
            (open_object >> (if ip then x else done) >> close_object)
    object true tcp x f = open_object-Moves v ▹ f refl ▹ close_object-Moves properties
    object false tcp x f = open_object-Moves v ▹ done-Moves ▹ close_object-Moves empty_object

-- From any place where a value may be written, `SerializePacket` returns, with no `assert` of the
-- writer failed and the writer's containers as before, provided that the options of a TCP header
-- that it writes come to an end; a TCP header alone leaves the packing level one too high.
pub serialize_packet-Lands :
    {m n : JsonWriterMode} {st : List JsonWriterMode} {p : ℤ} (v : Value m n) (packet : List ℕ)
    → (writes_tcp packet ≡ true → Advances (packet_options packet))
    → (w : JsonWriter) → view w ≡ at m st p
    → Lands (at n st (packing_after (writes_tcp packet) p)) (serialize_packet packet w)
serialize_packet-Lands v packet a =
    (serialize_packet-Moves {P = All IsByte packet} v packet a (λ b. b)).run

-- What it writes there of a packet of bytes is a run of the printer that can be read.
pub serialize_packet-Traced :
    {m n : JsonWriterMode} {st : List JsonWriterMode} {p : ℤ} (v : Value m n) (packet : List ℕ)
    → (writes_tcp packet ≡ true → Advances (packet_options packet))
    → All IsByte packet
    → (w : JsonWriter) → view w ≡ at m st p
    → Traced w (serialize_packet packet w)
serialize_packet-Traced {st = st} {p = p} v packet a b =
    (serialize_packet-Moves {P = All IsByte packet} {st = st} {p = p} v packet a (λ c. c)).trace b
