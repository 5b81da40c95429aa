-- ===== src/Tests/RoundTrips.antt =====
-- net/json_packet.cc: a UDP packet written as JSON and read back.
use cheaproute.Packet.RoundTrip.Again.{filled, filled-stays}
use cheaproute.Packet.RoundTrip.Verified.{UdpResidue, deserialize_packet-UdpResidue}
use cheaproute.JsonReader.State.{JsonReader}
use cheaproute.JsonReader.{next, new_reader}
use cheaproute.Packet.Deserialize.Parsing.{Parsing, ok}
use cheaproute.Packet.Deserialize.Whole.{deserialize_packet}
use cheaproute.Programs.Replayed.{write_log, Offers, completed, playback-Offers}
use cheaproute.Programs.Playback.{playback}
use cheaproute.Programs.Tun.{Kernel, accepted, would_block, write_failed, new_tun}
use cheaproute.Prelude.{ℕ, ◌≡◌, refl, true, List, [], ◌∷◌, arith, zero, suc, ◌≢◌, false}
use cheaproute.JsonWriter.{JsonWriter, new_writer}
use cheaproute.Packet.Fields.{byte, u16}
use cheaproute.Packet.Texts.{are_bytes-All}
use cheaproute.Packet.Writing.{wrote}
use cheaproute.Packet.Serialize.{serialize_packet}
use cheaproute.Packet.Deserialize.Completion.{complete}
use cheaproute.Packet.RoundTrip.PacketCalls.{IsUdp}
use cheaproute.Packet.RoundTrip.Blanked.{blanked}
use cheaproute.Packet.RoundTrip.Document.{ReadsAs, deserialize_packet-serialize_packet}
use cheaproute.Tests.PacketText.{platform, udp_packet}

-- With two bytes of data that are no text.
abbrev pub binary_packet : List ℕ
binary_packet =
    0x45 ∷ 0 ∷ 0 ∷ 30 ∷ 0 ∷ 1 ∷ 0x40 ∷ 0 ∷ 64 ∷ 17 ∷ 38 ∷ 205 ∷ 10 ∷ 0 ∷ 0 ∷ 1 ∷ 10 ∷ 0 ∷ 0 ∷ 1 ∷ 0
    ∷ 80 ∷ 1 ∷ 0 ∷ 0 ∷ 10 ∷ 0 ∷ 0 ∷ 0 ∷ 255 ∷ []

pub binary_packet-IsUdp : IsUdp binary_packet
unfolding u16
binary_packet-IsUdp = record {
  bytes = are_bytes-All binary_packet refl;
  long = omega arith;
  version = refl;
  protocol = refl;
  flags = omega arith;
}

deserialize_packet-serialize_packet_example :
    (w : JsonWriter) × (serialize_packet binary_packet (new_writer true) ≡ wrote w)
    × ReadsAs platform w.out (complete (blanked binary_packet))
unfolding byte
deserialize_packet-serialize_packet_example =
    deserialize_packet-serialize_packet platform binary_packet refl refl binary_packet-IsUdp true

text_packet-IsUdp : IsUdp udp_packet
unfolding u16
text_packet-IsUdp = record {
  bytes = are_bytes-All udp_packet refl;
  long = omega arith;
  version = refl;
  protocol = refl;
  flags = omega arith;
}

-- It takes the first packet, and has no room for the others.
abbrev kernel : Kernel
kernel zero packet = accepted 30
kernel (suc n) packet = would_block

kernel_works : (n : ℕ) (packet : List ℕ) → kernel n packet ≢ write_failed
kernel_works zero packet e = cc
kernel_works (suc n) packet e = cc

abbrev both : List (List ℕ)
both = binary_packet ∷ udp_packet ∷ []

playback-Offers_example :
    (w : JsonWriter) × (write_log both (new_writer false) ≡ wrote w)
    × Offers (completed both) new_tun (playback platform kernel w.out new_tun)
unfolding byte
playback-Offers_example =
    playback-Offers platform kernel kernel_works false both new_tun
      ((refl, refl, binary_packet-IsUdp), ((refl, refl, text_packet-IsUdp), tt))

filled-stays_example :
    (w : JsonWriter) × (serialize_packet (filled binary_packet) (new_writer false) ≡ wrote w)
    × ReadsAs platform w.out (filled binary_packet)
unfolding byte
filled-stays_example = filled-stays platform binary_packet refl refl binary_packet-IsUdp false

deserialize_packet-UdpResidue_example :
    (w : JsonWriter) × (serialize_packet binary_packet (new_writer true) ≡ wrote w)
    × ((r : JsonReader) × (next platform.strtod_overflows (new_reader w.out) ≡ (true, r))
        × ((s : Parsing) × (deserialize_packet platform (record { reader = r; dest = [] })
              ≡ ok tt s)
            × UdpResidue s.dest))
unfolding byte
deserialize_packet-UdpResidue_example =
    deserialize_packet-UdpResidue platform binary_packet refl refl binary_packet-IsUdp (omega arith)
      true
