-- ===== src/Packet/RoundTrip/Document.antt =====
-- net/json_packet.cc: a UDP packet as a document, written and read back.
use cheaproute.Prelude.{ℕ, suc, ◌≡◌, refl, subst, some, Bool, true, List, [], length}
use cheaproute.JsonReader.State.{JsonReader}
use cheaproute.JsonReader.{next, new_reader}
use cheaproute.JsonReader.Values.{IsNested}
use cheaproute.JsonReader.Next.{next-Goes}
use cheaproute.JsonWriter.{JsonWriter, new_writer}
use cheaproute.JsonWriter.Values.{top}
use cheaproute.JsonRoundTrip.Calls.{Call, Prints, done, seen, opens_object}
use cheaproute.JsonRoundTrip.Document.{read_all-Prints}
use cheaproute.Packet.Landing.{View, Lands}
use cheaproute.Packet.Writing.{Outcome, wrote, assert_failed, out_of_fuel}
use cheaproute.Packet.Serialize.{serialize_packet}
use cheaproute.Packet.Deserialize.Parsing.{Platform, Parsing, ok}
use cheaproute.Packet.Deserialize.Completion.{complete}
use cheaproute.Packet.Deserialize.Whole.{deserialize_packet}
use cheaproute.Packet.RoundTrip.Says.{Leads}
use cheaproute.Packet.RoundTrip.PacketCalls.{IsUdp, packet_calls, serialize_packet-Says}
use cheaproute.Packet.RoundTrip.Yields.{Yields, Stands, read_all-Yields}
use cheaproute.Packet.RoundTrip.HeaderReading.{ReadsAddress}
use cheaproute.Packet.RoundTrip.Blanked.{blanked}
use cheaproute.Packet.RoundTrip.Udp.{deserialize_packet-Given}

-- A new reader yields the calls of a document.
pub document-Yields :
    (strtod_overflows : List ℕ → Bool) (indent : Bool) {w : JsonWriter} {calls : List Call}
    → Prints (new_writer indent) calls w
    → Yields strtod_overflows calls (new_reader w.out)
document-Yields strtod_overflows indent {w} {calls} p =
    let (last, e, ends, error) = read_all-Prints strtod_overflows indent p in
    read_all-Yields strtod_overflows (suc (length w.out)) calls (new_reader w.out) last e

-- A new reader behind its first token.
pub first-Stands :
    (strtod_overflows : List ℕ → Bool) (input : List ℕ) (r : JsonReader) (c : Call)
    (calls : List Call)
    → next strtod_overflows (new_reader input) ≡ (true, r)
    → seen r ≡ some c
    → Yields strtod_overflows calls r
    → Stands strtod_overflows c calls r
unfolding new_reader
first-Stands strtod_overflows input r c calls e shown y = record {
  shows = shown;
  nested = subst (λ a. IsNested a.1) e (next-Goes strtod_overflows (new_reader input) tt).1;
  yields = y;
}

-- `DeserializePacket` behind the first token of a text returns true and has the bytes.
abbrev pub ReadsAs : Platform → List ℕ → List ℕ → Type 0
ReadsAs env text bytes =
    (r : JsonReader) × (next env.strtod_overflows (new_reader text) ≡ (true, r))
    × ((s : Parsing) × (deserialize_packet env (record { reader = r; dest = [] }) ≡ ok tt s)
        × (s.dest ≡ bytes))

module _ (env : Platform) (packet : List ℕ) (source : ReadsAddress env packet 12)
    (destination : ReadsAddress env packet 16) (udp : IsUdp packet) where
  document-ReadsAs :
      (indent : Bool) (w : JsonWriter)
      → Prints (new_writer indent) (packet_calls packet []) w
      → ReadsAs env w.out (complete (blanked packet))
  unfolding Yields new_reader
  document-ReadsAs indent w p =
      let (r, e, shown, y) = document-Yields env.strtod_overflows indent p in
      let (s, d, h, x) =
        deserialize_packet-Given env packet [] (record { reader = r; dest = [] }) source destination
          udp refl (first-Stands env.strtod_overflows w.out r opens_object _ e shown y) in
      (r, e, (s, d, x))

  -- What `SerializePacket` writes of a UDP packet at the top of a document, indented or not,
  -- `DeserializePacket` reads back: it returns true, with the packet's bytes, whose lengths and checksums
  -- it fills in anew. The packet has an IPv4 header without options and without the reserved flag, and
  -- its UDP header is complete; `inet_pton` reads its two addresses.
  pub deserialize_packet-serialize_packet :
      (indent : Bool)
      → (w : JsonWriter) × (serialize_packet packet (new_writer indent) ≡ wrote w)
        × ReadsAs env w.out (complete (blanked packet))
  unfolding new_writer
  deserialize_packet-serialize_packet indent =
      let m = serialize_packet-Says {P = Unit {0}} top packet udp in
      go _ (serialize_packet packet (new_writer indent)) refl (m.moves.run (new_writer indent) refl)
        (m.says tt (new_writer indent) refl)
    where
      go :
          (t : View) (o : Outcome)
          → serialize_packet packet (new_writer indent) ≡ o
          → Lands t o
          → Leads (packet_calls packet) (new_writer indent) o
          → (w : JsonWriter) × (serialize_packet packet (new_writer indent) ≡ wrote w)
            × ReadsAs env w.out (complete (blanked packet))
      go t (wrote w) e l f = (w, e, document-ReadsAs indent w (f [] w done))
      go t assert_failed e l f = absurd l
      go t out_of_fuel e l f = absurd l
