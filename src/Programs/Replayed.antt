-- ===== src/Programs/Replayed.antt =====
-- playback_tun.cc: a log of UDP packets in an array, as `Playback` wants it, is sent as it was written.
use cheaproute.Prelude.{
  ℕ, zero, suc, ◌≤◌, ◌<◌, ◌≡◌, ◌≢◌, refl, sym, ◌∙◌, ap, Bool, true, List, [], ◌∷◌, ◌++◌, append-nil,
  append_assoc, map, All, arith, length,
}
use cheaproute.Prelude.Int.{ℤ}
use cheaproute.JsonReader.State.{JsonReader, start_array, end_array, start_object}
use cheaproute.JsonWriter.{JsonWriterMode, new_writer, document_start, JsonWriter}
use cheaproute.JsonWriter.Values.{top}
use cheaproute.JsonRoundTrip.Calls.{
  Call, opens_array, closes_array, opens_object, closes_object, Prints, done as nothing_printed,
}
use cheaproute.Packet.Landing.{at, Lands, View}
use cheaproute.Packet.Writing.{
  Action, Outcome, wrote, assert_failed, out_of_fuel, ◌>>◌, done, open_array, close_array,
}
use cheaproute.Packet.Serialize.{serialize_packet}
use cheaproute.Packet.Deserialize.Parsing.{Platform, Parsing, ok}
use cheaproute.Packet.Deserialize.Completion.{complete}
use cheaproute.Packet.Deserialize.Whole.{deserialize_packet}
use cheaproute.Packet.RoundTrip.Says.{
  Front, Leads, Says, SaysItems, open_array-Says, item-Says, no_items, then_items, filled-Says,
  opened-Says, closed-Says,
}
use cheaproute.Packet.RoundTrip.PacketCalls.{
  IsUdp, packet_calls, packet_calls-longer, serialize_packet-Says,
}
use cheaproute.Packet.RoundTrip.Yields.{Yields, Yields-room, Stands-next, seen-token}
use cheaproute.Packet.RoundTrip.Reading.{At}
use cheaproute.Packet.RoundTrip.HeaderReading.{ReadsAddress}
use cheaproute.Packet.RoundTrip.Blanked.{blanked}
use cheaproute.Packet.RoundTrip.Udp.{deserialize_packet-Given}
use cheaproute.Packet.RoundTrip.Document.{document-Yields, first-Stands}
use cheaproute.Programs.Forwarded.{written-runs}
use cheaproute.Programs.Running.{Run, runs, and_then}
use cheaproute.Programs.Tun.{Kernel, write_failed, Tun, written, send_packet}
use cheaproute.Programs.Playback.{send_read, round, packets_loop, play, playback}

-- The packets as the items of an array.
abbrev pub write_packets : List (List ℕ) → Action
write_packets [] = done
write_packets (packet ∷ packets) = serialize_packet packet >> write_packets packets

abbrev pub write_log : List (List ℕ) → Action
write_log packets = open_array >> write_packets packets >> close_array

abbrev packets_calls : List (List ℕ) → Front
packets_calls [] rest = rest
packets_calls (packet ∷ packets) rest = packet_calls packet (packets_calls packets rest)

write_packets-Says :
    {P : Type 0} {st : List JsonWriterMode} {p : ℤ} (packets : List (List ℕ))
    → All IsUdp packets
    → SaysItems P (packets_calls packets) st p (write_packets packets)
write_packets-Says [] u = no_items
write_packets-Says (packet ∷ packets) (u, us) =
    then_items (item-Says (λ m v. serialize_packet-Says v packet u)) (write_packets-Says packets us)

write_log-Says :
    {P : Type 0} {p : ℤ} (packets : List (List ℕ))
    → All IsUdp packets
    → Says P
        (λ r. opens_array ∷ packets_calls packets (closes_array ∷ r))
        (at document_start [] p)
        (at document_start [] p)
        (write_log packets)
write_log-Says packets u =
    closed-Says (filled-Says (opened-Says (open_array-Says top)) (write_packets-Says packets u))

-- What write(2) is given: the packets, with their lengths and checksums filled in anew.
abbrev pub completed : List (List ℕ) → List (List ℕ)
completed packets = map (λ packet. complete (blanked packet)) packets

-- The program goes on, and write(2) was given the packets since.
abbrev pub Offers : List (List ℕ) → Tun → Run Tun → Type 0
Offers packets tun run = (t : Tun) × (run ≡ runs t) × (t.offered ≡ tun.offered ++ packets)

abbrev pub AreRead : Platform → List ℕ → Type 0
AreRead env packet = ReadsAddress env packet 12 × ReadsAddress env packet 16 × IsUdp packet

calls_enough :
    (packets : List (List ℕ)) (rest : List Call)
    → length packets ≤ length (packets_calls packets (closes_array ∷ rest))
calls_enough [] rest = omega arith
calls_enough (packet ∷ packets) rest = omega (
  arith,
  packet_calls-longer packet (packets_calls packets (closes_array ∷ rest)),
  calls_enough packets rest,
)

round-packet :
    (env : Platform) (kernel : Kernel) (tun : Tun) (k : JsonReader → Tun → Run Tun) (r : JsonReader)
    → r.token_type ≡ start_object
    → round env kernel tun k (true, r)
      ≡ send_read kernel tun k (deserialize_packet env (record { reader = r; dest = [] }))
unfolding round
round-packet env kernel tun k r e = rw e refl

round-end :
    (env : Platform) (kernel : Kernel) (tun : Tun) (k : JsonReader → Tun → Run Tun) (r : JsonReader)
    → r.token_type ≡ end_array
    → round env kernel tun k (true, r) ≡ runs tun
unfolding round
round-end env kernel tun k r e = rw e refl

play-opens :
    (env : Platform) (kernel : Kernel) (tun : Tun) (r : JsonReader)
    → r.token_type ≡ start_array
    → play env kernel tun (true, r) ≡ packets_loop env kernel (suc (length r.stream)) r tun
unfolding play
play-opens env kernel tun r e = rw e refl

All-IsUdp :
    (env : Platform) (packets : List (List ℕ)) → All (AreRead env) packets → All IsUdp packets
All-IsUdp env [] a = tt
All-IsUdp env (packet ∷ packets) ((source, dest, udp), a) = (udp, All-IsUdp env packets a)

send_read-ok :
    (kernel : Kernel) (tun t : Tun) (k : JsonReader → Tun → Run Tun) (s : Parsing)
    → written s.dest tun (kernel (length tun.offered) s.dest) ≡ runs t
    → send_read kernel tun k (ok tt s) ≡ k s.reader t
unfolding send_read send_packet
send_read-ok kernel tun t k s e = ap (λ o. and_then o (k s.reader)) e

module _ (env : Platform) (kernel : Kernel)
    (works : (n : ℕ) (packet : List ℕ) → kernel n packet ≢ write_failed) where
  packets_loop-Offers :
      (fuel : ℕ) (packets : List (List ℕ)) (now : Call) (r : JsonReader) (tun : Tun)
      → All (AreRead env) packets
      → length packets < fuel
      → At env now (packets_calls packets (closes_array ∷ [])) r
      → Offers (completed packets) tun (packets_loop env kernel fuel r tun)
  unfolding packets_loop
  packets_loop-Offers zero packets now r tun a l h = absurd (omega arith)
  packets_loop-Offers (suc fuel) [] now r tun a l h =
      let (r', e, w) = Stands-next env.strtod_overflows now closes_array [] r h in
      (
        tun,
        ap (round env kernel tun (packets_loop env kernel fuel)) e
            ∙ round-end env kernel tun (packets_loop env kernel fuel) r'
                (seen-token r' closes_array w.shows),
        sym (append-nil tun.offered),
      )
  packets_loop-Offers (suc fuel) (packet ∷ packets) now r tun ((source, dest, udp), a) l h =
      let (r', e, w) = Stands-next env.strtod_overflows now opens_object _ r h in
      let (s, d, x, b) =
        deserialize_packet-Given env packet (packets_calls packets (closes_array ∷ []))
          (record { reader = r'; dest = [] }) source dest udp refl w in
      let (t, f, o, _) =
        written-runs s.dest tun (kernel (length tun.offered) s.dest)
          (works (length tun.offered) s.dest) in
      let (u, g, p) = packets_loop-Offers fuel packets closes_object s.reader t a (omega arith) x in
      (
        u,
        ap (round env kernel tun (packets_loop env kernel fuel)) e
            ∙ round-packet env kernel tun (packets_loop env kernel fuel) r'
                (seen-token r' opens_object w.shows)
            ∙ ap (send_read kernel tun (packets_loop env kernel fuel)) d
            ∙ send_read-ok kernel tun t (packets_loop env kernel fuel) s f
            ∙ g,
        p
            ∙ ap (λ y. y ++ completed packets) (o ∙ ap (λ y. tun.offered ++ y ∷ []) b)
            ∙ append_assoc tun.offered (complete (blanked packet) ∷ []) (completed packets),
      )

  log-Offers :
      (indent : Bool) (packets : List (List ℕ)) (tun : Tun) (w : JsonWriter)
      → All (AreRead env) packets
      → Prints (new_writer indent) (opens_array ∷ packets_calls packets (closes_array ∷ [])) w
      → Offers (completed packets) tun (playback env kernel w.out tun)
  unfolding playback Yields
  log-Offers indent packets tun w a p =
      let (r, e, shown, y) = document-Yields env.strtod_overflows indent p in
      let h = first-Stands env.strtod_overflows w.out r opens_array _ e shown y in
      let (t, f, o) =
        packets_loop-Offers (suc (length r.stream)) packets opens_array r tun a (room r packets h)
          h in
      (
        t,
        ap (play env kernel tun) e
            ∙ play-opens env kernel tun r (seen-token r opens_array shown)
            ∙ f,
        o,
      )
    where
      room :
          (r : JsonReader) (packets : List (List ℕ))
          → At env opens_array (packets_calls packets (closes_array ∷ [])) r
          → length packets < suc (length r.stream)
      room r packets h =
          omega
            (arith, calls_enough packets [], Yields-room env.strtod_overflows _ r h.yields h.nested)

  -- `Playback`, of what is printed of UDP packets as the items of an array, indented or not, returns, and
  -- hands to write(2) each packet in order, its lengths and checksums filled in anew. The packets have an
  -- IPv4 header without options and without the reserved flag, `inet_pton` reads their addresses, and
  -- write(2) has no error but EAGAIN.
  pub playback-Offers :
      (indent : Bool) (packets : List (List ℕ)) (tun : Tun)
      → All (AreRead env) packets
      → (w : JsonWriter) × (write_log packets (new_writer indent) ≡ wrote w)
        × Offers (completed packets) tun (playback env kernel w.out tun)
  unfolding new_writer
  playback-Offers indent packets tun a =
      let m = write_log-Says {P = Unit {0}} packets (All-IsUdp env packets a) in
      go _ (write_log packets (new_writer indent)) refl (m.moves.run (new_writer indent) refl)
        (m.says tt (new_writer indent) refl)
    where
      go :
          (t : View) (o : Outcome)
          → write_log packets (new_writer indent) ≡ o
          → Lands t o
          → Leads
              (λ r. opens_array ∷ packets_calls packets (closes_array ∷ r))
              (new_writer indent)
              o
          → (w : JsonWriter) × (write_log packets (new_writer indent) ≡ wrote w)
            × Offers (completed packets) tun (playback env kernel w.out tun)
      go t (wrote w) e l f = (w, e, log-Offers indent packets tun w a (f [] w nothing_printed))
      go t assert_failed e l f = absurd l
      go t out_of_fuel e l f = absurd l
