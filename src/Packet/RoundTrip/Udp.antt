-- ===== src/Packet/RoundTrip/Udp.antt =====
-- net/json_packet.cc: `DeserializePacket` of the text of `SerializePacket`, for UDP packets.
use cheaproute.Prelude.{
  ℕ, ◌/◌, ◌≡◌, refl, sym, ◌∙◌, ap, subst, some, List, [], ◌∷◌, ◌++◌, append_assoc, All, IsByte,
  arith, ascii, ltb, ltb_false→le, length, drop, drop_all,
}
use cheaproute.JsonRoundTrip.Calls.{Call, opens_object, closes_object, name, text}
use cheaproute.Packet.Names.{protocol_names, name_at}
use cheaproute.Packet.Fields.{byte, u16}
use cheaproute.Packet.Texts.{All-drop}
use cheaproute.Packet.Deserialize.Parsing.{
  Platform, Parsing, Parser, ◌>>=◌, ◌>>◌, bind, destination, modify,
}
use cheaproute.Packet.Deserialize.Tables.{lookup_name}
use cheaproute.Packet.Deserialize.Headers.{be16, ip4_bytes, deserialize_ip4_header}
use cheaproute.Packet.Deserialize.Completion.{complete}
use cheaproute.Packet.Deserialize.Whole.{
  deserialize_transport, deserialize_rest, deserialize_parts, deserialize_packet,
}
use cheaproute.Packet.RoundTrip.Says.{Front}
use cheaproute.Packet.RoundTrip.HeaderCalls.{name_call, ip_calls_with, ip_calls, udp_calls}
use cheaproute.Packet.RoundTrip.PacketCalls.{IsUdp, data_part, behind_ip}
use cheaproute.Packet.RoundTrip.Reading.{
  At, Given, Gives, ◌▸◌, expect_current-Gives, expect_next_name-Gives,
}
use cheaproute.Packet.RoundTrip.HeaderReading.{
  ReadsAddress, header_of, deserialize_ip4_header-Gives, deserialize_udp_header-Gives,
}
use cheaproute.Packet.RoundTrip.DataReading.{deserialize_rest-Gives}
use cheaproute.Packet.RoundTrip.Blanked.{blanked, parts_read, parts_read-blanked}

-- The calls behind the brace.
abbrev body_calls : List ℕ → Front
body_calls packet rest = name (ascii "ip") ∷ ip_calls packet (behind_ip packet rest)

udp_found : lookup_name protocol_names (ascii "UDP") ≡ some 17
unfolding lookup_name
udp_found = refl

udp_call :
    (packet : List ℕ)
    → byte packet 9 ≡ 17
    → name_call (byte packet 9) (name_at protocol_names (byte packet 9)) ≡ text (ascii "UDP")
unfolding name_at
udp_call packet e = rw e refl

module _ (env : Platform) where
  -- From a given destination on.
  record GivesFrom {A : Type 0} (start : List ℕ) (now : Call) (f : Front) (end : Call)
      (p : Parser A) (a : A) (bytes : List ℕ) : Type 0 where
    run :
        (rest : List Call) (s : Parsing)
        → s.dest ≡ start
        → At env now (f rest) s.reader
        → Given env end rest a (start ++ bytes) (p env s)

module _ {env : Platform} where
  step_from :
      {A B : Type 0} {now mid end : Call} {f g : Front} {p : Parser A} {a : A} {b : B}
      {start xs ys : List ℕ} (k : A → Parser B)
      → Gives env now f mid p a xs
      → GivesFrom env (start ++ xs) mid g end (k a) b ys
      → GivesFrom env start now (λ r. f (g r)) end (p >>= k) b (xs ++ ys)
  step_from {g = g} {a = a} {start = start} {xs = xs} {ys = ys} k m n = record {
    run = λ rest s e h.
        let (t, d, w, x) = m.run (g rest) s h in
        let (u, d', w', x') = n.run rest t (x ∙ ap (λ y. y ++ xs) e) w in
        (u, ap (λ o. bind o (λ a t. k a env t)) d ∙ d', w', x' ∙ append_assoc start xs ys);
  }

  from_any :
      {A : Type 0} {now end : Call} {f : Front} {p : Parser A} {a : A} {start bytes : List ℕ}
      → Gives env now f end p a bytes
      → GivesFrom env start now f end p a bytes
  from_any {bytes = bytes} m = record {
    run = λ rest s e h. let (t, d, w, x) = m.run rest s h in (t, d, w, x ∙ ap (λ y. y ++ bytes) e);
  }

  with_destination :
      {B : Type 0} {now end : Call} {f : Front} {b : B} {start bytes : List ℕ}
      (k : List ℕ → Parser B)
      → GivesFrom env start now f end (k start) b bytes
      → GivesFrom env start now f end (destination >>= k) b bytes
  with_destination k m = record {
    run = λ rest s e h. let (t, d, w, x) = m.run rest s e h in (t, ap (λ y. k y env s) e ∙ d, w, x);
  }

  transport-Gives :
      {now : Call} (packet : List ℕ) (protocol : ℕ)
      → All IsByte packet
      → protocol ≡ 17
      → Gives env now
          (λ r. name (ascii "udp") ∷ udp_calls (drop 20 packet) r)
          closes_object
          (deserialize_transport protocol)
          tt
          (be16 (u16 (drop 20 packet) 0) ++ (be16 (u16 (drop 20 packet) 2) ++ (0 ∷ 0 ∷ 0 ∷ 0 ∷ [])))
  unfolding deserialize_transport
  transport-Gives packet protocol b e = rw e (
      expect_next_name-Gives "udp"
      ▸ deserialize_udp_header-Gives (drop 20 packet) (All-drop IsByte 20 packet b))

  rest-Gives :
      {now : Call} (packet : List ℕ)
      → All IsByte packet
      → Gives env now
          (λ r. data_part packet (closes_object ∷ r))
          closes_object
          deserialize_rest
          tt
          (drop 28 packet)
  rest-Gives packet b =
      deserialize_rest-Gives (drop 28 packet) (ltb 28 (length packet)) (All-drop IsByte 28 packet b)
        (λ e. drop_all 28 packet (ltb_false→le 28 (length packet) e))

  ip-Gives :
      {now : Call} (packet : List ℕ)
      → ReadsAddress env packet 12
      → ReadsAddress env packet 16
      → IsUdp packet
      → Gives env now
          (ip_calls packet)
          closes_object
          deserialize_ip4_header
          tt
          (ip4_bytes (byte packet 0 / 16) (header_of packet))
  ip-Gives {now} packet a c u =
      subst
        (λ x.
          Gives env now (ip_calls_with x packet) closes_object deserialize_ip4_header tt
            (ip4_bytes (byte packet 0 / 16) (header_of packet)))
        (sym (udp_call packet u.protocol))
        (deserialize_ip4_header-Gives packet (ascii "UDP") a c u.bytes (omega (arith, u.version))
          u.flags (udp_found ∙ ap some (sym u.protocol)))

  deserialize_parts-Gives :
      (packet : List ℕ)
      → ReadsAddress env packet 12
      → ReadsAddress env packet 16
      → IsUdp packet
      → GivesFrom env [] opens_object
          (body_calls packet)
          closes_object
          deserialize_parts
          tt
          (parts_read packet)
  unfolding deserialize_parts byte ip4_bytes
  deserialize_parts-Gives packet a c u = step_from _ (expect_current-Gives opens_object) (
      step_from _ (expect_next_name-Gives "ip") (
        step_from _ (ip-Gives packet a c u) (
          with_destination (λ headers. deserialize_transport (byte headers 9) >> deserialize_rest)
            (from_any (transport-Gives packet _ u.bytes u.protocol ▸ rest-Gives packet u.bytes)))))

module _ (env : Platform) where
  -- Where a reader shows the brace of a UDP packet that was written and yields the calls behind it,
  -- `DeserializePacket` reads the packet, with the lengths and checksums that it fills in.
  pub deserialize_packet-Given :
      (packet : List ℕ) (rest : List Call) (s : Parsing)
      → ReadsAddress env packet 12
      → ReadsAddress env packet 16
      → IsUdp packet
      → s.dest ≡ []
      → At env opens_object (body_calls packet rest) s.reader
      → Given env closes_object rest tt (complete (blanked packet)) (deserialize_packet env s)
  unfolding deserialize_packet
  deserialize_packet-Given packet rest s a c u e h =
      let (t, d, w, x) = (deserialize_parts-Gives packet a c u).run rest s e h in
      (
        record t { dest = complete t.dest },
        ap (λ o. bind o (λ _ v. modify complete env v)) d,
        w,
        ap complete (x ∙ parts_read-blanked packet u),
      )
