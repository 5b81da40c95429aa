-- ===== src/Packet/RoundTrip/Again.antt =====
-- net/json_packet.cc: a UDP packet that was read back is read back once more, as it is.
use cheaproute.Prelude.{ℕ, ◌%◌, ◌≡◌, refl, sym, subst, some, Bool, List, All, IsByte, arith, length}
use cheaproute.JsonWriter.{JsonWriter, new_writer}
use cheaproute.Packet.Fields.{byte, u16, ip4_text}
use cheaproute.Packet.Writing.{wrote}
use cheaproute.Packet.Serialize.{serialize_packet}
use cheaproute.Packet.Deserialize.Parsing.{Platform}
use cheaproute.Packet.Deserialize.Completion.{
  complete, complete_ip_header, complete_transport, set_checksum, header_size, pseudo_header,
  set_u16,
}
use cheaproute.Packet.RoundTrip.PacketCalls.{IsUdp}
use cheaproute.Packet.RoundTrip.HeaderReading.{address_at, ReadsAddress}
use cheaproute.Packet.RoundTrip.Blanked.{blanked, long, complete-blanked}
use cheaproute.Packet.RoundTrip.Document.{ReadsAs, deserialize_packet-serialize_packet}

abbrev pub filled : List ℕ → List ℕ
filled packet = complete (blanked packet)

-- The fields that are not filled in stay.
record Keeps (packet : List ℕ) : Type 0 where
  version : byte (filled packet) 0 ≡ 0x45
  protocol : byte (filled packet) 9 ≡ 17
  flags : u16 (filled packet) 6 ≡ u16 packet 6
  source : address_at (filled packet) 12 ≡ address_at packet 12
  destination : address_at (filled packet) 16 ≡ address_at packet 16
  size : length (filled packet) ≡ length packet

filled-Keeps : (packet : List ℕ) → IsUdp packet → Keeps packet
unfolding complete complete_ip_header complete_transport set_checksum set_u16 header_size
    pseudo_header byte u16
filled-Keeps packet u =
    long 28 (λ t. byte t 0 ≡ 0x45 → byte t 9 ≡ 17 → Keeps t)
      (λ b0 b1 b2 b3 b4 b5 b6 b7 b8 b9 b10 b11 b12 b13 b14 b15 b16 b17 b18 b19 b20 b21 b22 b23 b24
          b25 b26 b27 rest v w.
        record {
          version = rw (v, w) refl;
          protocol = rw (v, w) refl;
          flags = rw (v, w) refl;
          source = rw (v, w) refl;
          destination = rw (v, w) refl;
          size = rw (v, w) refl;
        })
      packet u.long u.version u.protocol

low : (n : ℕ) → IsByte (n % 256)
low n = omega arith

filled-All : (packet : List ℕ) → IsUdp packet → All IsByte (filled packet)
unfolding complete complete_ip_header complete_transport set_checksum set_u16 header_size
    pseudo_header byte
filled-All packet u =
    long 28 (λ t. byte t 0 ≡ 0x45 → byte t 9 ≡ 17 → All IsByte t → All IsByte (filled t))
      (λ b0 b1 b2 b3 b4 b5 b6 b7 b8 b9 b10 b11 b12 b13 b14 b15 b16 b17 b18 b19 b20 b21 b22 b23 b24
          b25 b26 b27 rest v w
          (
            h0,
            (
              h1,
              (
                h2,
                (
                  h3,
                  (
                    h4,
                    (
                      h5,
                      (
                        h6,
                        (
                          h7,
                          (
                            h8,
                            (
                              h9,
                              (
                                h10,
                                (
                                  h11,
                                  (
                                    h12,
                                    (
                                      h13,
                                      (
                                        h14,
                                        (
                                          h15,
                                          (
                                            h16,
                                            (
                                              h17,
                                              (
                                                h18,
                                                (
                                                  h19,
                                                  (
                                                    h20,
                                                    (
                                                      h21,
                                                      (h22, (h23, (h24, (h25, (h26, (h27, hs)))))),
                                                    ),
                                                  ),
                                                ),
                                              ),
                                            ),
                                          ),
                                        ),
                                      ),
                                    ),
                                  ),
                                ),
                              ),
                            ),
                          ),
                        ),
                      ),
                    ),
                  ),
                ),
              ),
            ),
          ).
        rw (v, w)
          (
            omega arith,
            (
              h1,
              (
                low _,
                (
                  low _,
                  (
                    h4,
                    (
                      h5,
                      (
                        h6,
                        (
                          h7,
                          (
                            h8,
                            (
                              omega arith,
                              (
                                low _,
                                (
                                  low _,
                                  (
                                    h12,
                                    (
                                      h13,
                                      (
                                        h14,
                                        (
                                          h15,
                                          (
                                            h16,
                                            (
                                              h17,
                                              (
                                                h18,
                                                (
                                                  h19,
                                                  (
                                                    h20,
                                                    (
                                                      h21,
                                                      (
                                                        h22,
                                                        (
                                                          h23,
                                                          (low _, (low _, (low _, (low _, hs)))),
                                                        ),
                                                      ),
                                                    ),
                                                  ),
                                                ),
                                              ),
                                            ),
                                          ),
                                        ),
                                      ),
                                    ),
                                  ),
                                ),
                              ),
                            ),
                          ),
                        ),
                      ),
                    ),
                  ),
                ),
              ),
            ),
          ))
      packet u.long u.version u.protocol u.bytes

filled-IsUdp : (packet : List ℕ) → IsUdp packet → IsUdp (filled packet)
filled-IsUdp packet u =
    let k = filled-Keeps packet u in
    record {
      bytes = filled-All packet u;
      long = omega (arith, k.size, u.long);
      version = k.version;
      protocol = k.protocol;
      flags = omega (arith, k.flags, u.flags);
    }

-- Whether an address is read depends on its bytes.
same_address :
    (env : Platform) (h q : List ℕ) (i : ℕ)
    → address_at q i ≡ address_at h i
    → ReadsAddress env h i
    → ReadsAddress env q i
unfolding ip4_text byte
same_address env h q i e a = subst (λ x. env.inet_pton (ip4_text x 0) ≡ some x) (sym e) a

module _ (env : Platform) (packet : List ℕ) (source : ReadsAddress env packet 12)
    (destination : ReadsAddress env packet 16) (udp : IsUdp packet) where
  -- A UDP packet as `DeserializePacket` has it from the text of another is written and read back
  -- unchanged, byte by byte, its lengths and checksums among them.
  pub filled-stays :
      (indent : Bool)
      → (w : JsonWriter) × (serialize_packet (filled packet) (new_writer indent) ≡ wrote w)
        × ReadsAs env w.out (filled packet)
  filled-stays indent =
      let k = filled-Keeps packet udp in
      let (w, e, r) =
        deserialize_packet-serialize_packet env (filled packet)
          (same_address env packet (filled packet) 12 k.source source)
          (same_address env packet (filled packet) 16 k.destination destination)
          (filled-IsUdp packet udp) indent in
      (w, e, subst (ReadsAs env w.out) (complete-blanked packet udp) r)
