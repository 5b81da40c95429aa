-- ===== src/Packet/RoundTrip/Verified.antt =====
-- net/json_packet.cc: the UDP checksum of a packet that was written and read back.
use cheaproute.Prelude.{
  ℕ, ◌+◌, ◌-◌, ◌/◌, ◌%◌, ◌^◌, ◌≤◌, ◌≡◌, refl, sym, ◌∙◌, ap, subst, Bool, List, [], ◌∷◌, ◌++◌, arith,
  ltb, if◌then◌else◌, length, drop, All, All-append, IsByte, true,
}
use cheaproute.JsonReader.State.{JsonReader}
use cheaproute.JsonReader.{next, new_reader}
use cheaproute.JsonWriter.{JsonWriter, new_writer}
use cheaproute.Packet.Fields.{byte}
use cheaproute.Packet.Writing.{wrote}
use cheaproute.Packet.Serialize.{serialize_packet}
use cheaproute.Packet.Checksum.{add, fold_carry, complement, compute_ip_checksum}
use cheaproute.Packet.Checksum.Verifies.{word_sum, checksum-residue, big_endian}
use cheaproute.Packet.Deserialize.Headers.{be16}
use cheaproute.Packet.Deserialize.Parsing.{Platform, Parsing, ok}
use cheaproute.Packet.Deserialize.Whole.{deserialize_packet}
use cheaproute.Packet.Deserialize.Completion.{
  complete, complete_ip_header, complete_transport, set_checksum, header_size, pseudo_header,
  set_u16,
}
use cheaproute.Packet.RoundTrip.PacketCalls.{IsUdp}
use cheaproute.Packet.RoundTrip.HeaderReading.{address_at, ReadsAddress}
use cheaproute.Packet.RoundTrip.Blanked.{blanked, long}
use cheaproute.Packet.RoundTrip.Document.{deserialize_packet-serialize_packet}

-- What a receiver of a UDP packet adds up in front of it: the addresses, the protocol and the length.
abbrev pub received_pseudo : ℕ → List ℕ → List ℕ
received_pseudo size packet = address_at packet 12 ++ (address_at packet 16 ++ (0 ∷ 17 ∷ be16 size))

abbrev residue_of : ℕ → List ℕ → ℕ
residue_of size packet =
    (word_sum (received_pseudo size packet) + word_sum (drop 20 packet)) % 65535

-- One fold of the carry leaves 16 bits of the words without the checksum.
abbrev folds_once : ℕ → List ℕ → Bool
folds_once size packet =
    ltb
      (fold_carry
        (word_sum (received_pseudo size packet) + word_sum (drop 20 (set_u16 26 0 packet))))
      65536

abbrev HasResidue : ℕ → List ℕ → Type 0
HasResidue size packet = residue_of size packet ≡ (if folds_once size packet then 0 else 1)

-- The residue of the words that a receiver adds up: 0 is what it demands, and 1 a checksum that is
-- wrong by one, where one fold of the carry of the other words leaves more than 16 bits.
abbrev pub UdpResidue : List ℕ → Type 0
UdpResidue packet = HasResidue (length packet - 20) packet

low-IsByte : (n : ℕ) → IsByte (n % 256)
low-IsByte n = omega arith

checksum-be16 :
    (pseudo segment after : List ℕ)
    → be16 (compute_ip_checksum pseudo segment) ++ after
      ≡ big_endian (compute_ip_checksum pseudo segment) after
unfolding compute_ip_checksum complement
checksum-be16 pseudo segment after =
    ap (λ b. b ∷ (compute_ip_checksum pseudo segment % 256 ∷ after))
      (top (2 ^ 32 - 1 - fold_carry (add segment (add pseudo 0))))
  where
    top : (n : ℕ) → n % 65536 / 256 % 256 ≡ n % 65536 / 256
    top n = omega arith

module _ (a b c d e f g k p q r s size : ℕ) (payload : List ℕ) where
  pseudo : List ℕ
  pseudo = a ∷ b ∷ c ∷ d ∷ e ∷ f ∷ g ∷ k ∷ 0 ∷ 17 ∷ be16 size

  before : List ℕ
  before = p ∷ q ∷ r ∷ s ∷ be16 size

  segment-residue :
      All IsByte (a ∷ b ∷ c ∷ d ∷ e ∷ f ∷ g ∷ k ∷ [])
      → All IsByte (p ∷ q ∷ r ∷ s ∷ [])
      → All IsByte payload
      → length payload ≤ 65508
      → (word_sum pseudo
            + word_sum (
                before
                ++ (be16 (compute_ip_checksum pseudo (before ++ (0 ∷ 0 ∷ payload))) ++ payload)))
          % 65535
        ≡ (if ltb (fold_carry (word_sum pseudo + word_sum (before ++ (0 ∷ 0 ∷ payload)))) 65536
            then 0
            else 1)
  unfolding pseudo before
  segment-residue addresses ports bytes small =
      ap (λ t. (word_sum pseudo + word_sum (before ++ t)) % 65535)
        (checksum-be16 pseudo (before ++ (0 ∷ 0 ∷ payload)) payload)
      ∙ checksum-residue pseudo before payload pseudo_bytes segment_bytes refl (omega arith)
    where
      pseudo_bytes : All IsByte pseudo
      pseudo_bytes =
          All-append IsByte (a ∷ b ∷ c ∷ d ∷ e ∷ f ∷ g ∷ k ∷ []) (0 ∷ 17 ∷ be16 size) addresses
            (omega arith, (omega arith, (low-IsByte (size / 256), (low-IsByte size, tt))))

      segment_bytes : All IsByte (before ++ (0 ∷ 0 ∷ payload))
      segment_bytes =
          All-append IsByte (p ∷ q ∷ r ∷ s ∷ []) (be16 size ++ (0 ∷ 0 ∷ payload)) ports
            (low-IsByte (size / 256), (low-IsByte size, (omega arith, (omega arith, bytes))))

filled-UdpResidue :
    (packet : List ℕ)
    → IsUdp packet
    → length packet ≤ 65535
    → UdpResidue (complete (blanked packet))
unfolding complete complete_ip_header complete_transport set_checksum set_u16 header_size
    pseudo_header byte pseudo before
filled-UdpResidue packet u =
    long 28
      (λ t.
        byte t 0 ≡ 0x45
        → byte t 9 ≡ 17
        → All IsByte t
        → length t ≤ 65535
        → UdpResidue (complete (blanked t)))
      (λ b0 b1 b2 b3 b4 b5 b6 b7 b8 b9 b10 b11 b12 b13 b14 b15 b16 b17 b18 b19 b20 b21 b22 b23 b24
          b25 b26 b27 rest v w
          (
            _,
            (
              _,
              (
                _,
                (
                  _,
                  (
                    _,
                    (
                      _,
                      (
                        _,
                        (
                          _,
                          (
                            _,
                            (
                              _,
                              (
                                _,
                                (
                                  _,
                                  (
                                    h12,
                                    (
                                      h13,
                                      (
                                        h14,
                                        (
                                          h15,
                                          (
                                            h16,
                                            (
                                              h17,
                                              (
                                                h18,
                                                (
                                                  h19,
                                                  (
                                                    h20,
                                                    (h21, (h22, (h23, (_, (_, (_, (_, hs))))))),
                                                  ),
                                                ),
                                              ),
                                            ),
                                          ),
                                        ),
                                      ),
                                    ),
                                  ),
                                ),
                              ),
                            ),
                          ),
                        ),
                      ),
                    ),
                  ),
                ),
              ),
            ),
          )
          small.
        rw (v, w)
          (subst
            (λ n. HasResidue n (
              complete (
                blanked (
                  0x45 ∷ b1 ∷ b2 ∷ b3 ∷ b4 ∷ b5 ∷ b6 ∷ b7 ∷ b8 ∷ 17 ∷ b10 ∷ b11 ∷ b12 ∷ b13 ∷ b14
                  ∷ b15 ∷ b16 ∷ b17 ∷ b18 ∷ b19 ∷ b20 ∷ b21 ∷ b22 ∷ b23 ∷ b24 ∷ b25 ∷ b26 ∷ b27
                  ∷ rest))))
            (omega arith)
            (segment-residue b12 b13 b14 b15 b16 b17 b18 b19 b20 b21 b22 b23
              ((length (
                    0x45 ∷ b1 ∷ b2 ∷ b3 ∷ b4 ∷ b5 ∷ b6 ∷ b7 ∷ b8 ∷ 17 ∷ b10 ∷ b11 ∷ b12 ∷ b13 ∷ b14
                    ∷ b15 ∷ b16 ∷ b17 ∷ b18 ∷ b19 ∷ b20 ∷ b21 ∷ b22 ∷ b23 ∷ b24 ∷ b25 ∷ b26 ∷ b27
                    ∷ rest)
                  - 20)
                % 65536)
              rest (h12, (h13, (h14, (h15, (h16, (h17, (h18, (h19, tt))))))))
              (h20, (h21, (h22, (h23, tt)))) hs (omega arith))))
      packet u.long u.version u.protocol u.bytes

module _ (env : Platform) (packet : List ℕ) (source : ReadsAddress env packet 12)
    (destination : ReadsAddress env packet 16) (udp : IsUdp packet)
    (small : length packet ≤ 65535) where
  -- What `DeserializePacket` reads back of the text that `SerializePacket` writes of a UDP packet is a
  -- packet whose 16-bit words behind the IP header, its checksum among them, and the words of the
  -- pseudo header add up to 0 modulo 65535, as a receiver demands, exactly where folding the carry of
  -- the words without the checksum once leaves a 16-bit sum; else they add up to 1.
  pub deserialize_packet-UdpResidue :
      (indent : Bool)
      → (w : JsonWriter) × (serialize_packet packet (new_writer indent) ≡ wrote w)
        × ((r : JsonReader) × (next env.strtod_overflows (new_reader w.out) ≡ (true, r))
            × ((s : Parsing) × (deserialize_packet env (record { reader = r; dest = [] }) ≡ ok tt s)
                × UdpResidue s.dest))
  deserialize_packet-UdpResidue indent =
      let (w, e, (r, shown, (s, read, same))) =
        deserialize_packet-serialize_packet env packet source destination udp indent in
      (
        w,
        e,
        (r, shown, (s, read, subst UdpResidue (sym same) (filled-UdpResidue packet udp small))),
      )
