-- ===== src/Packet/RoundTrip/Blanked.antt =====
-- net/json_packet.cc: a UDP packet whose lengths and checksums are zero, as `DeserializePacket` has it
-- before it fills them in.
use cheaproute.Prelude.{
  ℕ, ◌+◌, ◌*◌, ◌/◌, ◌%◌, ◌≤◌, ◌≡◌, refl, ◌∙◌, List, [], ◌∷◌, ◌++◌, All, IsByte, arith, length, drop,
  suc, zero,
}
use cheaproute.Packet.Fields.{byte, u16}
use cheaproute.Packet.Texts.{byte-small, All-drop}
use cheaproute.Packet.Deserialize.Headers.{be16, ip4_bytes}
use cheaproute.Packet.Deserialize.Completion.{
  set_u16, complete, complete_ip_header, complete_transport, set_checksum, header_size,
  pseudo_header,
}
use cheaproute.Packet.RoundTrip.PacketCalls.{IsUdp}
use cheaproute.Packet.RoundTrip.HeaderReading.{address_at, header_of}
use cheaproute.Packet.RoundTrip.Flags.{fragment-lem}

-- The fields that are filled in: both lengths and both checksums.
abbrev pub blanked : List ℕ → List ℕ
blanked packet = set_u16 2 0 (set_u16 10 0 (set_u16 24 0 (set_u16 26 0 packet)))

-- What the headers and the data of a packet are read as.
abbrev pub parts_read : List ℕ → List ℕ
parts_read packet =
    ip4_bytes (byte packet 0 / 16) (header_of packet)
    ++ ((be16 (u16 (drop 20 packet) 0) ++ (be16 (u16 (drop 20 packet) 2) ++ (0 ∷ 0 ∷ 0 ∷ 0 ∷ [])))
        ++ drop 28 packet)

abbrev fields : List ℕ → List ℕ
fields h =
    (byte h 0
      ∷ byte h 1
      ∷ 0
      ∷ 0
      ∷ byte h 4
      ∷ byte h 5
      ∷ byte h 6
      ∷ byte h 7
      ∷ byte h 8
      ∷ byte h 9
      ∷ 0
      ∷ 0
      ∷ [])
    ++ (address_at h 12
        ++ (address_at h 16
            ++ ((byte (drop 20 h) 0
                  ∷ byte (drop 20 h) 1
                  ∷ byte (drop 20 h) 2
                  ∷ byte (drop 20 h) 3
                  ∷ 0
                  ∷ 0
                  ∷ 0
                  ∷ 0
                  ∷ [])
                ++ drop 28 h)))

high-u16 : (h : List ℕ) (i : ℕ) → All IsByte h → u16 h i / 256 % 256 ≡ byte h i
unfolding u16
high-u16 h i b = omega (arith, byte-small h i b, byte-small h (i + 1) b)

low-u16 : (h : List ℕ) (i : ℕ) → All IsByte h → u16 h i % 256 ≡ byte h (i + 1)
unfolding u16
low-u16 h i b = omega (arith, byte-small h i b, byte-small h (i + 1) b)

parts_read-fields : (packet : List ℕ) → IsUdp packet → parts_read packet ≡ fields packet
unfolding ip4_bytes
parts_read-fields packet u =
    rw
      (
        version,
        fragment-lem (u16 packet 6) u.flags,
        high-u16 packet 4 u.bytes,
        low-u16 packet 4 u.bytes,
        high-u16 packet 6 u.bytes,
        low-u16 packet 6 u.bytes,
        high-u16 (drop 20 packet) 0 behind,
        low-u16 (drop 20 packet) 0 behind,
        high-u16 (drop 20 packet) 2 behind,
        low-u16 (drop 20 packet) 2 behind,
      )
      refl
  where
    behind : All IsByte (drop 20 packet)
    behind = All-drop IsByte 20 packet u.bytes

    version : byte packet 0 / 16 % 16 * 16 + 5 ≡ byte packet 0
    version = omega (arith, u.version)

-- All lists of at least `n` elements.
abbrev pub Each : ℕ → (List ℕ → Type 0) → Type 0
Each zero P = (rest : List ℕ) → P rest
Each (suc n) P = (b : ℕ) → Each n (λ rest. P (b ∷ rest))

pub long : (n : ℕ) (P : List ℕ → Type 0) → Each n P → (xs : List ℕ) → n ≤ length xs → P xs
long zero P f xs h = f xs
long (suc n) P f [] h = absurd (omega arith)
long (suc n) P f (x ∷ xs) h = long n (λ rest. P (x ∷ rest)) (f x) xs (omega arith)

fields-blanked : (packet : List ℕ) → 28 ≤ length packet → fields packet ≡ blanked packet
unfolding byte set_u16
fields-blanked =
    long 28 (λ t. fields t ≡ blanked t)
      (λ b0 b1 b2 b3 b4 b5 b6 b7 b8 b9 b10 b11 b12 b13 b14 b15 b16 b17 b18 b19 b20 b21 b22 b23 b24
          b25 b26 b27 rest.
        refl)

-- The parts that are read of a UDP packet are its bytes, without lengths and checksums.
pub parts_read-blanked : (packet : List ℕ) → IsUdp packet → parts_read packet ≡ blanked packet
parts_read-blanked packet u = parts_read-fields packet u ∙ fields-blanked packet u.long

-- A packet that was filled in is filled in as it was.
pub complete-blanked :
    (packet : List ℕ)
    → IsUdp packet
    → complete (blanked (complete (blanked packet))) ≡ complete (blanked packet)
unfolding complete complete_ip_header complete_transport set_checksum set_u16 header_size
    pseudo_header byte
complete-blanked packet u =
    long 28
      (λ t.
        byte t 0 ≡ 0x45
        → byte t 9 ≡ 17
        → complete (blanked (complete (blanked t))) ≡ complete (blanked t))
      (λ b0 b1 b2 b3 b4 b5 b6 b7 b8 b9 b10 b11 b12 b13 b14 b15 b16 b17 b18 b19 b20 b21 b22 b23 b24
          b25 b26 b27 rest v w.
        rw (v, w) refl)
      packet u.long u.version u.protocol
