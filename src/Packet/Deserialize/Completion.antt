-- ===== src/Packet/Deserialize/Completion.antt =====
-- net/json_packet.cc: the end of `DeserializePacket`, which fills in the lengths and the checksums.
use cheaproute.Prelude.{
  ℕ, ◌+◌, ◌-◌, ◌*◌, ◌%◌, List, [], ◌∷◌, ◌++◌, ◌==◌, if◌then◌else◌, length, take, drop,
}
use cheaproute.Packet.Fields.{byte}
use cheaproute.Packet.Checksum.{compute_ip_checksum, compute_header_checksum}
use cheaproute.Packet.Deserialize.Headers.{be16}

-- A 16-bit field at an offset.
unfoldable pub set_u16 : ℕ → ℕ → List ℕ → List ℕ
set_u16 offset value packet = take offset packet ++ (be16 value ++ drop (offset + 2) packet)

unfoldable pub header_size : List ℕ → ℕ
unfolding byte
header_size packet = byte packet 0 % 16 * 4

-- `tot_len`, whose value is cast to a `uint8_t`, and the checksum of the IP header.
unfoldable pub complete_ip_header : List ℕ → List ℕ
unfolding set_u16 header_size compute_header_checksum
complete_ip_header packet =
    let sized = set_u16 2 (length packet % 256) packet in
    set_u16 10 (compute_header_checksum (take (header_size sized) sized)) sized

-- The addresses, the protocol and the length, as the checksums of TCP and UDP count them.
unfoldable pub pseudo_header : List ℕ → List ℕ
unfolding header_size byte
pseudo_header packet =
    take 8 (drop 12 packet)
    ++ (0 ∷ byte packet 9 ∷ be16 ((length packet - header_size packet) % 65536))

-- The checksum of what follows the IP header, at `field` in it.
unfoldable pub set_checksum : ℕ → List ℕ → List ℕ → List ℕ
unfolding set_u16 header_size compute_ip_checksum
set_checksum field pseudo packet =
    let size = header_size packet in
    set_u16 (size + field) (compute_ip_checksum pseudo (drop size packet)) packet

unfoldable pub complete_transport : List ℕ → List ℕ
unfolding set_u16 set_checksum pseudo_header header_size byte
complete_transport packet =
    let size = header_size packet in
    if byte packet 9 == 1
    then set_checksum 2 [] packet
    else if byte packet 9 == 6
    then set_checksum 16 (pseudo_header packet) packet
    else if byte packet 9 == 17
    then set_checksum 6 (pseudo_header packet)
        (set_u16 (size + 4) ((length packet - size) % 65536) packet)
    else packet

unfoldable pub complete : List ℕ → List ℕ
unfolding complete_ip_header complete_transport
complete packet = complete_transport (complete_ip_header packet)
