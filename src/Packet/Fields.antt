-- ===== src/Packet/Fields.antt =====
-- The fields of the headers that net/json_packet.cc overlays on a packet's bytes, as a
-- little-endian machine reads them after `htons` and `htonl`; and `Ip4Address::ToString` of
-- net/ip_address.cc.
use cheaproute.Prelude.{ℕ, ◌+◌, ◌*◌, ◌/◌, ◌%◌, ◌^◌, Bool, List, ◌∷◌, ◌++◌, ◌==◌, get_or}
use cheaproute.JsonWriter.Text.{decimal}

-- A byte of the packet. The callers test the size before they read.
unfoldable pub byte : List ℕ → ℕ → ℕ
byte packet i = get_or packet i 0

-- `htons` of a 16-bit field, and `DerefU16BE`.
unfoldable pub u16 : List ℕ → ℕ → ℕ
unfolding byte
u16 packet i = byte packet i * 256 + byte packet (i + 1)

-- `htonl` of a 32-bit field, and `DerefU32BE`.
unfoldable pub u32 : List ℕ → ℕ → ℕ
unfolding u16
u32 packet i = u16 packet i * 65536 + u16 packet (i + 2)

-- A bit of a byte.
unfoldable pub bit : ℕ → ℕ → Bool
bit b k = b / 2 ^ k % 2 == 1

-- `Ip4Address(field).ToString()`: the four bytes in decimal, as `inet_ntop` prints them.
unfoldable pub ip4_text : List ℕ → ℕ → List ℕ
unfolding decimal
ip4_text packet i =
    decimal (byte packet i)
    ++ (b'.'
        ∷ (decimal (byte packet (i + 1))
            ++ (b'.' ∷ (decimal (byte packet (i + 2)) ++ (b'.' ∷ decimal (byte packet (i + 3)))))))
