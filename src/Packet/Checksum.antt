-- ===== src/Packet/Checksum.antt =====
-- net/json_packet.cc: `Add` and the two functions `ComputeIpChecksum`, on the bytes of a header.
pub mod Verifies
use cheaproute.Prelude.{ℕ, ◌+◌, ◌-◌, ◌*◌, ◌/◌, ◌%◌, ◌^◌, List, [], ◌∷◌}

-- `Add`, to a `uint32_t`. A last odd byte counts as one with a zero behind it.
unfoldable pub add : List ℕ → ℕ → ℕ
add [] result = result
add (b ∷ []) result = (result + b * 256) % 2 ^ 32
add (a ∷ b ∷ bytes) result = add bytes ((result + (a * 256 + b)) % 2 ^ 32)

-- `(result & 0xffff) + (result >> 16)`
unfoldable pub fold_carry : ℕ → ℕ
fold_carry result = result % 65536 + result / 65536

-- `static_cast<uint16_t>(~...)`, the value whose bytes `htons` puts in network order.
unfoldable pub complement : ℕ → ℕ
complement sum = (2 ^ 32 - 1 - sum) % 65536

-- `ComputeIpChecksum` with a pseudo header.
unfoldable pub compute_ip_checksum : List ℕ → List ℕ → ℕ
unfolding add fold_carry complement
compute_ip_checksum pseudo header = complement (fold_carry (add header (add pseudo 0)))

-- `ComputeIpChecksum` of a header.
unfoldable pub compute_header_checksum : List ℕ → ℕ
unfolding add fold_carry complement
compute_header_checksum header = complement (fold_carry (add header 0))
