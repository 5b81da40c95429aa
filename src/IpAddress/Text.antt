-- ===== src/IpAddress/Text.antt =====
-- net/ip_address.cc: the conversions and the text of an `Ip4AddressInfo`.
use cheaproute.Prelude.{
  ℕ, ◌-◌, ◌*◌, ◌/◌, ◌%◌, ◌^◌, ◌&&◌, Option, none, some, List, [], ◌∷◌, ◌++◌, ascii, ◌==◌, leb,
  if◌then◌else◌,
}
use cheaproute.IpAddress.{Ip4AddressInfo}
use cheaproute.Packet.Fields.{ip4_text}
use cheaproute.Packet.Deserialize.Tables.{text_eq}

-- `Ip4Address(network_val)`, from the value in the order of the host.
unfoldable pub from_value : ℕ → List ℕ
from_value value =
    value / 16777216 % 256 ∷ value / 65536 % 256 ∷ value / 256 % 256 ∷ value % 256 ∷ []

-- `0xffffffff << (32 - prefix_len)`; a shift by 32 or by a negative number is undefined.
unfoldable pub netmask : ℕ → Option ℕ
netmask prefix_len =
    if leb 1 prefix_len && leb prefix_len 32
    then some (0xffffffff * 2 ^ (32 - prefix_len) % 2 ^ 32)
    else none

unfoldable pub text_with_mask : Ip4AddressInfo → Option ℕ → Option (List ℕ)
unfolding from_value ip4_text text_eq
text_with_mask info none = none
text_with_mask info (some mask) = some (
    ascii "[addr: "
    ++ (ip4_text info.address 0
        ++ ((if text_eq info.broadcast (0 ∷ 0 ∷ 0 ∷ 0 ∷ [])
              then []
              else ascii " bcast: " ++ ip4_text info.broadcast 0)
            ++ ((if info.prefix_len == 0
                  then []
                  else ascii " mask: " ++ ip4_text (from_value mask) 0)
                ++ ascii "]"))))

-- `Ip4AddressInfo::ToString`; none where the mask is undefined.
unfoldable pub info_text : Ip4AddressInfo → Option (List ℕ)
unfolding text_with_mask netmask
info_text info = text_with_mask info (netmask info.prefix_len)
