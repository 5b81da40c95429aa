-- ===== src/Netlink/WellFormed.antt =====
-- net/ip_address.h: what an `Ip4AddressInfo` holds.
use cheaproute.Prelude.{◌≡◌, length}
use cheaproute.IpAddress.{Ip4AddressInfo}

abbrev pub IsIp4 : Ip4AddressInfo → Type 0
IsIp4 info = (length info.address ≡ 4) × (length info.broadcast ≡ 4)
