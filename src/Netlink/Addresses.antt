-- ===== src/Netlink/Addresses.antt =====
-- net/netlink_monitor.cc: the addresses of an interface that come and go.
use cheaproute.Prelude.{
  ℕ, Bool, Option, none, some, List, [], ◌∷◌, ◌==◌, if◌then◌else◌, length, replicate,
}
use cheaproute.IpAddress.{Ip4AddressInfo, no_address, key4, key6}
use cheaproute.Netlink.Sets.{insert, erase}
use cheaproute.Netlink.Interfaces.{
  attribute, AddressMessage, NetInterfaceInfo, Event, ip4_address_added, ip4_address_removed,
  ip6_address_added, ip6_address_removed, Changed,
}

-- `Ip4Address(ptr, size)`, or the address as it is where there is no attribute; none where the
-- assert on the size fails.
unfoldable pub address_from : ℕ → List ℕ → Option (List ℕ) → Option (List ℕ)
address_from size address none = some address
address_from size address (some bytes) = if length bytes == size then some bytes else none

-- `GetIp4AddressInfo`
unfoldable pub ip4_info : AddressMessage → Option Ip4AddressInfo
unfolding address_from attribute
ip4_info message = elim (address_from 4 no_address.address (attribute 1 message.attributes)) [
  | none ↦ none
  | some address ↦ elim (address_from 4 no_address.broadcast (attribute 4 message.attributes)) [
    | none ↦ none
    | some broadcast ↦
        some (record { address = address; broadcast = broadcast; prefix_len = message.prefix_len })
  ]
]

-- `GetIp6Address`
unfoldable pub ip6_address : AddressMessage → Option (List ℕ)
unfolding address_from attribute
ip6_address message = address_from 16 (replicate 16 0) (attribute 1 message.attributes)

-- Who is told of a change that was made, if the interface is public.
unfoldable pub tell : Bool → NetInterfaceInfo → Event → List Event
tell changed info event = if changed then (if info.is_public then event ∷ [] else []) else []

unfoldable pub add4 : Ip4AddressInfo → NetInterfaceInfo → Changed
unfolding insert tell
add4 address info =
    let (addresses, changed) = insert key4 address info.ip4_addresses in
    let now = record info { ip4_addresses = addresses } in
    (now, tell changed now (ip4_address_added now address))

unfoldable pub remove4 : Ip4AddressInfo → NetInterfaceInfo → Changed
unfolding erase tell
remove4 address info =
    let (addresses, changed) = erase key4 address info.ip4_addresses in
    let now = record info { ip4_addresses = addresses } in
    (now, tell changed now (ip4_address_removed now address))

unfoldable pub add6 : List ℕ → NetInterfaceInfo → Changed
unfolding insert tell
add6 address info =
    let (addresses, changed) = insert key6 address info.ip6_addresses in
    let now = record info { ip6_addresses = addresses } in
    (now, tell changed now (ip6_address_added now address))

unfoldable pub remove6 : List ℕ → NetInterfaceInfo → Changed
unfolding erase tell
remove6 address info =
    let (addresses, changed) = erase key6 address info.ip6_addresses in
    let now = record info { ip6_addresses = addresses } in
    (now, tell changed now (ip6_address_removed now address))

-- The change that an address that was read makes.
unfoldable pub with_address :
    {A : Type 0} → (A → NetInterfaceInfo → Changed) → Option A → NetInterfaceInfo → Option Changed
with_address change none info = none
with_address change (some address) info = some (change address info)

-- `RTM_NEWADDR` and `RTM_DELADDR`; none where an assert on a size fails.
unfoldable pub handle_address : Bool → AddressMessage → NetInterfaceInfo → Option Changed
unfolding ip4_info ip6_address add4 remove4 add6 remove6 with_address
handle_address is_new message info =
    if message.family == 2
    then with_address (if is_new then add4 else remove4) (ip4_info message) info
    else if message.family == 10
    then with_address (if is_new then add6 else remove6) (ip6_address message) info
    else some (info, [])
