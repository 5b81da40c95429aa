-- ===== src/Netlink/Mirror.antt =====
-- net/netlink_monitor.h: a listener that keeps a table of interfaces of its own, from what it is told.
use cheaproute.Prelude.{ℕ, ◌≡◌, true, false, Option, none, some, List, [], ◌∷◌, if◌then◌else◌}
use cheaproute.IpAddress.{key4, key6}
use cheaproute.Netlink.Sets.{insert, erase}
use cheaproute.Netlink.Interfaces.{
  NetInterfaceInfo, Event, interface_created, link_up, link_down, ip4_address_added,
  ip4_address_removed, ip6_address_added, ip6_address_removed, Interfaces, find, put,
}

-- The listener's interface after an event about it.
unfoldable pub apply_one : Event → Option NetInterfaceInfo → Option NetInterfaceInfo
apply_one (interface_created info) known = some info
apply_one (link_up info) none = none
apply_one (link_up info) (some mine) = some (record mine { link_active = true })
apply_one (link_down info) none = none
apply_one (link_down info) (some mine) = some (record mine { link_active = false })
apply_one (ip4_address_added info address) none = none
apply_one (ip4_address_added info address) (some mine) =
    some (record mine { ip4_addresses = (insert key4 address mine.ip4_addresses).0 })
apply_one (ip4_address_removed info address) none = none
apply_one (ip4_address_removed info address) (some mine) =
    some (record mine { ip4_addresses = (erase key4 address mine.ip4_addresses).0 })
apply_one (ip6_address_added info address) none = none
apply_one (ip6_address_added info address) (some mine) =
    some (record mine { ip6_addresses = (insert key6 address mine.ip6_addresses).0 })
apply_one (ip6_address_removed info address) none = none
apply_one (ip6_address_removed info address) (some mine) =
    some (record mine { ip6_addresses = (erase key6 address mine.ip6_addresses).0 })

abbrev pub index_of : Event → ℕ
index_of (interface_created info) = info.index
index_of (link_up info) = info.index
index_of (link_down info) = info.index
index_of (ip4_address_added info address) = info.index
index_of (ip4_address_removed info address) = info.index
index_of (ip6_address_added info address) = info.index
index_of (ip6_address_removed info address) = info.index

-- The listener's table, from the events in their order.
abbrev pub put_known : Option NetInterfaceInfo → Interfaces → Interfaces
put_known none table = table
put_known (some info) table = put info table

unfoldable pub apply : Event → Interfaces → Interfaces
apply event table = put_known (apply_one event (find (index_of event) table)) table

unfoldable pub replay : List Event → Interfaces → Interfaces
unfolding apply
replay [] table = table
replay (event ∷ events) table = replay events (apply event table)

-- What the listener should know of an interface: all of it, once it is public.
abbrev pub shown : Option NetInterfaceInfo → Option NetInterfaceInfo
shown none = none
shown (some info) = if info.is_public then some info else none

-- The listener's table agrees with the monitor's at every index.
abbrev pub Mirrors : Interfaces → Interfaces → Type 0
Mirrors table interfaces = (index : ℕ) → find index table ≡ shown (find index interfaces)
