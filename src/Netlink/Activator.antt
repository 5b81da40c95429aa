-- ===== src/Netlink/Activator.antt =====
-- net/interface_activator.h: the listener that sets up the interfaces that it was given addresses for.
use cheaproute.Prelude.{ℕ, true, Option, none, some, List, [], ◌∷◌, if◌then◌else◌}
use cheaproute.IpAddress.{Ip4AddressInfo}
use cheaproute.Packet.Deserialize.Tables.{text_eq}
use cheaproute.Netlink.Interfaces.{Event, interface_created}
use cheaproute.Netlink.Device.{Socket, Netlink, set_device_status, set_device_address}

-- `interface_ip4_info_`: the entry in front is the one that was written last.
abbrev pub Configuration : Type 0
Configuration = List (List ℕ × Ip4AddressInfo)

-- `ConfigureInterface`
abbrev pub configure : List ℕ → Ip4AddressInfo → Configuration → Configuration
configure name info configuration = (name, info) ∷ configuration

unfoldable pub find_address : List ℕ → Configuration → Option Ip4AddressInfo
unfolding text_eq
find_address name [] = none
find_address name ((key, info) ∷ configuration) =
    if text_eq key name then some info else find_address name configuration

-- The two calls for an interface with an address.
unfoldable pub set_up : Socket → ℕ → Option Ip4AddressInfo → Netlink → Option Netlink
unfolding set_device_status set_device_address
set_up socket index none netlink = some netlink
set_up socket index (some info) netlink = elim (set_device_status socket index true netlink) [
  | none ↦ none
  | some up ↦ set_device_address socket index info up
]

-- `InterfaceCreated`; the other events are not handled.
unfoldable pub on_event : Socket → Configuration → Event → Netlink → Option Netlink
unfolding find_address set_up
on_event socket configuration (interface_created info) netlink =
    set_up socket info.index (find_address info.name configuration) netlink
on_event socket configuration _ netlink = some netlink

-- The events in their order.
unfoldable pub on_events : Socket → Configuration → List Event → Netlink → Option Netlink
unfolding on_event
on_events socket configuration [] netlink = some netlink
on_events socket configuration (event ∷ events) netlink =
    elim (on_event socket configuration event netlink) [
      | none ↦ none
      | some next ↦ on_events socket configuration events next
    ]
