-- ===== src/Netlink/Interfaces.antt =====
-- net/netlink_monitor.h and netlink_monitor.cc: the interfaces, what the listeners are told, and the
-- handling of one message.
use cheaproute.Prelude.{
  ℕ, ◌%◌, Bool, true, false, not, Option, none, some, List, [], ◌∷◌, ◌++◌, ◌==◌, if◌then◌else◌,
}
use cheaproute.IpAddress.{Ip4AddressInfo}

-- The data of an attribute, `attributes_[type]`; the last one of a type stays.
abbrev pub Attributes : Type 0
Attributes = List (ℕ × List ℕ)

unfoldable pub attribute_or : ℕ → Attributes → Option (List ℕ) → Option (List ℕ)
attribute_or type [] found = found
attribute_or type ((kind, bytes) ∷ attributes) found =
    attribute_or type attributes (if kind == type then some bytes else found)

unfoldable pub attribute : ℕ → Attributes → Option (List ℕ)
unfolding attribute_or
attribute type attributes = attribute_or type attributes none

-- An `ifinfomsg` or `ifaddrmsg` with its attributes, by the type of the message.
pub record LinkMessage : Type 0 where
  pub index : ℕ
  pub flags : ℕ
  pub attributes : Attributes

pub record AddressMessage : Type 0 where
  pub family : ℕ
  pub prefix_len : ℕ
  pub index : ℕ
  pub attributes : Attributes

pub data Body : Type 0 where
  new_link : LinkMessage → Body
  del_link : LinkMessage → Body
  new_address : AddressMessage → Body
  del_address : AddressMessage → Body
  done : Body
  failed : Body
  other : Body

pub record NetInterfaceInfo : Type 0 where
  pub index : ℕ
  pub name : List ℕ
  pub link_active : Bool
  pub is_public : Bool
  pub ip4_addresses : List Ip4AddressInfo
  pub ip6_addresses : List (List ℕ)

abbrev pub new_interface : ℕ → NetInterfaceInfo
new_interface index = record {
  index = index;
  name = [];
  link_active = false;
  is_public = false;
  ip4_addresses = [];
  ip6_addresses = [];
}

-- What `NetlinkListener` is told, with its copy of the interface.
pub data Event : Type 0 where
  interface_created : NetInterfaceInfo → Event
  link_up : NetInterfaceInfo → Event
  link_down : NetInterfaceInfo → Event
  ip4_address_added : NetInterfaceInfo → Ip4AddressInfo → Event
  ip4_address_removed : NetInterfaceInfo → Ip4AddressInfo → Event
  ip6_address_added : NetInterfaceInfo → List ℕ → Event
  ip6_address_removed : NetInterfaceInfo → List ℕ → Event

-- `interfaces_by_index_`
abbrev pub Interfaces : Type 0
Interfaces = List NetInterfaceInfo

unfoldable pub find : ℕ → Interfaces → Option NetInterfaceInfo
find index [] = none
find index (info ∷ interfaces) = if info.index == index then some info else find index interfaces

-- The interface of an index is replaced, or a new one is added.
unfoldable pub put : NetInterfaceInfo → Interfaces → Interfaces
put info [] = info ∷ []
put info (first ∷ interfaces) =
    if first.index == info.index then info ∷ interfaces else first ∷ put info interfaces

-- `GetOrCreateInterface`, without the insertion, which `put` makes.
unfoldable pub found_or_new : ℕ → Option NetInterfaceInfo → NetInterfaceInfo
found_or_new index none = new_interface index
found_or_new index (some info) = info

unfoldable pub get_or_create : ℕ → Interfaces → NetInterfaceInfo
unfolding found_or_new find
get_or_create index interfaces = found_or_new index (find index interfaces)

-- A C string in a block of bytes; none where it does not end in the block.
unfoldable pub c_string : List ℕ → Option (List ℕ)
c_string [] = none
c_string (ch ∷ bytes) =
    if ch == 0 then some [] else elim (c_string bytes) [ none ↦ none | some str ↦ some (ch ∷ str) ]

-- An interface that a handler changed, with what it broadcast.
abbrev pub Changed : Type 0
Changed = NetInterfaceInfo × List Event

-- The name in the attribute, if the interface has none yet.
unfoldable pub publish : NetInterfaceInfo → Option (List ℕ) → Option Changed
publish info none = none
publish info (some name) =
    let named = record info { name = name; is_public = true } in
    some (named, interface_created named ∷ [])

unfoldable pub name_from : NetInterfaceInfo → Option (List ℕ) → Option Changed
unfolding publish c_string
name_from info none = some (info, [])
name_from info (some bytes) = publish info (c_string bytes)

unfoldable pub handle_name : LinkMessage → NetInterfaceInfo → Option Changed
unfolding name_from attribute
handle_name message info =
    if info.is_public then some (info, []) else name_from info (attribute 3 message.attributes)

abbrev pub same : Bool → Bool → Bool
same true b = b
same false b = not b

-- The status of the link, and who is told.
unfoldable pub handle_status : Bool → NetInterfaceInfo → Changed
handle_status link_active info =
    if same link_active info.link_active
    then (info, [])
    else (let changed = record info { link_active = link_active } in
        (
          changed,
          if info.is_public
              then (if link_active then link_up changed else link_down changed) ∷ []
              else [],
        ))

-- `RTM_NEWLINK` and `RTM_DELLINK`; none where reading the name runs past its attribute.
unfoldable pub handle_link : LinkMessage → NetInterfaceInfo → Option Changed
unfolding handle_name handle_status
handle_link message info = elim (handle_name message info) [
  | none ↦ none
  | some (named, told) ↦
      let (changed, more) = handle_status (message.flags % 2 == 1) named in
      some (changed, told ++ more)
]
