-- ===== src/Netlink/Device.antt =====
-- net/netlink.cc: the two requests that set up a device.
use cheaproute.Prelude.{ℕ, ◌+◌, Bool, Option, none, some, List, [], ◌∷◌, ◌++◌, ◌==◌, if◌then◌else◌}
use cheaproute.IpAddress.{Ip4AddressInfo}
use cheaproute.Netlink.Builder.{
  le16, le32, set_at, new_builder, set_seq, create_header, add_attribute, build,
}

-- The socket: whether it takes a whole message, and the error in its answer or of receiving it, 0 if it
-- has none.
pub record Socket : Type 0 where
  pub sendmsg : List ℕ → Bool
  pub error_of : List ℕ → ℕ

-- The fields, with the messages that the socket took so far.
pub record Netlink : Type 0 where
  pub sequence_number : ℕ
  pub sent : List (List ℕ)

abbrev pub new_netlink : Netlink
new_netlink = record { sequence_number = 0; sent = [] }

-- The message of `SetDeviceStatus`: an `ifinfomsg` behind the `nlmsghdr`.
unfoldable pub status_message : ℕ → ℕ → Bool → List ℕ
unfolding set_at new_builder set_seq create_header build
status_message seq index up =
    let header = create_header 16 (set_seq seq (new_builder 19 5)) in
    let typed = set_at 18 (le16 1) (set_at 16 (0 ∷ []) header) in
    let flagged = set_at 24 (le32 (if up then 1 else 0)) (set_at 20 (le32 index) typed) in
    build (set_at 28 (le32 1) flagged)

unfoldable pub add_attributes : List (ℕ × List ℕ) → List ℕ → Option (List ℕ)
unfolding add_attribute
add_attributes [] message = some message
add_attributes ((type, bytes) ∷ attributes) message = elim (add_attribute type bytes message) [
  | none ↦ none
  | some longer ↦ add_attributes attributes longer
]

-- The message of `SetDeviceIp4AddressInfo`: an `ifaddrmsg` with three attributes.
unfoldable pub address_message : ℕ → ℕ → Ip4AddressInfo → Option (List ℕ)
unfolding set_at new_builder set_seq create_header add_attributes build
address_message seq index info =
    let header = create_header 8 (set_seq seq (new_builder 20 5)) in
    let sized = set_at 17 (info.prefix_len ∷ []) (set_at 16 (2 ∷ []) header) in
    elim (add_attributes ((2, info.address) ∷ (1, info.address) ∷ (4, info.broadcast) ∷ [])
      (set_at 20 (le32 index) sized)) [ none ↦ none | some message ↦ some (build message) ]

-- `SendNetlinkMessage` and `AbortIfNextMessageIsNetlinkError`; none where they abort.
unfoldable pub request : Socket → Option (List ℕ) → Netlink → Option Netlink
request socket none netlink = none
request socket (some message) netlink =
    if socket.sendmsg message
    then (if socket.error_of message == 0
        then some (record {
          sequence_number = netlink.sequence_number + 1;
          sent = netlink.sent ++ message ∷ [];
        })
        else none)
    else none

-- `SetDeviceStatus`
unfoldable pub set_device_status : Socket → ℕ → Bool → Netlink → Option Netlink
unfolding request status_message
set_device_status socket index up netlink =
    request socket (some (status_message (netlink.sequence_number + 1) index up)) netlink

-- `SetDeviceIp4AddressInfo`
unfoldable pub set_device_address : Socket → ℕ → Ip4AddressInfo → Netlink → Option Netlink
unfolding request address_message
set_device_address socket index info netlink =
    request socket (address_message (netlink.sequence_number + 1) index info) netlink
