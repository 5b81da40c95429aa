-- ===== src/Netlink/Monitor.antt =====
-- net/netlink_monitor.cc: the monitor, its requests and the reading of its socket.
use cheaproute.Prelude.{
  ℕ, ◌+◌, Bool, true, false, Option, none, some, List, [], ◌∷◌, ◌++◌, ◌==◌, ltb, if◌then◌else◌,
}
use cheaproute.Netlink.Builder.{new_builder, set_seq, create_header, set_at, build}
use cheaproute.Netlink.Interfaces.{
  Body, new_link, del_link, new_address, del_address, done, failed, other, Event, Interfaces, put,
  get_or_create, Changed, handle_link,
}
use cheaproute.Netlink.Addresses.{handle_address}

pub record Message : Type 0 where
  pub seq : ℕ
  pub body : Body

-- The fields, with the messages that the socket took and the broadcasts made so far. The numbers are
-- those of an `int` that is not negative.
pub record NetlinkMonitor : Type 0 where
  pub sequence_number : ℕ
  pub last_received_seq : ℕ
  pub unsent_messages : List (List ℕ)
  pub interfaces : Interfaces
  pub sent : List (List ℕ)
  pub events : List Event

abbrev pub new_monitor : NetlinkMonitor
new_monitor = record {
  sequence_number = 36;
  last_received_seq = 36;
  unsent_messages = [];
  interfaces = [];
  sent = [];
  events = [];
}

-- The interface that a handler changed, or none, is put back.
unfoldable pub change : NetlinkMonitor → Option Changed → Option NetlinkMonitor
unfolding put
change m none = none
change m (some (info, told)) =
    some (record m { interfaces = put info m.interfaces; events = m.events ++ told })

-- `last_received_seq_ = nh->nlmsg_seq`, for an answer.
unfoldable pub answered : ℕ → NetlinkMonitor → NetlinkMonitor
answered seq m = if seq == 0 then m else record m { last_received_seq = seq }

-- The `switch` over the type of a message.
unfoldable pub handle_message : Message → NetlinkMonitor → Option NetlinkMonitor
unfolding change handle_link handle_address get_or_create answered
handle_message message m = elim message.body [
  | new_link link ↦ change m (handle_link link (get_or_create link.index m.interfaces))
  | del_link link ↦ change m (handle_link link (get_or_create link.index m.interfaces))
  | new_address address ↦
      change m (handle_address true address (get_or_create address.index m.interfaces))
  | del_address address ↦
      change m (handle_address false address (get_or_create address.index m.interfaces))
  | done ↦ some (answered message.seq m)
  | failed ↦ some (answered message.seq m)
  | other ↦ some m
]

-- The loop over the messages of a datagram.
unfoldable pub handle_messages : List Message → NetlinkMonitor → Option NetlinkMonitor
unfolding handle_message
handle_messages [] m = some m
handle_messages (message ∷ messages) m = elim (handle_message message m) [
  | none ↦ none
  | some next ↦ handle_messages messages next
]

abbrev pub numbered : NetlinkMonitor → NetlinkMonitor
numbered m = record m { sequence_number = m.sequence_number + 1 }

abbrev pub link_query : ℕ → List ℕ
unfolding new_builder set_seq create_header build
link_query seq = build (create_header 16 (set_seq seq (new_builder 18 257)))

abbrev pub address_query : ℕ → ℕ → List ℕ
unfolding new_builder set_seq create_header set_at build
address_query family seq =
    build (set_at 16 (family ∷ []) (create_header 8 (set_seq seq (new_builder 22 257))))

module _ (sendmsg : List ℕ → Bool) where
  -- `SendMessageNow`; none where the socket does not take the whole message.
  unfoldable pub send_message_now : List ℕ → NetlinkMonitor → Option NetlinkMonitor
  send_message_now message m =
      if sendmsg message then some (record m { sent = m.sent ++ message ∷ [] }) else none

  -- `SendMessage`
  unfoldable pub send_message : List ℕ → NetlinkMonitor → Option NetlinkMonitor
  unfolding send_message_now
  send_message message m =
      if m.last_received_seq + 1 == m.sequence_number
      then send_message_now message m
      else some (record m { unsent_messages = m.unsent_messages ++ message ∷ [] })

  -- The loop over the unsent messages, which the numbers of the answers let out.
  unfoldable pub send_unsent : List (List ℕ) → ℕ → NetlinkMonitor → Option NetlinkMonitor
  unfolding send_message_now
  send_unsent [] old m = some (record m { unsent_messages = [] })
  send_unsent (message ∷ unsent) old m = elim (ltb old m.last_received_seq) [
    | false ↦ some (record m { unsent_messages = message ∷ unsent })
    | true ↦ elim (send_message_now message m) [
      | none ↦ none
      | some next ↦ send_unsent unsent (old + 1) next
    ]
  ]

  unfoldable pub then_send : ℕ → Option NetlinkMonitor → Option NetlinkMonitor
  unfolding send_unsent
  then_send old none = none
  then_send old (some m) = send_unsent m.unsent_messages old m

  -- One datagram.
  unfoldable pub handle_datagram : List Message → NetlinkMonitor → Option NetlinkMonitor
  unfolding handle_messages then_send
  handle_datagram messages m = then_send m.last_received_seq (handle_messages messages m)

  -- `HandleRead`: the datagrams that the socket has.
  unfoldable pub handle_read : List (List Message) → NetlinkMonitor → Option NetlinkMonitor
  unfolding handle_datagram
  handle_read [] m = some m
  handle_read (messages ∷ datagrams) m = elim (handle_datagram messages m) [
    | none ↦ none
    | some next ↦ handle_read datagrams next
  ]

  -- `BeginLinkQuery`
  unfoldable pub begin_link_query : NetlinkMonitor → Option NetlinkMonitor
  unfolding send_message link_query
  begin_link_query m = send_message (link_query (m.sequence_number + 1)) (numbered m)

  -- `BeginAddrQuery`
  unfoldable pub begin_address_query : ℕ → NetlinkMonitor → Option NetlinkMonitor
  unfolding send_message address_query
  begin_address_query family m =
      send_message (address_query family (m.sequence_number + 1)) (numbered m)

  -- `Init`, behind the calls that open the socket.
  unfoldable pub init : NetlinkMonitor → Option NetlinkMonitor
  unfolding begin_link_query begin_address_query
  init m = elim (begin_link_query m) [
    | none ↦ none
    | some first ↦ elim (begin_address_query 2 first) [
      | none ↦ none
      | some second ↦ begin_address_query 10 second
    ]
  ]
