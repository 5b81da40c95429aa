-- ===== src/Netlink/Activated.antt =====
-- net/interface_activator.h: the requests that the activator makes for the events that it gets.
use cheaproute.Prelude.{
  ℕ, ◌+◌, ◌≡◌, refl, sym, ◌∙◌, ap, subst, true, Option, none, some, List, [], ◌∷◌, ◌++◌,
  append_assoc, append-nil, if_rule, All,
}
use cheaproute.IpAddress.{Ip4AddressInfo}
use cheaproute.Packet.Deserialize.Tables.{text_eq}
use cheaproute.Netlink.Interfaces.{
  Event, interface_created, link_up, link_down, ip4_address_added, ip4_address_removed,
  ip6_address_added, ip6_address_removed,
}
use cheaproute.Netlink.Device.{
  Socket, Netlink, status_message, request, set_device_status, set_device_address,
}
use cheaproute.Netlink.Activator.{Configuration, find_address, set_up, on_event, on_events}
use cheaproute.Netlink.Layout.{address_bytes, address_message-Layout}
use cheaproute.Netlink.WellFormed.{IsIp4}

-- The socket takes every message and answers without an error.
abbrev pub IsWilling : Socket → Type 0
IsWilling socket =
    (message : List ℕ) → (socket.sendmsg message ≡ true) × (socket.error_of message ≡ 0)

-- The addresses that were configured have four bytes.
abbrev pub HasIp4 : Configuration → Type 0
HasIp4 configuration = All (λ entry. IsIp4 entry.1) configuration

-- The interfaces that are set up, in the order in which they were created.
unfoldable pub wanted : Configuration → List Event → List (ℕ × Ip4AddressInfo)
unfolding find_address
wanted configuration [] = []
wanted configuration (interface_created info ∷ events) =
    elim (find_address info.name configuration) [
      | none ↦ wanted configuration events
      | some address ↦ (info.index, address) ∷ wanted configuration events
    ]
wanted configuration (_ ∷ events) = wanted configuration events

-- Two requests for each, with rising numbers.
unfoldable pub requests_from : ℕ → List (ℕ × Ip4AddressInfo) → List (List ℕ)
requests_from seq [] = []
requests_from seq ((index, info) ∷ rest) =
    status_message (seq + 1) index true
    ∷ address_bytes (seq + 1 + 1) index info
    ∷ requests_from (seq + 1 + 1) rest

find_address-IsIp4 :
    (name : List ℕ) (configuration : Configuration) (info : Ip4AddressInfo)
    → HasIp4 configuration
    → find_address name configuration ≡ some info
    → IsIp4 info
unfolding find_address
find_address-IsIp4 name [] info h = λ e. cc
find_address-IsIp4 name ((key, address) ∷ configuration) info (h, k) =
    if_rule (λ o. o ≡ some info → IsIp4 info) (text_eq key name)
      (λ _ e. subst IsIp4 (inner address info e) h)
      (λ _. find_address-IsIp4 name configuration info k)
  where
    inner : (a b : Ip4AddressInfo) → some a ≡ some b → a ≡ b
    inner a b e = cc

after_both : ℕ → Ip4AddressInfo → Netlink → Netlink
after_both index info netlink = record {
  sequence_number = netlink.sequence_number + 1 + 1;
  sent =
      (netlink.sent ++ status_message (netlink.sequence_number + 1) index true ∷ [])
      ++ address_bytes (netlink.sequence_number + 1 + 1) index info ∷ [];
}

-- The requests were made, behind those that were made before.
abbrev pub Made : Netlink → List (ℕ × Ip4AddressInfo) → Option Netlink → Type 0
Made before pairs none = ⊥
Made before pairs (some after) =
    after.sent ≡ before.sent ++ requests_from before.sequence_number pairs

Made-more :
    (index : ℕ) (info : Ip4AddressInfo) (pairs : List (ℕ × Ip4AddressInfo)) (before : Netlink)
    (o : Option Netlink)
    → Made (after_both index info before) pairs o
    → Made before ((index, info) ∷ pairs) o
unfolding requests_from after_both
Made-more index info pairs before none h = h
Made-more index info pairs before (some after) h =
    h
    ∙ (append_assoc (before.sent ++ status ∷ []) (address ∷ []) rest
        ∙ append_assoc before.sent (status ∷ []) (address ∷ rest))
  where
    status : List ℕ
    status = status_message (before.sequence_number + 1) index true

    address : List ℕ
    address = address_bytes (before.sequence_number + 1 + 1) index info

    rest : List (List ℕ)
    rest = requests_from (before.sequence_number + 1 + 1) pairs

module _ (socket : Socket) (willing : IsWilling socket) where
  request-sends :
      (message : List ℕ) (netlink : Netlink)
      → request socket (some message) netlink
        ≡ some (record {
          sequence_number = netlink.sequence_number + 1;
          sent = netlink.sent ++ message ∷ [];
        })
  unfolding request
  request-sends message netlink = rw ((willing message).0, (willing message).1) refl

  set_up-sends :
      (index : ℕ) (info : Ip4AddressInfo) (netlink : Netlink)
      → IsIp4 info
      → set_up socket index (some info) netlink ≡ some (after_both index info netlink)
  unfolding set_up set_device_status set_device_address after_both
  set_up-sends index info netlink four =
      ap then_address
        (request-sends (status_message (netlink.sequence_number + 1) index true) netlink)
      ∙ (ap (λ o. request socket o up)
            (address_message-Layout (netlink.sequence_number + 1 + 1) index info four)
          ∙ request-sends (address_bytes (netlink.sequence_number + 1 + 1) index info) up)
    where
      then_address : Option Netlink → Option Netlink
      then_address o = elim o [
        | none ↦ none
        | some next ↦ set_device_address socket index info next
      ]

      up : Netlink
      up = record {
        sequence_number = netlink.sequence_number + 1;
        sent = netlink.sent ++ status_message (netlink.sequence_number + 1) index true ∷ [];
      }

  -- Where the socket takes every message and answers without an error, and the configured addresses
  -- have four bytes, the activator makes exactly two requests for each interface that it is told was
  -- created and whose name was configured, in that order and with rising numbers: the interface goes
  -- up, and it gets its address.
  pub on_events-Made :
      (configuration : Configuration) (events : List Event) (before : Netlink)
      → HasIp4 configuration
      → Made before (wanted configuration events) (on_events socket configuration events before)
  unfolding on_events on_event wanted requests_from set_up
  on_events-Made configuration [] before h = sym (append-nil before.sent)
  on_events-Made configuration (interface_created info ∷ events) before h =
      by_address (find_address info.name configuration) refl
        (λ next. on_events-Made configuration events next h)
    where
      then_events : Option Netlink → Option Netlink
      then_events o = elim o [
        | none ↦ none
        | some next ↦ on_events socket configuration events next
      ]

      by_address :
          (o : Option Ip4AddressInfo)
          → find_address info.name configuration ≡ o
          → ((next : Netlink)
              → Made next
                  (wanted configuration events)
                  (on_events socket configuration events next))
          → Made before
              (elim o [
                | none ↦ wanted configuration events
                | some address ↦ (info.index, address) ∷ wanted configuration events
              ])
              (then_events (set_up socket info.index o before))
      by_address none e rest = rest before
      by_address (some address) e rest =
          subst
            (λ o. Made before ((info.index, address) ∷ wanted configuration events) (then_events o))
            (sym (
              set_up-sends info.index address before
                (find_address-IsIp4 info.name configuration address h e)))
            (Made-more info.index address (wanted configuration events) before _
              (rest (after_both info.index address before)))
  on_events-Made configuration (link_up info ∷ events) before h =
      on_events-Made configuration events before h
  on_events-Made configuration (link_down info ∷ events) before h =
      on_events-Made configuration events before h
  on_events-Made configuration (ip4_address_added info address ∷ events) before h =
      on_events-Made configuration events before h
  on_events-Made configuration (ip4_address_removed info address ∷ events) before h =
      on_events-Made configuration events before h
  on_events-Made configuration (ip6_address_added info address ∷ events) before h =
      on_events-Made configuration events before h
  on_events-Made configuration (ip6_address_removed info address ∷ events) before h =
      on_events-Made configuration events before h
