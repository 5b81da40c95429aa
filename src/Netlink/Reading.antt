-- ===== src/Netlink/Reading.antt =====
-- net/netlink_monitor.cc: what each message keeps of the interfaces and the events, `HandleRead` keeps.
use cheaproute.Prelude.{
  ℕ, ◌+◌, ◌≡◌, Bool, Option, none, some, List, [], ◌∷◌, ltb, ◌==◌, if_rule, elim_rule, subst,
}
use cheaproute.Netlink.Interfaces.{Event, Interfaces}
use cheaproute.Netlink.Monitor.{
  Message, NetlinkMonitor, new_monitor, handle_message, handle_messages, send_message_now,
  send_message, send_unsent, then_send, handle_datagram, handle_read, begin_link_query,
  begin_address_query, init, link_query, address_query, numbered,
}

module _ (P : Interfaces → List Event → Type 0) where
  abbrev pub Kept : Option NetlinkMonitor → Type 0
  Kept none = Unit
  Kept (some m) = P m.interfaces m.events

  Kept-then :
      (o : Option NetlinkMonitor) (f : NetlinkMonitor → Option NetlinkMonitor)
      → Kept o
      → ((m : NetlinkMonitor) → P m.interfaces m.events → Kept (f m))
      → Kept (elim o [ none ↦ none | some m ↦ f m ])
  Kept-then none f h k = tt
  Kept-then (some m) f h k = k m h

  pub Kept-some :
      (o : Option NetlinkMonitor) (m : NetlinkMonitor)
      → o ≡ some m
      → Kept o
      → P m.interfaces m.events
  Kept-some o m e h = subst Kept e h

  module _ (sendmsg : List ℕ → Bool) where
    send_now-Kept :
        (message : List ℕ) (m : NetlinkMonitor)
        → P m.interfaces m.events
        → Kept (send_message_now sendmsg message m)
    unfolding send_message_now
    send_now-Kept message m h = if_rule Kept (sendmsg message) (λ _. h) (λ _. tt)

    send_message-Kept :
        (message : List ℕ) (m : NetlinkMonitor)
        → P m.interfaces m.events
        → Kept (send_message sendmsg message m)
    unfolding send_message
    send_message-Kept message m h =
        if_rule Kept (m.last_received_seq + 1 == m.sequence_number) (λ _. send_now-Kept message m h)
          (λ _. h)

    send_unsent-Kept :
        (unsent : List (List ℕ)) (old : ℕ) (m : NetlinkMonitor)
        → P m.interfaces m.events
        → Kept (send_unsent sendmsg unsent old m)
    unfolding send_unsent
    send_unsent-Kept [] old m h = h
    send_unsent-Kept (message ∷ unsent) old m h =
        elim_rule Kept (ltb old m.last_received_seq) _ _
          (λ _.
            Kept-then (send_message_now sendmsg message m) (send_unsent sendmsg unsent (old + 1))
              (send_now-Kept message m h) (send_unsent-Kept unsent (old + 1)))
          (λ _. h)

    link_query-Kept :
        (m : NetlinkMonitor) → P m.interfaces m.events → Kept (begin_link_query sendmsg m)
    unfolding begin_link_query
    link_query-Kept m h = send_message-Kept (link_query (m.sequence_number + 1)) (numbered m) h

    address_query-Kept :
        (family : ℕ) (m : NetlinkMonitor)
        → P m.interfaces m.events
        → Kept (begin_address_query sendmsg family m)
    unfolding begin_address_query
    address_query-Kept family m h =
        send_message-Kept (address_query family (m.sequence_number + 1)) (numbered m) h

    pub init-Kept : P [] [] → Kept (init sendmsg new_monitor)
    unfolding init
    init-Kept h =
        Kept-then (begin_link_query sendmsg new_monitor) _ (link_query-Kept new_monitor h)
          (λ first k.
            Kept-then (begin_address_query sendmsg 2 first) (begin_address_query sendmsg 10)
              (address_query-Kept 2 first k) (address_query-Kept 10))

    module _
        (on_message : (message : Message) (m : NetlinkMonitor)
          → P m.interfaces m.events
          → Kept (handle_message message m)) where
      handle_messages-Kept :
          (messages : List Message) (m : NetlinkMonitor)
          → P m.interfaces m.events
          → Kept (handle_messages messages m)
      unfolding handle_messages
      handle_messages-Kept [] m h = h
      handle_messages-Kept (message ∷ messages) m h =
          Kept-then (handle_message message m) (handle_messages messages) (on_message message m h)
            (handle_messages-Kept messages)

      then_send-Kept :
          (old : ℕ) (o : Option NetlinkMonitor) → Kept o → Kept (then_send sendmsg old o)
      unfolding then_send
      then_send-Kept old none h = tt
      then_send-Kept old (some m) h = send_unsent-Kept m.unsent_messages old m h

      pub handle_read-Kept :
          (datagrams : List (List Message)) (m : NetlinkMonitor)
          → P m.interfaces m.events
          → Kept (handle_read sendmsg datagrams m)
      unfolding handle_read handle_datagram
      handle_read-Kept [] m h = h
      handle_read-Kept (messages ∷ datagrams) m h =
          Kept-then (handle_datagram sendmsg messages m) (handle_read sendmsg datagrams)
            (then_send-Kept m.last_received_seq (handle_messages messages m)
              (handle_messages-Kept messages m h))
            (handle_read-Kept datagrams)
