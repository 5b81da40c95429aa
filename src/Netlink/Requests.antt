-- ===== src/Netlink/Requests.antt =====
-- net/netlink_monitor.cc: the requests go out in their order, one at a time.
use cheaproute.Prelude.{
  ℕ, ◌+◌, ◌≤◌, ◌≡◌, refl, sym, ◌∙◌, ap, subst, ◌⊎◌, inl, inr, Bool, Option, none, some, List, [],
  ◌∷◌, ◌++◌, append_assoc, arith, ltb, ltb→lt, ltb_false→le, if_rule, elim_rule, All, length,
  length-append,
}
use cheaproute.Netlink.Monitor.{
  Message, NetlinkMonitor, new_monitor, handle_messages, send_message_now, send_message,
  send_unsent, then_send, handle_datagram, numbered, link_query, address_query, begin_link_query,
  begin_address_query, init,
}
use cheaproute.Netlink.Listened.{
  Becomes, Becomes-some, Becomes-then, IsAnswer, Listened, messages-Listened,
}

-- The three requests that `Init` makes.
abbrev pub requests : List (List ℕ)
requests = link_query 37 ∷ address_query 2 38 ∷ address_query 10 39 ∷ []

-- All requests are sent or wait in their order, and while one waits the requests that were sent
-- have been answered but for the last one.
pub record IsInStep (m : NetlinkMonitor) : Type 0 where
  pub in_order : m.sent ++ m.unsent_messages ≡ requests
  pub at_least_one : 1 ≤ length m.sent
  pub one_open : (m.unsent_messages ≡ []) ⊎ (m.last_received_seq + 1 ≡ 36 + length m.sent)

module _ (sendmsg : List ℕ → Bool) where
  send_now-Becomes :
      (P : NetlinkMonitor → Type 0) (message : List ℕ) (m : NetlinkMonitor)
      → P (record m { sent = m.sent ++ message ∷ [] })
      → Becomes P (send_message_now sendmsg message m)
  unfolding send_message_now
  send_now-Becomes P message m h = if_rule (Becomes P) (sendmsg message) (λ _. h) (λ _. tt)

  one_more :
      (sent : List (List ℕ)) (message : List ℕ) → length (sent ++ message ∷ []) ≡ length sent + 1
  one_more sent message = length-append sent (message ∷ [])

  -- The loop, with the number that it counts up.
  send_unsent-IsInStep :
      (unsent : List (List ℕ)) (old : ℕ) (m : NetlinkMonitor)
      → m.sent ++ unsent ≡ requests
      → 1 ≤ length m.sent
      → (unsent ≡ []) ⊎ ((old + 1 ≡ 36 + length m.sent) × (old ≤ m.last_received_seq))
      → Becomes IsInStep (send_unsent sendmsg unsent old m)
  unfolding send_unsent
  send_unsent-IsInStep [] old m order one h = record {
    in_order = order;
    at_least_one = one;
    one_open = inl refl;
  }
  send_unsent-IsInStep (message ∷ unsent) old m order one (inl e) = absurd (full e)
    where
      full : message ∷ unsent ≡ [] → ⊥
      full k = cc
  send_unsent-IsInStep (message ∷ unsent) old m order one (inr (e, l)) =
      elim_rule (Becomes IsInStep) (ltb old m.last_received_seq) _ _
        (λ b.
          Becomes-then
            (λ n. (n.sent ≡ m.sent ++ message ∷ []) × (n.last_received_seq ≡ m.last_received_seq))
            IsInStep (send_message_now sendmsg message m) (send_unsent sendmsg unsent (old + 1))
            (send_now-Becomes _ message m (refl, refl))
            (λ n (s, r).
              send_unsent-IsInStep unsent (old + 1) n
                (ap (λ q. q ++ unsent) s ∙ append_assoc m.sent (message ∷ []) unsent ∙ order)
                (omega (arith, ap length s, one_more m.sent message))
                (inr (
                  omega (arith, e, ap length s, one_more m.sent message),
                  omega (arith, r, ltb→lt old m.last_received_seq b),
                ))))
        (λ b. record {
          in_order = order;
          at_least_one = one;
          one_open = inr (omega (arith, e, l, ltb_false→le old m.last_received_seq b));
        })

  then_send-IsInStep :
      (before : NetlinkMonitor) (o : Option NetlinkMonitor)
      → IsInStep before
      → Becomes (Listened before.last_received_seq before) o
      → Becomes IsInStep (then_send sendmsg before.last_received_seq o)
  unfolding then_send
  then_send-IsInStep before none h k = tt
  then_send-IsInStep before (some m) h k =
      send_unsent-IsInStep m.unsent_messages before.last_received_seq m
        (ap (λ q. q ++ m.unsent_messages) k.sent ∙ ap (λ q. before.sent ++ q) k.unsent ∙ h.in_order)
        (omega (arith, h.at_least_one, ap length k.sent)) (open_one h.one_open)
    where
      open_one :
          (before.unsent_messages ≡ []) ⊎ (before.last_received_seq + 1 ≡ 36 + length before.sent)
          → (m.unsent_messages ≡ [])
            ⊎ ((before.last_received_seq + 1 ≡ 36 + length m.sent)
                × (before.last_received_seq ≤ m.last_received_seq))
      open_one (inl e) = inl (k.unsent ∙ e)
      open_one (inr e) = inr (omega (arith, e, ap length k.sent), k.least)

  -- `Init`, if it does not abort, sends the first of the three requests and leaves the others waiting.
  pub init-IsInStep :
      (m : NetlinkMonitor) → init sendmsg new_monitor ≡ some m → IsInStep m × (length m.sent ≡ 1)
  unfolding init begin_link_query begin_address_query send_message
  init-IsInStep m e = Becomes-some Ready (init sendmsg new_monitor) m e (
      Becomes-then (λ n. n ≡ asked) Ready (begin_link_query sendmsg new_monitor) rest
        (send_now-Becomes (λ n. n ≡ asked) (link_query 37) (numbered new_monitor) refl)
        (λ n k.
          subst (λ n. Becomes Ready (rest n)) (sym k)
            (record { in_order = refl; at_least_one = omega arith; one_open = inr refl }, refl)))
    where
      Ready : NetlinkMonitor → Type 0
      Ready n = IsInStep n × (length n.sent ≡ 1)

      asked : NetlinkMonitor
      asked = record (numbered new_monitor) { sent = link_query 37 ∷ [] }

      rest : NetlinkMonitor → Option NetlinkMonitor
      rest first = elim (begin_address_query sendmsg 2 first) [
        | none ↦ none
        | some second ↦ begin_address_query sendmsg 10 second
      ]

  -- Where the numbers of the answers do not go back, a datagram that `HandleRead` reads, if the process
  -- is not aborted, keeps the requests in their order and lets out as many as were answered, so that
  -- at most one request has no answer while others wait.
  pub handle_datagram-IsInStep :
      (messages : List Message) (before m : NetlinkMonitor)
      → IsInStep before
      → All (IsAnswer before.last_received_seq) messages
      → handle_datagram sendmsg messages before ≡ some m
      → IsInStep m
  unfolding handle_datagram
  handle_datagram-IsInStep messages before m h answers e =
      Becomes-some IsInStep
        (then_send sendmsg before.last_received_seq (handle_messages messages before)) m e
        (then_send-IsInStep before (handle_messages messages before) h (
          messages-Listened before.last_received_seq before messages before answers
            (record { sent = refl; unsent = refl; least = omega arith })))
