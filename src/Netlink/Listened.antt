-- ===== src/Netlink/Listened.antt =====
-- net/netlink_monitor.cc: what the messages of a datagram do to the requests and their numbers.
use cheaproute.Prelude.{
  ℕ, ◌≤◌, ◌≡◌, subst, ◌⊎◌, inl, inr, Option, none, some, List, [], ◌∷◌, ◌==◌, ==_false→ne, if_rule,
  All,
}
use cheaproute.Netlink.Interfaces.{
  Body, new_link, del_link, new_address, del_address, done, failed, other, Changed,
}
use cheaproute.Netlink.Monitor.{
  Message, NetlinkMonitor, change, answered, handle_message, handle_messages,
}

-- What a step makes of the monitor, if it does not abort.
abbrev pub Becomes : (NetlinkMonitor → Type 0) → Option NetlinkMonitor → Type 0
Becomes P none = Unit
Becomes P (some m) = P m

pub Becomes-some :
    (P : NetlinkMonitor → Type 0) (o : Option NetlinkMonitor) (m : NetlinkMonitor)
    → o ≡ some m
    → Becomes P o
    → P m
Becomes-some P o m e h = subst (Becomes P) e h

pub Becomes-then :
    (P Q : NetlinkMonitor → Type 0) (o : Option NetlinkMonitor)
    (f : NetlinkMonitor → Option NetlinkMonitor)
    → Becomes P o
    → ((m : NetlinkMonitor) → P m → Becomes Q (f m))
    → Becomes Q (elim o [ none ↦ none | some m ↦ f m ])
Becomes-then P Q none f h k = tt
Becomes-then P Q (some m) f h k = k m h

-- A message that is no answer, or one with a number from `low` on.
abbrev pub IsAnswer : ℕ → Message → Type 0
IsAnswer low message = elim message.body [
  | done ↦ (message.seq ≡ 0) ⊎ (low ≤ message.seq)
  | failed ↦ (message.seq ≡ 0) ⊎ (low ≤ message.seq)
  | _ ↦ Unit
]

-- The monitor before and after messages: the queues as they were, the number at least `low`.
pub record Listened (low : ℕ) (before m : NetlinkMonitor) : Type 0 where
  pub sent : m.sent ≡ before.sent
  pub unsent : m.unsent_messages ≡ before.unsent_messages
  pub least : low ≤ m.last_received_seq

change-Listened :
    (low : ℕ) (before m : NetlinkMonitor) (o : Option Changed)
    → Listened low before m
    → Becomes (Listened low before) (change m o)
unfolding change
change-Listened low before m none h = tt
change-Listened low before m (some (info, told)) h = record {
  sent = h.sent;
  unsent = h.unsent;
  least = h.least;
}

answered-Listened :
    (low seq : ℕ) (before m : NetlinkMonitor)
    → (seq ≡ 0) ⊎ (low ≤ seq)
    → Listened low before m
    → Listened low before (answered seq m)
unfolding answered
answered-Listened low seq before m (inl e) h =
    if_rule (Listened low before) (seq == 0) (λ _. h) (λ k. absurd (==_false→ne seq 0 k e))
answered-Listened low seq before m (inr l) h =
    if_rule (Listened low before) (seq == 0) (λ _. h)
      (λ _. record { sent = h.sent; unsent = h.unsent; least = l })

message-Listened :
    (low : ℕ) (before : NetlinkMonitor) (message : Message) (m : NetlinkMonitor)
    → IsAnswer low message
    → Listened low before m
    → Becomes (Listened low before) (handle_message message m)
unfolding handle_message
message-Listened low before message m a h = by_type message.body a
  where
    by_type :
        (body : Body)
        → IsAnswer low (record { seq = message.seq; body = body })
        → Becomes
            (Listened low before)
            (handle_message (record { seq = message.seq; body = body }) m)
    by_type (new_link link) b = change-Listened low before m _ h
    by_type (del_link link) b = change-Listened low before m _ h
    by_type (new_address address) b = change-Listened low before m _ h
    by_type (del_address address) b = change-Listened low before m _ h
    by_type done b = answered-Listened low message.seq before m b h
    by_type failed b = answered-Listened low message.seq before m b h
    by_type other b = h

pub messages-Listened :
    (low : ℕ) (before : NetlinkMonitor) (messages : List Message) (m : NetlinkMonitor)
    → All (IsAnswer low) messages
    → Listened low before m
    → Becomes (Listened low before) (handle_messages messages m)
unfolding handle_messages
messages-Listened low before [] m a h = h
messages-Listened low before (message ∷ messages) m (a, b) h =
    Becomes-then (Listened low before) (Listened low before) (handle_message message m)
      (handle_messages messages) (message-Listened low before message m a h)
      (λ next k. messages-Listened low before messages next b k)
