-- ===== src/Netlink/Announced.antt =====
-- net/netlink_monitor.cc: each public interface is announced once, whatever is read.
use cheaproute.Prelude.{
  ℕ, ◌+◌, ◌≡◌, refl, sym, ◌∙◌, ap, subst, Bool, true, false, Option, none, some, List, ◌++◌, arith,
  ◌==◌, ==_iff, if_rule, Bool-cases, inl, inr,
}
use cheaproute.Netlink.Interfaces.{
  LinkMessage, AddressMessage, Body, new_link, del_link, new_address, del_address, done, failed,
  other, NetInterfaceInfo, Event, Interfaces, find, put, get_or_create, found_or_new, Changed,
  handle_link,
}
use cheaproute.Netlink.Addresses.{handle_address}
use cheaproute.Netlink.Monitor.{
  Message, NetlinkMonitor, new_monitor, change, answered, handle_message, handle_read, init,
}
use cheaproute.Netlink.Replay.{AreAbout, find-put_same, find-put_other}
use cheaproute.Netlink.Told.{MayTell, handle_link-Tells, handle_address-Tells}
use cheaproute.Netlink.Mirrored.{get_or_create-index}
use cheaproute.Netlink.Reading.{Kept, Kept-some, init-Kept, handle_read-Kept}
use cheaproute.Netlink.Created.{
  announced, how_public, announced-append, announced-other, MayAnnounce, quiet-Announces,
  handle_address-IsQuiet, handle_link-Announces,
}

abbrev Tallies : Interfaces → List Event → Type 0
Tallies interfaces events =
    (index : ℕ) → announced index events ≡ how_public (find index interfaces)

how_public-get_or_create :
    (index : ℕ) (o : Option NetInterfaceInfo)
    → how_public o ≡ how_public (some (found_or_new index o))
unfolding found_or_new
how_public-get_or_create index none = refl
how_public-get_or_create index (some info) = refl

module _ (index : ℕ) (interfaces : Interfaces) (events told : List Event) (info : NetInterfaceInfo)
    (own : info.index ≡ index) (about : AreAbout index told)
    (tallies : Tallies interfaces events) where
  tally_same :
      how_public (some (found_or_new index (find index interfaces))) + announced index told
        ≡ how_public (some info)
      → announced index events + announced index told
        ≡ how_public (find index (put info interfaces))
  tally_same effect =
      ap (λ n. n + announced index told)
        (tallies index ∙ how_public-get_or_create index (find index interfaces))
      ∙ (effect
          ∙ ap how_public (
              sym (
                subst (λ n. find n (put info interfaces) ≡ some info) own
                  (find-put_same info interfaces))))

  tally_other :
      (i : ℕ)
      → (index == i) ≡ false
      → announced i events + announced i told ≡ how_public (find i (put info interfaces))
  tally_other i h =
      ap (λ n. announced i events + n) (announced-other index i told about h)
      ∙ (add_zero (announced i events)
          ∙ (tallies i
              ∙ ap how_public (sym (find-put_other info i interfaces (ap (λ n. n == i) own ∙ h)))))
    where
      add_zero : (n : ℕ) → n + 0 ≡ n
      add_zero n = omega arith

  tally_any :
      how_public (some (found_or_new index (find index interfaces))) + announced index told
        ≡ how_public (some info)
      → Tallies (put info interfaces) (events ++ told)
  tally_any effect i = announced-append i events told ∙ (elim (Bool-cases (index == i)) [
    | inl e ↦
        subst
          (λ n. announced n events + announced n told ≡ how_public (find n (put info interfaces)))
          ((==_iff index i).0 e) (tally_same effect)
    | inr e ↦ tally_other i e
  ])

change-Tallies :
    (m : NetlinkMonitor) (index : ℕ) (o : Option Changed)
    → MayTell (get_or_create index m.interfaces) o
    → MayAnnounce (get_or_create index m.interfaces) o
    → Tallies m.interfaces m.events
    → Kept Tallies (change m o)
unfolding change get_or_create
change-Tallies m index none t a h = tt
change-Tallies m index (some (info, told)) (i, about, effect) a h =
    tally_any index m.interfaces m.events told info (i ∙ here)
      (subst (λ n. AreAbout n told) here about) h
      (ap (λ n. how_public (some (found_or_new index (find index m.interfaces))) + announced n told)
          (sym here)
        ∙ a)
  where
    here : (get_or_create index m.interfaces).index ≡ index
    here = get_or_create-index index m.interfaces

answered-Tallies :
    (seq : ℕ) (m : NetlinkMonitor)
    → Tallies m.interfaces m.events
    → Kept Tallies (some (answered seq m))
unfolding answered
answered-Tallies seq m h =
    if_rule (λ (n : NetlinkMonitor). Tallies n.interfaces n.events) (seq == 0) (λ _. h) (λ _. h)

message-Tallies :
    (message : Message) (m : NetlinkMonitor)
    → Tallies m.interfaces m.events
    → Kept Tallies (handle_message message m)
unfolding handle_message
message-Tallies message m h = by_type message.body
  where
    Fine : Body → Type 0
    Fine body = Kept Tallies (handle_message (record { seq = message.seq; body = body }) m)

    link :
        (l : LinkMessage)
        → Kept Tallies (change m (handle_link l (get_or_create l.index m.interfaces)))
    link l =
        change-Tallies m l.index _ (handle_link-Tells l (get_or_create l.index m.interfaces))
          (handle_link-Announces l (get_or_create l.index m.interfaces)) h

    address :
        (is_new : Bool) (a : AddressMessage)
        → Kept Tallies (change m (handle_address is_new a (get_or_create a.index m.interfaces)))
    address is_new a =
        change-Tallies m a.index _
          (handle_address-Tells is_new a (get_or_create a.index m.interfaces))
          (quiet-Announces (get_or_create a.index m.interfaces) _
            (handle_address-IsQuiet is_new a (get_or_create a.index m.interfaces)))
          h

    by_type : (body : Body) → Fine body
    by_type (new_link l) = link l
    by_type (del_link l) = link l
    by_type (new_address a) = address true a
    by_type (del_address a) = address false a
    by_type done = answered-Tallies message.seq m h
    by_type failed = answered-Tallies message.seq m h
    by_type other = h

-- After `Init` and whatever `HandleRead` read, if the process is not aborted, `InterfaceCreated` was
-- broadcast once for each index whose interface is public, and never for another index.
pub handle_read-Announces :
    (sendmsg : List ℕ → Bool) (datagrams : List (List Message)) (ready m : NetlinkMonitor)
    → init sendmsg new_monitor ≡ some ready
    → handle_read sendmsg datagrams ready ≡ some m
    → (index : ℕ) → announced index m.events ≡ how_public (find index m.interfaces)
unfolding announced find
handle_read-Announces sendmsg datagrams ready m started read =
    Kept-some Tallies (handle_read sendmsg datagrams ready) m read (
      handle_read-Kept Tallies sendmsg message-Tallies datagrams ready (
        Kept-some Tallies (init sendmsg new_monitor) ready started
          (init-Kept Tallies sendmsg (λ index. refl))))
