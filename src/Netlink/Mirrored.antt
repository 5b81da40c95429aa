-- ===== src/Netlink/Mirrored.antt =====
-- net/netlink_monitor.cc: a listener that was told everything knows all public interfaces.
use cheaproute.Prelude.{
  ℕ, ◌≡◌, refl, sym, ◌∙◌, ap, subst, Bool, true, false, Option, none, some, List, [], ◌++◌, ◌==◌,
  ==_iff, if_rule, Bool-cases, inl, inr,
}
use cheaproute.Netlink.Interfaces.{
  Body, new_link, del_link, new_address, del_address, done, failed, other, NetInterfaceInfo, Event,
  Interfaces, find, put, get_or_create, found_or_new, Changed,
}
use cheaproute.Netlink.Monitor.{
  Message, NetlinkMonitor, new_monitor, change, answered, handle_message, handle_read, init,
}
use cheaproute.Netlink.Mirror.{replay, shown, Mirrors}
use cheaproute.Netlink.Replay.{
  replay_one, AreAbout, find-put_same, find-put_other, find-index, find-replay_same,
  find-replay_other, replay-append,
}
use cheaproute.Netlink.Told.{MayTell, handle_link-Tells, handle_address-Tells}
use cheaproute.Netlink.Reading.{Kept, Kept-some, init-Kept, handle_read-Kept}

abbrev Knows : Interfaces → List Event → Type 0
Knows interfaces events = Mirrors (replay events []) interfaces

pub get_or_create-index :
    (index : ℕ) (interfaces : Interfaces) → (get_or_create index interfaces).index ≡ index
unfolding get_or_create found_or_new
get_or_create-index index interfaces = which (find index interfaces) refl
  where
    which :
        (o : Option NetInterfaceInfo)
        → find index interfaces ≡ o
        → (found_or_new index o).index ≡ index
    which none e = refl
    which (some info) e = find-index index interfaces info e

shown-found_or_new :
    (index : ℕ) (o : Option NetInterfaceInfo) → shown o ≡ shown (some (found_or_new index o))
unfolding found_or_new
shown-found_or_new index none = refl
shown-found_or_new index (some info) = refl

shown-get_or_create :
    (index : ℕ) (interfaces : Interfaces)
    → shown (find index interfaces) ≡ shown (some (get_or_create index interfaces))
unfolding get_or_create
shown-get_or_create index interfaces = shown-found_or_new index (find index interfaces)

-- At the index of the interface that was changed, and at another.
module _ (index : ℕ) (interfaces : Interfaces) (events told : List Event) (info : NetInterfaceInfo)
    (own : info.index ≡ index) (about : AreAbout index told) (knows : Knows interfaces events) where
  told_same :
      replay_one told (shown (find index interfaces)) ≡ shown (some info)
      → find index (replay told (replay events [])) ≡ shown (find index (put info interfaces))
  told_same effect =
      find-replay_same index told (replay events []) about
      ∙ (ap (replay_one told) (knows index)
          ∙ (effect
              ∙ ap shown (
                  sym (
                    subst (λ n. find n (put info interfaces) ≡ some info) own
                      (find-put_same info interfaces)))))

  told_other :
      (else_where : ℕ)
      → (index == else_where) ≡ false
      → find else_where (replay told (replay events []))
        ≡ shown (find else_where (put info interfaces))
  told_other else_where h =
      find-replay_other index else_where told (replay events []) about h
      ∙ (knows else_where
          ∙ ap shown
              (sym (find-put_other info else_where interfaces (ap (λ n. n == else_where) own ∙ h))))

  told_any :
      replay_one told (shown (find index interfaces)) ≡ shown (some info)
      → Knows (put info interfaces) (events ++ told)
  told_any effect i = ap (find i) (replay-append events told []) ∙ (elim (Bool-cases (index == i)) [
    | inl e ↦
        subst (λ n. find n (replay told (replay events [])) ≡ shown (find n (put info interfaces)))
          ((==_iff index i).0 e) (told_same effect)
    | inr e ↦ told_other i e
  ])

change-Knows :
    (m : NetlinkMonitor) (index : ℕ) (o : Option Changed)
    → MayTell (get_or_create index m.interfaces) o
    → Knows m.interfaces m.events
    → Kept Knows (change m o)
unfolding change
change-Knows m index none h k = tt
change-Knows m index (some (info, told)) (i, about, effect) k =
    told_any index m.interfaces m.events told info (i ∙ here)
      (subst (λ n. AreAbout n told) here about) k
      (ap (replay_one told) (shown-get_or_create index m.interfaces) ∙ effect)
  where
    here : (get_or_create index m.interfaces).index ≡ index
    here = get_or_create-index index m.interfaces

answered-Knows :
    (seq : ℕ) (m : NetlinkMonitor)
    → Knows m.interfaces m.events
    → Kept Knows (some (answered seq m))
unfolding answered
answered-Knows seq m h =
    if_rule (λ (n : NetlinkMonitor). Knows n.interfaces n.events) (seq == 0) (λ _. h) (λ _. h)

message-Knows :
    (message : Message) (m : NetlinkMonitor)
    → Knows m.interfaces m.events
    → Kept Knows (handle_message message m)
unfolding handle_message
message-Knows message m h = by_type message.body
  where
    Fine : Option NetlinkMonitor → Type 0
    Fine o = Kept Knows o

    by_type : (body : Body) → Fine (handle_message (record { seq = message.seq; body = body }) m)
    by_type (new_link link) =
        change-Knows m link.index _ (handle_link-Tells link (get_or_create link.index m.interfaces))
          h
    by_type (del_link link) =
        change-Knows m link.index _ (handle_link-Tells link (get_or_create link.index m.interfaces))
          h
    by_type (new_address address) =
        change-Knows m address.index _
          (handle_address-Tells true address (get_or_create address.index m.interfaces)) h
    by_type (del_address address) =
        change-Knows m address.index _
          (handle_address-Tells false address (get_or_create address.index m.interfaces)) h
    by_type done = answered-Knows message.seq m h
    by_type failed = answered-Knows message.seq m h
    by_type other = h

-- After `Init` and whatever `HandleRead` read, if the process is not aborted, a listener that was told
-- of every broadcast and keeps a table by them alone - it adds the interface that it is told of, sets
-- the status of the link, adds and removes the address - has at each index exactly the monitor's
-- interface, if that is public, and none otherwise.
pub handle_read-Mirrors :
    (sendmsg : List ℕ → Bool) (datagrams : List (List Message)) (ready m : NetlinkMonitor)
    → init sendmsg new_monitor ≡ some ready
    → handle_read sendmsg datagrams ready ≡ some m
    → Mirrors (replay m.events []) m.interfaces
unfolding replay find
handle_read-Mirrors sendmsg datagrams ready m started read =
    Kept-some Knows (handle_read sendmsg datagrams ready) m read (
      handle_read-Kept Knows sendmsg message-Knows datagrams ready (
        Kept-some Knows (init sendmsg new_monitor) ready started
          (init-Kept Knows sendmsg nothing_known)))
  where
    nothing_known : Knows [] []
    nothing_known index = refl
