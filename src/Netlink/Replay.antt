-- ===== src/Netlink/Replay.antt =====
-- net/netlink_monitor.h: what events about one interface do to the table of a listener.
use cheaproute.Prelude.{
  ℕ, ◌≡◌, refl, sym, ◌∙◌, ap, subst, false, Option, none, some, List, [], ◌∷◌, ◌++◌, ◌==◌, ==_iff,
  ==_refl, if◌then◌else◌, Bool-cases, inl, inr, All, if_rule,
}
use cheaproute.Netlink.Interfaces.{
  NetInterfaceInfo, Event, interface_created, link_up, link_down, ip4_address_added,
  ip4_address_removed, ip6_address_added, ip6_address_removed, Interfaces, find, put,
}
use cheaproute.Netlink.Mirror.{apply_one, index_of, put_known, apply, replay}

pub find-put_same :
    (info : NetInterfaceInfo) (table : Interfaces) → find info.index (put info table) ≡ some info
unfolding find put
find-put_same info [] = rw (==_refl info.index) refl
find-put_same info (first ∷ table) = elim (Bool-cases (first.index == info.index)) [
  | inl e ↦ rw (e, ==_refl info.index) refl
  | inr e ↦ rw (e, e) (find-put_same info table)
]

pub find-put_other :
    (info : NetInterfaceInfo) (index : ℕ) (table : Interfaces)
    → (info.index == index) ≡ false
    → find index (put info table) ≡ find index table
unfolding find put
find-put_other info index [] h = rw h refl
find-put_other info index (first ∷ table) h = elim (Bool-cases (first.index == info.index)) [
  | inl e ↦ rw (e, h, ap (λ n. n == index) ((==_iff first.index info.index).0 e) ∙ h) refl
  | inr e ↦
      rw e (
        ap (λ r. if first.index == index then some first else r)
          (find-put_other info index table h))
]

index_in : ℕ → Option NetInterfaceInfo → ℕ
index_in index none = index
index_in index (some info) = info.index

index_in-find : (index : ℕ) (table : Interfaces) → index_in index (find index table) ≡ index
unfolding find index_in
index_in-find index [] = refl
index_in-find index (first ∷ table) =
    if_rule (λ o. index_in index o ≡ index) (first.index == index)
      (λ e. (==_iff first.index index).0 e) (λ _. index_in-find index table)

pub find-index :
    (index : ℕ) (table : Interfaces) (info : NetInterfaceInfo)
    → find index table ≡ some info
    → info.index ≡ index
unfolding index_in
find-index index table info h = sym (ap (index_in index) h) ∙ index_in-find index table

-- An event leaves its interface's index.
apply_one-index :
    (event : Event) (o : Option NetInterfaceInfo)
    → index_in (index_of event) o ≡ index_of event
    → index_in (index_of event) (apply_one event o) ≡ index_of event
unfolding apply_one index_in
apply_one-index (interface_created info) o h = refl
apply_one-index (link_up info) none h = refl
apply_one-index (link_up info) (some mine) h = h
apply_one-index (link_down info) none h = refl
apply_one-index (link_down info) (some mine) h = h
apply_one-index (ip4_address_added info address) none h = refl
apply_one-index (ip4_address_added info address) (some mine) h = h
apply_one-index (ip4_address_removed info address) none h = refl
apply_one-index (ip4_address_removed info address) (some mine) h = h
apply_one-index (ip6_address_added info address) none h = refl
apply_one-index (ip6_address_added info address) (some mine) h = h
apply_one-index (ip6_address_removed info address) none h = refl
apply_one-index (ip6_address_removed info address) (some mine) h = h

apply_one-none : (event : Event) (o : Option NetInterfaceInfo) → apply_one event o ≡ none → o ≡ none
unfolding apply_one
apply_one-none (interface_created info) o h = cc
apply_one-none (link_up info) none h = refl
apply_one-none (link_up info) (some mine) h = cc
apply_one-none (link_down info) none h = refl
apply_one-none (link_down info) (some mine) h = cc
apply_one-none (ip4_address_added info address) none h = refl
apply_one-none (ip4_address_added info address) (some mine) h = cc
apply_one-none (ip4_address_removed info address) none h = refl
apply_one-none (ip4_address_removed info address) (some mine) h = cc
apply_one-none (ip6_address_added info address) none h = refl
apply_one-none (ip6_address_added info address) (some mine) h = cc
apply_one-none (ip6_address_removed info address) none h = refl
apply_one-none (ip6_address_removed info address) (some mine) h = cc

find-put_known_same :
    (index : ℕ) (o : Option NetInterfaceInfo) (table : Interfaces)
    → index_in index o ≡ index
    → (o ≡ none → find index table ≡ none)
    → find index (put_known o table) ≡ o
unfolding index_in
find-put_known_same index none table h k = k refl
find-put_known_same index (some info) table h k =
    subst (λ i. find i (put info table) ≡ some info) h (find-put_same info table)

find-put_known_other :
    (index other : ℕ) (o : Option NetInterfaceInfo) (table : Interfaces)
    → index_in index o ≡ index
    → (index == other) ≡ false
    → find other (put_known o table) ≡ find other table
unfolding index_in
find-put_known_other index other none table h k = refl
find-put_known_other index other (some info) table h k =
    find-put_other info other table (ap (λ n. n == other) h ∙ k)

-- An event changes the listener's interface of its index alone.
find-apply_same :
    (event : Event) (table : Interfaces)
    → find (index_of event) (apply event table) ≡ apply_one event (find (index_of event) table)
unfolding apply
find-apply_same event table =
    let here = find (index_of event) table in
    find-put_known_same (index_of event) (apply_one event here) table
      (apply_one-index event here (index_in-find (index_of event) table))
      (apply_one-none event here)

find-apply_other :
    (event : Event) (other : ℕ) (table : Interfaces)
    → (index_of event == other) ≡ false
    → find other (apply event table) ≡ find other table
unfolding apply
find-apply_other event other table =
    let here = find (index_of event) table in
    find-put_known_other (index_of event) other (apply_one event here) table
      (apply_one-index event here (index_in-find (index_of event) table))

-- The same for events about one interface.
unfoldable pub replay_one : List Event → Option NetInterfaceInfo → Option NetInterfaceInfo
unfolding apply_one
replay_one [] known = known
replay_one (event ∷ events) known = replay_one events (apply_one event known)

abbrev pub AreAbout : ℕ → List Event → Type 0
AreAbout index events = All (λ event. index_of event ≡ index) events

pub find-replay_same :
    (index : ℕ) (events : List Event) (table : Interfaces)
    → AreAbout index events
    → find index (replay events table) ≡ replay_one events (find index table)
unfolding replay replay_one
find-replay_same index [] table h = refl
find-replay_same index (event ∷ events) table (e, h) =
    find-replay_same index events (apply event table) h
    ∙ ap (replay_one events) (
        subst (λ i. find i (apply event table) ≡ apply_one event (find i table)) e
          (find-apply_same event table))

pub find-replay_other :
    (index other : ℕ) (events : List Event) (table : Interfaces)
    → AreAbout index events
    → (index == other) ≡ false
    → find other (replay events table) ≡ find other table
unfolding replay
find-replay_other index other [] table h k = refl
find-replay_other index other (event ∷ events) table (e, h) k =
    find-replay_other index other events (apply event table) h k
    ∙ find-apply_other event other table (ap (λ n. n == other) e ∙ k)

pub replay-append :
    (events more : List Event) (table : Interfaces)
    → replay (events ++ more) table ≡ replay more (replay events table)
unfolding replay
replay-append [] more table = refl
replay-append (event ∷ events) more table = replay-append events more (apply event table)

pub replay_one-append :
    (events more : List Event) (known : Option NetInterfaceInfo)
    → replay_one (events ++ more) known ≡ replay_one more (replay_one events known)
unfolding replay_one
replay_one-append [] more known = refl
replay_one-append (event ∷ events) more known =
    replay_one-append events more (apply_one event known)
