-- ===== src/Netlink/Created.antt =====
-- net/netlink_monitor.cc: which handlers announce an interface.
use cheaproute.Prelude.{
  ℕ, ◌+◌, ◌%◌, ◌≡◌, refl, sym, ◌∙◌, ap, Bool, true, false, Option, none, some, List, [], ◌∷◌, ◌++◌,
  arith, ◌==◌, ==_refl, if◌then◌else◌, if_rule,
}
use cheaproute.IpAddress.{Ip4AddressInfo}
use cheaproute.Netlink.Interfaces.{
  LinkMessage, AddressMessage, NetInterfaceInfo, Event, interface_created, link_up, link_down,
  ip4_address_added, ip4_address_removed, ip6_address_added, ip6_address_removed, Changed,
  attribute, c_string, publish, name_from, handle_name, handle_status, handle_link,
}
use cheaproute.Netlink.Addresses.{
  ip4_info, ip6_address, tell, add4, remove4, add6, remove6, with_address, handle_address,
}
use cheaproute.Netlink.Monitor.{change}
use cheaproute.Netlink.Replay.{AreAbout}

-- How often `InterfaceCreated` was broadcast for an index.
unfoldable pub announced : ℕ → List Event → ℕ
announced index [] = 0
announced index (interface_created info ∷ events) =
    (if info.index == index then 1 else 0) + announced index events
announced index (_ ∷ events) = announced index events

abbrev pub how_public : Option NetInterfaceInfo → ℕ
how_public none = 0
how_public (some info) = if info.is_public then 1 else 0

pub announced-append :
    (index : ℕ) (events more : List Event)
    → announced index (events ++ more) ≡ announced index events + announced index more
unfolding announced
announced-append index [] more = omega arith
announced-append index (interface_created info ∷ events) more =
    omega (arith, announced-append index events more)
announced-append index (link_up info ∷ events) more = announced-append index events more
announced-append index (link_down info ∷ events) more = announced-append index events more
announced-append index (ip4_address_added info a ∷ events) more = announced-append index events more
announced-append index (ip4_address_removed info a ∷ events) more =
    announced-append index events more
announced-append index (ip6_address_added info a ∷ events) more = announced-append index events more
announced-append index (ip6_address_removed info a ∷ events) more =
    announced-append index events more

pub announced-other :
    (index i : ℕ) (events : List Event)
    → AreAbout index events
    → (index == i) ≡ false
    → announced i events ≡ 0
unfolding announced
announced-other index i [] h k = refl
announced-other index i (interface_created info ∷ events) (e, h) k =
    rw (ap (λ n. n == i) e ∙ k) (omega (arith, announced-other index i events h k))
announced-other index i (link_up info ∷ events) (e, h) k = announced-other index i events h k
announced-other index i (link_down info ∷ events) (e, h) k = announced-other index i events h k
announced-other index i (ip4_address_added info a ∷ events) (e, h) k =
    announced-other index i events h k
announced-other index i (ip4_address_removed info a ∷ events) (e, h) k =
    announced-other index i events h k
announced-other index i (ip6_address_added info a ∷ events) (e, h) k =
    announced-other index i events h k
announced-other index i (ip6_address_removed info a ∷ events) (e, h) k =
    announced-other index i events h k

-- What a handler announces is what becomes public.
abbrev pub Announces : NetInterfaceInfo → Changed → Type 0
Announces info (changed, told) =
    how_public (some info) + announced info.index told ≡ how_public (some changed)

abbrev pub MayAnnounce : NetInterfaceInfo → Option Changed → Type 0
MayAnnounce info none = Unit
MayAnnounce info (some change) = Announces info change

Announces-nothing : (info : NetInterfaceInfo) → Announces info (info, [])
unfolding announced
Announces-nothing info = omega arith

publish-Announces :
    (info : NetInterfaceInfo) (o : Option (List ℕ))
    → info.is_public ≡ false
    → MayAnnounce info (publish info o)
unfolding publish announced
publish-Announces info none h = tt
publish-Announces info (some name) h =
    ap (λ b. (if b then 1 else 0) + ((if info.index == info.index then 1 else 0) + 0)) h
    ∙ ap (λ b. 0 + ((if b then 1 else 0) + 0)) (==_refl info.index)

name_from-Announces :
    (info : NetInterfaceInfo) (o : Option (List ℕ))
    → info.is_public ≡ false
    → MayAnnounce info (name_from info o)
unfolding name_from
name_from-Announces info none h = Announces-nothing info
name_from-Announces info (some bytes) h = publish-Announces info (c_string bytes) h

handle_name-Announces :
    (message : LinkMessage) (info : NetInterfaceInfo) → MayAnnounce info (handle_name message info)
unfolding handle_name
handle_name-Announces message info =
    if_rule (MayAnnounce info) info.is_public (λ _. Announces-nothing info)
      (λ h. name_from-Announces info (attribute 3 message.attributes) h)

-- A handler that announces nothing.
abbrev pub IsQuiet : NetInterfaceInfo → Changed → Type 0
IsQuiet info (changed, told) =
    ((i : ℕ) → announced i told ≡ 0) × (changed.is_public ≡ info.is_public)

IsQuiet-nothing : (info : NetInterfaceInfo) → IsQuiet info (info, [])
unfolding announced
IsQuiet-nothing info = ((λ i. refl), refl)

handle_status-IsQuiet :
    (active : Bool) (info : NetInterfaceInfo) → IsQuiet info (handle_status active info)
unfolding handle_status announced
handle_status-IsQuiet active info =
    if_rule (IsQuiet info) _ (λ _. IsQuiet-nothing info)
      (λ _. ((λ i. silent i info.is_public active), refl))
  where
    silent :
        (i : ℕ) (shown up : Bool)
        → announced i (
            if shown
            then (if up
                then link_up (record info { link_active = active })
                else link_down (record info { link_active = active }))
              ∷ []
            else [])
          ≡ 0
    silent i true true = refl
    silent i true false = refl
    silent i false up = refl

tell-IsQuiet :
    (info now : NetInterfaceInfo) (changed : Bool) (event : Event)
    → now.is_public ≡ info.is_public
    → ((i : ℕ) → announced i (event ∷ []) ≡ 0)
    → IsQuiet info (now, tell changed now event)
unfolding tell announced
tell-IsQuiet info now false event p h = ((λ i. refl), p)
tell-IsQuiet info now true event p h =
    ((λ i. if_rule (λ events. announced i events ≡ 0) now.is_public (λ _. h i) (λ _. refl)), p)

abbrev pub MayBeQuiet : NetInterfaceInfo → Option Changed → Type 0
MayBeQuiet info none = Unit
MayBeQuiet info (some change) = IsQuiet info change

with_address-IsQuiet :
    {A : Type 0} (change : A → NetInterfaceInfo → Changed) (o : Option A) (info : NetInterfaceInfo)
    → ((address : A) → IsQuiet info (change address info))
    → MayBeQuiet info (with_address change o info)
unfolding with_address
with_address-IsQuiet change none info h = tt
with_address-IsQuiet change (some address) info h = h address

pub handle_address-IsQuiet :
    (is_new : Bool) (message : AddressMessage) (info : NetInterfaceInfo)
    → MayBeQuiet info (handle_address is_new message info)
unfolding handle_address add4 remove4 add6 remove6 announced
handle_address-IsQuiet is_new message info =
    if_rule (MayBeQuiet info) (message.family == 2)
      (λ _. with_address-IsQuiet _ (ip4_info message) info (λ address.
        if_rule (λ (f : Ip4AddressInfo → NetInterfaceInfo → Changed). IsQuiet info (f address info))
          is_new (λ _. tell-IsQuiet info (add4 address info).0 _ _ refl (λ i. refl))
          (λ _. tell-IsQuiet info (remove4 address info).0 _ _ refl (λ i. refl))))
      (λ _.
        if_rule (MayBeQuiet info) (message.family == 10)
          (λ _. with_address-IsQuiet _ (ip6_address message) info (λ address.
            if_rule (λ (f : List ℕ → NetInterfaceInfo → Changed). IsQuiet info (f address info))
              is_new (λ _. tell-IsQuiet info (add6 address info).0 _ _ refl (λ i. refl))
              (λ _. tell-IsQuiet info (remove6 address info).0 _ _ refl (λ i. refl))))
          (λ _. IsQuiet-nothing info))

pub quiet-Announces :
    (info : NetInterfaceInfo) (o : Option Changed) → MayBeQuiet info o → MayAnnounce info o
quiet-Announces info none h = tt
quiet-Announces info (some (changed, told)) (quiet, p) =
    ap (λ n. how_public (some info) + n) (quiet info.index)
    ∙ (add_zero (how_public (some info)) ∙ ap (λ b. if b then 1 else 0) (sym p))
  where
    add_zero : (n : ℕ) → n + 0 ≡ n
    add_zero n = omega arith

pub handle_link-Announces :
    (message : LinkMessage) (info : NetInterfaceInfo) → MayAnnounce info (handle_link message info)
unfolding handle_link
handle_link-Announces message info =
    also (handle_name message info) (handle_name-Announces message info)
  where
    active : Bool
    active = message.flags % 2 == 1

    also :
        (o : Option Changed)
        → MayAnnounce info o
        → MayAnnounce info (elim o [
          | none ↦ none
          | some (named, told) ↦
              let (changed, more) = handle_status active named in some (changed, told ++ more)
        ])
    also none h = tt
    also (some (named, told)) h =
        let (quiet, p) = handle_status-IsQuiet active named in
        omega (
          arith,
          announced-append info.index told (handle_status active named).1,
          quiet info.index,
          h,
        )
        ∙ ap (λ b. if b then 1 else 0) (sym p)
