-- ===== src/Netlink/Told.antt =====
-- net/netlink_monitor.cc: what each handler tells the listeners about the interface that it changes.
use cheaproute.Prelude.{
  ℕ, ◌≡◌, refl, sym, ◌∙◌, ap, subst, Bool, true, false, Option, none, some, List, [], ◌∷◌, ◌++◌,
  ◌==◌, ◌%◌, if◌then◌else◌, Bool-cases, inl, inr, All-append, if_rule,
}
use cheaproute.IpAddress.{Ip4AddressInfo, key4, key6}
use cheaproute.Netlink.Sets.{insert, erase, insert-kept, erase-kept}
use cheaproute.Netlink.Interfaces.{
  LinkMessage, AddressMessage, NetInterfaceInfo, Event, Changed, attribute, c_string, publish,
  name_from, handle_name, handle_status, handle_link,
}
use cheaproute.Netlink.Addresses.{
  ip4_info, ip6_address, tell, add4, remove4, add6, remove6, with_address, handle_address,
}
use cheaproute.Netlink.Mirror.{apply_one, shown, index_of}
use cheaproute.Netlink.Replay.{replay_one, AreAbout, replay_one-append}

-- The events are about the interface, and tell one who knows it as it was how it is.
abbrev pub Tells : NetInterfaceInfo → Changed → Type 0
Tells info (changed, told) =
    (changed.index ≡ info.index)
    × AreAbout info.index told
    × (replay_one told (shown (some info)) ≡ shown (some changed))

abbrev pub MayTell : NetInterfaceInfo → Option Changed → Type 0
MayTell info none = Unit
MayTell info (some change) = Tells info change

Tells-nothing : (info : NetInterfaceInfo) → Tells info (info, [])
unfolding replay_one
Tells-nothing info = (refl, tt, refl)

Tells-then :
    (info named changed : NetInterfaceInfo) (told more : List Event)
    → Tells info (named, told)
    → Tells named (changed, more)
    → Tells info (changed, told ++ more)
Tells-then info named changed told more (i, a, e) (j, b, f) = (
  j ∙ i,
  All-append _ told more a (subst (λ n. AreAbout n more) i b),
  replay_one-append told more (shown (some info)) ∙ ap (replay_one more) e ∙ f,
)

publish-Tells : (info : NetInterfaceInfo) (o : Option (List ℕ)) → MayTell info (publish info o)
unfolding publish replay_one apply_one
publish-Tells info none = tt
publish-Tells info (some name) = (refl, (refl, tt), refl)

handle_name-Tells :
    (message : LinkMessage) (info : NetInterfaceInfo) → MayTell info (handle_name message info)
unfolding handle_name name_from
handle_name-Tells message info =
    if_rule (MayTell info) info.is_public (λ _. Tells-nothing info)
      (λ _. named (attribute 3 message.attributes))
  where
    named : (o : Option (List ℕ)) → MayTell info (name_from info o)
    named none = Tells-nothing info
    named (some bytes) = publish-Tells info (c_string bytes)

handle_status-Tells :
    (active : Bool) (info : NetInterfaceInfo) → Tells info (handle_status active info)
unfolding handle_status replay_one apply_one
handle_status-Tells true info =
    if_rule (Tells info) info.link_active (λ _. Tells-nothing info)
      (λ _. elim (Bool-cases info.is_public) [
        | inl e ↦ rw e (refl, (refl, tt), refl)
        | inr e ↦ rw e (refl, tt, refl)
      ])
handle_status-Tells false info = elim (Bool-cases info.link_active) [
  | inl l ↦ elim (Bool-cases info.is_public) [
    | inl e ↦ rw (l, e) (refl, (refl, tt), refl)
    | inr e ↦ rw (l, e) (refl, tt, refl)
  ]
  | inr l ↦ rw l (refl, tt, refl)
]

pub handle_link-Tells :
    (message : LinkMessage) (info : NetInterfaceInfo) → MayTell info (handle_link message info)
unfolding handle_link
handle_link-Tells message info = also (handle_name message info) (handle_name-Tells message info)
  where
    active : Bool
    active = message.flags % 2 == 1

    also :
        (o : Option Changed)
        → MayTell info o
        → MayTell info (elim o [
          | none ↦ none
          | some (named, told) ↦
              let (changed, more) = handle_status active named in some (changed, told ++ more)
        ])
    also none h = tt
    also (some (named, told)) h =
        Tells-then info named (handle_status active named).0 told (handle_status active named).1 h
          (handle_status-Tells active named)

-- An event for a public interface.
if_public :
    (was is : Bool) (info now : NetInterfaceInfo) (event : Event)
    → is ≡ was
    → index_of event ≡ info.index
    → apply_one event (some info) ≡ some now
    → AreAbout info.index (if is then event ∷ [] else [])
      × (replay_one (if is then event ∷ [] else []) (if was then some info else none)
          ≡ (if is then some now else none))
unfolding replay_one
if_public true true info now event p about effect = ((about, tt), effect)
if_public true false info now event p about effect = cc
if_public false true info now event p about effect = cc
if_public false false info now event p about effect = (tt, refl)

-- A change that is told if it was made.
tell-Tells :
    (info now : NetInterfaceInfo) (changed : Bool) (event : Event)
    → now.index ≡ info.index
    → now.is_public ≡ info.is_public
    → index_of event ≡ info.index
    → (changed ≡ false → now ≡ info)
    → apply_one event (some info) ≡ some now
    → Tells info (now, tell changed now event)
unfolding tell replay_one
tell-Tells info now false event i p about kept effect =
    (i, tt, ap (λ n. shown (some n)) (sym (kept refl)))
tell-Tells info now true event i p about kept effect =
    let (about_it, told) = if_public info.is_public now.is_public info now event p about effect in
    (i, about_it, told)

add4-Tells : (address : Ip4AddressInfo) (info : NetInterfaceInfo) → Tells info (add4 address info)
unfolding add4 apply_one
add4-Tells address info =
    tell-Tells info _ (insert key4 address info.ip4_addresses).1 _ refl refl refl
      (λ h.
        ap (λ s. record info { ip4_addresses = s }) (insert-kept key4 address info.ip4_addresses h))
      refl

remove4-Tells :
    (address : Ip4AddressInfo) (info : NetInterfaceInfo) → Tells info (remove4 address info)
unfolding remove4 apply_one
remove4-Tells address info =
    tell-Tells info _ (erase key4 address info.ip4_addresses).1 _ refl refl refl
      (λ h.
        ap (λ s. record info { ip4_addresses = s }) (erase-kept key4 address info.ip4_addresses h))
      refl

add6-Tells : (address : List ℕ) (info : NetInterfaceInfo) → Tells info (add6 address info)
unfolding add6 apply_one
add6-Tells address info =
    tell-Tells info _ (insert key6 address info.ip6_addresses).1 _ refl refl refl
      (λ h.
        ap (λ s. record info { ip6_addresses = s }) (insert-kept key6 address info.ip6_addresses h))
      refl

remove6-Tells : (address : List ℕ) (info : NetInterfaceInfo) → Tells info (remove6 address info)
unfolding remove6 apply_one
remove6-Tells address info =
    tell-Tells info _ (erase key6 address info.ip6_addresses).1 _ refl refl refl
      (λ h.
        ap (λ s. record info { ip6_addresses = s }) (erase-kept key6 address info.ip6_addresses h))
      refl

with_address-Tells :
    {A : Type 0} (change : A → NetInterfaceInfo → Changed) (o : Option A) (info : NetInterfaceInfo)
    → ((address : A) → Tells info (change address info))
    → MayTell info (with_address change o info)
unfolding with_address
with_address-Tells change none info h = tt
with_address-Tells change (some address) info h = h address

pub handle_address-Tells :
    (is_new : Bool) (message : AddressMessage) (info : NetInterfaceInfo)
    → MayTell info (handle_address is_new message info)
unfolding handle_address
handle_address-Tells is_new message info =
    if_rule (MayTell info) (message.family == 2)
      (λ _. with_address-Tells _ (ip4_info message) info (λ address.
        if_rule (λ (f : Ip4AddressInfo → NetInterfaceInfo → Changed). Tells info (f address info))
          is_new (λ _. add4-Tells address info) (λ _. remove4-Tells address info)))
      (λ _.
        if_rule (MayTell info) (message.family == 10)
          (λ _. with_address-Tells _ (ip6_address message) info (λ address.
            if_rule (λ (f : List ℕ → NetInterfaceInfo → Changed). Tells info (f address info))
              is_new (λ _. add6-Tells address info) (λ _. remove6-Tells address info)))
          (λ _. Tells-nothing info))
