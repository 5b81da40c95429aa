-- ===== src/Tests/Network.antt =====
-- net/netlink_monitor.cc, netlink.cc and interface_activator.h, run.
use cheaproute.Prelude.{
  ℕ, ◌≡◌, refl, Bool, true, some, List, [], ◌∷◌, ◌++◌, ascii, arith, inr, length,
}
use cheaproute.IpAddress.{Ip4AddressInfo}
use cheaproute.IpAddress.Text.{netmask, info_text}
use cheaproute.JsonWriter.Text.{digits}
use cheaproute.Packet.Fields.{byte}
use cheaproute.IpAddress.Mask.{IsMask, netmask-IsMask}
use cheaproute.Netlink.Interfaces.{find, Body, new_link, new_address, done}
use cheaproute.Netlink.Monitor.{
  Message, NetlinkMonitor, new_monitor, init, handle_datagram, handle_read,
}
use cheaproute.Netlink.Mirror.{Mirrors, replay}
use cheaproute.Netlink.Mirrored.{handle_read-Mirrors}
use cheaproute.Netlink.Created.{announced, how_public}
use cheaproute.Netlink.Announced.{handle_read-Announces}
use cheaproute.Netlink.Requests.{requests, IsInStep, init-IsInStep, handle_datagram-IsInStep}
use cheaproute.Netlink.Device.{Socket, new_netlink, address_message}
use cheaproute.Netlink.Activator.{Configuration, configure, on_events}
use cheaproute.Netlink.Layout.{address_bytes, address_message-Layout}
use cheaproute.Netlink.Activated.{Made, wanted, on_events-Made}

abbrev takes_all : List ℕ → Bool
takes_all message = true

abbrev eth0 : List ℕ
eth0 = ascii "eth0" ++ (0 ∷ [])

-- The answers to the first two requests: an interface that is up, and its address, twice.
abbrev link_answer : List Message
link_answer =
    record {
      seq = 37;
      body = new_link (record { index = 2; flags = 1; attributes = (3, eth0) ∷ [] });
    }
    ∷ record { seq = 37; body = done }
    ∷ []

abbrev address_entry : Body
address_entry = new_address (record {
  family = 2;
  prefix_len = 24;
  index = 2;
  attributes = (1, 10 ∷ 0 ∷ 0 ∷ 1 ∷ []) ∷ (4, 10 ∷ 0 ∷ 0 ∷ 255 ∷ []) ∷ [];
})

abbrev address_answer : List Message
address_answer =
    record { seq = 38; body = address_entry }
    ∷ record { seq = 38; body = address_entry }
    ∷ record { seq = 38; body = done }
    ∷ []

started : (m : NetlinkMonitor) × (init takes_all new_monitor ≡ some m)
unfolding init
started = (_, refl)

listened : (m : NetlinkMonitor) × (handle_datagram takes_all link_answer started.0 ≡ some m)
unfolding started handle_datagram
listened = (_, refl)

finished :
    (m : NetlinkMonitor) × (handle_read takes_all (link_answer ∷ address_answer ∷ []) started.0
      ≡ some m)
unfolding started handle_read
finished = (_, refl)

-- All three requests are sent, and the listeners were told three times.
finished_sent : finished.0.sent ≡ requests
unfolding finished started
finished_sent = refl

finished_told : length finished.0.events ≡ 3
unfolding finished
finished_told = refl

handle_read-Mirrors_example : Mirrors (replay finished.0.events []) finished.0.interfaces
handle_read-Mirrors_example =
    handle_read-Mirrors takes_all (link_answer ∷ address_answer ∷ []) started.0 finished.0 started.1
      finished.1

init-IsInStep_example : IsInStep started.0 × (length started.0.sent ≡ 1)
init-IsInStep_example = init-IsInStep takes_all started.0 started.1

handle_datagram-IsInStep_example : IsInStep listened.0
unfolding started
handle_datagram-IsInStep_example =
    handle_datagram-IsInStep takes_all link_answer started.0 listened.0 init-IsInStep_example.0
      (tt, (inr (omega arith), tt)) listened.1

abbrev home : Ip4AddressInfo
home = record { address = 10 ∷ 0 ∷ 0 ∷ 1 ∷ []; broadcast = 10 ∷ 0 ∷ 0 ∷ 255 ∷ []; prefix_len = 24 }

address_message-Layout_example : address_message 2 7 home ≡ some (address_bytes 2 7 home)
address_message-Layout_example = address_message-Layout 2 7 home (refl, refl)

abbrev willing : Socket
willing = record { sendmsg = λ message. true; error_of = λ message. 0 }

abbrev configuration : Configuration
configuration = configure (ascii "eth0") home []

-- The activator behind the monitor: one interface is wanted.
wanted_here : wanted configuration finished.0.events ≡ (2, home) ∷ []
unfolding wanted finished
wanted_here = refl

on_events-Made_example :
    Made new_netlink
      (wanted configuration finished.0.events)
      (on_events willing configuration finished.0.events new_netlink)
on_events-Made_example =
    on_events-Made willing (λ message. (refl, refl)) configuration finished.0.events new_netlink
      ((refl, refl), tt)

handle_read-Announces_example :
    announced 2 finished.0.events ≡ how_public (find 2 finished.0.interfaces)
handle_read-Announces_example =
    handle_read-Announces takes_all (link_answer ∷ address_answer ∷ []) started.0 finished.0
      started.1 finished.1 2

netmask-IsMask_example : IsMask 24 (netmask 24)
netmask-IsMask_example = netmask-IsMask 24 (omega arith) (omega arith)

home_text : info_text home ≡ some (ascii "[addr: 10.0.0.1 bcast: 10.0.0.255 mask: 255.255.255.0]")
unfolding info_text digits byte
home_text = refl
