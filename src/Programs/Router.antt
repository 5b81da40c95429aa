-- ===== src/Programs/Router.antt =====
-- main.cc: the program that forwards packets from one tun interface to another and logs them.
use cheaproute.Prelude.{ℕ, ◌+◌, ◌∷◌, true, List, [], ◌++◌, Option, none, some, ascii, length, drop}
use cheaproute.Stream.Output.Blocks.{cut}
use cheaproute.Stream.File
use cheaproute.Stream.File.{returned, aborted, waiting, write}
use cheaproute.IpAddress.Text.{info_text}
use cheaproute.JsonWriter.{JsonWriter, new_writer}
use cheaproute.JsonWriter.Text.{decimal}
use cheaproute.Packet.Deserialize.Tables.{c_str}
use cheaproute.Packet.Writing.{Outcome, wrote, assert_failed, out_of_fuel}
use cheaproute.Packet.Serialize.{serialize_packet}
use cheaproute.Netlink.Interfaces.{
  NetInterfaceInfo, Event, interface_created, link_up, link_down, ip4_address_added,
  ip4_address_removed, ip6_address_added, ip6_address_removed,
}
use cheaproute.Netlink.Activator.{Configuration, configure}
use cheaproute.Programs.Running.{Run, runs, aborts, hangs, and_then}
use cheaproute.Programs.Tun.{Kernel, ReadAnswer, Tun, new_tun, send_packet, handle_read}

-- What write(2) answers on STDOUT_FILENO in the calls that `FileOutputStream::Write` makes for one block,
-- by the number of the blocks before it.
abbrev pub Stdout : Type 0
Stdout = ℕ → List ℕ → List (Option ℕ)

-- The interface crOUT, the printer of the log, the number of the blocks that its stream was passed, and
-- the bytes of the log that STDOUT_FILENO received.
pub record Router : Type 0 where
  pub tun_out : Tun
  pub writer : JsonWriter
  pub blocks : ℕ
  pub logged : List ℕ

unfoldable pub new_router : Router
unfolding new_writer
new_router = record { tun_out = new_tun; writer = new_writer true; blocks = 0; logged = [] }

-- The listeners of crIN.
pub data Listener : Type 0 where
  in_out_forwarder packet_logger : Listener

-- The handles that the constructor of `Program` keeps, in their order.
abbrev pub listeners : List Listener
listeners = in_out_forwarder ∷ packet_logger ∷ []

-- Behind `FileOutputStream::Write`; where the answers run out it is still waiting for one.
unfoldable pub passed_on : Router → File.Outcome → Run Router
passed_on router (returned bytes) =
    runs (record router { blocks = router.blocks + 1; logged = router.logged ++ bytes })
passed_on router (aborted bytes) = aborts
passed_on router (waiting bytes) = hangs

unfoldable pub pass_on : Stdout → List (List ℕ) → Router → Run Router
unfolding passed_on write
pass_on stdout [] router = runs router
pass_on stdout (block ∷ blocks) router =
    and_then (passed_on router (write (stdout router.blocks block) block)) (pass_on stdout blocks)

-- What `SerializePacket` printed goes out, by the buffer and the `Flush`.
unfoldable pub logged_by : Stdout → Router → Outcome → Run Router
unfolding cut pass_on
logged_by stdout router (wrote w) =
    pass_on stdout (cut (drop (length router.writer.out) w.out)) (record router { writer = w })
logged_by stdout router assert_failed = aborts
logged_by stdout router out_of_fuel = hangs

-- `PacketReceived` of `PacketForwarder` and of `PacketLogger`.
unfoldable pub packet_received : Kernel → Stdout → Listener → List ℕ → Router → Run Router
unfolding send_packet serialize_packet logged_by
packet_received kernel stdout in_out_forwarder packet router =
    and_then (send_packet kernel packet router.tun_out)
      (λ tun. runs (record router { tun_out = tun }))
packet_received kernel stdout packet_logger packet router =
    logged_by stdout router (serialize_packet packet router.writer)

-- crIN is readable, once for each answer of read(2).
unfoldable pub run : Kernel → Stdout → List ReadAnswer → Router → Run Router
unfolding packet_received handle_read
run kernel stdout [] router = runs router
run kernel stdout (answer ∷ answers) router =
    and_then (handle_read (packet_received kernel stdout) listeners answer router)
      (run kernel stdout answers)

-- What `Init` gives to the activator.
unfoldable pub configuration : Configuration
configuration =
    configure (ascii "crOUT")
      (record {
        address = 192 ∷ 168 ∷ 6 ∷ 1 ∷ [];
        broadcast = 192 ∷ 168 ∷ 6 ∷ 255 ∷ [];
        prefix_len = 24;
      })
      (configure (ascii "crIN")
        (record {
          address = 192 ∷ 168 ∷ 5 ∷ 1 ∷ [];
          broadcast = 192 ∷ 168 ∷ 5 ∷ 255 ∷ [];
          prefix_len = 24;
        })
        [])

-- "[%d] %s"
unfoldable pub labelled : NetInterfaceInfo → List ℕ → List ℕ
unfolding decimal c_str
labelled info text = ascii "[" ++ (decimal info.index ++ (ascii "] " ++ (c_str info.name ++ text)))

unfoldable pub with_address : NetInterfaceInfo → List ℕ → Option (List ℕ) → Option (List ℕ)
unfolding labelled
with_address info text none = none
with_address info text (some address) = some (labelled info (text ++ (address ++ ascii "\n")))

-- What `InterfaceStatusLogger` prints for an event; `inet_ntop` gives the text of an `Ip6Address`.
-- None where a text is undefined.
unfoldable pub status_line : (List ℕ → Option (List ℕ)) → Event → Option (List ℕ)
unfolding labelled with_address info_text
status_line inet_ntop (interface_created info) = some (labelled info (ascii " interface created\n"))
status_line inet_ntop (link_up info) = some (labelled info (ascii " link up\n"))
status_line inet_ntop (link_down info) = some (labelled info (ascii " link down\n"))
status_line inet_ntop (ip4_address_added info address) =
    with_address info (ascii " added IP address ") (info_text address)
status_line inet_ntop (ip4_address_removed info address) =
    with_address info (ascii " removed IP address ") (info_text address)
status_line inet_ntop (ip6_address_added info address) =
    with_address info (ascii " added IP address ") (inet_ntop address)
status_line inet_ntop (ip6_address_removed info address) =
    with_address info (ascii " removed IP address ") (inet_ntop address)
