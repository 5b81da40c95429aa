-- ===== src/Programs/Playback.antt =====
-- playback_tun.cc: the program that sends the packets of a log to a tun interface.
use cheaproute.Prelude.{ℕ, zero, suc, Bool, not, ◌||◌, List, [], ◌∷◌, length, if◌then◌else◌}
use cheaproute.JsonReader.State.{JsonReader, start_array, end_array, token_eq}
use cheaproute.JsonReader.{next, new_reader}
use cheaproute.Packet.Deserialize.Parsing.{
  Platform, Result, ok, error, out_of_fuel, undefined as undefined_read,
}
use cheaproute.Packet.Deserialize.Whole.{deserialize_packet}
use cheaproute.Netlink.Activator.{Configuration, configure}
use cheaproute.Programs.Running.{Run, runs, aborts, hangs, undefined, and_then}
use cheaproute.Programs.Tun.{Kernel, Tun, send_packet}

-- Behind `DeserializePacket`: the packet is sent, and the loop goes on.
unfoldable pub send_read : Kernel → Tun → (JsonReader → Tun → Run Tun) → Result (Unit {0}) → Run Tun
unfolding send_packet
send_read kernel tun next_round (ok _ s) =
    and_then (send_packet kernel s.dest tun) (next_round s.reader)
send_read kernel tun next_round (error message s) = aborts
send_read kernel tun next_round out_of_fuel = hangs
send_read kernel tun next_round undefined_read = undefined

-- Behind `reader.Next()`: a round of the loop, or its end.
unfoldable pub round :
    Platform → Kernel → Tun → (JsonReader → Tun → Run Tun) → Bool × JsonReader → Run Tun
unfolding send_read deserialize_packet
round env kernel tun next_round (read, reader) =
    if not read || token_eq reader.token_type end_array
    then runs tun
    else send_read kernel tun next_round
        (deserialize_packet env (record { reader = reader; dest = [] }))

-- `while (reader.Next() && reader.token_type() != JSON_EndArray)`
unfoldable pub packets_loop : Platform → Kernel → ℕ → JsonReader → Tun → Run Tun
unfolding round next
packets_loop env kernel zero reader tun = hangs
packets_loop env kernel (suc fuel) reader tun =
    round env kernel tun (packets_loop env kernel fuel) (next env.strtod_overflows reader)

unfoldable pub play : Platform → Kernel → Tun → Bool × JsonReader → Run Tun
unfolding packets_loop
play env kernel tun (read, reader) =
    if not read || not (token_eq reader.token_type start_array)
    then aborts
    else packets_loop env kernel (suc (length reader.stream)) reader tun

-- `Playback`, of the bytes of the log. Each round reads a byte at least.
unfoldable pub playback : Platform → Kernel → List ℕ → Tun → Run Tun
unfolding play next new_reader
playback env kernel log tun = play env kernel tun (next env.strtod_overflows (new_reader log))

-- What `Init` gives to the activator.
unfoldable pub configuration : List ℕ → Configuration
configuration iface_name =
    configure iface_name
      (record {
        address = 192 ∷ 168 ∷ 6 ∷ 1 ∷ [];
        broadcast = 192 ∷ 168 ∷ 6 ∷ 255 ∷ [];
        prefix_len = 24;
      })
      []
