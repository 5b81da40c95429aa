-- ===== src/Tests/Running.antt =====
-- main.cc and playback_tun.cc on concrete packets and logs.
use cheaproute.Programs.Flushed.{TakesWhole-Completes}
use cheaproute.Prelude.{
  Bool, if◌then◌else◌, ◌==◌, ◌%◌, ℕ, ◌≡◌, ◌≢◌, refl, true, false, List, [], ◌∷◌, ◌++◌, ascii, map,
  All, length, some,
}
use cheaproute.JsonReader.Text.{read_quoted}
use cheaproute.JsonReader.Number.{
  scan_number, first_round, scan_char, scan_digit, number_loop, push, strtoll, clamp_positive,
  digits_value,
}
use cheaproute.Programs.Running.{Run, runs, aborts}
use cheaproute.Programs.Tun.{Kernel, accepted, would_block, write_failed, received, Tun, new_tun}
use cheaproute.Programs.Playback.{playback}
use cheaproute.Programs.Router.{new_router, run, Stdout}
use cheaproute.Programs.Forwarded.{Forwards, IsIdle, IsLoggable, run-Forwards}
use cheaproute.Packet.Texts.{are_bytes-All}
use cheaproute.Packet.Fields.{byte}
use cheaproute.JsonWriter.{new_writer}
use cheaproute.Tests.Packets.{tcp_packet, tcp_packet-Advances}
use cheaproute.Prelude.{IsByte}
use cheaproute.Programs.Logged.{IsRefused, log-IsRefused}
use cheaproute.Tests.PacketText.{platform, text}

-- Takes the first packet and every other.
abbrev kernel : Kernel
kernel n packet = if n % 2 == 0 then accepted (length packet) else would_block

abbrev log : List ℕ
log = ascii "[ " ++ (text ++ (ascii ", " ++ (text ++ ascii "]")))

offered : Run Tun → List (List ℕ)
offered (runs t) = t.offered
offered _ = []

played : map length (offered (playback platform kernel log new_tun)) ≡ 30 ∷ 30 ∷ []
unfolding playback read_quoted scan_number first_round scan_char scan_digit number_loop push strtoll
    clamp_positive digits_value offered
played = refl

-- An empty log, and one that is a packet with no array around it.
refused : playback platform kernel text new_tun ≡ aborts
unfolding playback
refused = refl

-- A TCP packet with a NOP and a window scale, and a packet that is too short for a header.
abbrev arriving : List (List ℕ)
arriving = tcp_packet ∷ (1 ∷ 2 ∷ 3 ∷ []) ∷ []

arriving-IsLoggable : All IsLoggable arriving
unfolding byte
arriving-IsLoggable = ((λ e. tcp_packet-Advances), ((λ e. cc), tt))

new_router-IsIdle : IsIdle new_router
unfolding new_router new_writer
new_router-IsIdle = (refl, refl)

kernel_never_fails : (n : ℕ) (packet : List ℕ) → kernel n packet ≢ write_failed
kernel_never_fails n packet = choose (n % 2 == 0)
  where
    choose : (b : Bool) → (if b then accepted (length packet) else would_block) ≢ write_failed
    choose true e = cc
    choose false e = cc

arriving-IsByte : All (All IsByte) arriving
arriving-IsByte = (are_bytes-All tcp_packet refl, (are_bytes-All (1 ∷ 2 ∷ 3 ∷ []) refl, tt))

-- STDOUT_FILENO takes each block at once.
abbrev stdout : Stdout
stdout n block = some (length block) ∷ []

run-Forwards_example :
    Forwards kernel arriving new_router (run kernel stdout (map received arriving) new_router)
unfolding new_router new_writer
run-Forwards_example =
    run-Forwards kernel stdout arriving new_router kernel_never_fails (λ n block. refl)
      new_router-IsIdle refl arriving-IsLoggable arriving-IsByte

log-IsRefused_example :
    IsRefused platform kernel new_tun (run kernel stdout (map received arriving) new_router)
log-IsRefused_example =
    log-IsRefused platform kernel kernel stdout new_tun tcp_packet ((1 ∷ 2 ∷ 3 ∷ []) ∷ [])
      kernel_never_fails (TakesWhole-Completes stdout (λ n block. refl)) arriving-IsLoggable
      arriving-IsByte
