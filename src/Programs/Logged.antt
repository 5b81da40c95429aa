-- ===== src/Programs/Logged.antt =====
-- main.cc: what the log of the packets reads as, for base/json_reader.cc and for playback_tun.cc.
use cheaproute.Programs.Flushed.{Completes, BeginsAs}
use cheaproute.Prelude.{
  ℕ, ◌≡◌, ◌≢◌, refl, sym, ◌∙◌, ap, subst, List, [], ◌∷◌, ◌++◌, All, IsByte, length, map, append-nil,
  append_assoc,
}
use cheaproute.JsonReader.{
  new_reader, next, skipping, skip_whitespace, next_in, read_value, open_container,
}
use cheaproute.JsonWriter.{new_writer}
use cheaproute.Packet.Serialize.Opens.{serialize_packet-Brace}
use cheaproute.Packet.Deserialize.Parsing.{Platform}
use cheaproute.Programs.Running.{Run, runs, aborts, hangs, undefined}
use cheaproute.Programs.Tun.{Kernel, write_failed, received, Tun}
use cheaproute.Programs.Router.{Router, new_router, run, Stdout}
use cheaproute.Programs.Forwarded.{IsIdle, IsLoggable, receive_packet}
use cheaproute.Programs.Playback.{play, playback}

-- The router goes on, and has received more of its log.
abbrev Grows : Router → Run Router → Type 0
Grows before (runs r) = (more : List ℕ) × (r.logged ≡ before.logged ++ more)
Grows before aborts = ⊥
Grows before hangs = ⊥
Grows before undefined = ⊥

then-Grows :
    (before router : Router) (sent : List ℕ) (o : Run Router)
    → router.logged ≡ before.logged ++ sent
    → Grows router o
    → Grows before o
then-Grows before router sent (runs r) e (more, f) =
    (sent ++ more, f ∙ ap (λ t. t ++ more) e ∙ append_assoc before.logged sent more)
then-Grows before router sent aborts e h = h
then-Grows before router sent hangs e h = h
then-Grows before router sent undefined e h = h

run-Grows :
    (kernel : Kernel) (stdout : Stdout) (packets : List (List ℕ)) (router : Router)
    → ((n : ℕ) (packet : List ℕ) → kernel n packet ≢ write_failed)
    → Completes stdout
    → IsIdle router
    → All IsLoggable packets
    → All (All IsByte) packets
    → Grows router (run kernel stdout (map received packets) router)
unfolding run
run-Grows kernel stdout [] router h k i l b = ([], sym (append-nil router.logged))
run-Grows kernel stdout (packet ∷ packets) router h k i (l, ls) (b, bs) =
    let (r, x) =
      receive_packet kernel stdout router packet k (h (length router.tun_out.offered) packet) i l
        b in
    rw (x.runs_to) (
      then-Grows router r x.sent (run kernel stdout (map received packets) r) x.grown
        (run-Grows kernel stdout packets r h k x.idle ls bs))

new_router-IsIdle : IsIdle new_router
unfolding new_router new_writer
new_router-IsIdle = (refl, refl)

playback-brace :
    (env : Platform) (kernel : Kernel) (text : List ℕ) (tun : Tun)
    → playback env kernel (b'{' ∷ text) tun ≡ aborts
unfolding playback play new_reader next skipping skip_whitespace next_in read_value open_container
playback-brace env kernel text tun = refl

abbrev pub IsRefused : Platform → Kernel → Tun → Run Router → Type 0
IsRefused env kernel tun (runs r) = playback env kernel r.logged tun ≡ aborts
IsRefused env kernel tun aborts = ⊥
IsRefused env kernel tun hangs = ⊥
IsRefused env kernel tun undefined = ⊥

braced-IsRefused :
    (env : Platform) (kernel : Kernel) (tun : Tun) (first : Router) (text : List ℕ) (o : Run Router)
    → first.logged ≡ b'{' ∷ text
    → Grows first o
    → IsRefused env kernel tun o
braced-IsRefused env kernel tun first text (runs r) e (more, f) =
    subst (λ t. playback env kernel t tun ≡ aborts) (sym (f ∙ ap (λ t. t ++ more) e))
      (playback-brace env kernel (text ++ more) tun)
braced-IsRefused env kernel tun first text aborts e h = h
braced-IsRefused env kernel tun first text hangs e h = h
braced-IsRefused env kernel tun first text undefined e h = h

-- While write(2) on the device has no error but EAGAIN, every `Write` of the log to STDOUT_FILENO returns,
-- short writes not excluded, and the options of the TCP headers come to an end: what STDOUT_FILENO
-- receives of the log of a new router that received a packet of bytes at least is a log on which
-- `Playback` aborts, whatever the device and the C library answer to it: it does not begin with an
-- array.
pub log-IsRefused :
    (env : Platform) (kernel player : Kernel) (stdout : Stdout) (tun : Tun) (packet : List ℕ)
    (packets : List (List ℕ))
    → ((n : ℕ) (p : List ℕ) → kernel n p ≢ write_failed)
    → Completes stdout
    → All IsLoggable (packet ∷ packets)
    → All (All IsByte) (packet ∷ packets)
    → IsRefused env player tun (run kernel stdout (map received (packet ∷ packets)) new_router)
unfolding run
log-IsRefused env kernel player stdout tun packet packets h k (l, ls) (b, bs) =
    let (r, x) =
      receive_packet kernel stdout new_router packet k
        (h (length new_router.tun_out.offered) packet) new_router-IsIdle l b in
    let (text, brace) =
      serialize_packet-Brace packet new_router.writer r.writer l b new_router-IsIdle.0
        new_router-IsIdle.1 x.serialized in
    let (rest, begun) =
      subst (λ t. BeginsAs t x.sent) (printed_first x.text r.writer.out x.printed ∙ brace ∙ fresh)
        x.begins in
    rw (x.runs_to) (
      braced-IsRefused env player tun r rest (run kernel stdout (map received packets) r)
        (x.grown ∙ ap (λ t. new_router.logged ++ t) begun ∙ unfold new_router in refl)
        (run-Grows kernel stdout packets r h k x.idle ls bs))
  where
    fresh : {text : List ℕ} → new_router.writer.out ++ b'{' ∷ text ≡ b'{' ∷ text
    fresh = unfold new_router new_writer in refl

    printed_first : (text out : List ℕ) → out ≡ new_router.writer.out ++ text → text ≡ out
    printed_first text out e = sym (e ∙ unfold new_router new_writer in refl)
