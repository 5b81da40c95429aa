-- ===== src/Programs/Forwarded.antt =====
-- main.cc: every packet that crIN receives is handed to crOUT and logged.
use cheaproute.Packet.Traced.{Traced}
use cheaproute.JsonRoundTrip.Document.{Prints-Reads}
use cheaproute.JsonRoundTrip.Written.{IsResumed}
use cheaproute.JsonRoundTrip.Calls.{Call, Prints}
use cheaproute.Programs.Flushed.{
  Completes, TakesWhole, Flushed, BeginsAs, TakesWhole-Completes, flush-Flushed,
}
use cheaproute.Prelude.{
  ℕ, suc, ◌≡◌, ◌≢◌, refl, sym, ◌∙◌, ap, true, List, [], ◌∷◌, ◌++◌, append-nil, append_assoc, arith,
  length, length-append, take, map, All, ap₂, subst, drop, drop-append, IsByte, false,
}
use cheaproute.Prelude.Int.{ℤ}
use cheaproute.JsonWriter.{JsonWriter, document_start}
use cheaproute.Packet.Writing.{Outcome, wrote, assert_failed, out_of_fuel}
use cheaproute.JsonWriter.Values.{top}
use cheaproute.Packet.Landing.{at, Lands}
use cheaproute.Packet.Serialize.{serialize_packet}
use cheaproute.Packet.Serialize.Options.{Advances}
use cheaproute.Packet.Serialize.Whole.{
  serialize_packet-Lands, writes_tcp, packet_options, serialize_packet-Traced,
}
use cheaproute.Programs.Running.{Run, runs, aborts, hangs, undefined, broadcast}
use cheaproute.Programs.Tun.{
  Kernel, WriteAnswer, accepted, would_block, write_failed, received, Tun, dropped_text, written,
  send_packet, handle_read,
}
use cheaproute.Programs.Router.{Router, listeners, logged_by, packet_received, run, Stdout}

-- What write(2) took of a packet, in front of what it took of the others.
pub passed_by : List ℕ → WriteAnswer → List (List ℕ) → List (List ℕ)
passed_by packet (accepted k) rest = take k packet ∷ rest
passed_by packet would_block rest = rest
passed_by packet write_failed rest = rest

-- What write(2) took of the packets, by its answers alone, after `n` writes.
pub passed : Kernel → ℕ → List (List ℕ) → List (List ℕ)
unfolding passed_by
passed kernel n [] = []
passed kernel n (packet ∷ packets) =
    passed_by packet (kernel n packet) (passed kernel (suc n) packets)

-- No packet has been left half printed.
abbrev pub IsIdle : Router → Type 0
IsIdle r = (r.writer.mode ≡ document_start) × (r.writer.mode_stack ≡ [])

-- STDOUT_FILENO has received all that the printer of the log printed.
abbrev pub IsFlushed : Router → Type 0
IsFlushed r = r.logged ≡ r.writer.out

-- The loop over the options of a TCP header that is logged comes to an end.
abbrev pub IsLoggable : List ℕ → Type 0
IsLoggable packet = writes_tcp packet ≡ true → Advances (packet_options packet)

abbrev pub Forwards : Kernel → List (List ℕ) → Router → Run Router → Type 0
Forwards kernel packets before (runs r) =
    (r.tun_out.offered ≡ before.tun_out.offered ++ packets)
    × (r.tun_out.taken
        ≡ before.tun_out.taken ++ passed kernel (length before.tun_out.offered) packets)
    × IsIdle r
    × IsFlushed r
Forwards kernel packets before aborts = ⊥
Forwards kernel packets before hangs = ⊥
Forwards kernel packets before undefined = ⊥

pub written-runs :
    (packet : List ℕ) (tun : Tun) (answer : WriteAnswer)
    → answer ≢ write_failed
    → (t : Tun) × (written packet tun answer ≡ runs t)
      × (t.offered ≡ tun.offered ++ packet ∷ [])
      × ((rest : List (List ℕ)) → t.taken ++ rest ≡ tun.taken ++ passed_by packet answer rest)
unfolding written passed_by
written-runs packet tun (accepted n) h = (
  record tun { offered = tun.offered ++ packet ∷ []; taken = tun.taken ++ take n packet ∷ [] },
  refl,
  refl,
  λ rest. append_assoc tun.taken (take n packet ∷ []) rest,
)
written-runs packet tun would_block h = (
  record tun { offered = tun.offered ++ packet ∷ []; printed = tun.printed ++ dropped_text },
  refl,
  refl,
  λ rest. refl,
)
written-runs packet tun write_failed h = absurd (h refl)

logged_by-runs :
    (stdout : Stdout) (router : Router) (p : ℤ) (o : Outcome)
    → Completes stdout
    → Lands (at document_start [] p) o
    → (w : JsonWriter) × (r : Router) × (logged_by stdout router o ≡ runs r)
      × Flushed stdout (drop (length router.writer.out) w.out) (record router { writer = w }) r
      × (o ≡ wrote w)
      × (w.mode ≡ document_start)
      × (w.mode_stack ≡ [])
unfolding logged_by
logged_by-runs stdout router p (wrote w) k h =
    let (r, e, f) =
      flush-Flushed stdout (drop (length router.writer.out) w.out) (record router { writer = w })
        k in
    (w, r, e, f, refl, ap (λ v. v.mode) h, ap (λ v. v.stack) h)
logged_by-runs stdout router p assert_failed k h = absurd h
logged_by-runs stdout router p out_of_fuel k h = absurd h

-- What the printer printed for a packet of bytes follows what it had printed.
pub packet-Prints :
    (w u : JsonWriter) (packet : List ℕ)
    → w.mode ≡ document_start
    → w.mode_stack ≡ []
    → IsLoggable packet
    → All IsByte packet
    → serialize_packet packet w ≡ wrote u
    → (calls : List Call) × Prints w calls u
packet-Prints w u packet m s l b e =
    subst (Traced w) e
      (serialize_packet-Traced {p = w.pack} top packet l b w (ap₂ (λ m st. at m st w.pack) m s))

printed-text :
    (w u : JsonWriter) (calls : List Call)
    → w.mode_stack ≡ []
    → Prints w calls u
    → u.out ≡ w.out ++ drop (length w.out) u.out
printed-text w u calls s p =
    let x = Prints-Reads (λ digits. false) p (subst (All IsResumed) (sym s) tt) in
    x.prints
    ∙ ap (λ t. w.out ++ t)
        (sym (ap (drop (length w.out)) x.prints ∙ drop-append w.out x.bytes (length w.out) refl))

-- What one packet does.
pub record Receives (kernel : Kernel) (stdout : Stdout) (router : Router) (packet : List ℕ)
    (r : Router) : Type 0 where
  pub runs_to :
      handle_read (packet_received kernel stdout) listeners (received packet) router ≡ runs r
  pub offers : r.tun_out.offered ≡ router.tun_out.offered ++ packet ∷ []
  pub takes :
      (rest : List (List ℕ))
      → r.tun_out.taken ++ rest
        ≡ router.tun_out.taken
          ++ passed_by packet (kernel (length router.tun_out.offered) packet) rest
  pub idle : IsIdle r
  pub serialized : serialize_packet packet router.writer ≡ wrote r.writer
  pub text : List ℕ
  pub printed : r.writer.out ≡ router.writer.out ++ text
  pub sent : List ℕ
  pub grown : r.logged ≡ router.logged ++ sent
  pub begins : BeginsAs text sent
  pub whole : TakesWhole stdout → sent ≡ text

pub receive_packet :
    (kernel : Kernel) (stdout : Stdout) (router : Router) (packet : List ℕ)
    → Completes stdout
    → (kernel (length router.tun_out.offered) packet ≢ write_failed)
    → IsIdle router
    → IsLoggable packet
    → All IsByte packet
    → (r : Router) × Receives kernel stdout router packet r
unfolding handle_read broadcast packet_received send_packet
receive_packet kernel stdout router packet k h (m, s) l b =
    let (t, e, offers, takes) =
      written-runs packet router.tun_out (kernel (length router.tun_out.offered) packet) h in
    let (w, r, e', f, o, m', s') =
      logged_by-runs stdout (record router { tun_out = t }) _ _ k
        (serialize_packet-Lands {p = router.writer.pack} top packet l router.writer
          (ap₂ (λ m st. at m st router.writer.pack) m s)) in
    let (calls, p) = packet-Prints router.writer w packet m s l b o in
    (
      r,
      record {
        runs_to = rw e (rw e' refl);
        offers = ap (λ u. u.offered) f.tun_same ∙ offers;
        takes = λ rest. ap (λ u. u.taken ++ rest) f.tun_same ∙ takes rest;
        idle = (ap (λ u. u.mode) f.writer_same ∙ m', ap (λ u. u.mode_stack) f.writer_same ∙ s');
        serialized = o ∙ ap wrote (sym f.writer_same);
        text = drop (length router.writer.out) w.out;
        printed = ap (λ u. u.out) f.writer_same ∙ printed-text router.writer w calls s p;
        sent = f.more;
        grown = f.grown;
        begins = f.begins;
        whole = f.whole;
      },
    )

-- The log stays flushed.
Receives-IsFlushed :
    {kernel : Kernel} {stdout : Stdout} {router r : Router} {packet : List ℕ}
    → Receives kernel stdout router packet r
    → TakesWhole stdout
    → IsFlushed router
    → IsFlushed r
Receives-IsFlushed x w f = x.grown ∙ ap₂ (λ a b. a ++ b) f (x.whole w) ∙ sym x.printed

-- While write(2) on the device has no error but EAGAIN, on STDOUT_FILENO takes each block of the log
-- whole, and the options of the TCP headers come to an end, the program goes on with packets of bytes: it
-- hands every packet that crIN receives to crOUT, in order; crOUT takes those for which write(2) did not
-- answer EAGAIN; and after each, STDOUT_FILENO has received all that the printer of the log printed, and
-- no container is open.
pub run-Forwards :
    (kernel : Kernel) (stdout : Stdout) (packets : List (List ℕ)) (router : Router)
    → ((n : ℕ) (packet : List ℕ) → kernel n packet ≢ write_failed)
    → TakesWhole stdout
    → IsIdle router
    → IsFlushed router
    → All IsLoggable packets
    → All (All IsByte) packets
    → Forwards kernel packets router (run kernel stdout (map received packets) router)
unfolding run passed
run-Forwards kernel stdout [] router h w i f l b = (sym (append-nil _), sym (append-nil _), i, f)
run-Forwards kernel stdout (packet ∷ packets) router h w i f (l, ls) (b, bs) =
    let (r, x) =
      receive_packet kernel stdout router packet (TakesWhole-Completes stdout w)
        (h (length router.tun_out.offered) packet) i l b in
    rw (x.runs_to) (
      extend r (run kernel stdout (map received packets) r) x.offers x.takes
        (run-Forwards kernel stdout packets r h w x.idle (Receives-IsFlushed x w f) ls bs))
  where
    extend :
        (r : Router) (o : Run Router)
        → r.tun_out.offered ≡ router.tun_out.offered ++ packet ∷ []
        → ((rest : List (List ℕ))
            → r.tun_out.taken ++ rest
              ≡ router.tun_out.taken
                ++ passed_by packet (kernel (length router.tun_out.offered) packet) rest)
        → Forwards kernel packets r o
        → Forwards kernel (packet ∷ packets) router o
    extend r (runs s) offers takes (a, b, c, d) = (
      a ∙ ap (λ o. o ++ packets) offers ∙ append_assoc router.tun_out.offered (packet ∷ []) packets,
      b
          ∙ takes _
          ∙ ap
              (λ n.
                router.tun_out.taken
                ++ passed_by packet (kernel (length router.tun_out.offered) packet)
                    (passed kernel n packets))
              (ap length offers ∙ length-append router.tun_out.offered (packet ∷ []) ∙ omega arith),
      c,
      d,
    )
    extend r aborts offers takes x = x
    extend r hangs offers takes x = x
    extend r undefined offers takes x = x
