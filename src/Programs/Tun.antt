-- ===== src/Programs/Tun.antt =====
-- net/tun_interface.cc: `TunInterface`. The kernel's answers are parameters.
use cheaproute.Prelude.{
  ℕ, ◌-◌, Option, none, some, List, [], ◌∷◌, ◌++◌, ascii, leb, length, take, replicate,
  if◌then◌else◌,
}
use cheaproute.Packet.Deserialize.Tables.{c_str}
use cheaproute.Programs.Running.{Run, runs, aborts, broadcast}

-- What write(2) answers: the number of bytes that it took, EAGAIN, or another error.
pub data WriteAnswer : Type 0 where
  accepted : ℕ → WriteAnswer
  would_block : WriteAnswer
  write_failed : WriteAnswer

-- The answer to the write of a packet, by the number of the writes before it.
abbrev pub Kernel : Type 0
Kernel = ℕ → List ℕ → WriteAnswer

-- What read(2) answers: the bytes that it put into the buffer, or an error.
pub data ReadAnswer : Type 0 where
  received : List ℕ → ReadAnswer
  read_failed : ReadAnswer

-- The packets that write(2) was given, what it took of them, and the text that was given to `printf`.
-- Standard output has that text in a buffer of its own; when and where it comes out between what the
-- program writes to the same descriptor without `printf` is left open.
pub record Tun : Type 0 where
  pub offered : List (List ℕ)
  pub taken : List (List ℕ)
  pub printed : List ℕ

abbrev pub new_tun : Tun
new_tun = record { offered = []; taken = []; printed = [] }

abbrev pub dropped_text : List ℕ
dropped_text = ascii "Dropped packet; EAGAIN received from write()\n"

-- Behind write(2).
unfoldable pub written : List ℕ → Tun → WriteAnswer → Run Tun
written packet tun (accepted n) =
    runs
      (record tun { offered = tun.offered ++ packet ∷ []; taken = tun.taken ++ take n packet ∷ [] })
written packet tun would_block =
    runs
      (record tun { offered = tun.offered ++ packet ∷ []; printed = tun.printed ++ dropped_text })
written packet tun write_failed = aborts

-- `SendPacket`
unfoldable pub send_packet : Kernel → List ℕ → Tun → Run Tun
unfolding written
send_packet kernel packet tun = written packet tun (kernel (length tun.offered) packet)

-- `HandleRead`: the listeners receive the packet in the order of the vector.
unfoldable pub handle_read {ℓ κ} :
    {L : Type ℓ} {S : Type κ} → (L → List ℕ → S → Run S) → List L → ReadAnswer → S → Run S
unfolding broadcast
handle_read packet_received listeners read_failed s = aborts
handle_read packet_received listeners (received packet) s =
    broadcast (λ listener. packet_received listener packet) listeners s

-- The name in the `ifreq` of the constructor, IFNAMSIZ bytes; none where it aborts.
unfoldable pub request_name : List ℕ → Option (List ℕ)
unfolding c_str
request_name name =
    if leb 16 (length name)
    then none
    else some (c_str name ++ replicate (16 - length (c_str name)) 0)
