-- ===== src/Tests/Packets.antt =====
-- net/json_packet.cc on concrete packets.
use cheaproute.Prelude.{
  ℕ, ◌+◌, ◌%◌, ◌≡◌, refl, true, false, List, [], ◌∷◌, ◌++◌, arith, ltb, if◌then◌else◌,
}
use cheaproute.Prelude.Int.{pos}
use cheaproute.JsonWriter.{new_writer, document_start}
use cheaproute.Packet.Checksum.{compute_ip_checksum, fold_carry}
use cheaproute.Packet.Checksum.Verifies.{word_sum, big_endian, checksum-residue}
use cheaproute.Packet.Writing.{out_of_fuel}
use cheaproute.JsonWriter.Values.{top}
use cheaproute.Packet.Landing.{Lands, at, view}
use cheaproute.Packet.Serialize.{serialize_packet}
use cheaproute.Packet.Serialize.Tcp.{options_loop, options_of, tcp_header_size}
use cheaproute.Packet.Serialize.Headers.{ip_header_size}
use cheaproute.Packet.Fields.{byte}
use cheaproute.Packet.Serialize.Options.{Advances, nop, option, ended, options_loop_stuck}
use cheaproute.Packet.Serialize.Whole.{
  writes_tcp, packing_after, packet_options, serialize_packet-Lands,
}

-- An IPv4 header, a TCP header whose options are NOP and a window scale, and a byte of data.
abbrev pub tcp_packet : List ℕ
tcp_packet =
    (0x45 ∷ 0 ∷ 0 ∷ 45 ∷ 0 ∷ 1 ∷ 0x40 ∷ 0 ∷ 64 ∷ 6 ∷ 0 ∷ 0 ∷ [])
    ++ ((10 ∷ 0 ∷ 0 ∷ 1 ∷ 10 ∷ 0 ∷ 0 ∷ 2 ∷ [])
        ++ ((0 ∷ 80 ∷ 1 ∷ 0 ∷ 0 ∷ 0 ∷ 0 ∷ 1 ∷ 0 ∷ 0 ∷ 0 ∷ 2 ∷ 0x60 ∷ 0x18 ∷ 0 ∷ 9 ∷ 0 ∷ 0 ∷ 0 ∷ 0
              ∷ [])
            ++ (1 ∷ 3 ∷ 3 ∷ 7 ∷ 65 ∷ [])))

pub tcp_packet-Advances : Advances (packet_options tcp_packet)
unfolding options_of tcp_header_size ip_header_size byte
tcp_packet-Advances = nop (option (omega arith) (omega arith) ended)

new_writer-view : view (new_writer true) ≡ at document_start [] (pos 0)
unfolding new_writer
new_writer-view = refl

serialize_packet-Lands_example :
    Lands
      (at document_start [] (packing_after (writes_tcp tcp_packet) (pos 0)))
      (serialize_packet tcp_packet (new_writer true))
serialize_packet-Lands_example =
    serialize_packet-Lands top tcp_packet (λ e. tcp_packet-Advances) (new_writer true)
      new_writer-view

options_loop_stuck_example : options_loop 100 (8 ∷ 0 ∷ 5 ∷ []) (new_writer false) ≡ out_of_fuel
options_loop_stuck_example = options_loop_stuck 8 (5 ∷ []) 100 (new_writer false) (omega arith)

checksum-residue_example :
    (word_sum (10 ∷ 1 ∷ [])
        + word_sum (
            (255 ∷ 255 ∷ [])
            ++ big_endian
                (compute_ip_checksum (10 ∷ 1 ∷ []) ((255 ∷ 255 ∷ []) ++ 0 ∷ 0 ∷ 7 ∷ []))
                (7 ∷ [])))
      % 65535
    ≡ (if ltb
          (fold_carry (word_sum (10 ∷ 1 ∷ []) + word_sum ((255 ∷ 255 ∷ []) ++ 0 ∷ 0 ∷ 7 ∷ [])))
          65536
        then 0
        else 1)
checksum-residue_example =
    checksum-residue (10 ∷ 1 ∷ []) (255 ∷ 255 ∷ []) (7 ∷ []) (omega arith, (omega arith, tt))
      (omega arith, (omega arith, (omega arith, (omega arith, (omega arith, tt))))) refl
      (omega arith)
