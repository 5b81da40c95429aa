-- ===== src/Packet/Serialize/Tcp.antt =====
-- net/json_packet.cc: the TCP header as JSON, with its options.
use cheaproute.Prelude.{
  ℕ, zero, suc, ◌-◌, ◌*◌, ◌/◌, Bool, true, false, List, [], ◌∷◌, ◌==◌, ltb, if◌then◌else◌, length,
  take, drop, min, max,
}
use cheaproute.Packet.Fields.{byte, u16, u32, bit}
use cheaproute.Packet.Writing.{
  Action, out_of_fuel, ◌>>◌, done, property, string, int, uint, open_array, close_array,
  open_object, close_object, pack, unpack,
}
use Prim.Native.String.{String}

abbrev when : Bool → Action → Action
when b a = if b then a else done

-- `WriteTcpFlags`, of the byte that holds the flags.
unfoldable pub write_tcp_flags : ℕ → Action
unfolding bit
write_tcp_flags flags =
    open_array
    >> when (bit flags 5) (string "URG")
    >> when (bit flags 4) (string "ACK")
    >> when (bit flags 3) (string "PSH")
    >> when (bit flags 2) (string "RST")
    >> when (bit flags 1) (string "SYN")
    >> when (bit flags 0) (string "FIN")
    >> close_array

-- `WriteTcpOption`
unfoldable pub write_tcp_option : String → ℕ → Action
write_tcp_option name value = open_array >> string name >> int value >> close_array

unfoldable pub write_bare_option : String → Action
write_bare_option name = open_array >> string name >> close_array

-- The `switch` over the kind, for an option whose `size` bytes are there.
unfoldable pub write_option : ℕ → ℕ → List ℕ → Action
unfolding write_tcp_option write_bare_option byte u16 u32
write_option kind size p =
    if kind == 2
    then when (size == 4) (write_tcp_option "maxSegmentSize" (u16 p 2))
    else if kind == 3
    then when (size == 3) (write_tcp_option "windowScale" (byte p 2))
    else if kind == 4
    then when (size == 2) (write_bare_option "sackPermitted")
    else if kind == 8
    then when (size == 10)
        (open_array >> string "timestamp" >> uint (u32 p 2) >> uint (u32 p 6) >> close_array)
    else done

-- The loop over the options, from `p` to `options_end`.
unfoldable pub options_loop : ℕ → List ℕ → Action
options_loop fuel [] = done
options_loop zero (kind ∷ rest) = λ w. out_of_fuel
options_loop (suc fuel) (kind ∷ []) =
    if kind == 1
    then write_bare_option "NOP"
    else if kind == 0
    then write_bare_option "EOL"
    else done
options_loop (suc fuel) (kind ∷ size ∷ rest) = elim (kind == 1) [
  | true ↦ write_bare_option "NOP" >> options_loop fuel (size ∷ rest)
  | false ↦ elim (kind == 0) [
    | true ↦ write_bare_option "EOL"
    | false ↦ elim (ltb (length (kind ∷ size ∷ rest)) size) [
      | true ↦ done
      | false ↦
          write_option kind size (kind ∷ size ∷ rest)
          >> options_loop fuel (drop size (kind ∷ size ∷ rest))
    ]
  ]
]

unfoldable pub tcp_header_size : List ℕ → ℕ
unfolding byte
tcp_header_size h = byte h 12 / 16 * 4

-- The bytes of the options, within `size_limit`.
unfoldable pub options_of : List ℕ → ℕ → List ℕ
unfolding tcp_header_size
options_of h size_limit = take (min (size_limit - 20) (max 20 (tcp_header_size h) - 20)) (drop 20 h)

unfoldable pub write_options : List ℕ → Action
unfolding options_loop write_option write_bare_option
write_options options =
    if ltb 0 (length options)
    then property "options"
      >> pack
      >> open_array
      >> options_loop (length options) options
      >> close_array
      >> unpack
    else done

-- `WriteTcpHeader`
unfoldable pub write_tcp_header : List ℕ → ℕ → Action
unfolding write_tcp_flags write_options options_of u16 u32 byte bit
write_tcp_header h size_limit =
    open_object
    >> property "sourcePort"
    >> pack
    >> int (u16 h 0)
    >> property "destPort"
    >> int (u16 h 2)
    >> unpack
    >> property "seqNumber"
    >> pack
    >> uint (u32 h 4)
    >> when (bit (byte h 13) 4) (property "ackNumber" >> uint (u32 h 8))
    >> unpack
    >> property "flags"
    >> pack
    >> write_tcp_flags (byte h 13)
    >> property "windowSize"
    >> pack
    >> int (u16 h 14)
    >> when (bit (byte h 13) 5) (property "urgentPointer" >> int (u16 h 18))
    >> unpack
    >> write_options (options_of h size_limit)
    >> close_object
