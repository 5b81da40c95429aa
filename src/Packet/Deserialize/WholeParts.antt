-- ===== src/Packet/Deserialize/WholeParts.antt =====
-- net/json_packet.cc: what the parts of `DeserializePacket` append; the destination begins with an IP
-- header.
use cheaproute.Prelude.{
  ℕ, zero, suc, ◌<◌, ◌||◌, List, [], ◌++◌, arith, ◌==◌, length, elim_rule, ascii,
}
use cheaproute.Hex.{HexResult, parsed, rejected, out_of_table, parse_hex}
use cheaproute.Hex.Grows.{Grows, parse_hex-Grows}
use cheaproute.JsonReader.State.{
  start_array, end_array, start_object, end_object, string_token, token_eq,
}
use cheaproute.JsonReader.Values.{IsNested}
use cheaproute.Packet.Deserialize.Parsing.{Platform, Parsing, Parser}
use cheaproute.Packet.Deserialize.Tables.{c_str, text_eq}
use cheaproute.Packet.Deserialize.Whole.{
  deserialize_transport, lines_loop, hex_result, append_hex, append_data, deserialize_data,
  deserialize_rest,
}
use cheaproute.Packet.Deserialize.Returning.{
  Ends, Returns, Any, IsEmpty, GivesAddresses, ◌▹◌, ◌▹▹◌, pure-Returns, fails-Returns,
  current-Returns, emit-Returns, if-Returns, growing,
}
use cheaproute.Packet.Deserialize.Taking.{take_token, expect_next-Returns}
use cheaproute.Packet.Deserialize.Parts.{
  expect_next_token-Returns, expect_current_name-Returns, expect_next_name-Returns,
}
use cheaproute.Packet.Deserialize.HeaderParts.{
  deserialize_udp_header-Returns, deserialize_icmp_header-Returns,
}
use cheaproute.Packet.Deserialize.TcpParts.{deserialize_tcp_header-Returns}

pub deserialize_transport-Returns :
    (protocol : ℕ) → Returns Any Any (deserialize_transport protocol)
unfolding deserialize_transport
deserialize_transport-Returns protocol =
    if-Returns (protocol == 6)
      (expect_next_name-Returns "tcp" ▹ λ _ _. deserialize_tcp_header-Returns)
      (if-Returns (protocol == 17)
        (expect_next_name-Returns "udp" ▹ λ _ _. deserialize_udp_header-Returns)
        (if-Returns (protocol == 1)
          (expect_next_name-Returns "icmp" ▹ λ _ _. deserialize_icmp_header-Returns)
          (growing (pure-Returns tt tt))))

lines_loop-Ends :
    (fuel : ℕ) (str : List ℕ) (env : Platform) (s : Parsing)
    → GivesAddresses env
    → IsNested s.reader
    → length s.reader.stream < fuel
    → Ends Any IsEmpty (length s.reader.stream) s.dest (lines_loop fuel str env s)
unfolding lines_loop
lines_loop-Ends zero str env s g v l = absurd (omega arith)
lines_loop-Ends (suc fuel) str env s g v l = take_token Any IsEmpty fuel env s _ v l (λ t b w.
    elim_rule (Here t) (token_eq t.reader.token_type end_array) _ _
      (λ _. (pure-Returns {Q = Any} str tt).run env t g w)
      (λ _.
        elim_rule (λ (p : Parser (List ℕ)). Here t p) (token_eq t.reader.token_type string_token) _
          _ (λ _. lines_loop-Ends fuel (str ++ t.reader.str_value) env t g w b) (λ _. tt)))
  where
    Here : Parsing → Parser (List ℕ) → Type 0
    Here t p = Ends Any IsEmpty (length t.reader.stream) t.dest (p env t)

hex_result-Ends :
    (r : HexResult) (s : Parsing)
    → IsNested s.reader
    → Grows s.dest r
    → Ends Any Any (length s.reader.stream) s.dest (hex_result r s)
unfolding hex_result
hex_result-Ends (parsed bytes) s v (more, e) = (tt, omega arith, v, (more, e, tt))
hex_result-Ends (rejected bytes) s v (more, e) = (tt, omega arith, v, (more, e, tt))
hex_result-Ends out_of_table s v h = tt

append_data-Returns : (type str : List ℕ) → Returns Any Any (append_data type str)
unfolding append_data append_hex
append_data-Returns type str = if-Returns (text_eq type (ascii "text")) (emit-Returns str tt) (
    if-Returns (text_eq type (ascii "hex"))
      (record {
        run = λ env s g v. hex_result-Ends (parse_hex str s.dest) s v (parse_hex-Grows str s.dest);
      })
      (growing (pure-Returns tt tt)))

deserialize_data-Returns : Returns Any Any deserialize_data
unfolding deserialize_data
deserialize_data-Returns = expect_current_name-Returns "data" ▹ λ _ _.
    (expect_next_token-Returns start_object ▹ λ _ _.
    (expect_next_name-Returns "type" ▹ λ _ _.
    (expect_next_token-Returns string_token ▹ λ _ _.
    (current-Returns ▹ λ r _.
    if-Returns (text_eq r.str_value (ascii "text") || text_eq r.str_value (ascii "hex"))
      (expect_next_name-Returns "data" ▹ λ _ _.
        (expect_next_token-Returns start_array ▹ λ _ _.
        (lines ▹ λ str _.
        (append_data-Returns r.str_value str ▹▹ λ _ _.
        (growing (expect_next_token-Returns end_object) ▹▹ λ _ _.
        growing (expect_next_token-Returns end_object))))))
      (fails-Returns
        (ascii "data type must be 'text' or 'hex', was '" ++ (c_str r.str_value ++ ascii "'")))))))
  where
    lines : Returns Any IsEmpty (λ env s. lines_loop (suc (length s.reader.stream)) [] env s)
    lines = record {
      run = λ env s g v. lines_loop-Ends (suc (length s.reader.stream)) [] env s g v (omega arith);
    }

pub deserialize_rest-Returns : Returns Any Any deserialize_rest
unfolding deserialize_rest
deserialize_rest-Returns = expect_next-Returns ▹ λ _ _.
    (current-Returns ▹ λ r _.
    if-Returns (token_eq r.token_type end_object) (growing (pure-Returns tt tt))
      deserialize_data-Returns)
