-- ===== src/Packet/Deserialize/HeaderParts.antt =====
-- net/json_packet.cc: what the functions that read the IP, UDP and ICMP headers append.
use cheaproute.Prelude.{
  ℕ, zero, suc, ◌%◌, ◌≤◌, ◌<◌, ◌≡◌, ap, Option, List, arith, ◌==◌, IsByte, length, ascii, bit_or,
  elim_rule, option_rule,
}
use cheaproute.JsonReader.State.{
  start_array, end_array, start_object, end_object, string_token, token_eq,
}
use cheaproute.JsonReader.Values.{IsNested}
use cheaproute.Packet.Names.{
  protocol_names, icmp_type_names, icmp_unreachable_names, icmp_redirect_names,
  icmp_bad_header_names,
}
use cheaproute.Packet.Serialize.Headers.{has_identifier}
use cheaproute.Packet.Deserialize.Parsing.{emit, Platform, Parsing, Parser}
use cheaproute.Packet.Deserialize.Tables.{lookup_name, lookup_ip_flag}
use cheaproute.Packet.Deserialize.Headers.{
  flags_loop, deserialize_flags, Ip4Header, ip4_bytes, deserialize_ip4_header,
  deserialize_udp_header, icmp_code, icmp_rest, deserialize_icmp_header,
}
use cheaproute.Packet.Deserialize.Returning.{
  Ends, Returns, Any, IsEmpty, ◌▹◌, pure-Returns, emit-Returns, if-Returns, prefixed-Returns,
  weaker, GivesAddresses,
}
use cheaproute.Packet.Deserialize.Taking.{take_token}
use cheaproute.Packet.Deserialize.Parts.{
  expect_next_token-Returns, expect_next_name-Returns, expect_enum_property-Returns, InRange,
  next_property-Returns, next_property_in-Returns, IsAddress, expect_ip4_value-Returns,
  lookup_name-Finds,
}

flags_loop-Ends :
    (lookup : List ℕ → Option ℕ) (fuel flags : ℕ) (env : Platform) (s : Parsing)
    → GivesAddresses env
    → IsNested s.reader
    → length s.reader.stream < fuel
    → Ends Any IsEmpty (length s.reader.stream) s.dest (flags_loop lookup fuel flags env s)
unfolding flags_loop
flags_loop-Ends lookup zero flags env s g v l = absurd (omega arith)
flags_loop-Ends lookup (suc fuel) flags env s g v l =
    take_token Any IsEmpty fuel env s _ v l (λ t b w.
      elim_rule (Here t) (token_eq t.reader.token_type end_array) _ _
        (λ _. (pure-Returns {Q = Any} flags tt).run env t g w)
        (λ _.
          elim_rule (Here t) (token_eq t.reader.token_type string_token) _ _
            (λ _.
              option_rule (Here t) (lookup t.reader.str_value) _
                (λ flag. flags_loop lookup fuel (bit_or flags flag)) tt
                (λ flag. flags_loop-Ends lookup fuel (bit_or flags flag) env t g w b))
            (λ _. tt)))
  where
    Here : Parsing → Parser ℕ → Type 0
    Here t p = Ends Any IsEmpty (length t.reader.stream) t.dest (p env t)

pub deserialize_flags-Returns :
    (lookup : List ℕ → Option ℕ) → Returns Any IsEmpty (deserialize_flags lookup)
unfolding deserialize_flags
deserialize_flags-Returns lookup = expect_next_token-Returns start_array ▹ λ _ _. record {
  run =
      λ env s g v. flags_loop-Ends lookup (suc (length s.reader.stream)) 0 env s g v (omega arith);
}

-- The ranges of the fields that were read.
pub record IsRead (h : Ip4Header) : Type 0 where
  pub tos : InRange 0 255 h.tos
  pub id : InRange 0 65535 h.id
  pub ttl : InRange 0 255 h.ttl
  pub protocol : IsByte h.protocol
  pub source : IsAddress h.source
  pub destination : IsAddress h.destination

-- The bytes of a header of version 4 whose fields were read.
abbrev pub IsIp4Header : List ℕ → Type 0
IsIp4Header bytes = (h : Ip4Header) × (bytes ≡ ip4_bytes 4 h) × IsRead h

emit_header :
    (version : ℕ) (h : Ip4Header)
    → InRange 4 4 version
    → IsRead h
    → Returns Any IsIp4Header (emit (ip4_bytes version h))
emit_header version h (low, high) r =
    emit-Returns (ip4_bytes version h) (h, ap (λ n. ip4_bytes n h) four, r)
  where
    four : version ≡ 4
    four = omega arith

pub deserialize_ip4_header-Returns : Returns Any IsIp4Header deserialize_ip4_header
unfolding deserialize_ip4_header
deserialize_ip4_header-Returns = expect_next_token-Returns start_object ▹ λ _ _.
    (next_property_in-Returns "version" 4 4 ▹ λ version is_four.
    (next_property_in-Returns "tos" 0 255 ▹ λ tos tos_in.
    (next_property-Returns "id" 65535 ▹ λ id id_in.
    (expect_next_name-Returns "flags" ▹ λ _ _.
    (prefixed-Returns (ascii "While reading property 'flags' in ip header")
        (deserialize_flags-Returns lookup_ip_flag)
      ▹ λ flags _.
          (next_property_in-Returns "fragmentOffset" 0 8191 ▹ λ offset _.
          (next_property-Returns "ttl" 255 ▹ λ ttl ttl_in.
          (expect_enum_property-Returns "protocol" (lookup_name protocol_names)
              (lookup_name-Finds protocol_names)
            ▹ λ protocol protocol_in.
                (expect_next_name-Returns "source" ▹ λ _ _.
                (prefixed-Returns (ascii "In property 'source'") expect_ip4_value-Returns
                  ▹ λ source source_in.
                      (expect_next_name-Returns "destination" ▹ λ _ _.
                      (prefixed-Returns (ascii "In property 'destination'") expect_ip4_value-Returns
                        ▹ λ destination destination_in.
                            (prefixed-Returns (ascii "While reading IP header")
                                (expect_next_token-Returns end_object)
                              ▹ λ _ _.
                                  emit_header version
                                    (record {
                                      tos = tos;
                                      id = id;
                                      fragment = bit_or offset (flags % 65536);
                                      ttl = ttl;
                                      protocol = protocol;
                                      source = source;
                                      destination = destination;
                                    })
                                    is_four
                                    (record {
                                      tos = tos_in;
                                      id = id_in;
                                      ttl = ttl_in;
                                      protocol = protocol_in;
                                      source = source_in;
                                      destination = destination_in;
                                    }))))))))))))))

pub deserialize_udp_header-Returns : Returns Any Any deserialize_udp_header
unfolding deserialize_udp_header
deserialize_udp_header-Returns = expect_next_token-Returns start_object ▹ λ _ _.
    (next_property-Returns "sourcePort" 65535 ▹ λ source _.
    (next_property-Returns "destPort" 65535 ▹ λ dest _.
    (expect_next_token-Returns end_object ▹ λ _ _. emit-Returns _ tt)))

icmp_code-Returns : (type : ℕ) → Returns IsByte IsEmpty (icmp_code type)
unfolding icmp_code
icmp_code-Returns type =
    if-Returns (type == 3)
      (expect_enum_property-Returns "code" (lookup_name icmp_unreachable_names)
        (lookup_name-Finds icmp_unreachable_names))
      (if-Returns (type == 5)
        (expect_enum_property-Returns "code" (lookup_name icmp_redirect_names)
          (lookup_name-Finds icmp_redirect_names))
        (if-Returns (type == 12)
          (expect_enum_property-Returns "code" (lookup_name icmp_bad_header_names)
            (lookup_name-Finds icmp_bad_header_names))
          (weaker (λ n (l, h). below n h) (next_property-Returns "code" 255))))
  where
    below : (n : ℕ) → n ≤ 255 → IsByte n
    below n h = omega arith

icmp_rest-Returns : (type : ℕ) → Returns Any IsEmpty (icmp_rest type)
unfolding icmp_rest
icmp_rest-Returns type =
    if-Returns (has_identifier type)
      (next_property-Returns "identifier" 65535 ▹ λ id _.
        (next_property-Returns "sequenceNumber" 65535 ▹ λ sequence _. pure-Returns _ tt))
      (if-Returns (type == 3)
        (next_property-Returns "nextHopMtu" 65535 ▹ λ mtu _. pure-Returns _ tt)
        (if-Returns (type == 5)
          (expect_next_name-Returns "gateway" ▹ λ _ _. weaker (λ _ _. tt) expect_ip4_value-Returns)
          (pure-Returns _ tt)))

pub deserialize_icmp_header-Returns : Returns Any Any deserialize_icmp_header
unfolding deserialize_icmp_header
deserialize_icmp_header-Returns = expect_next_token-Returns start_object ▹ λ _ _.
    (expect_enum_property-Returns "type" (lookup_name icmp_type_names)
        (lookup_name-Finds icmp_type_names)
      ▹ λ type _.
          (icmp_code-Returns type ▹ λ code _.
          (icmp_rest-Returns type ▹ λ rest _.
          (expect_next_token-Returns end_object ▹ λ _ _. emit-Returns _ tt))))
