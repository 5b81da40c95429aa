-- ===== src/Packet/Deserialize/TcpParts.antt =====
-- net/json_packet.cc: the function that reads the TCP header only appends.
use cheaproute.Prelude.{
  ℕ, zero, suc, ◌+◌, ◌-◌, ◌*◌, ◌/◌, ◌%◌, ◌<◌, ◌≡◌, ◌∙◌, ap, List, [], ◌∷◌, ◌++◌, arith, ◌==◌,
  IsByte, length, take, drop, if◌then◌else◌, if_rule, ascii, elim_rule, append_assoc,
}
use cheaproute.JsonReader.State.{
  start_array, end_array, start_object, end_object, property_name, token_eq,
}
use cheaproute.JsonReader.Values.{IsNested}
use cheaproute.Packet.Fields.{bit}
use cheaproute.Packet.Names.{tcp_flags, tcp_options}
use cheaproute.Packet.Deserialize.Parsing.{
  Platform, Parsing, Result, ok, error, out_of_fuel, undefined, Parser, ◌>>=◌, ◌>>◌, bind, fails,
  emit, modify,
}
use cheaproute.Packet.Deserialize.Tables.{text_eq, lookup_name, lookup_flag}
use cheaproute.Packet.Deserialize.Expect.{
  expect_current, expect_enum_value, expect_next_token, expect_value,
}
use cheaproute.Packet.Deserialize.Headers.{be16, be32}
use cheaproute.Packet.Deserialize.Tcp.{
  option_body, read_options_loop, deserialize_options, acknowledgement, urgent_pointer, tcp_bytes,
  set_data_offset, deserialize_tcp_header,
}
use cheaproute.Packet.Deserialize.Returning.{
  Ends, Returns, Any, IsEmpty, GivesAddresses, ◌▹◌, ◌▹▹◌, bind_silent, bind_growing, pure-Returns,
  fails-Returns, current-Returns, emit-Returns, if-Returns, growing, weaker,
}
use cheaproute.Packet.Deserialize.Taking.{take_token, expect_next-Returns}
use cheaproute.Packet.Deserialize.Parts.{
  expect_current-Returns, expect_next_token-Returns, expect_current_name-Returns,
  expect_enum_value-Returns, expect_value-Returns, current_property-Returns, next_property-Returns,
  lookup_name-Finds,
}
use cheaproute.Packet.Deserialize.HeaderParts.{deserialize_flags-Returns}

value_bytes-Returns : Returns Any Any (expect_value 0 65535 >>= λ value. emit (be16 value))
value_bytes-Returns = expect_value-Returns 0 65535 ▹ λ value _. emit-Returns (be16 value) tt

two_bytes-Returns :
    (kind : ℕ)
    → Returns Any Any
        (emit (kind ∷ 4 ∷ []) >> (expect_value 0 65535 >>= λ value. emit (be16 value)))
two_bytes-Returns kind =
    ◌▹▹◌ {G = Any} {k = λ _. expect_value 0 65535 >>= λ value. emit (be16 value)}
      (emit-Returns (kind ∷ 4 ∷ []) tt) (λ _ _. value_bytes-Returns)

stamp_bytes-Returns : Returns Any Any (
    expect_value 0 4294967295 >>= λ value.
    expect_value 0 4294967295 >>= λ echo. emit (be32 value ++ be32 echo))
stamp_bytes-Returns = expect_value-Returns 0 4294967295 ▹ λ value _.
    (expect_value-Returns 0 4294967295 ▹ λ echo _. emit-Returns (be32 value ++ be32 echo) tt)

stamps-Returns :
    (kind : ℕ)
    → Returns Any Any (
        emit (kind ∷ 10 ∷ []) >>= λ _.
        (expect_value 0 4294967295 >>= λ value.
        (expect_value 0 4294967295 >>= λ echo. emit (be32 value ++ be32 echo))))
stamps-Returns kind =
    ◌▹▹◌ {G = Any}
      {k = λ _. expect_value 0 4294967295 >>= λ value.
        expect_value 0 4294967295 >>= λ echo. emit (be32 value ++ be32 echo)}
      (emit-Returns (kind ∷ 10 ∷ []) tt) (λ _ _. stamp_bytes-Returns)

option_body-Returns : (kind : ℕ) → Returns Any Any (option_body kind)
unfolding option_body
option_body-Returns kind = if-Returns (kind == 0) (emit-Returns _ tt) (
    if-Returns (kind == 1) (emit-Returns _ tt) (
      if-Returns (kind == 4) (emit-Returns _ tt) (
        if-Returns (kind == 3) (two_bytes-Returns kind) (
          if-Returns (kind == 2) (two_bytes-Returns kind) (
            if-Returns (kind == 5) (fails-Returns _)
              (if-Returns (kind == 8) (stamps-Returns kind) (growing (pure-Returns tt tt))))))))

-- An option takes a token at least.
read_options_loop-Ends :
    (fuel : ℕ) (env : Platform) (s : Parsing)
    → GivesAddresses env
    → IsNested s.reader
    → length s.reader.stream < fuel
    → Ends Any Any (length s.reader.stream) s.dest (read_options_loop fuel env s)
unfolding read_options_loop
read_options_loop-Ends zero env s g v l = absurd (omega arith)
read_options_loop-Ends (suc fuel) env s g v l =
    elim_rule (λ (p : Parser (Unit {0})). Ends Any Any (length s.reader.stream) s.dest (p env s))
      (token_eq s.reader.token_type end_array) _ _
      (λ _. (growing (pure-Returns {Q = Any} tt tt)).run env s g v)
      (λ _.
        bind_silent Any Any Any (length s.reader.stream) s.dest (expect_current start_array env s) _
          ((expect_current-Returns start_array).run env s g v)
          (λ _ t _ b w.
            bind_silent IsByte Any Any (length t.reader.stream) t.dest
              (expect_enum_value (lookup_name tcp_options) env t) _
              ((expect_enum_value-Returns (lookup_name tcp_options)
                  (lookup_name-Finds tcp_options)).run
                env t g w)
              (λ kind x _ c y.
                bind_growing Any Any Any (length x.reader.stream) x.dest (option_body kind env x) _
                  ((option_body-Returns kind).run env x g y)
                  (λ _ z _ d z'.
                    bind_silent Any Any Any (length z.reader.stream) z.dest
                      (expect_next_token end_array env z) _
                      ((expect_next_token-Returns end_array).run env z g z')
                      (λ _ u _ e u'.
                        take_token Any Any fuel env u _ u' (omega arith)
                          (λ q f q'. read_options_loop-Ends fuel env q g q' f))))))

deserialize_options-Returns : Returns Any Any deserialize_options
unfolding deserialize_options
deserialize_options-Returns = current-Returns ▹ λ r _.
    elim_rule (Returns Any Any) (token_eq r.token_type end_object) _ _
      (λ _. growing (pure-Returns tt tt))
      (λ _. expect_current_name-Returns "options" ▹ λ _ _.
        (expect_next_token-Returns start_array ▹ λ _ _.
        (expect_next-Returns ▹ λ _ _.
        (record {
          run = λ env s g v.
              read_options_loop-Ends (suc (length s.reader.stream)) env s g v (omega arith);
        }
          ▹▹ λ _ _. growing (expect_next_token-Returns end_object)))))

acknowledgement-Returns : Returns Any IsEmpty acknowledgement
unfolding acknowledgement
acknowledgement-Returns = current-Returns ▹ λ r _.
    if-Returns (text_eq r.str_value (ascii "ackNumber"))
      (current_property-Returns "ackNumber" 4294967295 ▹ λ number _.
        (expect_next_token-Returns property_name ▹ λ _ _. pure-Returns number tt))
      (pure-Returns 0 tt)

urgent_pointer-Returns : (flags : ℕ) → Returns Any IsEmpty (urgent_pointer flags)
unfolding urgent_pointer
urgent_pointer-Returns flags =
    if-Returns (bit flags 5) (weaker (λ _ _. tt) (next_property-Returns "urgentPointer" 65535))
      (pure-Returns 0 tt)

take-append_add : (xs ys : List ℕ) (n : ℕ) → take (length xs + n) (xs ++ ys) ≡ xs ++ take n ys
take-append_add [] ys n = ap (λ k. take k ys) (omega arith)
take-append_add (x ∷ xs) ys n =
    ap (λ k. take k (x ∷ (xs ++ ys))) (suc_out (length xs))
    ∙ ap (λ t. x ∷ t) (take-append_add xs ys n)
  where
    suc_out : (k : ℕ) → suc k + n ≡ suc (k + n)
    suc_out k = omega arith

-- Only what follows the offset is changed.
set_data_offset-append :
    (words : ℕ) (before more : List ℕ)
    → set_data_offset (length before) words (before ++ more)
      ≡ before ++ (take 12 more ++ (words % 16 * 16 ∷ drop (length before + 13) (before ++ more)))
unfolding set_data_offset
set_data_offset-append words before more =
    ap (λ t. t ++ (words % 16 * 16 ∷ drop (length before + 13) (before ++ more)))
      (take-append_add before more 12)
    ∙ append_assoc before (take 12 more) _

finish_header-Ends :
    (n : ℕ) (before bytes header : List ℕ) (env : Platform) (r : Result (Unit {0}))
    → Ends Any Any n (before ++ bytes) r
    → Ends Any Any n before (
        bind r (λ _ t.
          (if (length t.dest - length header) % 4 == 0
              then modify
                  (set_data_offset (length before) (5 + (length t.dest - length header) / 4))
              else fails (ascii "TCP header options are not padded correctly"))
            env t))
finish_header-Ends n before bytes header env (ok a t) (q, l, v, (more, e, _)) =
    if_rule (λ (p : Parser (Unit {0})). Ends Any Any n before (p env t))
      ((length t.dest - length header) % 4 == 0)
      (λ _. (
        tt,
        l,
        v,
        (
          _,
          ap (set_data_offset (length before) (5 + (length t.dest - length header) / 4))
                (e ∙ append_assoc before bytes more)
              ∙ set_data_offset-append (5 + (length t.dest - length header) / 4) before
                  (bytes ++ more),
          tt,
        ),
      ))
      (λ _. tt)
finish_header-Ends n before bytes header env (error m t) h = tt
finish_header-Ends n before bytes header env out_of_fuel h = h
finish_header-Ends n before bytes header env undefined h = tt

pub deserialize_tcp_header-Returns : Returns Any Any deserialize_tcp_header
unfolding deserialize_tcp_header
deserialize_tcp_header-Returns = expect_next_token-Returns start_object ▹ λ _ _.
    (next_property-Returns "sourcePort" 65535 ▹ λ source _.
    (next_property-Returns "destPort" 65535 ▹ λ dest _.
    (next_property-Returns "seqNumber" 4294967295 ▹ λ seq _.
    (expect_next_token-Returns property_name ▹ λ _ _.
    (acknowledgement-Returns ▹ λ ack _.
    (expect_current_name-Returns "flags" ▹ λ _ _.
    (deserialize_flags-Returns (lookup_flag tcp_flags) ▹ λ flags _.
    (next_property-Returns "windowSize" 65535 ▹ λ window _.
    (urgent_pointer-Returns flags ▹ λ urgent _.
    (expect_next-Returns ▹ λ _ _. record {
      run = λ env s g v.
          let bytes = tcp_bytes source dest seq ack flags window urgent in
          finish_header-Ends (length s.reader.stream) s.dest bytes (s.dest ++ bytes) env
            (deserialize_options env (record s { dest = s.dest ++ bytes }))
            (deserialize_options-Returns.run env (record s { dest = s.dest ++ bytes }) g v);
    }))))))))))
