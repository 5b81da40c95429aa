-- ===== src/Packet/Deserialize/Received.antt =====
-- net/json_packet.cc: the IP header of a packet that was read carries its checksum.
use cheaproute.Prelude.{
  ℕ, ◌+◌, ◌/◌, ◌%◌, ◌^◌, ◌≤◌, ◌≡◌, refl, sym, ◌∙◌, ap, subst, List, [], ◌∷◌, ◌++◌, arith, ltb,
  if◌then◌else◌, length, length-append, ◌-◌, take, drop, take-append, All, All-append, IsByte,
}
use cheaproute.Packet.Checksum.{
  add, fold_carry, complement, compute_ip_checksum, compute_header_checksum,
}
use cheaproute.Packet.Checksum.Verifies.{word_sum, checksum-residue, big_endian}
use cheaproute.Packet.Fields.{byte}
use cheaproute.Packet.Deserialize.Headers.{be16, Ip4Header, ip4_bytes}
use cheaproute.JsonReader.Values.{IsNested}
use cheaproute.Packet.Deserialize.Parsing.{
  Platform, Parsing, Result, ok, error, out_of_fuel, undefined, bind, modify,
}
use cheaproute.Packet.Deserialize.Whole.{deserialize_parts, deserialize_packet}
use cheaproute.Packet.Deserialize.Returning.{Ends, Any, GivesAddresses}
use cheaproute.Packet.Deserialize.Termination.{Starts, deserialize_parts-Returns}
use cheaproute.Packet.Deserialize.Front.{complete_transport-Keeps}
use cheaproute.Packet.Deserialize.HeaderParts.{IsIp4Header, IsRead}
use cheaproute.Packet.Deserialize.Completion.{complete, set_u16, header_size, complete_ip_header}

-- The bytes up to the checksum, with the length that the last eight bits of the packet's give.
abbrev before_checksum : ℕ → Ip4Header → List ℕ
before_checksum size h =
    69
    ∷ h.tos
    ∷ size % 256 / 256 % 256
    ∷ size % 256 % 256
    ∷ h.id / 256 % 256
    ∷ h.id % 256
    ∷ h.fragment / 256 % 256
    ∷ h.fragment % 256
    ∷ h.ttl
    ∷ h.protocol
    ∷ []

complete_ip_header-bytes :
    (h : Ip4Header) (rest : List ℕ)
    → (let packet = ip4_bytes 4 h ++ rest in
        let before = before_checksum (length packet) h in
        let after = (h.source ++ h.destination) ++ rest in
        complete_ip_header packet
        ≡ before ++ (be16 (compute_header_checksum (before ++ (0 ∷ 0 ∷ take 8 after))) ++ after))
unfolding complete_ip_header ip4_bytes set_u16 header_size byte
complete_ip_header-bytes h rest = refl

-- A header of twenty bytes of version 4 whose words add up as a receiver demands, where folding the
-- carry of the sum without the checksum once leaves 16 bits.
abbrev pub Verifies : List ℕ → Type 0
Verifies header =
    (length header ≡ 20)
    × (byte header 0 ≡ 69)
    × (word_sum header % 65535 ≡ (
        if ltb (fold_carry (word_sum (take 10 header ++ (0 ∷ 0 ∷ drop 12 header)))) 65536
        then 0
        else 1))

header-IsByte :
    (size : ℕ) (h : Ip4Header)
    → IsRead h
    → All IsByte (before_checksum size h ++ (0 ∷ 0 ∷ (h.source ++ h.destination)))
header-IsByte size h r = (
  fixed 69 (omega arith),
  (
    small h.tos r.tos.1,
    (
      low (size % 256 / 256),
      (
        low (size % 256),
        (
          low (h.id / 256),
          (
            low h.id,
            (
              low (h.fragment / 256),
              (
                low h.fragment,
                (
                  small h.ttl r.ttl.1,
                  (
                    r.protocol,
                    (
                      fixed 0 (omega arith),
                      (
                        fixed 0 (omega arith),
                        All-append IsByte h.source h.destination r.source.1 r.destination.1,
                      ),
                    ),
                  ),
                ),
              ),
            ),
          ),
        ),
      ),
    ),
  ),
)
  where
    fixed : (n : ℕ) → n ≤ 255 → IsByte n
    fixed n l = omega arith

    small : (n : ℕ) → n ≤ 255 → IsByte n
    small n l = omega arith

    low : (n : ℕ) → IsByte (n % 256)
    low n = omega arith

addresses_length : (h : Ip4Header) → IsRead h → length (h.source ++ h.destination) ≡ 8
addresses_length h r =
    omega (arith, length-append h.source h.destination, r.source.0, r.destination.0)

-- The checksum fits its two bytes, and is the one without a pseudo header.
checksum-bytes :
    (header after : List ℕ)
    → be16 (compute_header_checksum header) ++ after
      ≡ big_endian (compute_ip_checksum [] header) after
unfolding compute_header_checksum compute_ip_checksum add complement
checksum-bytes header after =
    ap (λ b. b ∷ (compute_header_checksum header % 256 ∷ after))
      (top (2 ^ 32 - 1 - fold_carry (add header 0)))
  where
    top : (n : ℕ) → n % 65536 / 256 % 256 ≡ n % 65536 / 256
    top n = omega arith

header-Verifies :
    (size : ℕ) (h : Ip4Header)
    → IsRead h
    → (let before = before_checksum size h in
        let addresses = h.source ++ h.destination in
        Verifies
          (before ++ (be16 (compute_header_checksum (before ++ (0 ∷ 0 ∷ addresses))) ++ addresses)))
unfolding byte word_sum
header-Verifies size h r = (
  omega (arith, addresses_length h r),
  refl,
  ap (λ t. word_sum (before ++ t) % 65535) (checksum-bytes header addresses)
      ∙ (ap (λ n. n % 65535) (zero_add _)
          ∙ (checksum-residue [] before addresses tt (header-IsByte size h r) refl
                (omega (arith, addresses_length h r))
              ∙ ap (λ n. if ltb (fold_carry n) 65536 then 0 else 1)
                  (sym (zero_add (word_sum header))))),
)
  where
    before : List ℕ
    before = before_checksum size h

    addresses : List ℕ
    addresses = h.source ++ h.destination

    header : List ℕ
    header = before ++ (0 ∷ 0 ∷ addresses)

    zero_add : (n : ℕ) → n ≡ 0 + n
    zero_add n = omega arith

pub complete-Verifies :
    (h : Ip4Header) (rest : List ℕ)
    → IsRead h
    → Verifies (take 20 (complete (ip4_bytes 4 h ++ rest)))
unfolding complete
complete-Verifies h rest r =
    let verifies = header-Verifies (length packet) h r in
    subst Verifies
      (sym
        (complete_transport-Keeps header verifies.0 verifies.1 (complete_ip_header packet) front))
      verifies
  where
    packet : List ℕ
    packet = ip4_bytes 4 h ++ rest

    addresses : List ℕ
    addresses = h.source ++ h.destination

    before : List ℕ
    before = before_checksum (length packet) h

    header : List ℕ
    header = before ++ (be16 (compute_header_checksum (before ++ (0 ∷ 0 ∷ addresses))) ++ addresses)

    eight : take 8 (addresses ++ rest) ≡ addresses
    eight = take-append addresses rest 8 (addresses_length h r)

    front : take 20 (complete_ip_header packet) ≡ header
    front =
        ap (take 20) (complete_ip_header-bytes h rest)
        ∙ ap (λ t. before ++ (be16 (compute_header_checksum (before ++ (0 ∷ 0 ∷ t))) ++ t)) eight

made-Verifies :
    (n : ℕ) (env : Platform) (r : Result (Unit {0})) (t : Parsing)
    → Ends Any (Starts IsIp4Header) n [] r
    → bind r (λ _ u. modify complete env u) ≡ ok tt t
    → Verifies (take 20 t.dest)
made-Verifies n env (ok a s) t (_, _, _, (more, e, (front, rest, split, (h, bytes, r)))) made =
    subst (λ d. Verifies (take 20 d))
      (sym (ap complete (e ∙ split ∙ ap (λ f. f ++ rest) bytes)) ∙ ap dest_of made)
      (complete-Verifies h rest r)
  where
    dest_of : Result (Unit {0}) → List ℕ
    dest_of (ok _ u) = u.dest
    dest_of _ = []
made-Verifies n env (error m s) t h made = cc
made-Verifies n env out_of_fuel t h made = absurd h
made-Verifies n env undefined t h made = cc

-- Where `inet_pton` gives four bytes, the reader's modes are nested and the destination is empty, the
-- packet that `DeserializePacket` makes when it returns true begins with an IP header of twenty bytes,
-- of version 4 and length 5, whose 16-bit words, the checksum among them, add up to 0 modulo 65535, as
-- a receiver demands, exactly where folding the carry of the other words once leaves a 16-bit sum;
-- else they add up to 1.
pub deserialize_packet-Verifies :
    (env : Platform) (s t : Parsing)
    → GivesAddresses env
    → IsNested s.reader
    → s.dest ≡ []
    → deserialize_packet env s ≡ ok tt t
    → Verifies (take 20 t.dest)
unfolding deserialize_packet
deserialize_packet-Verifies env s t g v empty made =
    made-Verifies (length s.reader.stream) env (deserialize_parts env s) t
      (subst
        (λ d. Ends Any (Starts IsIp4Header) (length s.reader.stream) d (deserialize_parts env s))
        empty (deserialize_parts-Returns.run env s g v))
      made
