-- ===== src/Packet/Deserialize/Front.antt =====
-- net/json_packet.cc: the lengths and checksums behind the IP header leave it alone.
use cheaproute.Prelude.{
  ℕ, ◌+◌, ◌*◌, ◌%◌, ◌≤◌, ◌≡◌, refl, sym, ◌∙◌, ap, subst, List, [], ◌∷◌, ◌++◌, arith, length,
  length-take, if_rule, ◌==◌, ◌-◌, zero, suc, take, drop,
}
use cheaproute.Packet.Checksum.{compute_ip_checksum}
use cheaproute.Packet.Fields.{byte}
use cheaproute.Packet.Deserialize.Completion.{
  complete_transport, set_checksum, pseudo_header, set_u16, header_size,
}

take-take-append :
    (n m : ℕ) (xs ys : List ℕ) → n ≤ m → n ≤ length xs → take n (take m xs ++ ys) ≡ take n xs
take-take-append zero m xs ys h k = refl
take-take-append (suc n) zero xs ys h k = absurd (omega arith)
take-take-append (suc n) (suc m) [] ys h k = absurd (omega arith)
take-take-append (suc n) (suc m) (x ∷ xs) ys h k =
    ap (λ t. x ∷ t) (take-take-append n m xs ys (omega arith) (omega arith))

byte_of_take : (xs : List ℕ) → byte xs 0 ≡ byte (take 20 xs) 0
unfolding byte
byte_of_take [] = refl
byte_of_take (x ∷ xs) = refl

-- What is filled in behind the IP header leaves it alone.
module _ (header : List ℕ) (twenty : length header ≡ 20) (size : byte header 0 ≡ 69) where
  abbrev pub Keeps : List ℕ → Type 0
  Keeps packet = take 20 packet ≡ header

  set_u16-Keeps :
      (field value : ℕ) (packet : List ℕ) → Keeps packet → Keeps (set_u16 (20 + field) value packet)
  unfolding set_u16
  set_u16-Keeps field value packet h =
      take-take-append 20 (20 + field) packet _ (omega arith)
        (omega (arith, length-take 20 packet, ap length h, twenty))
      ∙ h

  header_size-Keeps : (packet : List ℕ) → Keeps packet → header_size packet ≡ 20
  unfolding header_size
  header_size-Keeps packet h =
      ap (λ b. b % 16 * 4) (byte_of_take packet ∙ ap (λ t. byte t 0) h ∙ size)

  set_checksum-Keeps :
      (field : ℕ) (pseudo packet : List ℕ) → Keeps packet → Keeps (set_checksum field pseudo packet)
  unfolding set_checksum
  set_checksum-Keeps field pseudo packet h =
      subst (λ n. Keeps (set_u16 (n + field) (compute_ip_checksum pseudo (drop n packet)) packet))
        (sym (header_size-Keeps packet h)) (set_u16-Keeps field _ packet h)

  pub complete_transport-Keeps :
      (packet : List ℕ) → Keeps packet → Keeps (complete_transport packet)
  unfolding complete_transport
  complete_transport-Keeps packet h =
      if_rule Keeps (byte packet 9 == 1) (λ _. set_checksum-Keeps 2 [] packet h)
        (λ _.
          if_rule Keeps (byte packet 9 == 6)
            (λ _. set_checksum-Keeps 16 (pseudo_header packet) packet h)
            (λ _.
              if_rule Keeps (byte packet 9 == 17)
                (λ _. set_checksum-Keeps 6 (pseudo_header packet) _ (
                  subst (λ n. Keeps (set_u16 (n + 4) ((length packet - n) % 65536) packet))
                    (sym (header_size-Keeps packet h)) (set_u16-Keeps 4 _ packet h)))
                (λ _. h)))
