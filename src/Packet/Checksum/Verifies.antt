-- ===== src/Packet/Checksum/Verifies.antt =====
-- net/json_packet.cc: what a receiver finds when it adds up the 16-bit words of a header that
-- carries the checksum of `ComputeIpChecksum`.
use cheaproute.Prelude.{
  ℕ, suc, ◌+◌, ◌-◌, ◌*◌, ◌/◌, ◌%◌, ◌^◌, ◌≤◌, ◌<◌, List, [], ◌∷◌, ◌++◌, length, ◌≡◌, sym, ◌∙◌, ap,
  arith, ltb, if◌then◌else◌, IsByte, All, if_rule, ltb→lt, ltb_false→le,
}
use cheaproute.Packet.Checksum.{add, fold_carry, complement, compute_ip_checksum}

-- The sum of the 16-bit words, the last one padded with a zero byte.
unfoldable pub word_sum : List ℕ → ℕ
word_sum [] = 0
word_sum (b ∷ []) = b * 256
word_sum (a ∷ b ∷ bytes) = a * 256 + b + word_sum bytes

add-word_sum :
    (bytes : List ℕ) (result : ℕ)
    → result + word_sum bytes < 2 ^ 32
    → add bytes result ≡ result + word_sum bytes
unfolding add word_sum
add-word_sum [] result h = omega arith
add-word_sum (b ∷ []) result h = omega arith
add-word_sum (a ∷ b ∷ bytes) result h =
    ap (add bytes) (small (word_sum bytes) h)
    ∙ (add-word_sum bytes (result + (a * 256 + b)) (omega arith) ∙ omega arith)
  where
    small :
        (s : ℕ)
        → result + (a * 256 + b + s) < 2 ^ 32
        → (result + (a * 256 + b)) % 2 ^ 32 ≡ result + (a * 256 + b)
    small s l = omega arith

-- Words behind an even number of bytes add to the sum.
word_sum-append :
    (before after : List ℕ)
    → length before % 2 ≡ 0
    → word_sum (before ++ after) ≡ word_sum before + word_sum after
unfolding word_sum
word_sum-append [] after h = omega arith
word_sum-append (b ∷ []) after h = absurd (omega arith)
word_sum-append (a ∷ b ∷ before) after h =
    ap (λ s. a * 256 + b + s) (word_sum-append before after (omega arith)) ∙ omega arith

-- The sum with the complement of the carry folded once, as a receiver reduces it.
residue :
    (s : ℕ)
    → s < 2 ^ 32
    → (s + complement (fold_carry s)) % 65535 ≡ (if ltb (fold_carry s) 65536 then 0 else 1)
unfolding complement fold_carry
residue s h =
    if_rule (λ r. (s + complement (fold_carry s)) % 65535 ≡ r) (ltb (fold_carry s) 65536)
      (λ e. fits (ltb→lt _ 65536 e)) (λ e. carries (ltb_false→le _ 65536 e))
  where
    fits :
        s % 65536 + s / 65536 < 65536
        → (s + (2 ^ 32 - 1 - (s % 65536 + s / 65536)) % 65536) % 65535 ≡ 0
    fits l = omega arith

    carries :
        65536 ≤ s % 65536 + s / 65536
        → (s + (2 ^ 32 - 1 - (s % 65536 + s / 65536)) % 65536) % 65535 ≡ 1
    carries l = omega arith

word_sum_le : (bytes : List ℕ) → All IsByte bytes → 2 * word_sum bytes ≤ 65535 * (length bytes + 1)
unfolding word_sum
word_sum_le [] all = omega arith
word_sum_le (b ∷ []) all = one all.0
  where
    one : b < 256 → 2 * (b * 256) ≤ 65535 * 2
    one l = omega arith
word_sum_le (a ∷ b ∷ bytes) all = two all.0 all.1.0 (word_sum_le bytes all.1.1)
  where
    two :
        a < 256
        → b < 256
        → 2 * word_sum bytes ≤ 65535 * (length bytes + 1)
        → 2 * (a * 256 + b + word_sum bytes) ≤ 65535 * (suc (suc (length bytes)) + 1)
    two l m h = omega arith

-- The bytes of a 16-bit value in network order.
abbrev pub big_endian : ℕ → List ℕ → List ℕ
big_endian c after = c / 256 ∷ c % 256 ∷ after

word_sum-big_endian :
    (before after : List ℕ) (c : ℕ)
    → length before % 2 ≡ 0
    → word_sum (before ++ big_endian c after) ≡ word_sum (before ++ 0 ∷ 0 ∷ after) + c
unfolding word_sum
word_sum-big_endian before after c h =
    word_sum-append before (big_endian c after) h
    ∙ (sum (word_sum before) (word_sum after)
        ∙ sym (ap (λ s. s + c) (word_sum-append before (0 ∷ 0 ∷ after) h)))
  where
    sum : (s t : ℕ) → s + (c / 256 * 256 + c % 256 + t) ≡ s + (0 * 256 + 0 + t) + c
    sum s t = omega arith

sum_below :
    (bytes more : List ℕ)
    → All IsByte bytes
    → All IsByte more
    → length bytes + length more ≤ 2 ^ 16
    → word_sum bytes + word_sum more < 2 ^ 32
sum_below bytes more all others h = below (word_sum_le bytes all) (word_sum_le more others)
  where
    below :
        2 * word_sum bytes ≤ 65535 * (length bytes + 1)
        → 2 * word_sum more ≤ 65535 * (length more + 1)
        → word_sum bytes + word_sum more < 2 ^ 32
    below l m = omega arith

compute-word_sum :
    (pseudo header : List ℕ)
    → word_sum pseudo + word_sum header < 2 ^ 32
    → compute_ip_checksum pseudo header
      ≡ complement (fold_carry (word_sum pseudo + word_sum header))
unfolding compute_ip_checksum
compute-word_sum pseudo header h =
    ap (λ s. complement (fold_carry s))
      (ap (add header) (add-word_sum pseudo 0 (omega arith) ∙ zero_add (word_sum pseudo))
        ∙ add-word_sum header (word_sum pseudo) h)
  where
    zero_add : (s : ℕ) → 0 + s ≡ s
    zero_add s = omega arith

-- A header of bytes with the checksum's field, at an even offset, filled with the bytes of what
-- `ComputeIpChecksum` returns for that field zeroed, the pseudo header and the header being 65536
-- bytes together at most: the 16-bit words of both add up to 0 modulo 65535, as a receiver
-- demands, exactly where folding the carry once leaves a 16-bit sum; else they add up to 1.
pub checksum-residue :
    (pseudo before after : List ℕ)
    → All IsByte pseudo
    → All IsByte (before ++ 0 ∷ 0 ∷ after)
    → length before % 2 ≡ 0
    → length pseudo + length (before ++ 0 ∷ 0 ∷ after) ≤ 2 ^ 16
    → (word_sum pseudo
          + word_sum
              (before ++ big_endian (compute_ip_checksum pseudo (before ++ 0 ∷ 0 ∷ after)) after))
        % 65535
      ≡ (if ltb (fold_carry (word_sum pseudo + word_sum (before ++ 0 ∷ 0 ∷ after))) 65536
          then 0
          else 1)
checksum-residue pseudo before after all others even h =
    ap (λ t. (word_sum pseudo + t) % 65535) (word_sum-big_endian before after c even)
    ∙ (ap (λ t. t % 65535) (regroup (word_sum header))
        ∙ (ap (λ t. (word_sum pseudo + word_sum header + t) % 65535)
              (compute-word_sum pseudo header below)
            ∙ residue (word_sum pseudo + word_sum header) below))
  where
    header : List ℕ
    header = before ++ 0 ∷ 0 ∷ after

    c : ℕ
    c = compute_ip_checksum pseudo header

    below : word_sum pseudo + word_sum header < 2 ^ 32
    below = sum_below pseudo header all others h

    regroup : (s : ℕ) → word_sum pseudo + (s + c) ≡ word_sum pseudo + s + c
    regroup s = omega arith
