-- ===== src/IpAddress/Mask.antt =====
-- net/ip_address.cc: the netmask of a prefix length.
use cheaproute.Prelude.{
  ℕ, ◌+◌, ◌-◌, ◌*◌, ◌/◌, ◌%◌, ◌^◌, ◌≤◌, ◌≡◌, refl, Bool, true, ◌&&◌, Option, none, some, List, [],
  ◌∷◌, arith, ◌==◌, ==_iff, and_parts,
}
use cheaproute.Prelude.Table.{passes, passes-at}
use cheaproute.IpAddress.Text.{from_value, netmask}

-- The value of four bytes in network order.
unfoldable pub value_of : List ℕ → ℕ → ℕ
value_of [] value = value
value_of (b ∷ bytes) value = value_of bytes (value * 256 + b)

-- The mask of `n` bits: `n` ones, then zeros, also in the address that is made of it.
abbrev pub IsMask : ℕ → Option ℕ → Type 0
IsMask n none = ⊥
IsMask n (some mask) =
    (mask / 2 ^ (32 - n) ≡ 2 ^ n - 1)
    × (mask % 2 ^ (32 - n) ≡ 0)
    × (value_of (from_value mask) 0 ≡ mask)

is_mask : ℕ → Option ℕ → Bool
is_mask n none = n == 0
is_mask n (some mask) =
    (mask / 2 ^ (32 - n) == 2 ^ n - 1)
    && ((mask % 2 ^ (32 - n) == 0) && (value_of (from_value mask) 0 == mask))

all_masks : passes (λ n. is_mask n (netmask n)) 33 ≡ true
unfolding passes is_mask netmask value_of from_value
all_masks = refl

is_mask-IsMask : (n : ℕ) (o : Option ℕ) → 1 ≤ n → is_mask n o ≡ true → IsMask n o
unfolding is_mask
is_mask-IsMask n none l h = absurd (omega (arith, (==_iff n 0).0 h))
is_mask-IsMask n (some mask) l h =
    let (ones, rest) = and_parts _ _ h in
    let (zeros, bytes) = and_parts _ _ rest in
    ((==_iff _ _).0 ones, (==_iff _ _).0 zeros, (==_iff _ _).0 bytes)

-- For a prefix length from 1 to 32, the netmask of `Ip4AddressInfo::ToString` has that many ones in
-- front and zeros behind, and the address made of it has its four bytes in network order.
pub netmask-IsMask : (n : ℕ) → 1 ≤ n → n ≤ 32 → IsMask n (netmask n)
netmask-IsMask n l h =
    is_mask-IsMask n (netmask n) l
      (passes-at (λ k. is_mask k (netmask k)) 33 all_masks n (omega arith))
