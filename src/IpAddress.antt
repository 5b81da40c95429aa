-- ===== src/IpAddress.antt =====
-- net/ip_address.h: the addresses and their order. An address is its bytes.
pub mod Order
pub mod Text
pub mod Mask
use cheaproute.Prelude.{ℕ, Bool, true, false, ◌||◌, ◌&&◌, List, [], ◌∷◌, ltb, ◌==◌}

-- `memcmp(...) < 0`, of two addresses of one size.
unfoldable pub less : List ℕ → List ℕ → Bool
less [] [] = false
less [] (y ∷ ys) = false
less (x ∷ xs) [] = false
less (x ∷ xs) (y ∷ ys) = ltb x y || (x == y && less xs ys)

pub record Ip4AddressInfo : Type 0 where
  pub address : List ℕ
  pub broadcast : List ℕ
  pub prefix_len : ℕ

-- `Ip4AddressInfo()`
abbrev pub no_address : Ip4AddressInfo
no_address = record { address = 0 ∷ 0 ∷ 0 ∷ 0 ∷ []; broadcast = 0 ∷ 0 ∷ 0 ∷ 0 ∷ []; prefix_len = 0 }

-- What the order of `Ip4AddressInfo` reads.
abbrev pub key4 : Ip4AddressInfo → List ℕ
key4 info = info.address

abbrev pub key6 : List ℕ → List ℕ
key6 address = address
