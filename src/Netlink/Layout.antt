-- ===== src/Netlink/Layout.antt =====
-- net/netlink_util.h, netlink.cc and netlink_monitor.cc: the bytes of the messages that are built.
use cheaproute.Prelude.{
  ℕ, ◌≡◌, refl, four_elements, sym, ap₂, subst, Bool, some, List, [], ◌∷◌, ◌++◌, if◌then◌else◌,
}
use cheaproute.IpAddress.{Ip4AddressInfo}
use cheaproute.Netlink.Builder.{le16, le32}
use cheaproute.Netlink.Device.{status_message, address_message}
use cheaproute.Netlink.WellFormed.{IsIp4}

-- The fields of an `nlmsghdr`.
abbrev pub header_bytes : ℕ → ℕ → ℕ → ℕ → List ℕ
header_bytes size type flags seq = le32 size ++ (le16 type ++ (le16 flags ++ (le32 seq ++ le32 0)))

abbrev pub attribute_bytes : ℕ → List ℕ → List ℕ
attribute_bytes type address = le16 8 ++ (le16 type ++ address)

-- `SetDeviceStatus` builds an `nlmsghdr` with the length, the type RTM_SETLINK and the two flags, and
-- an `ifinfomsg` with the type, the index and, up or down, the flag with its mask.
pub status_message-Layout :
    (seq index : ℕ) (up : Bool)
    → status_message seq index up
      ≡ header_bytes 32 19 5 seq
        ++ ((0 ∷ 0 ∷ le16 1) ++ (le32 index ++ (le32 (if up then 1 else 0) ++ le32 1)))
unfolding status_message
status_message-Layout seq index up = refl

abbrev pub address_bytes : ℕ → ℕ → Ip4AddressInfo → List ℕ
address_bytes seq index info =
    header_bytes 48 20 5 seq
    ++ ((2 ∷ info.prefix_len ∷ 0 ∷ 0 ∷ le32 index)
        ++ (attribute_bytes 2 info.address
            ++ (attribute_bytes 1 info.address ++ attribute_bytes 4 info.broadcast)))

-- `SetDeviceIp4AddressInfo` with addresses of four bytes builds an `nlmsghdr` with the length, the type
-- RTM_NEWADDR and the two flags, an `ifaddrmsg`, and the attributes IFA_LOCAL, IFA_ADDRESS and
-- IFA_BROADCAST, each with its length in front.
pub address_message-Layout :
    (seq index : ℕ) (info : Ip4AddressInfo)
    → IsIp4 info
    → address_message seq index info ≡ some (address_bytes seq index info)
unfolding address_message
address_message-Layout seq index info (four, broadcast_four) =
    let (a, b, c, d, e) = four_elements info.address four in
    let (x, y, z, w, f) = four_elements info.broadcast broadcast_four in rebuilt a b c d x y z w e f
  where
    made : List ℕ × List ℕ → Ip4AddressInfo
    made p = record { address = p.0; broadcast = p.1; prefix_len = info.prefix_len }

    rebuilt :
        (a b c d x y z w : ℕ)
        → info.address ≡ a ∷ b ∷ c ∷ d ∷ []
        → info.broadcast ≡ x ∷ y ∷ z ∷ w ∷ []
        → address_message seq index info ≡ some (address_bytes seq index info)
    rebuilt a b c d x y z w e f =
        subst
          (λ (p : List ℕ × List ℕ).
            address_message seq index (made p) ≡ some (address_bytes seq index (made p)))
          (ap₂ (λ s t. (s, t)) (sym e) (sym f)) refl
