-- ===== src/Netlink/Builder.antt =====
-- net/netlink_util.h: `NetlinkMessageBuilder`, on the bytes of its message, on a little-endian machine.
use cheaproute.Prelude.{
  ℕ, ◌+◌, ◌/◌, ◌%◌, Option, none, some, List, [], ◌∷◌, ◌++◌, ltb, if◌then◌else◌, length, take, drop,
  replicate,
}

abbrev pub le16 : ℕ → List ℕ
le16 v = v % 256 ∷ v / 256 % 256 ∷ []

abbrev pub le32 : ℕ → List ℕ
le32 v = v % 256 ∷ v / 256 % 256 ∷ v / 65536 % 256 ∷ v / 16777216 % 256 ∷ []

-- An assignment to a field at an offset.
unfoldable pub set_at : ℕ → List ℕ → List ℕ → List ℕ
set_at offset bytes message = take offset message ++ (bytes ++ drop (offset + length bytes) message)

-- `NetlinkMessageBuilder(type, flags)`: an `nlmsghdr`.
unfoldable pub new_builder : ℕ → ℕ → List ℕ
unfolding set_at
new_builder type flags = set_at 6 (le16 flags) (set_at 4 (le16 type) (replicate 16 0))

-- `header()->nlmsg_seq = seq`
unfoldable pub set_seq : ℕ → List ℕ → List ℕ
unfolding set_at
set_seq seq message = set_at 8 (le32 seq) message

-- `CreateHeader`, of a header of a size.
unfoldable pub create_header : ℕ → List ℕ → List ℕ
create_header size message = message ++ replicate size 0

-- `AddAttribute`; none where its assert fails.
unfoldable pub add_attribute : ℕ → List ℕ → List ℕ → Option (List ℕ)
add_attribute type payload message =
    if ltb (length payload) 65532
    then some (message ++ (le16 (length payload + 4) ++ (le16 type ++ payload)))
    else none

-- `Build`
unfoldable pub build : List ℕ → List ℕ
unfolding set_at
build message = set_at 0 (le32 (length message)) message
