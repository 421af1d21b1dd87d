-- ===== src/Net/InetAddress.antt =====
-- clia/src/net/inet_address.cc: `InetAddress`, a union of which both members have the family and the port
-- at the same place. What `inet_pton` and `inet_ntop` answer are arguments.
pub mod Printed
mod Tests
use clia.Prelude.{
  ℕ, ◌+◌, ◌*◌, ◌/◌, ◌%◌, Bool, true, false, ◌||◌, List, [], ◌∷◌, ◌++◌, codes, Option, none, some,
  ltb, ◌==◌, if◌then◌else◌, Outcome, ok, err, Fault, ◌>>=◌, ◌>>◌, assert,
}
use clia.Util.Timestamp.{decimal}

-- AF_INET, AF_INET6, and any other.
pub data Family : Type 0 where
  inet inet6 unspecified : Family

-- The port is in network order.
pub record InetAddress : Type 0 where
  pub family : Family
  pub port : ℕ
  pub address : List ℕ

-- `htobe16` and `be16toh` on a machine that stores the low byte first.
unfoldable pub swap16 : ℕ → ℕ
swap16 n = n % 256 * 256 + n / 256 % 256

abbrev pub contains : ℕ → List ℕ → Bool
contains c [] = false
contains c (d ∷ text) = (d == c) || contains c text

abbrev pub create : InetAddress
create = record { family = unspecified; port = 0; address = [] }

-- What is left in the address if `inet_pton` fails: the zeros of `memset`.
abbrev pub parsed : Option (List ℕ) → List ℕ
parsed none = []
parsed (some address) = address

unfoldable pub create_from : (Family → List ℕ → Option (List ℕ)) → List ℕ → ℕ → Bool → InetAddress
unfolding swap16
create_from inet_pton ip port is_ipv6 =
    if is_ipv6 || contains b':' ip
    then record { family = inet6; port = swap16 port; address = parsed (inet_pton inet6 ip) }
    else record { family = inet; port = swap16 port; address = parsed (inet_pton inet ip) }

-- The value that is returned, 0 or -1, and the text in `buf`; `inet_ntop` answers none where it fails.
unfoldable pub get_ipaddr :
    (Family → List ℕ → Option (List ℕ)) → InetAddress → ℕ → Outcome (Option ℕ × Option (List ℕ))
get_ipaddr inet_ntop a sz = elim a.family [
  | inet ↦
      assert (ltb 16 sz)
      >> ok (elim (inet_ntop inet a.address) [
        | none ↦ (none, none)
        | some text ↦ (some 0, some text)
      ])
  | inet6 ↦ assert (ltb 46 sz) >> ok (none, inet_ntop inet6 a.address)
  | unspecified ↦ ok (none, none)
]

-- What `inet_ntop` leaves in an array of zeros.
abbrev pub text_or_nothing : Option (List ℕ) → List ℕ
text_or_nothing none = []
text_or_nothing (some text) = text

unfoldable pub get_addr : (Family → List ℕ → Option (List ℕ)) → InetAddress → List ℕ
unfolding swap16
get_addr inet_ntop a = elim a.family [
  | inet6 ↦
      codes "["
      ++ (text_or_nothing (inet_ntop inet6 a.address) ++ (codes "]:" ++ decimal (swap16 a.port)))
  | inet ↦ text_or_nothing (inet_ntop inet a.address) ++ (codes ":" ++ decimal (swap16 a.port))
  | unspecified ↦
      text_or_nothing (inet_ntop inet a.address) ++ (codes ":" ++ decimal (swap16 a.port))
]
