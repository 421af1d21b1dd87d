-- ===== src/Net/InetAddress/Printed.antt =====
-- How an address that was given as a text is printed.
use clia.Prelude.{
  ℕ, ◌^◌, ◌<◌, ◌≡◌, refl, sym, ap, Bool, Bool-cases, ◌||◌, inl, inr, List, ◌∷◌, ◌++◌, append_assoc,
  codes, Option, some, if◌then◌else◌, arith,
}
use clia.Util.Timestamp.{decimal}
use clia.Net.InetAddress.{Family, inet, inet6, unspecified, swap16, contains, create_from, get_addr}

swap16-swap16 : (n : ℕ) → n < 65536 → swap16 (swap16 n) ≡ n
unfolding swap16
swap16-swap16 n h = omega arith

-- What the constructor takes the text for.
abbrev pub family_of : List ℕ → Bool → Family
family_of ip is_ipv6 = if is_ipv6 || contains b':' ip then inet6 else inet

-- The text in brackets if it is an address of IPv6.
abbrev pub bracketed : Family → List ℕ → List ℕ
bracketed inet6 ip = codes "[" ++ (ip ++ codes "]")
bracketed inet ip = ip
bracketed unspecified ip = ip

-- An address that `inet_pton` reads, and that `inet_ntop` prints in the way it was given, is printed by
-- `get_addr` with its port behind it, and in brackets if it is one of IPv6.
pub get_addr-create_from :
    (inet_pton inet_ntop : Family → List ℕ → Option (List ℕ)) (ip address : List ℕ) (port : ℕ)
    (is_ipv6 : Bool)
    → port < 2 ^ 16
    → inet_pton (family_of ip is_ipv6) ip ≡ some address
    → inet_ntop (family_of ip is_ipv6) address ≡ some ip
    → get_addr inet_ntop (create_from inet_pton ip port is_ipv6)
      ≡ bracketed (family_of ip is_ipv6) ip ++ (codes ":" ++ decimal port)
unfolding get_addr create_from
get_addr-create_from inet_pton inet_ntop ip address port is_ipv6 h reads prints =
    elim (Bool-cases (is_ipv6 || contains b':' ip)) [
      | inl y ↦
          rw (y, rw y at reads, rw y at prints, swap16-swap16 port (omega arith))
            (ap (λ t. b'[' ∷ t) (sym (append_assoc ip (codes "]") (codes ":" ++ decimal port))))
      | inr n ↦ rw (n, rw n at reads, rw n at prints, swap16-swap16 port (omega arith)) refl
    ]
