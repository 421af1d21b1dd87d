-- ===== src/Net/InetAddress/Tests.antt =====
-- The theorem on `InetAddress` at an address of IPv6, with texts for the addresses.
use clia.Prelude.{ℕ, ◌≡◌, refl, false, List, ◌++◌, codes, Option, some, ok, none, arith}
use clia.Util.Timestamp.{decimal}
use clia.Util.StrFunc.{digits}
use clia.Net.InetAddress.{Family, swap16, create_from, get_addr, get_ipaddr}
use clia.Net.InetAddress.Printed.{family_of, bracketed, get_addr-create_from}

abbrev verbatim : Family → List ℕ → Option (List ℕ)
verbatim family text = some text

get_addr-create_from_example :
    get_addr verbatim (create_from verbatim (codes "::1") 80 false)
    ≡ bracketed (family_of (codes "::1") false) (codes "::1") ++ (codes ":" ++ decimal 80)
get_addr-create_from_example =
    get_addr-create_from verbatim verbatim (codes "::1") (codes "::1") 80 false (omega arith) refl
      refl

get_addr-text : get_addr verbatim (create_from verbatim (codes "::1") 80 false) ≡ codes "[::1]:80"
unfolding get_addr create_from swap16 decimal digits
get_addr-text = refl

-- With room enough and the text in the buffer, `get_ipaddr` reports a failure for an address of IPv6.
get_ipaddr-inet6 :
    get_ipaddr verbatim (create_from verbatim (codes "::1") 80 false) 64
    ≡ ok (none, some (codes "::1"))
unfolding get_ipaddr create_from
get_ipaddr-inet6 = refl
