-- ===== src/Network/Lookup.antt =====
-- runtime/ext/standard/network.c: the types of `php_checkdnsrr` and the results of the lookups.
-- The functions of the resolver are parameters, `none` for NULL.
use roadsend_php.Base.{
  ℕ, ◌+◌, ◌*◌, ◌/◌, ◌%◌, ◌^◌, List, Option, none, some, Bool, if◌then◌else◌, codes,
}
use roadsend_php.Base.Int.{ℤ, pos, negsuc}

-- `ntohs`, on a host whose words have the low byte first.
unfoldable pub ntohs : ℕ → ℕ
ntohs n = n % 256 * 256 + n / 256 % 256

-- `ntohl`
unfoldable pub ntohl : ℕ → ℕ
ntohl n = ntohs n * 2 ^ 16 + ntohs (n / 2 ^ 16)

-- The types that `php_checkdnsrr` knows; `same` is `strcasecmp` giving 0.
unfoldable pub type_of : (List ℕ → List ℕ → Bool) → List ℕ → Option ℕ
type_of same typestr =
    if same typestr (codes "MX")
    then some 15
    else if same typestr (codes "A")
    then some 1
    else if same typestr (codes "NS")
    then some 2
    else if same typestr (codes "PTR")
    then some 12
    else if same typestr (codes "ANY")
    then some 255
    else if same typestr (codes "SOA")
    then some 6
    else if same typestr (codes "CNAME")
    then some 5
    else none

unfoldable pub php_checkdnsrr : (List ℕ → List ℕ → Bool) → (List ℕ → ℕ → ℤ) → List ℕ → List ℕ → ℤ
php_checkdnsrr same res_search host typestr = elim (type_of same typestr) [
  | none ↦ negsuc 0
  | some type ↦ res_search host type
]

-- With the `s_port` that `getservbyname` gives.
unfoldable pub php_getservbyname : (List ℕ → List ℕ → Option ℕ) → List ℕ → List ℕ → ℤ
php_getservbyname getservbyname name protocol = elim (getservbyname name protocol) [
  | none ↦ negsuc 0
  | some port ↦ pos (ntohs port)
]

-- With the `p_proto` that `getprotobyname` gives.
unfoldable pub php_getprotobyname : (List ℕ → Option ℤ) → List ℕ → ℤ
php_getprotobyname getprotobyname name = elim (getprotobyname name) [
  | none ↦ negsuc 0
  | some proto ↦ proto
]

unfoldable pub php_ip2long : (List ℕ → ℕ) → List ℕ → ℕ
php_ip2long inet_addr ip_address = ntohl (inet_addr ip_address)
