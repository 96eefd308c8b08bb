-- ===== src/Network/Tests.antt =====
-- runtime/ext/standard/network.c: `php_getmxrr` on a concrete answer, with names that point to others.
use roadsend_php.Base.{
  ℕ, zero, suc, ◌+◌, ◌≡◌, refl, ap, List, [], ◌∷◌, ◌++◌, ltb, get_or, Option, none, some, true,
  ◌==◌, if◌then◌else◌, drop, take, codes, arith,
}
use roadsend_php.Base.Int.{pos, negsuc}
use roadsend_php.Network.{
  Lists, ok, fault, php_getmxrr, sprintf, get16, questions, answers, answer_step, decimal_loop,
}
use roadsend_php.Network.Written.{Holds}
use roadsend_php.Network.Packet.{
  Record, mx, other, Header, packet, hosts_of, weights_of, AreRecords, AreQuestions, IsName, IsHost,
}
use roadsend_php.Network.Lookup.{
  type_of, php_checkdnsrr, php_getservbyname, php_getprotobyname, php_ip2long, ntohs, ntohl,
}
use roadsend_php.Network.Whole.{php_getmxrr_lem}

-- A pointer takes two bytes.
pointer : Option (ℕ × List ℕ) → Option (ℕ × List ℕ)
pointer none = none
pointer (some (size, text)) = some (2, text)

-- Labels, each behind its length, up to one of length 0 or to a pointer to a name at one of the
-- first 256 bytes: the bytes they take, and the text.
labels : ℕ → List ℕ → List ℕ → Option (ℕ × List ℕ)
unfolding pointer
labels zero answer bytes = none
labels (suc rounds) answer [] = none
labels (suc rounds) answer (n ∷ bytes) =
    let rest = labels rounds answer (drop n bytes) in
    let pointed = labels rounds answer (drop (get_or bytes 0 0) answer) in
    if n == 0 then some (1, []) else if ltb 191 n then pointer pointed else elim rest [
      | none ↦ none
      | some (size, text) ↦
          some (n + 1 + size, take n bytes ++ (if size == 1 then [] else b'.' ∷ text))
    ]

size_of : Option (ℕ × List ℕ) → Option ℕ
size_of none = none
size_of (some (size, text)) = some size

skip_name : List ℕ → ℕ → Option ℕ
unfolding size_of labels
skip_name answer p = size_of (labels 5 answer (drop p answer))

expand_name : List ℕ → ℕ → Option (ℕ × List ℕ)
unfolding labels
expand_name answer p = labels 5 answer (drop p answer)

abbrev domain : List ℕ
domain = 2 ∷ b'e' ∷ b'x' ∷ 0 ∷ []

-- The name of the question, behind the header.
abbrev again : List ℕ
again = 192 ∷ 12 ∷ []

abbrev mail : List ℕ
mail = 1 ∷ b'm' ∷ again

abbrev in_an_hour : List ℕ
in_an_hour = 0 ∷ 1 ∷ 0 ∷ 0 ∷ 14 ∷ 16 ∷ []

abbrev header : Header
header = record {
  ident = 7 ∷ 7 ∷ 129 ∷ 128 ∷ [];
  qd_hi = 0;
  qd_lo = 1;
  an_hi = 0;
  an_lo = 3;
  more = 0 ∷ 0 ∷ 0 ∷ 0 ∷ [];
}

abbrev asked : List (List ℕ × List ℕ)
asked = (domain, 0 ∷ 15 ∷ 0 ∷ 1 ∷ []) ∷ []

-- A host of weight 10, an address, and a host of weight 300.
abbrev records : List Record
records =
    mx again in_an_hour 0 6 0 10 mail (codes "m.ex")
    ∷ other again 0 1 in_an_hour 0 4 (192 ∷ 0 ∷ 2 ∷ 1 ∷ [])
    ∷ mx again in_an_hour 0 6 1 44 mail (codes "m.ex")
    ∷ []

abbrev answer : List ℕ
answer = packet header asked records (9 ∷ [])

domain-IsName : IsName skip_name expand_name answer domain
unfolding skip_name size_of labels pointer
domain-IsName p behind h = ap (λ bytes. size_of (labels 5 answer bytes)) h

again-IsName : IsName skip_name expand_name answer again
unfolding skip_name size_of labels pointer
again-IsName p behind h = ap (λ bytes. size_of (labels 5 answer bytes)) h

mail-IsHost : IsHost skip_name expand_name answer mail (codes "m.ex")
unfolding expand_name labels pointer
mail-IsHost p behind h = ap (labels 5 answer) h

abbrev list_memory : List ℕ
list_memory = codes "1234567890123456"

asked-AreQuestions : AreQuestions skip_name expand_name answer asked
asked-AreQuestions = (domain-IsName, refl, tt)

records-AreRecords : AreRecords skip_name expand_name answer records
records-AreRecords = (
  (again-IsName, refl, mail-IsHost),
  ((again-IsName, refl, refl, refl), ((again-IsName, refl, mail-IsHost), tt)),
)

hosts_run : hosts_of records ≡ codes " m.ex   m.ex  "
hosts_run = refl

weights_run : weights_of records ≡ codes " 10  300 "
unfolding decimal_loop
weights_run = refl

php_getmxrr_lem_example :
    (l : Lists) × (php_getmxrr skip_name expand_name
        (packet header asked records (9 ∷ []))
        (99 ∷ 98 ∷ list_memory)
        (97 ∷ 96 ∷ list_memory)
      ≡ ok l)
    × Holds (hosts_of records) 0 l.mx l.mx_ptr
    × Holds (weights_of records) 0 l.weights l.weight_ptr
unfolding decimal_loop
php_getmxrr_lem_example =
    php_getmxrr_lem skip_name expand_name header asked records (9 ∷ []) 99 98 list_memory 97 96
      list_memory refl refl refl refl asked-AreQuestions records-AreRecords (omega arith)
      (omega arith)

-- Where the last record ends with the array, its fixed part is read behind it.
cut_short_run :
    php_getmxrr skip_name expand_name
      (packet header asked [] domain)
      (99 ∷ 98 ∷ list_memory)
      (97 ∷ 96 ∷ list_memory)
    ≡ fault
unfolding php_getmxrr sprintf get16 questions answers answer_step skip_name size_of labels pointer
cut_short_run = refl

-- Names of services and addresses, as the resolver gives them on a host with the low byte first.
smtp_run : php_getservbyname (λ name protocol. some 6400) (codes "smtp") (codes "tcp") ≡ pos 25
unfolding php_getservbyname ntohs
smtp_run = refl

loopback_run : php_ip2long (λ text. 16777343) (codes "127.0.0.1") ≡ 2130706433
unfolding php_ip2long ntohl ntohs
loopback_run = refl

tcp_run : php_getprotobyname (λ name. none) (codes "tcp2") ≡ negsuc 0
unfolding php_getprotobyname
tcp_run = refl

checkdnsrr_run :
    php_checkdnsrr (λ s t. true) (λ host type. pos type) (codes "ex") (codes "MX") ≡ pos 15
unfolding php_checkdnsrr type_of
checkdnsrr_run = refl
