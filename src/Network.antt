-- ===== src/Network.antt =====
-- runtime/ext/standard/network.c: `php_getmxrr`, which reads the mail hosts out of a DNS answer.
-- The caller's lists are memories whose first byte is the one before the list; a pointer is an
-- index. The resolver's `dn_skipname` and `dn_expand` are parameters, `none` for a result below 0.
pub mod Lookup
pub mod Written
pub mod Packet
pub mod Records
pub mod Whole
mod Tests
use roadsend_php.Base.{
  ℕ, zero, suc, ◌+◌, ◌-◌, ◌*◌, ◌/◌, ◌%◌, List, [], ◌∷◌, ◌++◌, Option, none, some, ltb, ◌==◌,
  if◌then◌else◌, length, get_elem?, take, drop,
}

-- `T_MX`
abbrev pub t_mx : ℕ
t_mx = 15

-- `mx_list`, `weight_list` and the pointers into them.
pub record Lists : Type 0 where
  pub mx : List ℕ
  pub mx_ptr : ℕ
  pub weights : List ℕ
  pub weight_ptr : ℕ

-- `failed` is the return of -1, and `fault` is what C leaves undefined.
pub data Run {ℓ} (A : Type ℓ) : Type ℓ where
  ok : A → Run A
  failed : Lists → Run A
  fault : Run A

infixl 5 ◌>>=◌
abbrev pub ◌>>=◌ {ℓ κ} : {A : Type ℓ} {B : Type κ} → Run A → (A → Run B) → Run B
ok a >>= f = f a
failed l >>= f = failed l
fault >>= f = fault

-- What an access to memory gives.
abbrev pub access {ℓ} : {A : Type ℓ} → Option A → Run A
access none = fault
access (some a) = ok a

-- `if ((n = ...) < 0) return -1`
abbrev pub or_fail {ℓ} : {A : Type ℓ} → Lists → Option A → Run A
or_fail l none = failed l
or_fail l (some a) = ok a

-- `NS_GET16`: a number of two bytes in network order, and the pointer behind it.
pub get16 : List ℕ → ℕ → Run (ℕ × ℕ)
get16 answer p = do
  hi ← access (get_elem? answer p)
  lo ← access (get_elem? answer (p + 1))
  ok (hi * 256 + lo, p + 2)

-- `sprintf` of a text to memory, with the NUL behind it.
pub sprintf : List ℕ → ℕ → List ℕ → Run (List ℕ)
sprintf memory p text =
    if ltb (p + length text) (length memory)
    then ok (take p memory ++ (text ++ 0 ∷ drop (p + length text + 1) memory))
    else fault

-- `%d` of a number of two bytes.
pub decimal_loop : ℕ → ℕ → List ℕ → List ℕ
decimal_loop zero n text = text
decimal_loop (suc rounds) n text =
    let longer = (b'0' + n % 10) ∷ text in
    let rest = decimal_loop rounds (n / 10) longer in if n / 10 == 0 then longer else rest

abbrev pub decimal : ℕ → List ℕ
decimal n = decimal_loop 5 n []

-- `" %s  "`
abbrev pub mx_text : List ℕ → List ℕ
mx_text host = b' ' ∷ host ++ b' ' ∷ b' ' ∷ []

-- `" %d "`
abbrev pub weight_text : ℕ → List ℕ
weight_text weight = b' ' ∷ decimal weight ++ b' ' ∷ []

-- The two `sprintf` of a round.
pub add_mx : List ℕ → ℕ → Lists → Run Lists
add_mx host weight l = do
  mx ← sprintf l.mx (l.mx_ptr - 1) (mx_text host)
  weights ← sprintf l.weights (l.weight_ptr - 1) (weight_text weight)
  ok (record {
    mx = mx;
    mx_ptr = l.mx_ptr + length (mx_text host);
    weights = weights;
    weight_ptr = l.weight_ptr + length (weight_text weight);
  })

module _ (skip : List ℕ → ℕ → Option ℕ) (expand : List ℕ → ℕ → Option (ℕ × List ℕ)) where
  -- The loop over the questions, to the pointer behind them.
  pub questions : ℕ → List ℕ → ℕ → Lists → Run ℕ
  questions zero answer p l = ok p
  questions (suc qdcount) answer p l = do
    n ← or_fail l (skip answer p)
    questions qdcount answer (p + (n + 4)) l

  -- The rest of a round for a record of type MX.
  pub mx_record : List ℕ → ℕ → Lists → Run (ℕ × Lists)
  mx_record answer p l = do
    (weight, host_ptr) ← get16 answer p
    (n, host) ← or_fail l (expand answer host_ptr)
    next ← add_mx host weight l
    ok (host_ptr + n, next)

  -- A round of the loop over the answers.
  pub answer_step : List ℕ → ℕ → Lists → Run (ℕ × Lists)
  answer_step answer p l = do
    n ← or_fail l (skip answer p)
    (type, p2) ← get16 answer (p + n)
    (size, body) ← get16 answer (p2 + 6)
    if type == t_mx then mx_record answer body l else ok (body + size, l)

  pub answers : ℕ → List ℕ → ℕ → Lists → Run Lists
  answers zero answer p l = ok l
  answers (suc ancount) answer p l =
      let rest = answer_step answer p l >>= λ (q, next). answers ancount answer q next in
      if ltb p (length answer) then rest else ok l

  -- The whole, with what `res_search` has left in `answer`; `ok` is the return of 0.
  pub php_getmxrr : List ℕ → List ℕ → List ℕ → Run Lists
  php_getmxrr answer mx_list weight_list = do
    mx ← sprintf mx_list 1 []
    weights ← sprintf weight_list 1 []
    let l : Lists = record { mx = mx; mx_ptr = 1; weights = weights; weight_ptr = 1 }
    (qdcount, _) ← get16 answer 4
    p ← questions qdcount answer 12 l
    (ancount, _) ← get16 answer 6
    answers ancount answer p l
