-- ===== src/Network/Records.antt =====
-- runtime/ext/standard/network.c: the loops of `php_getmxrr` on the bytes of an answer.
use roadsend_php.Base.{
  drop-prefix, ℕ, zero, suc, ◌+◌, ◌*◌, ◌≤◌, ◌≡◌, refl, sym, ap, ◌∙◌, List, [], ◌∷◌, ◌++◌, Option,
  some, true, ltb, ◌==◌, if◌then◌else◌, length, get_elem?, drop, arith, length-append, length-drop,
  append_assoc, append-nil,
}
use roadsend_php.Network.{t_mx, Lists, ok, get16, questions, mx_record, answer_step, answers}
use roadsend_php.Network.Written.{HoldBoth, add_mx-HoldBoth}
use roadsend_php.Network.Packet.{
  Record, mx, other, record_bytes, records_bytes, host_of, weight_of, hosts_of, weights_of,
  questions_bytes, IsName, IsRecord, AreRecords, AreQuestions,
}

append_assoc_inner :
    (xs ys zs behind : List ℕ) → (xs ++ (ys ++ zs)) ++ behind ≡ xs ++ (ys ++ (zs ++ behind))
append_assoc_inner xs ys zs behind =
    append_assoc xs (ys ++ zs) behind ∙ ap (λ l. xs ++ l) (append_assoc ys zs behind)

drop-nil : (n : ℕ) → drop {A = ℕ} n [] ≡ []
drop-nil zero = refl
drop-nil (suc n) = refl

drop-drop : (answer : List ℕ) (p n : ℕ) → drop (p + n) answer ≡ drop n (drop p answer)
drop-drop answer zero n = ap (λ k. drop k answer) (omega arith)
drop-drop [] (suc p) n = drop-nil (suc p + n) ∙ sym (drop-nil n)
drop-drop (a ∷ answer) (suc p) n =
    let count : suc p + n ≡ suc (p + n) = omega arith in rw count (drop-drop answer p n)

pub drop-further :
    (answer : List ℕ) (p : ℕ) (xs ys : List ℕ)
    → drop p answer ≡ xs ++ ys
    → drop (p + length xs) answer ≡ ys
drop-further answer p xs ys h =
    let count : length xs ≡ length xs + 0 = omega arith in
    drop-drop answer p (length xs)
    ∙ ap (drop (length xs)) h
    ∙ ap (λ n. drop n (xs ++ ys)) count
    ∙ drop-prefix xs ys 0

drop-inside :
    (answer : List ℕ) (p : ℕ) (xs : List ℕ)
    → drop p answer ≡ xs
    → 1 ≤ length xs
    → ltb p (length answer) ≡ true
drop-inside answer p xs h le =
    let left : length (drop p answer) ≡ length xs = ap length h in
    ground (arith, length-drop p answer)

record_bytes-size : (x : Record) → 1 ≤ length (record_bytes x)
record_bytes-size (mx owner middle size_hi size_lo weight_hi weight_lo host text) = omega (
  arith,
  length-append owner (0 ∷ t_mx ∷ middle ++ (size_hi ∷ size_lo ∷ weight_hi ∷ weight_lo ∷ host)),
)
record_bytes-size (other owner type_hi type_lo middle size_hi size_lo body) =
    omega (arith, length-append owner (type_hi ∷ type_lo ∷ middle ++ (size_hi ∷ size_lo ∷ body)))

get_elem?-drop :
    (answer : List ℕ) (p x : ℕ) (ys : List ℕ) → drop p answer ≡ x ∷ ys → get_elem? answer p ≡ some x
get_elem?-drop [] zero x ys h = cc
get_elem?-drop (a ∷ answer) zero x ys h = cc
get_elem?-drop [] (suc p) x ys h = cc
get_elem?-drop (a ∷ answer) (suc p) x ys h = get_elem?-drop answer p x ys h

pub get16-drop :
    (answer : List ℕ) (p hi lo : ℕ) (ys : List ℕ)
    → drop p answer ≡ hi ∷ lo ∷ ys
    → get16 answer p ≡ ok (hi * 256 + lo, p + 2)
unfolding get16
get16-drop answer p hi lo ys h =
    rw
      (
        get_elem?-drop answer p hi (lo ∷ ys) h,
        get_elem?-drop answer (p + 1) lo ys (drop-further answer p (hi ∷ []) (lo ∷ ys) h),
      )
      refl

module _ (skip : List ℕ → ℕ → Option ℕ) (expand : List ℕ → ℕ → Option (ℕ × List ℕ))
    (answer : List ℕ) where
  pub questions-bytes :
      (asked : List (List ℕ × List ℕ)) (p : ℕ) (behind : List ℕ) (l : Lists)
      → AreQuestions skip expand answer asked
      → drop p answer ≡ questions_bytes asked ++ behind
      → (q : ℕ) × (questions skip expand (length asked) answer p l ≡ ok q)
        × (drop q answer ≡ behind)
  unfolding questions
  questions-bytes [] p behind l h e = (p, refl, e)
  questions-bytes ((name, kind) ∷ asked) p behind l (named, four, h) e =
      let tail = questions_bytes asked ++ behind in
      let first : drop p answer ≡ name ++ (kind ++ tail) =
        e ∙ append_assoc_inner name kind (questions_bytes asked) behind in
      let count : p + (length name + 4) ≡ p + length name + length kind = omega (arith, four) in
      let next : drop (p + (length name + 4)) answer ≡ tail = rw count (
        drop-further answer (p + length name) kind tail
          (drop-further answer p name (kind ++ tail) first)) in
      let (q, f, k) = questions-bytes asked (p + (length name + 4)) behind l h next in
      (q, rw (named p (kind ++ tail) first) f, k)

  -- Where the data of a record starts.
  abbrev body_at : ℕ → List ℕ → ℕ
  body_at p owner = p + length owner + 2 + 6 + 2

  answer_step-head :
      (p : ℕ) (owner : List ℕ) (type_hi type_lo : ℕ) (middle : List ℕ) (size_hi size_lo : ℕ)
      (rest : List ℕ) (l : Lists)
      → IsName skip expand answer owner
      → length middle ≡ 6
      → drop p answer ≡ owner ++ (type_hi ∷ type_lo ∷ middle ++ (size_hi ∷ size_lo ∷ rest))
      → (drop (body_at p owner) answer ≡ rest)
        × (answer_step skip expand answer p l ≡ (
            if type_hi * 256 + type_lo == t_mx
            then mx_record skip expand answer (body_at p owner) l
            else ok (body_at p owner + (size_hi * 256 + size_lo), l)))
  unfolding answer_step
  answer_step-head p owner type_hi type_lo middle size_hi size_lo rest l named six e =
      let sized = size_hi ∷ size_lo ∷ rest in
      let type_on : drop (p + length owner) answer ≡ type_hi ∷ type_lo ∷ middle ++ sized =
        drop-further answer p owner (type_hi ∷ type_lo ∷ middle ++ sized) e in
      let middle_on : drop (p + length owner + 2) answer ≡ middle ++ sized =
        drop-further answer (p + length owner) (type_hi ∷ type_lo ∷ []) (middle ++ sized) type_on in
      let size_on : drop (p + length owner + 2 + 6) answer ≡ sized =
        rw (sym six) (drop-further answer (p + length owner + 2) middle sized middle_on) in
      (
        drop-further answer (p + length owner + 2 + 6) (size_hi ∷ size_lo ∷ []) rest size_on,
        rw
            (
              named p _ e,
              get16-drop answer (p + length owner) type_hi type_lo (middle ++ sized) type_on,
              get16-drop answer (p + length owner + 2 + 6) size_hi size_lo rest size_on,
            )
            refl,
      )

  -- A round of the loop takes a record, and adds its texts to the lists.
  answer_step-record :
      (x : Record) (p : ℕ) (behind hosts numbers : List ℕ) (host_room number_room : ℕ) (l : Lists)
      → IsRecord skip expand answer x
      → drop p answer ≡ record_bytes x ++ behind
      → HoldBoth hosts numbers
          (length (host_of x) + host_room)
          (length (weight_of x) + number_room)
          l
      → (q : ℕ) × (next : Lists) × (answer_step skip expand answer p l ≡ ok (q, next))
        × (drop q answer ≡ behind)
        × HoldBoth (hosts ++ host_of x) (numbers ++ weight_of x) host_room number_room next
  unfolding mx_record
  answer_step-record (mx owner middle size_hi size_lo weight_hi weight_lo host text) p behind hosts
        numbers host_room number_room l (named, six, is_host) e h =
      let weight = weight_hi * 256 + weight_lo in
      let rest = weight_hi ∷ weight_lo ∷ host ++ behind in
      let (on, step) = answer_step-head p owner 0 t_mx middle size_hi size_lo rest l named six (
        e
        ∙ append_assoc_inner owner (0 ∷ t_mx ∷ middle)
            (size_hi ∷ size_lo ∷ weight_hi ∷ weight_lo ∷ host) behind) in
      let body = body_at p owner in
      let host_on : drop (body + 2) answer ≡ host ++ behind =
        drop-further answer body (weight_hi ∷ weight_lo ∷ []) (host ++ behind) on in
      let (next, added, k) = add_mx-HoldBoth hosts numbers text weight host_room number_room l h in
      (
        body + 2 + length host,
        next,
        step
            ∙ rw
                (
                  get16-drop answer body weight_hi weight_lo (host ++ behind) on,
                  is_host (body + 2) behind host_on,
                  added,
                )
                refl,
        drop-further answer (body + 2) host behind host_on,
        k,
      )
  answer_step-record (other owner type_hi type_lo middle size_hi size_lo rdata) p behind hosts
        numbers host_room number_room l (named, kind, six, size) e h =
      let (on, step) =
        answer_step-head p owner type_hi type_lo middle size_hi size_lo (rdata ++ behind) l named
          six
          (e
            ∙ append_assoc_inner owner (type_hi ∷ type_lo ∷ middle) (size_hi ∷ size_lo ∷ rdata)
                behind) in
      let body = body_at p owner in
      let none_host : 0 + host_room ≡ host_room = omega arith in
      let none_weight : 0 + number_room ≡ number_room = omega arith in
      (
        body + (size_hi * 256 + size_lo),
        l,
        step ∙ rw kind refl,
        rw (sym size) (drop-further answer body rdata behind on),
        rw (append-nil hosts, append-nil numbers) (rw (none_host, none_weight) at h),
      )

  pub answers-bytes :
      (records : List Record) (p : ℕ) (behind hosts numbers : List ℕ) (host_room number_room : ℕ)
      (l : Lists)
      → AreRecords skip expand answer records
      → drop p answer ≡ records_bytes records ++ behind
      → HoldBoth hosts numbers
          (length (hosts_of records) + host_room)
          (length (weights_of records) + number_room)
          l
      → (next : Lists) × (answers skip expand (length records) answer p l ≡ ok next)
        × HoldBoth
            (hosts ++ hosts_of records)
            (numbers ++ weights_of records)
            host_room
            number_room
            next
  unfolding answers
  answers-bytes [] p behind hosts numbers host_room number_room l h e k =
      let none_host : 0 + host_room ≡ host_room = omega arith in
      let none_weight : 0 + number_room ≡ number_room = omega arith in
      (l, refl, rw (append-nil hosts, append-nil numbers) (rw (none_host, none_weight) at k))
  answers-bytes (x ∷ records) p behind hosts numbers host_room number_room l (is, h) e k =
      let tail = records_bytes records ++ behind in
      let on : drop p answer ≡ record_bytes x ++ tail =
        e ∙ append_assoc (record_bytes x) (records_bytes records) behind in
      let inside : ltb p (length answer) ≡ true =
        drop-inside answer p (record_bytes x ++ tail) on
          (omega (arith, length-append (record_bytes x) tail, record_bytes-size x)) in
      let host_split : length (hosts_of (x ∷ records)) + host_room
          ≡ length (host_of x) + (length (hosts_of records) + host_room) =
        omega (arith, length-append (host_of x) (hosts_of records)) in
      let weight_split : length (weights_of (x ∷ records)) + number_room
          ≡ length (weight_of x) + (length (weights_of records) + number_room) =
        omega (arith, length-append (weight_of x) (weights_of records)) in
      let (q, next, step, rest_on, m) =
        answer_step-record x p tail hosts numbers (length (hosts_of records) + host_room)
          (length (weights_of records) + number_room) l is on
          (rw (host_split, weight_split) at k) in
      let (last, f, n) =
        answers-bytes records q behind (hosts ++ host_of x) (numbers ++ weight_of x) host_room
          number_room next h rest_on m in
      (
        last,
        rw (inside, step) f,
        rw
            (
              sym (append_assoc hosts (host_of x) (hosts_of records)),
              sym (append_assoc numbers (weight_of x) (weights_of records)),
            )
            n,
      )
