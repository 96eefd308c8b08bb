-- ===== src/Network/Written.antt =====
-- runtime/ext/standard/network.c: what the `sprintf` of `php_getmxrr` leave in a list.
use roadsend_php.Base.{
  take-prefix, drop-prefix, ℕ, suc, ◌+◌, ◌-◌, ◌≤◌, ◌<◌, ◌≡◌, refl, sym, List, [], ◌∷◌, ◌++◌, some,
  true, ltb, length, get_elem?, drop, arith, length-append, length-drop, append_assoc,
  get_elem?-append,
}
use roadsend_php.Network.{Lists, ok, sprintf, decimal, mx_text, weight_text, add_mx}

-- The memory of a list has a text from the byte before the list on, a NUL behind it, room for more
-- characters, and the pointer to the NUL is right.
pub record Holds (text : List ℕ) (room : ℕ) (memory : List ℕ) (ptr : ℕ) : Type 0 where
  pub rest : List ℕ
  pub split : memory ≡ text ++ rest
  pub size : room < length rest
  pub place : ptr ≡ suc (length text)
  pub nul : get_elem? memory (suc (length (drop 1 text))) ≡ some 0

sprintf-behind :
    (text rest s : List ℕ)
    → length s < length rest
    → sprintf (text ++ rest) (length text) s ≡ ok (text ++ (s ++ 0 ∷ drop (length s + 1) rest))
unfolding sprintf
sprintf-behind text rest s lt =
    let inside : ltb (length text + length s) (length (text ++ rest)) ≡ true =
      ground (arith, length-append text rest) in
    let behind : length text + length s + 1 ≡ length text + (length s + 1) = omega arith in
    rw (inside, take-prefix text rest, behind, drop-prefix text rest (length s + 1)) refl

-- A text of a character or more, printed where the last ended.
pub sprintf-Holds :
    (text s memory : List ℕ) (c room ptr : ℕ)
    → Holds text (length (c ∷ s) + room) memory ptr
    → (next : List ℕ) × (sprintf memory (ptr - 1) (c ∷ s) ≡ ok next)
      × Holds (text ++ c ∷ s) room next (ptr + length (c ∷ s))
sprintf-Holds text s memory c room ptr h =
    let added = c ∷ s in
    let rest = 0 ∷ drop (length added + 1) h.rest in
    let start : ptr - 1 ≡ length text = omega (arith, h.place) in
    let whole : text ++ (added ++ rest) ≡ (text ++ added) ++ rest =
      sym (append_assoc text added rest) in
    let count : suc (length (drop 1 (text ++ added))) ≡ length (text ++ added) + 0 =
      omega (arith, length-drop 1 (text ++ added), length-append text added) in
    (
      text ++ (added ++ rest),
      rw (h.split, start) (sprintf-behind text h.rest added (omega (arith, h.size))),
      record {
        rest = rest;
        split = whole;
        size = omega (arith, h.size, length-drop (length added + 1) h.rest);
        place = omega (arith, h.place, length-append text added);
        nul = rw (whole, count) (get_elem?-append (text ++ added) rest 0);
      },
    )

-- Both lists: the texts of the hosts and of the weights, and the room that each has.
pub record HoldBoth (hosts numbers : List ℕ) (host_room number_room : ℕ) (l : Lists) : Type 0 where
  pub of_hosts : Holds hosts host_room l.mx l.mx_ptr
  pub of_weights : Holds numbers number_room l.weights l.weight_ptr

pub add_mx-HoldBoth :
    (hosts numbers host : List ℕ) (weight host_room number_room : ℕ) (l : Lists)
    → HoldBoth hosts numbers
        (length (mx_text host) + host_room)
        (length (weight_text weight) + number_room)
        l
    → (next : Lists) × (add_mx host weight l ≡ ok next)
      × HoldBoth (hosts ++ mx_text host) (numbers ++ weight_text weight) host_room number_room next
unfolding add_mx
add_mx-HoldBoth hosts numbers host weight host_room number_room l h =
    let (mx, e, k) =
      sprintf-Holds hosts (host ++ b' ' ∷ b' ' ∷ []) l.mx b' ' host_room l.mx_ptr h.of_hosts in
    let (weights, f, m) =
      sprintf-Holds numbers (decimal weight ++ b' ' ∷ []) l.weights b' ' number_room l.weight_ptr
        h.of_weights in
    (
      record {
        mx = mx;
        mx_ptr = l.mx_ptr + length (mx_text host);
        weights = weights;
        weight_ptr = l.weight_ptr + length (weight_text weight);
      },
      rw (e, f) refl,
      record { of_hosts = k; of_weights = m },
    )

-- The first `sprintf` of each list.
pub sprintf-empty :
    (before c : ℕ) (rest : List ℕ) → sprintf (before ∷ c ∷ rest) 1 [] ≡ ok (before ∷ 0 ∷ rest)
unfolding sprintf
sprintf-empty before c rest =
    let inside : ltb (1 + 0) (length (before ∷ c ∷ rest)) ≡ true = ground arith in rw inside refl

pub empty-Holds :
    (before : ℕ) (rest : List ℕ) (room : ℕ)
    → room ≤ length rest
    → Holds [] room (before ∷ 0 ∷ rest) 1
empty-Holds before rest room le = record {
  rest = before ∷ 0 ∷ rest;
  split = refl;
  size = omega arith;
  place = refl;
  nul = refl;
}
