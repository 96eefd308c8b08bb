-- ===== src/Format/Cvt/Bounds.antt =====
-- pcc_snprintf.c: `pcc_cvt` stays inside its array, and its loops end.
use roadsend_php.Base.{
  ℕ, zero, suc, ◌+◌, ◌-◌, ◌%◌, ◌<◌, ◌≤◌, ◌≡◌, ◌∙◌, List, [], ◌∷◌, ◌++◌, true, ltb, leb, ◌==◌,
  length, get_elem?, take, drop, arith, length-set, length-append, length-take, length-drop,
}
use roadsend_php.Base.Ensures.{Returns, Returns-bind, Returns-if}
use roadsend_php.Format.Cvt.{store, move, Whole, make_room, whole_step, copy_loop, carry}

-- The array of 80 bytes.
abbrev pub IsArray : List ℕ → Type 0
IsArray buf = length buf ≡ 80

pub store-IsArray :
    (buf : List ℕ) (p c : ℕ) → IsArray buf → p < 80 → Returns IsArray (store buf p c)
unfolding store
store-IsArray buf p c h lt =
    let inside : ltb p (length buf) ≡ true = ground arith in
    rw inside (length-set buf p (c % 256) ∙ h)

pub get-Returns :
    (buf : List ℕ) (p : ℕ) → p < length buf → Returns (λ _. Unit {0}) (get_elem? buf p)
get-Returns [] p lt = absurd (omega arith)
get-Returns (x ∷ buf) zero lt = tt
get-Returns (x ∷ buf) (suc p) lt = get-Returns buf p (omega arith)

pub move-IsArray :
    (buf : List ℕ) (dst n : ℕ) → IsArray buf → dst + n ≤ 80 → Returns IsArray (move buf dst n)
unfolding move
move-IsArray buf dst n h le =
    let inside : leb (dst + n) (length buf) ≡ true = ground arith in
    rw inside (
      omega (
        arith,
        length-append (take dst buf) (take n buf ++ drop (dst + n) buf),
        length-append (take n buf) (drop (dst + n) buf),
        length-take dst buf (omega arith),
        length-take n buf (omega arith),
        length-drop (dst + n) buf,
      ))

pub record IsWhole (w : Whole) : Type 0 where
  pub array : IsArray w.buf
  pub inside : w.p1 ≤ 80

pub make_room-IsWhole :
    (ndigits : ℕ) (w : Whole)
    → ndigits ≤ 78
    → IsWhole w
    → Returns (λ v. IsWhole v × (1 ≤ v.p1)) (make_room ndigits w)
unfolding make_room
make_room-IsWhole ndigits w le h =
    Returns-if _ (w.p1 == 0) _ _
      (λ e.
        Returns-bind IsArray _ _ _
          (Returns-if IsArray (ltb 0 ndigits) _ _
            (λ more. move-IsArray w.buf (80 - ndigits) _ h.array (omega arith)) (λ _. h.array))
          (λ buf array. (record { array = array; inside = omega arith }, omega arith)))
      (λ e. (h, ground arith))

pub whole_step-IsWhole :
    (ndigits digit : ℕ) (w : Whole)
    → ndigits ≤ 78
    → IsWhole w
    → Returns IsWhole (whole_step ndigits digit w)
unfolding whole_step
whole_step-IsWhole ndigits digit w le h =
    Returns-bind _ _ (make_room ndigits w) _ (make_room-IsWhole ndigits w le h) (λ v (k, room).
      Returns-bind IsArray _ (store v.buf (v.p1 - 1) _) _
        (store-IsArray v.buf (v.p1 - 1) _ k.array (omega (arith, k.inside)))
        (λ buf array. record { array = array; inside = omega (arith, k.inside) }))

pub copy_loop-IsArray :
    (rounds p p1 : ℕ) (buf : List ℕ)
    → IsArray buf
    → p + rounds ≤ 80
    → p1 + rounds ≤ 80
    → Returns IsArray (copy_loop rounds p p1 buf)
unfolding copy_loop
copy_loop-IsArray zero p p1 buf h le le1 = h
copy_loop-IsArray (suc rounds) p p1 buf h le le1 =
    Returns-bind _ _ (get_elem? buf p1) _ (get-Returns buf p1 (omega arith)) (λ c _.
      Returns-bind IsArray _ (store buf p c) _ (store-IsArray buf p c h (omega arith))
        (λ next k. copy_loop-IsArray rounds (p + 1) (p1 + 1) next k (omega arith) (omega arith)))

pub carry-IsArray :
    (p : ℕ) (buf : List ℕ) → IsArray buf → p < 80 → Returns (λ x. IsArray x.0) (carry p buf)
unfolding carry
carry-IsArray zero buf h lt =
    Returns-bind _ _ (get_elem? buf 0) _ (get-Returns buf 0 (omega arith)) (λ c _.
      Returns-if _ (ltb b'9' c) _ _
        (λ _.
          Returns-bind IsArray _ (store buf 0 b'1') _ (store-IsArray buf 0 b'1' h lt) (λ next k. k))
        (λ _. h))
carry-IsArray (suc p) buf h lt =
    Returns-bind _ _ (get_elem? buf (suc p)) _ (get-Returns buf (suc p) (omega arith)) (λ c _.
      Returns-if _ (ltb b'9' c) _ _
        (λ _.
          Returns-bind IsArray _ (store buf (suc p) b'0') _ (store-IsArray buf (suc p) b'0' h lt)
            (λ zeroed k.
              Returns-bind _ _ (get_elem? zeroed p) _ (get-Returns zeroed p (omega arith)) (λ d _.
                Returns-bind IsArray _ (store zeroed p (d + 1)) _
                  (store-IsArray zeroed p (d + 1) k (omega arith))
                  (λ next l. carry-IsArray p next l (omega arith)))))
        (λ _. h))
