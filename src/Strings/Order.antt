-- ===== src/Strings/Order.antt =====
-- c-runtime.c: the comparison is the lexicographic order of the bytes.
use roadsend_php.Base.{
  ℕ, zero, suc, ◌+◌, ◌≡◌, refl, ap, ap₂, ◌∙◌, List, [], ◌∷◌, arith, ltb, if◌then◌else◌, length,
}
use roadsend_php.Base.Int.{ℤ, pos_part, neg_part, pos, negsuc, ◌-ℤ◌, -ℤ_parts}
use roadsend_php.Strnatcmp.{Sign, less, equal, greater}
use roadsend_php.Strings.{sign_of, compare_first, Memcmp, min_length, choose, binary_strcmp}

-- The lexicographic order, in which a string comes behind its prefixes.
pub lexicographic : List ℕ → List ℕ → Sign
lexicographic [] [] = equal
lexicographic [] (y ∷ s2) = less
lexicographic (x ∷ s1) [] = greater
lexicographic (x ∷ s1) (y ∷ s2) =
    let rest = lexicographic s1 s2 in if ltb x y then less else if ltb y x then greater else rest

-- The first difference, and then the lengths.
or_else : Sign → Sign → Sign
or_else less s = less
or_else greater s = greater
or_else equal s = s

compare_length : ℕ → ℕ → Sign
compare_length a b = if ltb a b then less else if ltb b a then greater else equal

sign_of-choose :
    (r lengths : ℤ) → sign_of (choose r lengths) ≡ or_else (sign_of r) (sign_of lengths)
unfolding sign_of choose or_else
sign_of-choose (pos zero) lengths = refl
sign_of-choose (pos (suc n)) lengths = refl
sign_of-choose (negsuc n) lengths = refl

sign_of_parts : (z : ℤ) (a b : ℕ) → pos_part z + b ≡ neg_part z + a → sign_of z ≡ compare_length a b
unfolding sign_of compare_length
sign_of_parts (pos zero) a b h = ground arith
sign_of_parts (pos (suc n)) a b h = ground arith
sign_of_parts (negsuc n) a b h = ground arith

sign_of-sub : (a b : ℕ) → sign_of (pos a -ℤ pos b) ≡ compare_length a b
sign_of-sub a b = sign_of_parts (pos a -ℤ pos b) a b (omega (arith, -ℤ_parts (pos a) (pos b)))

min_length_right : (a : ℕ) → min_length a 0 ≡ 0
unfolding min_length
min_length_right a = ground arith

min_length_left : (b : ℕ) → min_length 0 b ≡ 0
unfolding min_length
min_length_left b = ground arith

min_length-suc : (a b : ℕ) → min_length (suc a) (suc b) ≡ suc (min_length a b)
unfolding min_length
min_length-suc a b = ground arith

compare_length-suc : (a b : ℕ) → compare_length (suc a) (suc b) ≡ compare_length a b
unfolding compare_length
compare_length-suc a b = ground arith

step_first :
    (x y : ℕ) (s l : Sign)
    → or_else (if ltb x y then less else if ltb y x then greater else s) l
      ≡ (if ltb x y then less else if ltb y x then greater else or_else s l)
unfolding or_else
step_first x y s l = ground arith

lexicographic_lem :
    (s1 s2 : List ℕ)
    → or_else
        (compare_first (min_length (length s1) (length s2)) s1 s2)
        (compare_length (length s1) (length s2))
      ≡ lexicographic s1 s2
unfolding compare_first lexicographic
lexicographic_lem [] [] = unfold min_length or_else compare_length in refl
lexicographic_lem [] (y ∷ s2) =
    ap (λ n. or_else (compare_first n [] (y ∷ s2)) (compare_length 0 (suc (length s2))))
      (min_length_left (suc (length s2)))
    ∙ unfold or_else compare_length in ground arith
lexicographic_lem (x ∷ s1) [] =
    ap (λ n. or_else (compare_first n (x ∷ s1) []) (compare_length (suc (length s1)) 0))
      (min_length_right (suc (length s1)))
    ∙ unfold or_else compare_length in ground arith
lexicographic_lem (x ∷ s1) (y ∷ s2) =
    let a = length s1 in
    let b = length s2 in
    ap₂ (λ n l. or_else (compare_first n (x ∷ s1) (y ∷ s2)) l) (min_length-suc a b)
      (compare_length-suc a b)
    ∙ step_first x y (compare_first (min_length a b) s1 s2) (compare_length a b)
    ∙ ap (λ r. if ltb x y then less else if ltb y x then greater else r) (lexicographic_lem s1 s2)

-- For the whole strings, `binary_strcmp` has the sign of their lexicographic order, whatever
-- `memcmp` returns beyond its sign: NUL bytes count, and a string comes behind its prefixes.
pub binary_strcmp-lexicographic :
    (m : Memcmp) (s1 s2 : List ℕ)
    → sign_of (binary_strcmp m s1 (length s1) s2 (length s2)) ≡ lexicographic s1 s2
unfolding binary_strcmp
binary_strcmp-lexicographic m s1 s2 =
    let n = min_length (length s1) (length s2) in
    sign_of-choose (m.memcmp s1 s2 n) (pos (length s1) -ℤ pos (length s2))
    ∙ ap₂ or_else (m.sign s1 s2 n) (sign_of-sub (length s1) (length s2))
    ∙ lexicographic_lem s1 s2
