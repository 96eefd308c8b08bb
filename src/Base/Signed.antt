-- ===== src/Base/Signed.antt =====
-- Numbers by sign and magnitude: products, sums, and the division of C.
use native.Mathlib.Nat.{div-add-mod}
use roadsend_php.Base.{
  ℕ, zero, suc, ◌+◌, ◌*◌, ◌/◌, ◌%◌, ◌<◌, ◌≡◌, refl, ap, sym, ◌∙◌, Bool, true, false, xor, arith,
}
use roadsend_php.Base.Int.{ℤ, pos, negsuc, magnitude, signed, is_neg, c_div, c_rem, ◌+ℤ◌, ◌*ℤ◌}

pub signed-is_neg : (x : ℤ) → signed (is_neg x) (magnitude x) ≡ x
signed-is_neg (pos n) = ap pos (omega arith)
signed-is_neg (negsuc n) = ground arith

pub magnitude-signed : (s : Bool) (n : ℕ) → magnitude (signed s n) ≡ n
magnitude-signed true n = ground arith
magnitude-signed false n = omega arith

pub signed_add : (s : Bool) (m n : ℕ) → signed s m +ℤ signed s n ≡ signed s (m + n)
unfolding ◌+ℤ◌
signed_add true m n = ground arith
signed_add false m n = ground arith

pub signed_mul : (s t : Bool) (m n : ℕ) → signed s m *ℤ signed t n ≡ signed (xor s t) (m * n)
unfolding ◌*ℤ◌ xor
signed_mul false false m n = ground arith
signed_mul false true m zero = ground arith
signed_mul false true m (suc n) = ground arith
signed_mul true false zero n = ground arith
signed_mul true false (suc m) n = ground arith
signed_mul true true zero n = ground arith
signed_mul true true (suc m) zero = ground arith
signed_mul true true (suc m) (suc n) = ground arith

xor_twice : (s t : Bool) → xor (xor s t) t ≡ s
unfolding xor
xor_twice true true = refl
xor_twice true false = refl
xor_twice false true = refl
xor_twice false false = refl

-- The quotient times the divisor and the remainder make up the dividend.
pub c_div-c_rem : (x y : ℤ) → c_div x y *ℤ y +ℤ c_rem x y ≡ x
unfolding c_div c_rem
c_div-c_rem x y =
    let s = is_neg x in
    let t = is_neg y in
    let q = magnitude x / magnitude y in
    let product : signed (xor s t) q *ℤ y ≡ signed s (q * magnitude y) =
      ap (λ z. signed (xor s t) q *ℤ z) (sym (signed-is_neg y))
      ∙ signed_mul (xor s t) t q (magnitude y)
      ∙ ap (λ b. signed b (q * magnitude y)) (xor_twice s t) in
    ap (λ z. z +ℤ c_rem x y) product
    ∙ signed_add s (q * magnitude y) (magnitude x % magnitude y)
    ∙ ap (signed s) (omega (arith, div-add-mod (magnitude x) (magnitude y)))
    ∙ signed-is_neg x

pub c_rem-lt : (x y : ℤ) → 0 < magnitude y → magnitude (c_rem x y) < magnitude y
unfolding c_rem
c_rem-lt x y h = omega (arith, magnitude-signed (is_neg x) (magnitude x % magnitude y))
