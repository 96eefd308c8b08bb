-- ===== src/Math/Tests.antt =====
-- opaque-math.c on concrete numbers. The doubles are those that hold integers, rounded to 53 bits.
use roadsend_php.Base.{
  ◌⊎◌, ℕ, zero, suc, ◌+◌, ◌-◌, ◌*◌, ◌/◌, ◌%◌, ◌^◌, ◌≤◌, ◌≡◌, ◌≢◌, refl, Bool, true, false, not,
  ◌&&◌, ◌||◌, arith, ltb, leb, ◌==◌, if◌then◌else◌, List, some, codes, length, ap, ap₂, All,
}
use roadsend_php.Base.Int.{
  ℤ, pos, negsuc, pos_part, magnitude, signed, is_neg, long_value, ltb_ℤ, c_div, c_rem, ◌+ℤ◌, ◌-ℤ◌,
  ◌*ℤ◌,
}
use roadsend_php.Math.{
  elong, real, ok, fail, fault, of_long, overflows, product, fast_long_multiply, phpadd, phpmul,
  phpdiv, phpmod, re_unsigned_to_string, count_digits, write_digits, letter,
}
use roadsend_php.Math.Float.{Double}
use roadsend_php.Math.Add.{IsExactOr, phpadd_long}
use roadsend_php.Math.Divide.{IsRemainder, phpmod_long, phpdiv_long}
use roadsend_php.Math.Radix.{IsDigit, text_value, re_unsigned_to_string_lem}

-- To the nearest multiple of `2 ^ k` that 53 bits hold, ties to the even one.
round_at : ℕ → ℕ → ℕ → ℕ
round_at zero k n = n
round_at (suc fuel) k n =
    let up = round_at fuel (suc k) n in
    let q = n / 2 ^ k in
    let twice_rest = 2 * (n % 2 ^ k) in
    let is_up = ltb (2 ^ k) twice_rest || (twice_rest == 2 ^ k && q % 2 == 1) in
    if ltb q (2 ^ 53) then (if is_up then (q + 1) * 2 ^ k else q * 2 ^ k) else up

to_double : ℤ → ℤ
to_double x =
    if leb (magnitude x) (2 ^ 53) then x else signed (is_neg x) (round_at 80 0 (magnitude x))

to_double_small : (x : ℤ) → magnitude x ≤ 2 ^ 53 → to_double x ≡ x
unfolding to_double
to_double_small x h = let t : leb (magnitude x) (2 ^ 53) ≡ true = ground arith in rw t refl

geb_ℤ : ℤ → ℤ → Bool
geb_ℤ x y = not (ltb_ℤ x y)

top : to_double (pos (2 ^ 63 - 1)) ≡ pos (2 ^ 63)
unfolding to_double round_at
top = refl

bottom : to_double (negsuc (2 ^ 63 - 1)) ≡ negsuc (2 ^ 63 - 1)
unfolding to_double round_at
bottom = refl

round_mul :
    (x y : ℤ)
    → magnitude x ≤ 2 ^ 53
    → magnitude y ≤ 2 ^ 53
    → magnitude (x *ℤ y) ≤ 2 ^ 53
    → to_double (to_double x *ℤ to_double y) ≡ to_double (x *ℤ y)
round_mul x y hx hy hxy = ap to_double (ap₂ ◌*ℤ◌ (to_double_small x hx) (to_double_small y hy))

round_below :
    (x : ℤ) → magnitude x ≤ 2 ^ 53 → geb_ℤ (to_double x) (to_double (pos (2 ^ 63 - 1))) ≡ false
unfolding geb_ℤ
round_below x h = rw (top, to_double_small x h) (ground arith)

round_above :
    (x : ℤ) → magnitude x ≤ 2 ^ 53 → geb_ℤ (to_double (negsuc (2 ^ 63 - 1))) (to_double x) ≡ false
unfolding geb_ℤ
round_above x h = rw (bottom, to_double_small x h) (ground arith)

-- `div` is only right for quotients that are integers, which the tests do not go beyond.
abbrev integral : Double
integral = record {
  D = ℤ;
  of_ℤ = to_double;
  to_long = λ x. pos_part x;
  to_ulong = λ x. pos_part x;
  add = λ x y. to_double (x +ℤ y);
  sub = λ x y. to_double (x -ℤ y);
  mul = λ x y. to_double (x *ℤ y);
  div = c_div;
  gtb = λ x y. ltb_ℤ y x;
  geb = geb_ℤ;
  is_zero = λ x. magnitude x == 0;
  mul_exact = round_mul;
  below_max = round_below;
  above_min = round_above;
}

-- The double product rounds down below 2^63, so the test for overflow passes, and the long wraps
-- around: 89547301328687144 * 103 is 2^63 + 24.
phpmul_wraps :
    (phpmul integral (elong 89547301328687144) (elong 103) ≡ ok (elong (2 ^ 63 + 24)))
    × (long_value (2 ^ 63 + 24) ≡ negsuc (2 ^ 63 - 25))
unfolding phpmul product fast_long_multiply to_double round_at geb_ℤ ◌*ℤ◌
phpmul_wraps = (refl, refl)

hex : re_unsigned_to_string 48879 16 ≡ some (codes "beef")
unfolding re_unsigned_to_string count_digits write_digits letter
hex = refl

phpadd_long_example :
    IsExactOr
      (long_value (2 ^ 63 - 1) +ℤ long_value 1)
      (integral.add (of_long integral (2 ^ 63 - 1)) (of_long integral 1))
      (phpadd integral (elong (2 ^ 63 - 1)) (elong 1))
phpadd_long_example = phpadd_long integral (2 ^ 63 - 1) 1 (omega arith) (omega arith)

phpmod_long_example :
    (◌≡◌ {A = ℕ} 3 0 × (phpmod integral (elong 17) (elong 3) ≡ fail))
    ⊎ ((overflows 17 3 ≡ true) × (phpmod integral (elong 17) (elong 3) ≡ fault))
    ⊎ (◌≢◌ {A = ℕ} 3 0
        × (overflows 17 3 ≡ false)
        × ((w : ℕ) × (phpmod integral (elong 17) (elong 3) ≡ ok (elong w))
            × IsRemainder (long_value 17) (long_value 3) (long_value w)))
phpmod_long_example = phpmod_long integral 17 3 (omega arith) (omega arith)

phpdiv_long_example :
    (◌≡◌ {A = ℕ} 3 0 × (phpdiv integral (elong 18) (elong 3) ≡ fail))
    ⊎ ((overflows 18 3 ≡ true) × (phpdiv integral (elong 18) (elong 3) ≡ fault))
    ⊎ (◌≢◌ {A = ℕ} 3 0
        × (overflows 18 3 ≡ false)
        × (c_rem (long_value 18) (long_value 3) ≡ pos 0)
        × ((w : ℕ) × (phpdiv integral (elong 18) (elong 3) ≡ ok (elong w))
            × (long_value w *ℤ long_value 3 ≡ long_value 18)))
    ⊎ (◌≢◌ {A = ℕ} 3 0
        × (overflows 18 3 ≡ false)
        × (c_rem (long_value 18) (long_value 3) ≢ pos 0)
        × (phpdiv integral (elong 18) (elong 3)
            ≡ ok (real (integral.div (of_long integral 18) (of_long integral 3)))))
phpdiv_long_example = phpdiv_long integral 18 3 (omega arith) (omega arith)

re_unsigned_to_string_lem_example :
    (text : List ℕ) × (re_unsigned_to_string 255 16 ≡ some text)
    × All (IsDigit 16) text
    × (1 ≤ length text)
    × (text_value 16 0 text ≡ 255)
    × ((j : ℕ) → length text ≡ suc (suc j) → 16 ^ suc j ≤ 255)
re_unsigned_to_string_lem_example =
    re_unsigned_to_string_lem 16 (omega arith) (omega arith) 255 (omega arith)
