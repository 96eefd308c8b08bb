-- ===== src/Math/Divide.antt =====
-- opaque-math.c: remainder and quotient of longs.
use native.Mathlib.Nat.{div-add-mod}
use native.Mathlib.Decide.{dec_lt}
use roadsend_php.Base.{
  Bool-cases, ◌⊎◌, inl, inr, sym, ◌∙◌, ap, ℕ, zero, suc, ◌-◌, ◌/◌, ◌^◌, ◌≤◌, ◌<◌, ◌≡◌, ◌≢◌, refl,
  Bool, true, false, xor, arith, ◌==◌, ◌∙◌, ap, sym,
}
use roadsend_php.Base.Int.{
  negsuc, ℤ, pos, negsuc, magnitude, long_value, to_pattern, signed, is_neg, c_div, c_rem, ◌+ℤ◌,
  ◌*ℤ◌, IsLong,
}
use roadsend_php.Base.Signed.{c_div-c_rem, c_rem-lt}
use roadsend_php.Math.{
  phpdiv, quotient, is_zero_divisor, real, of_long, long_min, elong, real, ok, fail, fault,
  overflows, phpmod, phpdiv, quotient, of_long, phpnum_to_long, is_zero_divisor,
}
use roadsend_php.Math.Float.{Double}

long_value-to_pattern : (x : ℤ) → IsLong x → long_value (to_pattern x) ≡ x
long_value-to_pattern x h = ground arith

long_value-IsLong : (a : ℕ) → a < 2 ^ 64 → IsLong (long_value a)
long_value-IsLong a h = ground arith

magnitude-pos : (b : ℕ) → b < 2 ^ 64 → b ≢ 0 → 0 < magnitude (long_value b)
magnitude-pos b h ne = ground arith

magnitude-le : (a : ℕ) → a < 2 ^ 64 → magnitude (long_value a) ≤ 2 ^ 63
magnitude-le a h = ground arith

-- The only quotient of longs that is no long is LONG_MIN / -1.
overflows_iff : (a b : ℕ) → overflows a b ≡ true → (a ≡ long_min) × (b ≡ 2 ^ 64 - 1)
unfolding overflows
overflows_iff a b h = ground arith

c_rem-IsLong : (x y : ℤ) → 0 < magnitude y → IsLong y → IsLong (c_rem x y)
c_rem-IsLong x y h long = ground (arith, c_rem-lt x y h)

div_le : (m n : ℕ) → m / n ≤ m
div_le m zero = omega arith
div_le m (suc n) = grind (arith, div-add-mod m (suc n))

div_big : (m n : ℕ) → m ≤ 2 ^ 63 → 0 < n → 2 ^ 63 ≤ m / n → (m ≡ 2 ^ 63) × (n ≡ 1)
div_big m zero hm hn h = elim hn [ ]
div_big m (suc zero) hm hn h = omega arith
div_big m (suc (suc n)) hm hn h = absurd (grind (arith, div-add-mod m (suc (suc n))))

signed-IsLong : (s : Bool) (n : ℕ) → n ≤ 2 ^ 63 → (s ≡ false → n < 2 ^ 63) → IsLong (signed s n)
signed-IsLong true n h k = ground arith
signed-IsLong false n h k = omega (arith, k refl)

-- A magnitude of 2^63 belongs to LONG_MIN, and one of 1 below zero to -1.
extreme :
    (a b : ℕ)
    → a < 2 ^ 64
    → b < 2 ^ 64
    → xor (is_neg (long_value a)) (is_neg (long_value b)) ≡ false
    → magnitude (long_value a) ≡ 2 ^ 63
    → magnitude (long_value b) ≡ 1
    → overflows a b ≡ true
unfolding overflows xor
extreme a b ha hb same ma mb = ground arith

c_div-IsLong :
    (a b : ℕ)
    → a < 2 ^ 64
    → b < 2 ^ 64
    → b ≢ 0
    → overflows a b ≡ false
    → IsLong (c_div (long_value a) (long_value b))
unfolding c_div
c_div-IsLong a b ha hb ne over =
    let m = magnitude (long_value a) in
    let n = magnitude (long_value b) in
    let bound : m ≤ 2 ^ 63 = magnitude-le a ha in
    signed-IsLong (xor (is_neg (long_value a)) (is_neg (long_value b))) (m / n)
      (omega (arith, div_le m n))
      λ same. elim (dec_lt (m / n) (2 ^ 63)) [
        | yes p ↦ p
        | no p ↦
            let (em, en) = div_big m n bound (magnitude-pos b hb ne) (omega arith) in
            absurd (cc (over, extreme a b ha hb same em en))
      ]

-- `r` is the remainder of `x` by `y` in C: it is smaller than the divisor, has the sign of the
-- dividend, and differs from it by a multiple of the divisor.
pub record IsRemainder (x y r : ℤ) : Type 0 where
  pub quotient : ℤ
  pub equation : quotient *ℤ y +ℤ r ≡ x
  pub lt : magnitude r < magnitude y
  pub sign : 0 < magnitude r → is_neg r ≡ is_neg x

c_rem-sign : (x y : ℤ) → 0 < magnitude (c_rem x y) → is_neg (c_rem x y) ≡ is_neg x
unfolding c_rem
c_rem-sign x y h = ground arith

c_rem-IsRemainder : (x y : ℤ) → 0 < magnitude y → IsRemainder x y (c_rem x y)
c_rem-IsRemainder x y h = record {
  quotient = c_div x y;
  equation = c_div-c_rem x y;
  lt = c_rem-lt x y h;
  sign = c_rem-sign x y;
}

not_zero : (b : ℕ) → b ≢ 0 → (b == 0) ≡ false
not_zero b ne = ground arith

over_zero : (a b : ℕ) → overflows a b ≡ true → b ≢ 0
over_zero a b over = omega (arith, overflows_iff a b over)

to_pattern-zero : (x : ℤ) → IsLong x → x ≢ pos 0 → (to_pattern x == 0) ≡ false
to_pattern-zero x h ne = ground arith

add_zero : (z : ℤ) → z +ℤ pos 0 ≡ z
unfolding ◌+ℤ◌
add_zero (pos n) = ground arith
add_zero (negsuc n) = ground arith

exact_product : (x y : ℤ) → c_rem x y ≡ pos 0 → c_div x y *ℤ y ≡ x
exact_product x y exact =
    sym (add_zero (c_div x y *ℤ y)) ∙ ap (λ r. c_div x y *ℤ y +ℤ r) (sym exact) ∙ c_div-c_rem x y

zero_cases : (b : ℕ) → (b ≡ 0) ⊎ (b ≢ 0)
zero_cases b = ground arith

remainder_cases : (z : ℤ) → (z ≡ pos 0) ⊎ (z ≢ pos 0)
remainder_cases (pos n) = ground arith
remainder_cases (negsuc n) = ground arith

module _ (d : Double) (a b : ℕ) (ha : a < 2 ^ 64) (hb : b < 2 ^ 64) where
  phpmod_paths :
      (b ≡ 0 → phpmod d (elong a) (elong b) ≡ fail)
      × (overflows a b ≡ true → phpmod d (elong a) (elong b) ≡ fault)
      × (b ≢ 0
          → overflows a b ≡ false
          → (w : ℕ) × (phpmod d (elong a) (elong b) ≡ ok (elong w))
            × IsRemainder (long_value a) (long_value b) (long_value w))
  phpmod_paths = (
    λ zero_b. unfold phpmod phpnum_to_long in rw zero_b refl,
    λ over. unfold phpmod phpnum_to_long in rw (not_zero b (over_zero a b over), over) refl,
    λ ne fine.
        let y = long_value b in
        let pos_b = magnitude-pos b hb ne in
        let r = c_rem (long_value a) y in
        let same =
          long_value-to_pattern r (c_rem-IsLong (long_value a) y pos_b (long_value-IsLong b hb)) in
        (
          to_pattern r,
          unfold phpmod phpnum_to_long in rw (not_zero b ne, fine) refl,
          rw same (c_rem-IsRemainder (long_value a) y pos_b),
        ),
  )

  phpdiv_paths :
      (b ≡ 0 → phpdiv d (elong a) (elong b) ≡ fail)
      × (overflows a b ≡ true → phpdiv d (elong a) (elong b) ≡ fault)
      × (b ≢ 0
          → overflows a b ≡ false
          → c_rem (long_value a) (long_value b) ≡ pos 0
          → (w : ℕ) × (phpdiv d (elong a) (elong b) ≡ ok (elong w))
            × (long_value w *ℤ long_value b ≡ long_value a))
      × (b ≢ 0
          → overflows a b ≡ false
          → c_rem (long_value a) (long_value b) ≢ pos 0
          → phpdiv d (elong a) (elong b) ≡ ok (real (d.div (of_long d a) (of_long d b))))
  unfolding phpdiv quotient is_zero_divisor
  phpdiv_paths =
      let x = long_value a in
      let y = long_value b in
      (
        λ zero_b. rw zero_b refl,
        λ over. rw (not_zero b (over_zero a b over), over) refl,
        λ ne fine exact.
            let long = c_div-IsLong a b ha hb ne fine in
            let q = long_value-to_pattern (c_div x y) long in
            (
              to_pattern (c_div x y),
              rw (not_zero b ne, fine, exact) refl,
              rw q (exact_product x y exact),
            ),
        λ ne fine rest.
            let r =
              to_pattern-zero (c_rem x y)
                (c_rem-IsLong x y (magnitude-pos b hb ne) (long_value-IsLong b hb)) rest in
            rw (not_zero b ne, fine, r) refl,
      )

  -- The modulus of two longs on every path: zero fails, LONG_MIN by -1 traps, and every other
  -- pair gives a long, the remainder of C.
  pub phpmod_long :
      ((b ≡ 0) × (phpmod d (elong a) (elong b) ≡ fail))
      ⊎ ((overflows a b ≡ true) × (phpmod d (elong a) (elong b) ≡ fault))
      ⊎ ((b ≢ 0)
          × (overflows a b ≡ false)
          × ((w : ℕ) × (phpmod d (elong a) (elong b) ≡ ok (elong w))
              × IsRemainder (long_value a) (long_value b) (long_value w)))
  phpmod_long =
      let (on_zero, on_overflow, else_ok) = phpmod_paths in
      elim (zero_cases b) [
        | inl zero_b ↦ inl (zero_b, on_zero zero_b)
        | inr ne ↦ elim (Bool-cases (overflows a b)) [
          | inl over ↦ inr (inl (over, on_overflow over))
          | inr fine ↦ inr (inr (ne, fine, else_ok ne fine))
        ]
      ]

  -- The quotient of two longs on every path: zero fails, LONG_MIN by -1 traps; where the division
  -- leaves no remainder the result is the long whose product with the divisor is the dividend,
  -- and else the quotient of the doubles.
  pub phpdiv_long :
      ((b ≡ 0) × (phpdiv d (elong a) (elong b) ≡ fail))
      ⊎ ((overflows a b ≡ true) × (phpdiv d (elong a) (elong b) ≡ fault))
      ⊎ ((b ≢ 0)
          × (overflows a b ≡ false)
          × (c_rem (long_value a) (long_value b) ≡ pos 0)
          × ((w : ℕ) × (phpdiv d (elong a) (elong b) ≡ ok (elong w))
              × (long_value w *ℤ long_value b ≡ long_value a)))
      ⊎ ((b ≢ 0)
          × (overflows a b ≡ false)
          × (c_rem (long_value a) (long_value b) ≢ pos 0)
          × (phpdiv d (elong a) (elong b) ≡ ok (real (d.div (of_long d a) (of_long d b)))))
  phpdiv_long =
      let (on_zero, on_overflow, exact_ok, else_ok) = phpdiv_paths in
      elim (zero_cases b) [
        | inl zero_b ↦ inl (zero_b, on_zero zero_b)
        | inr ne ↦ elim (Bool-cases (overflows a b)) [
          | inl over ↦ inr (inl (over, on_overflow over))
          | inr fine ↦ elim (remainder_cases (c_rem (long_value a) (long_value b))) [
            | inl exact ↦ inr (inr (inl (ne, fine, exact, exact_ok ne fine exact)))
            | inr rest ↦ inr (inr (inr (ne, fine, rest, else_ok ne fine rest)))
          ]
        ]
      ]
