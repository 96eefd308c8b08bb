-- ===== src/Format/Numbers.antt =====
-- pcc_snprintf.c: the conversions print every number of 64 bits.
use roadsend_php.Base.{
  inl, ℕ, zero, suc, ◌+◌, ◌-◌, ◌*◌, ◌/◌, ◌%◌, ◌^◌, ◌<◌, ◌≤◌, ◌≡◌, refl, ap, ◌∙◌, List, [], ◌∷◌,
  some, Bool, true, false, not, ◌&&◌, arith, leb, ◌==◌, if◌then◌else◌, ◌>>=◌,
}
use roadsend_php.Base.Bits.{bit_and_mask}
use roadsend_php.Base.Int.{pos, negsuc, ltb_ℤ, long_value, magnitude, is_neg}
use roadsend_php.Format.{
  magnitude_of, is_below_zero, decimal_loop, conv_10, conv_10_quad, digit, power_loop, conv_p2,
  conv_p2_quad,
}
use roadsend_php.Format.Digits.{
  digit_value, IsDigitChar, IsPrinted, digits_loop, digits_loop-IsPrinted,
}

ten_lo : 2 ≤ 10
ten_lo = omega arith

decimal_digit : ℕ → ℕ
decimal_digit n = n + b'0'

digit_value-decimal_digit : (n : ℕ) → n < 10 → digit_value (decimal_digit n) ≡ n
unfolding digit_value decimal_digit
digit_value-decimal_digit n h = ground arith

digit_value-digit : (upper : Bool) (n : ℕ) → n < 16 → digit_value (digit upper n) ≡ n
unfolding digit_value digit
digit_value-digit true n h = ground arith
digit_value-digit false n h = ground arith

decimal_digit-IsDigitChar : (n : ℕ) → n < 10 → IsDigitChar (decimal_digit n)
unfolding decimal_digit
decimal_digit-IsDigitChar n h = inl (omega arith, omega arith)

digit-IsDigitChar : (upper : Bool) (n : ℕ) → n < 16 → IsDigitChar (digit upper n)
unfolding digit
digit-IsDigitChar true n h = ground arith
digit-IsDigitChar false n h = ground arith

decimal_loop-digits_loop :
    (fuel n : ℕ) (p : List ℕ)
    → decimal_loop fuel n p
      ≡ digits_loop 10 ten_lo decimal_digit digit_value-decimal_digit decimal_digit-IsDigitChar fuel
          n p
unfolding decimal_loop digits_loop decimal_digit
decimal_loop-digits_loop zero n p = refl
decimal_loop-digits_loop (suc fuel) n p =
    let same : n - n / 10 * 10 + b'0' ≡ n % 10 + b'0' = omega arith in
    ap (λ c. if n / 10 == 0 then some (c ∷ p) else decimal_loop fuel (n / 10) (c ∷ p)) same
    ∙ ap (λ more. if n / 10 == 0 then some ((n % 10 + b'0') ∷ p) else more)
        (decimal_loop-digits_loop fuel (n / 10) ((n % 10 + b'0') ∷ p))

magnitude_of-magnitude : (num : ℕ) → num < 2 ^ 64 → magnitude_of num ≡ magnitude (long_value num)
unfolding magnitude_of
magnitude_of-magnitude num h = ground arith

is_below_zero-is_neg : (num : ℕ) → num < 2 ^ 64 → is_below_zero num ≡ is_neg (long_value num)
is_below_zero-is_neg num h = ground arith

magnitude-lt :
    (num : ℕ) (u : Bool) → num < 2 ^ 64 → (if u then num else magnitude (long_value num)) < 2 ^ 64
magnitude-lt num true h = h
magnitude-lt num false h = ground arith

-- Every number is printed in decimal, signed or not: the digits read back as its magnitude, there
-- are no leading zeros, the sign is told apart, and 64 bytes suffice, LONG_MIN included.
pub conv_10_lem :
    (num : ℕ) (is_unsigned : Bool)
    → num < 2 ^ 64
    → (p : List ℕ) × (conv_10 num is_unsigned
        ≡ some (p, not is_unsigned && is_neg (long_value num)))
      × IsPrinted 10 (if is_unsigned then num else magnitude (long_value num)) 64 (some p)
unfolding conv_10
conv_10_lem num u h =
    let n = if u then num else magnitude (long_value num) in
    let small : n < 2 ^ 64 = magnitude-lt num u h in
    let same : ◌≡◌ {A = ℕ} (if u then num else magnitude_of num) n =
      ap (λ m. if u then num else m) (magnitude_of-magnitude num h) in
    let d =
      digits_loop-IsPrinted 10 ten_lo decimal_digit digit_value-decimal_digit
        decimal_digit-IsDigitChar 63 n small in
    (
      d.text,
      ap (λ m. decimal_loop 64 m [] >>= λ p. some (p, not u && is_below_zero num)) same
          ∙ ap (λ o. o >>= λ p. some (p, not u && is_below_zero num))
              (decimal_loop-digits_loop 64 n [] ∙ d.returns)
          ∙ ap (λ t. some (d.text, not u && t)) (is_below_zero-is_neg num h),
      record {
        text = d.text;
        returns = refl;
        reads = d.reads;
        size = d.size;
        digits = d.digits;
        leading = d.leading;
        single = d.single;
      },
    )

-- With `long` as the widest integer the version for quads always takes the fast one.
pub conv_10_quad-conv_10 :
    (num : ℕ) (is_unsigned : Bool)
    → num < 2 ^ 64
    → conv_10_quad num is_unsigned ≡ conv_10 num is_unsigned
unfolding conv_10_quad
conv_10_quad-conv_10 num true h = let t : leb num (2 ^ 64 - 1) ≡ true = ground arith in rw t refl
conv_10_quad-conv_10 num false h =
    let above : ltb_ℤ (pos (2 ^ 63 - 1)) (long_value num) ≡ false = ground arith in
    let below : ltb_ℤ (long_value num) (negsuc (2 ^ 63 - 1)) ≡ false = ground arith in
    let t : leb num (2 ^ 64 - 1) ≡ true = ground arith in rw (t, above, below) refl

pow_range : (n : ℕ) → 1 ≤ n → n ≤ 4 → (2 ≤ 2 ^ n) × (2 ^ n ≤ 16)
pow_range zero lo hi = absurd (omega arith)
pow_range (suc zero) lo hi = omega arith
pow_range (suc (suc zero)) lo hi = omega arith
pow_range (suc (suc (suc zero))) lo hi = omega arith
pow_range (suc (suc (suc (suc zero)))) lo hi = omega arith
pow_range (suc (suc (suc (suc (suc n))))) lo hi = absurd (omega arith)

module _ (nbits : ℕ) (lo : 1 ≤ nbits) (hi : nbits ≤ 4) (upper : Bool) where
  radix_lo : 2 ≤ 2 ^ nbits
  radix_lo = (pow_range nbits lo hi).0

  digit_right : (n : ℕ) → n < 2 ^ nbits → digit_value (digit upper n) ≡ n
  digit_right n h = digit_value-digit upper n (omega (arith, (pow_range nbits lo hi).1))

  digit_shape : (n : ℕ) → n < 2 ^ nbits → IsDigitChar (digit upper n)
  digit_shape n h = digit-IsDigitChar upper n (omega (arith, (pow_range nbits lo hi).1))

  power_loop-digits_loop :
      (fuel n : ℕ) (p : List ℕ)
      → power_loop fuel nbits upper n p
        ≡ digits_loop (2 ^ nbits) radix_lo (digit upper) digit_right digit_shape fuel n p
  unfolding power_loop digits_loop
  power_loop-digits_loop zero n p = refl
  power_loop-digits_loop (suc fuel) n p =
      ap
        (λ d.
          if n / 2 ^ nbits == 0
          then some (digit upper d ∷ p)
          else power_loop fuel nbits upper (n / 2 ^ nbits) (digit upper d ∷ p))
        (bit_and_mask nbits n)
      ∙ ap (λ more. if n / 2 ^ nbits == 0 then some (digit upper (n % 2 ^ nbits) ∷ p) else more)
          (power_loop-digits_loop fuel (n / 2 ^ nbits) (digit upper (n % 2 ^ nbits) ∷ p))

  -- Every number is printed in a base of 2, 4, 8 or 16, in capitals or not: the digits read back
  -- as the number, there are no leading zeros, and 64 bytes suffice; the version for quads agrees.
  pub conv_p2_lem :
      (num : ℕ)
      → num < 2 ^ 64
      → IsPrinted (2 ^ nbits) num 64 (conv_p2 num nbits upper)
        × (conv_p2_quad num nbits upper ≡ conv_p2 num nbits upper)
  unfolding conv_p2 conv_p2_quad
  conv_p2_lem num h =
      let d =
        digits_loop-IsPrinted (2 ^ nbits) radix_lo (digit upper) digit_right digit_shape 63 num h in
      (
        record {
          text = d.text;
          returns = power_loop-digits_loop 64 num [] ∙ d.returns;
          reads = d.reads;
          size = d.size;
          digits = d.digits;
          leading = d.leading;
          single = d.single;
        },
        ground arith,
      )
