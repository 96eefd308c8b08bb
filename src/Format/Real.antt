-- ===== src/Format/Real.antt =====
-- The finite and other doubles of C, with which pcc_snprintf.c prints them, as a parameter.
use roadsend_php.Base.{ℕ, ◌<◌, ◌≡◌, Bool, true, false}

-- The operations that the code uses: `whole` and `frac` are the parts that `modf` gives, `to_int`
-- is the cast to `int` of a whole part of one digit or of 10, `tenth` is `(int) ((x + .03) * 10)`.
-- The laws bound the loops: a whole number has fewer and fewer digits when it is divided by ten,
-- and a small one reaches one when it is multiplied by ten.
pub record Real : Type 1 where
  pub D : Type 0
  pub nil : D
  pub is_nan : D → Bool
  pub is_inf : D → Bool
  pub is_finite : D → Bool
  pub is_negative : D → Bool
  pub is_positive : D → Bool
  pub is_zero : D → Bool
  pub lt_one : D → Bool
  pub neg : D → D
  pub mul_10 : D → D
  pub div_10 : D → D
  pub whole : D → D
  pub frac : D → D
  pub to_int : D → ℕ
  pub tenth : D → ℕ
  pub digits : D → ℕ
  pub zeros : D → ℕ
  pub whole_digits :
      (x : D)
      → is_finite x ≡ true
      → is_zero x ≡ false
      → (digits (whole (div_10 x)) < digits x) × (is_finite (whole (div_10 x)) ≡ true)
  pub small_zeros :
      (x : D)
      → is_positive x ≡ true
      → lt_one (mul_10 x) ≡ true
      → (zeros (mul_10 x) < zeros x) × (is_positive (mul_10 x) ≡ true)
  pub whole_finite : (x : D) → is_finite x ≡ true → is_finite (whole x) ≡ true
  pub neg_finite : (x : D) → is_finite x ≡ true → is_finite (neg x) ≡ true
