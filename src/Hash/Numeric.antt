-- ===== src/Hash/Numeric.antt =====
-- php-hash-helper.c: which keys `is_numeric` takes for integers.
use roadsend_php.Base.{ℕ, ◌≤◌, ◌≡◌, ◌≢◌, refl, ◌↔◌, ◌⊎◌, List, [], ◌∷◌, true, arith, All}
use roadsend_php.Hash.{is_digit, digits_to_end, numeric_from, is_numeric}

abbrev pub IsDigit : ℕ → Type 0
IsDigit c = (b'0' ≤ c) × (c ≤ b'9')

-- A digit from 1 to 9 and digits behind it.
abbrev pub IsPositive : List ℕ → Type 0
IsPositive [] = ⊥
IsPositive (c ∷ s) = (c ≢ b'0') × All IsDigit (c ∷ s)

-- `0`, or a minus or none in front of digits without a leading zero.
abbrev pub IsDecimal : List ℕ → Type 0
IsDecimal [] = ⊥
IsDecimal (c ∷ s) = ((c ≡ b'0') × (s ≡ [])) ⊎ IsPositive (c ∷ s) ⊎ ((c ≡ b'-') × IsPositive s)

digits_to_end_iff : (s : List ℕ) → (digits_to_end s ≡ true) ↔ All IsDigit s
unfolding digits_to_end is_digit
digits_to_end_iff [] = ((λ _. tt), (λ _. refl))
digits_to_end_iff (c ∷ s) = ground (arith, digits_to_end_iff s)

-- `is_numeric` accepts exactly `0` and the texts of digits without a leading zero, with a minus in
-- front or none, of any length: also those of numbers that no integer of PHP holds.
pub is_numeric_iff : (s : List ℕ) → (is_numeric s ≡ true) ↔ IsDecimal s
unfolding is_numeric numeric_from is_digit
is_numeric_iff [] = ground arith
is_numeric_iff (c ∷ []) = ground (arith, digits_to_end_iff [])
is_numeric_iff (c ∷ d ∷ s) = ground (arith, digits_to_end_iff (d ∷ s), digits_to_end_iff s)
