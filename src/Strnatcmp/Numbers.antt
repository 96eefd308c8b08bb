-- ===== src/Strnatcmp/Numbers.antt =====
-- strnatcmp.c: numbers compare by their values.
use mathlib.Core.Path.{subst}
use roadsend_php.Base.{
  ℕ, suc, ◌+◌, ◌-◌, ◌*◌, ◌<◌, ◌≤◌, ◌≡◌, ◌⊎◌, refl, sym, ap, ap₂, ◌∙◌, List, [], ◌∷◌, Option, some,
  Bool, true, false, not, arith, ltb, if◌then◌else◌, length, All, inl, inr,
}
use roadsend_php.Hash.Numeric.{IsDigit, IsPositive}
use roadsend_php.Strnatcmp.{
  Sign, less, equal, greater, head_byte, rest_bytes, is_digit, is_space, next_bias, compare_right,
  skip_spaces, digit_run, finish_round, natcmp_loop, strnatcmp0,
}
use roadsend_php.Strnatcmp.Order.{negate, compare_right-negate, strnatcmp0_same}

-- The number that the digits continue, behind the number `acc`.
pub number_value : ℕ → List ℕ → ℕ
number_value acc [] = acc
number_value acc (c ∷ s) = number_value (acc * 10 + (c - b'0')) s

pub compare_ℕ : ℕ → ℕ → Sign
compare_ℕ x y = if ltb x y then less else if ltb y x then greater else equal

next_bias-compare_ℕ :
    (p q x y : ℕ)
    → IsDigit x
    → IsDigit y
    → next_bias (compare_ℕ p q) x y ≡ compare_ℕ (p * 10 + (x - b'0')) (q * 10 + (y - b'0'))
unfolding next_bias compare_ℕ
next_bias-compare_ℕ p q x y hx hy = ground arith

digits_step :
    (s : Sign) (x y : ℕ) (a b : List ℕ)
    → IsDigit x
    → IsDigit y
    → compare_right s (x ∷ a) (y ∷ b) ≡ compare_right (next_bias s x y) a b
unfolding compare_right is_digit
digits_step s x y a b hx hy = ground arith

-- Runs of one length compare by value.
compare_right_value :
    (p q : ℕ) (a b : List ℕ)
    → All IsDigit a
    → All IsDigit b
    → length a ≡ length b
    → compare_right (compare_ℕ p q) a b ≡ compare_ℕ (number_value p a) (number_value q b)
unfolding number_value
compare_right_value p q [] [] ha hb h = unfold compare_right is_digit in refl
compare_right_value p q [] (y ∷ b) ha hb h = absurd (omega arith)
compare_right_value p q (x ∷ a) [] ha hb h = absurd (omega arith)
compare_right_value p q (x ∷ a) (y ∷ b) (hx, ha) (hy, hb) h =
    digits_step (compare_ℕ p q) x y a b hx hy
    ∙ ap (λ s. compare_right s a b) (next_bias-compare_ℕ p q x y hx hy)
    ∙ compare_right_value (p * 10 + (x - b'0')) (q * 10 + (y - b'0')) a b ha hb (omega arith)

-- A shorter run is less.
compare_right_shorter :
    (s : Sign) (a b : List ℕ)
    → All IsDigit a
    → All IsDigit b
    → length a < length b
    → compare_right s a b ≡ less
compare_right_shorter s [] [] ha hb h = absurd (omega arith)
compare_right_shorter s [] (y ∷ b) ha (hy, hb) h = unfold compare_right is_digit in ground arith
compare_right_shorter s (x ∷ a) [] ha hb h = absurd (omega arith)
compare_right_shorter s (x ∷ a) (y ∷ b) (hx, ha) (hy, hb) h =
    digits_step s x y a b hx hy ∙ compare_right_shorter (next_bias s x y) a b ha hb (omega arith)

number_value-lt :
    (p q : ℕ) (a b : List ℕ)
    → All IsDigit a
    → All IsDigit b
    → p < q
    → length a ≤ length b
    → number_value p a < number_value q b
unfolding number_value
number_value-lt p q [] [] ha hb lt h = lt
number_value-lt p q [] (y ∷ b) ha (hy, hb) lt h =
    number_value-lt p (q * 10 + (y - b'0')) [] b tt hb (omega arith) (omega arith)
number_value-lt p q (x ∷ a) [] ha hb lt h = absurd (omega arith)
number_value-lt p q (x ∷ a) (y ∷ b) (hx, ha) (hy, hb) lt h =
    number_value-lt (p * 10 + (x - b'0')) (q * 10 + (y - b'0')) a b ha hb (omega arith)
      (omega arith)

shorter-lt :
    (a b : List ℕ)
    → All IsDigit a
    → IsPositive b
    → length a < length b
    → number_value 0 a < number_value 0 b
shorter-lt a [] ha void h = elim void [ ]
shorter-lt a (y ∷ b) ha (ne, (hy, hb)) h =
    let start : 0 * 10 + (y - b'0') ≡ y - b'0' = omega arith in
    let less = number_value-lt 0 (y - b'0') a b ha hb (omega arith) (omega arith) in
    unfold number_value in subst (λ q. number_value 0 a < number_value q b) (sym start) less

digits : (a : List ℕ) → IsPositive a → All IsDigit a
digits [] void = elim void [ ]
digits (c ∷ a) (ne, h) = h

compare_ℕ-less : (x y : ℕ) → x < y → (compare_ℕ x y ≡ less) × (compare_ℕ y x ≡ greater)
unfolding compare_ℕ
compare_ℕ-less x y h = ground arith

compare_ℕ_same : (x y : ℕ) → x ≡ y → compare_ℕ x y ≡ equal
unfolding compare_ℕ
compare_ℕ_same x y h = ground arith

Sign-cases : (x y : ℕ) → (x ≡ y) ⊎ (compare_ℕ x y ≡ less) ⊎ (compare_ℕ x y ≡ greater)
unfolding compare_ℕ
Sign-cases x y = ground arith

lt-cases : (x y : ℕ) → (x < y) ⊎ (y < x) ⊎ (x ≡ y)
lt-cases x y = ground arith

-- The longest run wins, and else the value.
compare_right-compare_ℕ :
    (a b : List ℕ)
    → IsPositive a
    → IsPositive b
    → compare_right equal a b ≡ compare_ℕ (number_value 0 a) (number_value 0 b)
unfolding negate
compare_right-compare_ℕ a b ha hb = elim (lt-cases (length a) (length b)) [
  | inl lt ↦
      compare_right_shorter equal a b (digits a ha) (digits b hb) lt
      ∙ sym ((compare_ℕ-less _ _ (shorter-lt a b (digits a ha) hb lt)).0)
  | inr (inl gt) ↦
      compare_right-negate equal b a
      ∙ ap negate (compare_right_shorter equal b a (digits b hb) (digits a ha) gt)
      ∙ sym ((compare_ℕ-less _ _ (shorter-lt b a (digits b hb) ha gt)).1)
  | inr (inr same) ↦
      unfold compare_ℕ in compare_right_value 0 0 a b (digits a ha) (digits b hb) same
]

number_value-injective :
    (p q : ℕ) (a b : List ℕ)
    → All IsDigit a
    → All IsDigit b
    → length a ≡ length b
    → number_value p a ≡ number_value q b
    → (p ≡ q) × (a ≡ b)
unfolding number_value
number_value-injective p q [] [] ha hb h e = (e, refl)
number_value-injective p q [] (y ∷ b) ha hb h e = absurd (omega arith)
number_value-injective p q (x ∷ a) [] ha hb h e = absurd (omega arith)
number_value-injective p q (x ∷ a) (y ∷ b) (hx, ha) (hy, hb) h e =
    let (here, there) =
      number_value-injective (p * 10 + (x - b'0')) (q * 10 + (y - b'0')) a b ha hb (omega arith)
        e in
    (omega arith, ap₂ (λ c s. c ∷ s) (omega arith) there)

-- Numbers of the same value are the same text.
positive-injective :
    (a b : List ℕ) → IsPositive a → IsPositive b → number_value 0 a ≡ number_value 0 b → a ≡ b
positive-injective a b ha hb e = elim (lt-cases (length a) (length b)) [
  | inl lt ↦ absurd (omega (arith, shorter-lt a b (digits a ha) hb lt))
  | inr (inl gt) ↦ absurd (omega (arith, shorter-lt b a (digits b hb) ha gt))
  | inr (inr same) ↦ (number_value-injective 0 0 a b (digits a ha) (digits b hb) same e).1
]

skip_spaces_positive : (a : List ℕ) → IsPositive a → skip_spaces a ≡ a
unfolding skip_spaces is_space
skip_spaces_positive [] void = elim void [ ]
skip_spaces_positive (c ∷ a) h = ground arith

digit_run_positive :
    (a b : List ℕ) → IsPositive a → IsPositive b → digit_run a b ≡ compare_right equal a b
digit_run_positive [] b void hb = elim void [ ]
digit_run_positive (x ∷ a) [] ha void = elim void [ ]
digit_run_positive (x ∷ a) (y ∷ b) ha hb =
    let dx : is_digit x ≡ true = unfold is_digit in ground arith in
    let dy : is_digit y ≡ true = unfold is_digit in ground arith in unfold digit_run in ground arith

abbrev is_equal : Sign → Bool
is_equal equal = true
is_equal _ = false

finish_round_decided :
    (f : Bool) (x y : ℕ) (s : Sign) (n : Option Sign)
    → not (is_equal s) ≡ true
    → finish_round f x y s n ≡ some s
unfolding finish_round
finish_round_decided f x y less n h = refl
finish_round_decided f x y greater n h = refl
finish_round_decided f x y equal n h = absurd (cc h)

-- A run of digits that differs decides.
decided :
    (f : Bool) (a b : List ℕ) (s : Sign)
    → digit_run (skip_spaces a) (skip_spaces b) ≡ s
    → not (is_equal s) ≡ true
    → strnatcmp0 f a b ≡ some s
unfolding strnatcmp0
decided f a b s run h =
    let more : length a + 1 ≡ suc (length a) = omega arith in
    ap (λ n. natcmp_loop n f a b) more
    ∙ unfold natcmp_loop in
      ap
        (λ r.
          finish_round f (head_byte (skip_spaces a)) (head_byte (skip_spaces b)) r
            (natcmp_loop (length a) f (rest_bytes (skip_spaces a)) (rest_bytes (skip_spaces b))))
        run
      ∙ finish_round_decided f _ _ s _ h

-- Two texts of digits without leading zeros compare as the numbers that they stand for, whether
-- case is folded or not.
pub strnatcmp0-compare_ℕ :
    (f : Bool) (a b : List ℕ)
    → IsPositive a
    → IsPositive b
    → strnatcmp0 f a b ≡ some (compare_ℕ (number_value 0 a) (number_value 0 b))
strnatcmp0-compare_ℕ f a b ha hb =
    let x = number_value 0 a in
    let y = number_value 0 b in
    let run : digit_run (skip_spaces a) (skip_spaces b) ≡ compare_ℕ x y =
      ap₂ digit_run (skip_spaces_positive a ha) (skip_spaces_positive b hb)
      ∙ digit_run_positive a b ha hb
      ∙ compare_right-compare_ℕ a b ha hb in
    elim (Sign-cases x y) [
      | inl e ↦
          ap (strnatcmp0 f a) (sym (positive-injective a b ha hb e))
          ∙ strnatcmp0_same f a
          ∙ ap some (sym (compare_ℕ_same x y e))
      | inr (inl e) ↦ decided f a b less (run ∙ e) refl ∙ ap some (sym e)
      | inr (inr e) ↦ decided f a b greater (run ∙ e) refl ∙ ap some (sym e)
    ]
