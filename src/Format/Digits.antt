-- ===== src/Format/Digits.antt =====
-- pcc_snprintf.c: writing the digits of a number from the last one on.
use native.Mathlib.Nat.{pow-suc, div-add-mod}
use roadsend_php.Base.{
  ℕ, zero, suc, ◌+◌, ◌-◌, ◌*◌, ◌/◌, ◌%◌, ◌^◌, ◌<◌, ◌≤◌, ◌≡◌, ◌≢◌, inl, inr, refl, sym, ap, ◌∙◌,
  List, [], ◌∷◌, Option, none, some, arith, ltb, ◌==◌, if◌then◌else◌, length, All, ◌⊎◌, Bool-cases,
}

-- The value of a digit, and of a text behind the number `acc`.
unfoldable pub digit_value : ℕ → ℕ
digit_value c = if ltb c b'A' then c - b'0' else if ltb c b'a' then c - b'A' + 10 else c - b'a' + 10

unfoldable pub text_value : ℕ → ℕ → List ℕ → ℕ
text_value radix acc [] = acc
text_value radix acc (c ∷ s) = text_value radix (acc * radix + digit_value c) s

-- The first digit is not zero.
abbrev pub NoLeadingZero : List ℕ → Type 0
NoLeadingZero [] = ⊥
NoLeadingZero (c ∷ s) = digit_value c ≢ 0

-- A decimal digit, or one of the letters of hexadecimal digits.
abbrev pub IsDigitChar : ℕ → Type 0
IsDigitChar c = ((b'0' ≤ c) × (c ≤ b'9')) ⊎ ((b'A' ≤ c) × (c ≤ b'F')) ⊎ ((b'a' ≤ c) × (c ≤ b'f'))

-- The number is printed: it reads back, in at most `most` bytes, all of them digits, and has no
-- leading zero unless it is zero, which is one digit.
pub record IsPrinted (radix n most : ℕ) (result : Option (List ℕ)) : Type 0 where
  pub text : List ℕ
  pub returns : result ≡ some text
  pub reads : text_value radix 0 text ≡ n
  pub size : length text ≤ most
  pub digits : All IsDigitChar text
  pub leading : n ≢ 0 → NoLeadingZero text
  pub single : n ≡ 0 → length text ≡ 1

module _ (radix : ℕ) (lo : 2 ≤ radix) (write : ℕ → ℕ)
    (right : (n : ℕ) → n < radix → digit_value (write n) ≡ n)
    (shape : (n : ℕ) → n < radix → IsDigitChar (write n)) where
  unfoldable pub digits_loop : ℕ → ℕ → List ℕ → Option (List ℕ)
  digits_loop zero n p = none
  digits_loop (suc fuel) n p =
      let q = write (n % radix) ∷ p in
      let more = digits_loop fuel (n / radix) q in if n / radix == 0 then some q else more

  record Digits (n fuel : ℕ) (p : List ℕ) (result : Option (List ℕ)) : Type 0 where
    text : List ℕ
    returns : result ≡ some text
    reads : text_value radix 0 text ≡ text_value radix n p
    size : length text ≤ fuel + length p
    digits : All IsDigitChar text
    leading : n ≢ 0 → NoLeadingZero text
    single : n ≡ 0 → length text ≡ suc (length p)

  mod_small : (n : ℕ) → n % radix < radix
  mod_small n = grind arith

  whole : (n : ℕ) → n / radix * radix + n % radix ≡ n
  whole n = omega (arith, div-add-mod n radix)

  half : (n k : ℕ) → n < 2 * k → n / radix < k
  half n k h = grind (arith, div-add-mod n radix, mod_small n)

  digits_loop-Digits :
      (fuel n : ℕ) (p : List ℕ)
      → n < 2 ^ suc fuel
      → All IsDigitChar p
      → Digits n (suc fuel) p (digits_loop (suc fuel) n p)
  unfolding digits_loop text_value
  digits_loop-Digits zero n p h ds =
      let c = write (n % radix) in
      let d = right (n % radix) (mod_small n) in
      let parts = whole n in
      let nil : n / radix ≡ 0 = omega (arith, half n 1 (omega arith)) in
      let single : 0 * radix + digit_value c ≡ n =
        ap (λ q. q * radix + digit_value c) (sym nil) ∙ omega (arith, d, parts) in
      rw nil (record {
        text = c ∷ p;
        returns = refl;
        reads = ap (λ a. text_value radix a p) single;
        size = omega arith;
        digits = (shape (n % radix) (mod_small n), ds);
        leading = λ ne z. ne (omega (arith, single, z));
        single = λ _. refl;
      })
  digits_loop-Digits (suc fuel) n p h ds =
      let c = write (n % radix) in
      let d = right (n % radix) (mod_small n) in
      let parts = whole n in
      let step : n / radix * radix + digit_value c ≡ n = omega (arith, d, parts) in
      elim (Bool-cases (n / radix == 0)) [
        | inl t ↦
            let none_left : n / radix ≡ 0 = ground arith in
            let single : 0 * radix + digit_value c ≡ n =
              ap (λ q. q * radix + digit_value c) (sym none_left) ∙ step in
            rw t (record {
              text = c ∷ p;
              returns = refl;
              reads = ap (λ a. text_value radix a p) single;
              size = omega arith;
              digits = (shape (n % radix) (mod_small n), ds);
              leading = λ ne z. ne (omega (arith, single, z));
              single = λ _. refl;
            })
        | inr t ↦
            let left : n / radix ≢ 0 = ground arith in
            let rest =
              digits_loop-Digits fuel (n / radix) (c ∷ p)
                (half n (2 ^ suc fuel) (omega (arith, pow-suc 2 (suc fuel))))
                (shape (n % radix) (mod_small n), ds) in
            rw t (record {
              text = rest.text;
              returns = rest.returns;
              reads = rest.reads ∙ ap (λ a. text_value radix a p) step;
              size = omega (arith, rest.size);
              digits = rest.digits;
              leading = λ ne. rest.leading left;
              single = λ z. absurd (left (ground arith));
            })
      ]

  -- So many rounds as the number has bits write it.
  pub digits_loop-IsPrinted :
      (fuel n : ℕ) → n < 2 ^ suc fuel → IsPrinted radix n (suc fuel) (digits_loop (suc fuel) n [])
  digits_loop-IsPrinted fuel n h =
      let d = digits_loop-Digits fuel n [] h tt in
      record {
        text = d.text;
        returns = d.returns;
        reads = d.reads ∙ unfold text_value in refl;
        size = omega (arith, d.size);
        digits = d.digits;
        leading = d.leading;
        single = d.single;
      }
