-- ===== src/Math/Radix.antt =====
-- opaque-math.c: printing an unsigned number in a radix from 2 to 16.
use native.Mathlib.Nat.{pow-suc, pow-zero, one-le-pow, one-le-pow, div-add-mod}
use roadsend_php.Base.{
  ℕ, zero, suc, ◌+◌, ◌-◌, ◌*◌, ◌/◌, ◌%◌, ◌^◌, ◌≤◌, ◌<◌, ◌≡◌, ◌≢◌, refl, ap, ◌∙◌, inl, inr, List, [],
  ◌∷◌, Option, some, false, arith, ltb, ◌==◌, if◌then◌else◌, Bool-cases, length, All, ◌⊎◌,
}
use roadsend_php.Math.{count_digits, letter, write_digits, re_unsigned_to_string}

-- The value of a digit, and of a text of digits behind the number `acc`.
pub digit_value : ℕ → ℕ
digit_value c = if ltb c b'a' then c - b'0' else c - b'a' + 10

pub text_value : ℕ → ℕ → List ℕ → ℕ
text_value radix acc [] = acc
text_value radix acc (c ∷ s) = text_value radix (acc * radix + digit_value c) s

-- A digit or a small letter from a to f, whose value is one of the radix.
abbrev pub IsDigit : ℕ → ℕ → Type 0
IsDigit radix c = (((b'0' ≤ c) × (c ≤ b'9')) ⊎ ((b'a' ≤ c) × (c ≤ b'f'))) × (digit_value c < radix)

record HasLetter (radix n : ℕ) : Type 0 where
  c : ℕ
  is_letter : letter n ≡ some c
  value : digit_value c ≡ n
  is_digit : IsDigit radix c

digit_letter : (radix n : ℕ) → radix ≤ 16 → n < radix → HasLetter radix n
unfolding letter digit_value
digit_letter radix n hi h = elim (Bool-cases (ltb n 10)) [
  | inl t ↦ record {
    c = b'0' + n;
    is_letter = rw t refl;
    value = ground arith;
    is_digit = (inl (ground arith, ground arith), ground arith);
  }
  | inr t ↦ record {
    c = b'a' + (n - 10);
    is_letter = ground arith;
    value = ground arith;
    is_digit = (inr (ground arith, ground arith), ground arith);
  }
]

module _ (radix : ℕ) (lo : 2 ≤ radix) (hi : radix ≤ 16) where
  mod_small : (n : ℕ) → n % radix < radix
  mod_small n = grind arith

  whole : (n : ℕ) → n / radix * radix + n % radix ≡ n
  whole n = omega (arith, div-add-mod n radix)

  div_smaller : (n k : ℕ) → n < radix * k → n / radix < k
  div_smaller n k h = grind (arith, div-add-mod n radix, mod_small n)

  grows : (n k : ℕ) → n / radix < k → n < radix * k
  grows n k h = grind (arith, div-add-mod n radix, mod_small n)

  half : (n k : ℕ) → n < 2 * k → n / radix < k
  half n k h = div_smaller n k (grind arith)

  least : (n k : ℕ) → k ≤ n / radix → radix * k ≤ n
  least n k h = grind (arith, div-add-mod n radix, mod_small n)

  tight_step : (ax k : ℕ) → ax ≢ 0 → ((j : ℕ) → k ≡ suc j → radix ^ j ≤ ax / radix) → radix ^ k ≤ ax
  tight_step ax zero ne tight = omega (arith, pow-zero radix)
  tight_step ax (suc k) ne tight =
      omega (arith, pow-suc radix k, least ax (radix ^ k) (tight k refl))

  -- What `count_digits` returns: the least `k` with `ax < radix ^ k`.
  record Counts (ax bits : ℕ) (result : Option ℕ) : Type 0 where
    k : ℕ
    returns : result ≡ some (bits + k)
    below : ax < radix ^ k
    tight : (j : ℕ) → k ≡ suc j → radix ^ j ≤ ax

  count_digits-Counts :
      (f ax bits : ℕ) → ax < 2 ^ f → Counts ax bits (count_digits (suc f) radix ax bits)
  unfolding count_digits
  count_digits-Counts zero ax bits h =
      let zero_ax : ax ≡ 0 = omega arith in
      rw zero_ax (record {
        k = 0;
        returns = ap some (omega arith);
        below = omega (arith, pow-zero radix);
        tight = λ j e. absurd (omega arith);
      })
  count_digits-Counts (suc f) ax bits h =
      let rest =
        count_digits-Counts f (ax / radix) (bits + 1)
          (half ax (2 ^ f) (omega (arith, pow-suc 2 f))) in
      elim (Bool-cases (ax == 0)) [
        | inl z ↦
            let zero_ax : ax ≡ 0 = ground arith in
            rw zero_ax (record {
              k = 0;
              returns = ap some (omega arith);
              below = omega (arith, pow-zero radix);
              tight = λ j e. absurd (omega arith);
            })
        | inr z ↦ rw z (record {
          k = suc rest.k;
          returns = rest.returns ∙ ap some (omega arith);
          below = omega (arith, pow-suc radix rest.k, grows ax (radix ^ rest.k) rest.below);
          tight = λ j e.
              let same : j ≡ rest.k = omega arith in
              rw same (tight_step ax rest.k (ground arith) rest.tight);
        })
      ]

  -- Writing the digits of `ax` in front of `s`.
  record Writes (bits ax : ℕ) (s : List ℕ) (result : Option (List ℕ)) : Type 0 where
    text : List ℕ
    returns : result ≡ some text
    size : length text ≡ bits + length s
    reads : text_value radix 0 text ≡ text_value radix ax s
    digits : All (IsDigit radix) s → All (IsDigit radix) text

  write_digits-Writes :
      (bits ax : ℕ) (s : List ℕ)
      → ax < radix ^ bits
      → Writes bits ax s (write_digits bits radix ax s)
  unfolding write_digits text_value
  write_digits-Writes zero ax s h =
      let zero_ax : ax ≡ 0 = omega (arith, pow-zero radix) in
      record {
        text = s;
        returns = refl;
        size = omega arith;
        reads = rw zero_ax refl;
        digits = λ all. all;
      }
  write_digits-Writes (suc bits) ax s h =
      let d = digit_letter radix (ax % radix) hi (mod_small ax) in
      let rest =
        write_digits-Writes bits (ax / radix) (d.c ∷ s)
          (div_smaller ax (radix ^ bits) (omega (arith, pow-suc radix bits))) in
      record {
        text = rest.text;
        returns = rw (d.is_letter, write_digits) rest.returns;
        size = omega (arith, rest.size);
        reads = rest.reads ∙ ap (λ t. text_value radix t s) (omega (arith, d.value, whole ax));
        digits = λ all. rest.digits (d.is_digit, all);
      }

  zero_count : (c k : ℕ) → c ≡ 0 → ((j : ℕ) → k ≡ suc j → radix ^ j ≤ c) → k ≡ 0
  zero_count c zero e tight = refl
  zero_count c (suc k) e tight = absurd (omega (arith, e, tight k refl, one-le-pow k radix))

  some_count : (c k : ℕ) → c ≢ 0 → c < radix ^ k → 1 ≤ k
  some_count c zero ne below = absurd (omega (arith, pow-zero radix))
  some_count c (suc k) ne below = omega arith

  -- The digits written for `bits` rounds that are enough.
  written :
      (x bits : ℕ)
      → count_digits 65 radix x (if x == 0 then 1 else 0) ≡ some bits
      → x < radix ^ bits
      → (text : List ℕ) × (re_unsigned_to_string x radix ≡ some text)
        × All (IsDigit radix) text
        × (text_value radix 0 text ≡ x)
        × (length text ≡ bits)
  unfolding re_unsigned_to_string
  written x bits counted fits =
      let w = write_digits-Writes bits x [] fits in
      let some_radix : (radix == 0) ≡ false = ground arith in
      (
        w.text,
        rw (some_radix, counted) w.returns,
        w.digits tt,
        w.reads ∙ unfold text_value in refl,
        omega (arith, w.size),
      )

  -- Every 64-bit number is printed in a radix from 2 to 16, with one digit of the radix or more,
  -- which read back as the number; a text of more than one digit has the least length, so that
  -- there is no leading zero but in `0`.
  pub re_unsigned_to_string_lem :
      (x : ℕ)
      → x < 2 ^ 64
      → (text : List ℕ) × (re_unsigned_to_string x radix ≡ some text)
        × All (IsDigit radix) text
        × (1 ≤ length text)
        × (text_value radix 0 text ≡ x)
        × ((j : ℕ) → length text ≡ suc (suc j) → radix ^ suc j ≤ x)
  re_unsigned_to_string_lem x h =
      let c = count_digits-Counts 64 x (if x == 0 then 1 else 0) h in
      elim (Bool-cases (x == 0)) [
        | inl z ↦
            let x_zero : x ≡ 0 = ground arith in
            let first : ◌≡◌ {A = ℕ} (if x == 0 then 1 else 0) 1 = rw z refl in
            let none_counted = zero_count x c.k x_zero c.tight in
            let (text, returns, digits, value, size) =
              written x 1 (c.returns ∙ ap some (omega (arith, none_counted, first)))
                (omega (arith, x_zero, one-le-pow 1 radix)) in
            (
              text,
              returns,
              digits,
              omega (arith, size),
              value,
              λ j e. absurd (omega (arith, e, size)),
            )
        | inr z ↦
            let (text, returns, digits, value, size) =
              written x c.k (c.returns ∙ rw z (ap some (omega arith))) c.below in
            let some_text = some_count x c.k (ground arith) c.below in
            (
              text,
              returns,
              digits,
              omega (arith, size, some_text),
              value,
              λ j e. c.tight (suc j) (omega (arith, e, size)),
            )
      ]
