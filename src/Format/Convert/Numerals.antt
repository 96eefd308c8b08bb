-- ===== src/Format/Convert/Numerals.antt =====
-- pcc_snprintf.c: the conversions of integers with their precision.
use roadsend_php.Base.{
  ℕ, zero, suc, ◌+◌, ◌-◌, ◌≤◌, ◌≡◌, refl, ap, ◌∙◌, List, ◌∷◌, ◌++◌, replicate, length-append,
  length-replicate, Option, none, some, false, ltb, if◌then◌else◌, length, arith,
}
use roadsend_php.Format.Digits.{IsPrinted}
use roadsend_php.Format.Convert.{Text, in_num_buf, put_before, zeros_before, fix_precision}

-- So many digits a precision asks for.
abbrev pub least : Option ℕ → ℕ
least none = 0
least (some n) = if ltb n 511 then n else 511

-- The digits that print a number, behind as many zeros as make up what the precision asks for.
abbrev pub with_zeros : Option ℕ → List ℕ → List ℕ
with_zeros precision digits = replicate (least precision - length digits) b'0' ++ digits

-- A text in `num_buf` that prints the number with as many digits as the precision asks for, or as
-- the number has where those are more; it leaves room for a prefix.
pub record IsNumeral (radix n : ℕ) (precision : Option ℕ) (t : Text) : Type 0 where
  pub digits : List ℕ
  pub printed : IsPrinted radix n 64 (some digits)
  pub padded : t.bytes ≡ with_zeros precision digits
  pub inside : t.room + length t.bytes ≡ 512
  pub spare : 1 ≤ t.room
  pub pointed : t.fixed ≡ false

put_before-room :
    (c : ℕ) (t : Text)
    → 1 ≤ t.room
    → put_before c t ≡ some (record { bytes = c ∷ t.bytes; room = t.room - 1; fixed = t.fixed })
unfolding put_before
put_before-room c t h = ground arith

replicate-snoc :
    (n : ℕ) (xs : List ℕ) → replicate n b'0' ++ b'0' ∷ xs ≡ replicate (suc n) b'0' ++ xs
replicate-snoc zero xs = refl
replicate-snoc (suc n) xs = ap (λ l. b'0' ∷ l) (replicate-snoc n xs)

-- Zeros are put in front where there is room.
zeros_before-replicate :
    (k : ℕ) (t : Text)
    → k ≤ t.room
    → zeros_before k t
      ≡ some (record { bytes = replicate k b'0' ++ t.bytes; room = t.room - k; fixed = t.fixed })
unfolding zeros_before
zeros_before-replicate zero t h =
    ap (λ n. some (record { bytes = t.bytes; room = n; fixed = t.fixed })) (omega arith)
zeros_before-replicate (suc k) t h =
    let one : Text = record { bytes = b'0' ∷ t.bytes; room = t.room - 1; fixed = t.fixed } in
    let left : t.room - 1 - k ≡ t.room - suc k = omega arith in
    rw
      (
        put_before-room b'0' t (omega arith),
        zeros_before-replicate k one (omega arith),
        left,
        replicate-snoc k t.bytes,
      )
      refl

least_room :
    (precision : Option ℕ) (p : List ℕ)
    → length p ≤ 64
    → least precision - length p + length p ≤ 511
least_room none p h = omega arith
least_room (some k) p h = ground arith

fix_precision_lem :
    (precision : Option ℕ) (t : Text)
    → fix_precision precision t ≡ zeros_before (least precision - length t.bytes) t
unfolding fix_precision zeros_before
fix_precision_lem none t = let nothing : 0 - length t.bytes ≡ 0 = omega arith in rw nothing refl
fix_precision_lem (some k) t = refl

-- The precision puts zeros before the digits.
pub fix_precision-IsNumeral :
    (radix n : ℕ) (precision : Option ℕ) (p : List ℕ)
    → IsPrinted radix n 64 (some p)
    → (t : Text) × (fix_precision precision (in_num_buf p) ≡ some t) × IsNumeral radix n precision t
unfolding fix_precision
fix_precision-IsNumeral radix n precision p h =
    let same : p ≡ h.text = cc in
    let size : length p ≤ 64 = omega (arith, ap length same, h.size) in
    let k = least precision - length p in
    let fits : k + length p ≤ 511 = least_room precision p size in
    (
      record { bytes = with_zeros precision p; room = 512 - length p - k; fixed = false },
      fix_precision_lem precision (in_num_buf p)
          ∙ zeros_before-replicate k (in_num_buf p) (omega (arith, fits)),
      record {
        digits = p;
        printed = h;
        padded = refl;
        inside =
            omega
              (arith, fits, length-append (replicate k b'0') p, length-replicate {A = ℕ} k b'0');
        spare = omega (arith, fits);
        pointed = refl;
      },
    )

-- The precision is met.
pub IsNumeral-least :
    (radix n : ℕ) (precision : Option ℕ) (t : Text)
    → IsNumeral radix n precision t
    → least precision ≤ length t.bytes
IsNumeral-least radix n precision t h =
    let k = least precision - length h.digits in
    omega (
      arith,
      ap length h.padded,
      length-append (replicate k b'0') h.digits,
      length-replicate {A = ℕ} k b'0',
    )
