-- ===== src/Format/Convert/Cases.antt =====
-- pcc_snprintf.c: the cases of the formatter that print integers.
use roadsend_php.Base.{
  ℕ, ◌-◌, ◌%◌, ◌^◌, ◌<◌, ◌≤◌, ◌≡◌, ◌≢◌, refl, ap, ◌∙◌, List, Option, none, some, Bool, true, false,
  not, ◌&&◌, ltb, ◌==◌, if◌then◌else◌, arith,
}
use roadsend_php.Base.Int.{ℤ, pos, negsuc, long_value, magnitude, is_neg}
use roadsend_php.Format.{conv_10, conv_p2, conv_p2_quad}
use roadsend_php.Format.Digits.{IsPrinted}
use roadsend_php.Format.Numbers.{conv_10_lem, conv_10_quad-conv_10, conv_p2_lem}
use roadsend_php.Format.Directive.{VarType, is_quad, is_long, is_short, is_int, Layout}
use roadsend_php.Format.Convert.{
  Text, in_num_buf, put_before, fix_precision, extend_sign, signed_arg, unsigned_arg, next_num,
  print_10, print_p2, sign_prefix, Conversion, case_u, case_d, case_o, case_x,
}
use mathlib.Core.Path.{subst}
use roadsend_php.Format.Convert.Numerals.{
  least, IsNumeral, IsNumeral-least, fix_precision-IsNumeral,
}

-- The numbers that the types hold: the low bits of the argument, with or without a sign.
abbrev pub bits : VarType → ℕ
bits is_quad = 64
bits is_long = 64
bits is_short = 16
bits is_int = 32

abbrev pub signed_value : ℕ → ℕ → ℤ
signed_value n w =
    let low = w % 2 ^ n in if ltb low (2 ^ (n - 1)) then pos low else negsuc (2 ^ n - low - 1)

signed_arg-value :
    (t : VarType) (w : ℕ)
    → w < 2 ^ 64
    → (signed_arg t w < 2 ^ 64) × (long_value (signed_arg t w) ≡ signed_value (bits t) w)
unfolding signed_arg extend_sign
signed_arg-value is_quad w h = (h, ground arith)
signed_arg-value is_long w h = (h, ground arith)
signed_arg-value is_short w h = (ground arith, ground arith)
signed_arg-value is_int w h = (ground arith, ground arith)

unsigned_arg-value :
    (t : VarType) (w : ℕ)
    → w < 2 ^ 64
    → (unsigned_arg t w < 2 ^ 64) × (unsigned_arg t w ≡ w % 2 ^ bits t)
unfolding unsigned_arg
unsigned_arg-value is_quad w h = (h, omega arith)
unsigned_arg-value is_long w h = (h, omega arith)
unsigned_arg-value is_short w h = (omega arith, refl)
unsigned_arg-value is_int w h = (omega arith, refl)

print_10-conv_10 :
    (t : VarType) (num : ℕ) (u : Bool) → num < 2 ^ 64 → print_10 t num u ≡ conv_10 num u
unfolding print_10
print_10-conv_10 is_quad num u h = conv_10_quad-conv_10 num u h
print_10-conv_10 is_long num u h = refl
print_10-conv_10 is_short num u h = refl
print_10-conv_10 is_int num u h = refl

least_most : (k : ℕ) → 511 ≤ k → least (some k) ≡ 511
least_most k h = ground arith

print_p2-conv_p2 :
    (t : VarType) (num nbits : ℕ) (upper : Bool)
    → conv_p2_quad num nbits upper ≡ conv_p2 num nbits upper
    → print_p2 t num nbits upper ≡ conv_p2 num nbits upper
unfolding print_p2
print_p2-conv_p2 is_quad num nbits upper e = e
print_p2-conv_p2 is_long num nbits upper e = refl
print_p2-conv_p2 is_short num nbits upper e = refl
print_p2-conv_p2 is_int num nbits upper e = refl

-- What a conversion of a number gives: its numeral and its prefix, with the padding of the flags.
pub record Gives (radix n prefix : ℕ) (l : Layout) (result : Option Conversion) : Type 0 where
  pub conversion : Conversion
  pub returns : result ≡ some conversion
  pub numeral : IsNumeral radix n l.precision conversion.text
  pub prefixed : conversion.prefix_char ≡ prefix
  pub padded : conversion.pad_char ≡ l.flags.pad_char

module _ (l : Layout) (t : VarType) (w i_num : ℕ) (h : w < 2 ^ 64) where
  pub case_d-Gives :
      Gives 10
        (magnitude (signed_value (bits t) w))
        (sign_prefix l.flags (is_neg (signed_value (bits t) w)))
        l
        (case_d l t w i_num)
  unfolding case_d
  case_d-Gives =
      let v = signed_arg t w in
      let (small, value) = signed_arg-value t w h in
      let (p, e, printed) = conv_10_lem v false small in
      let (s, f, numeral) =
        fix_precision-IsNumeral 10 (magnitude (long_value v)) l.precision p printed in
      record {
        conversion = record {
          text = s;
          prefix_char = sign_prefix l.flags (is_neg (long_value v));
          pad_char = l.flags.pad_char;
          i_num = next_num t i_num v;
        };
        returns = rw (print_10-conv_10 t v false small, e, f) refl;
        numeral = subst (λ z. IsNumeral 10 (magnitude z) l.precision s) value numeral;
        prefixed = ap (λ z. sign_prefix l.flags (is_neg z)) value;
        padded = refl;
      }

  -- An unsigned argument is printed in decimal without a prefix, and with the digits that the
  -- precision asks for, up to 511.
  pub case_u-Gives : Gives 10 (w % 2 ^ bits t) 0 l (case_u l t w i_num)
  unfolding case_u
  case_u-Gives =
      let v = unsigned_arg t w in
      let (small, value) = unsigned_arg-value t w h in
      let (p, e, printed) = conv_10_lem v true small in
      let (s, f, numeral) = fix_precision-IsNumeral 10 v l.precision p printed in
      record {
        conversion = record {
          text = s;
          prefix_char = 0;
          pad_char = l.flags.pad_char;
          i_num = next_num t i_num v;
        };
        returns = rw (print_10-conv_10 t v true small, e, f) refl;
        numeral = subst (λ z. IsNumeral 10 z l.precision s) value numeral;
        prefixed = refl;
        padded = refl;
      }

  power_text :
      (nbits : ℕ)
      → 1 ≤ nbits
      → nbits ≤ 4
      → (upper : Bool)
      → (p : List ℕ) × (s : Text) × (print_p2 t (unsigned_arg t w) nbits upper ≡ some p)
        × (fix_precision l.precision (in_num_buf p) ≡ some s)
        × IsNumeral (2 ^ nbits) (w % 2 ^ bits t) l.precision s
  power_text nbits lo hi upper =
      let v = unsigned_arg t w in
      let (small, value) = unsigned_arg-value t w h in
      let (printed, quad) = conv_p2_lem nbits lo hi upper v small in
      let whole : IsPrinted (2 ^ nbits) v 64 (some printed.text) = record {
        text = printed.text;
        returns = refl;
        reads = printed.reads;
        size = printed.size;
        digits = printed.digits;
        leading = printed.leading;
        single = printed.single;
      } in
      let (s, f, numeral) = fix_precision-IsNumeral (2 ^ nbits) v l.precision printed.text whole in
      (
        printed.text,
        s,
        print_p2-conv_p2 t v nbits upper quad ∙ printed.returns,
        f,
        subst (λ z. IsNumeral (2 ^ nbits) z l.precision s) value numeral,
      )

  -- An unsigned argument is printed in octal without a prefix, where the flags do not ask for the
  -- alternate form.
  pub case_o-Gives :
      l.flags.alternate_form ≡ false → Gives 8 (w % 2 ^ bits t) 0 l (case_o l t w i_num)
  unfolding case_o
  case_o-Gives plain =
      let (p, s, e, f, numeral) = power_text 3 (omega arith) (omega arith) false in
      record {
        conversion = record {
          text = s;
          prefix_char = 0;
          pad_char = l.flags.pad_char;
          i_num = i_num;
        };
        returns = rw (e, f, plain) refl;
        numeral = numeral;
        prefixed = refl;
        padded = refl;
      }

  -- An unsigned argument is printed in hexadecimal without a prefix, where the flags do not ask
  -- for the alternate form, and also where they do and `i_num` is 0.
  pub case_x-Gives :
      (format : ℕ)
      → (l.flags.alternate_form && not (i_num == 0)) ≡ false
      → Gives 16 (w % 2 ^ bits t) 0 l (case_x format l t w i_num)
  unfolding case_x
  case_x-Gives format plain =
      let (p, s, e, f, numeral) = power_text 4 (omega arith) (omega arith) (format == b'X') in
      record {
        conversion = record {
          text = s;
          prefix_char = 0;
          pad_char = l.flags.pad_char;
          i_num = i_num;
        };
        returns = rw (e, f, plain) refl;
        numeral = numeral;
        prefixed = refl;
        padded = refl;
      }

  -- With a precision of 511 or more, the alternate hexadecimal form writes before the array where
  -- `i_num` is not 0.
  pub case_x_overflow :
      (format k : ℕ)
      → l.flags.alternate_form ≡ true
      → l.precision ≡ some k
      → 511 ≤ k
      → i_num ≢ 0
      → case_x format l t w i_num ≡ none
  unfolding case_x put_before power_text
  case_x_overflow format k alt e big ne =
      let (p, s, print, fix, numeral) = power_text 4 (omega arith) (omega arith) (format == b'X') in
      let digits : least l.precision ≡ 511 = ap least e ∙ least_most k big in
      let last : s.room ≡ 1 = omega (
        arith,
        digits,
        IsNumeral-least 16 (w % 2 ^ bits t) l.precision s numeral,
        numeral.inside,
        numeral.spare,
      ) in
      let stale : (i_num == 0) ≡ false = ground arith in rw (print, fix, alt, stale, last) refl
