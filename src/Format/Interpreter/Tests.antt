-- ===== src/Format/Interpreter/Tests.antt =====
-- pcc_snprintf.c: the formatter on concrete formats, with doubles that are fixed-point numbers.
use roadsend_php.Base.{
  length, get_elem?, ℕ, ◌+◌, ◌-◌, ◌*◌, ◌/◌, ◌%◌, ◌^◌, ◌<◌, ◌≡◌, refl, List, [], ◌∷◌, ◌++◌, none,
  some, true, false, ltb, ◌==◌, codes, arith, replicate,
}
use roadsend_php.Format.Convert.Cases.{signed_value}
use roadsend_php.Format.Sink.{Out, ok, ins_char, ins_at, pad, print_loop}
use roadsend_php.Format.Convert.{Conversion, put_before}
use roadsend_php.Format.Directive.{Arg, word, Layout, default_flags}
use roadsend_php.Format.Real.{Real}
use roadsend_php.Format.Interpreter.{
  pcc_snprintf, State, format_loop, prefixed, emit, pad_right, pad_zeros, pad_left,
}
use roadsend_php.Format.Interpreter.Width.{max, least_width, emit-cc}
use roadsend_php.Format.Interpreter.Fuel.{format_loop_fuel}
use roadsend_php.Format.Interpreter.Document.Texts.{document_d, with_sign}
use roadsend_php.Format.Cvt.{Cvt, pcc_ecvt}
use roadsend_php.Format.Cvt.Safety.{pcc_ecvt_ends}
use roadsend_php.Format.Interpreter.Written.{written, result_count, pcc_snprintf_lem}

-- The scale of the numbers: a million is one.
whole_digits_fixed :
    (x : ℕ) → true ≡ true → (x == 0) ≡ false → (x / 10 / 1000000 * 1000000 < x) × (true ≡ true)
whole_digits_fixed x h k = (ground arith, refl)

small_zeros_fixed :
    (x : ℕ)
    → ltb 0 x ≡ true
    → ltb (x * 10) 1000000 ≡ true
    → (1000000 - x * 10 < 1000000 - x) × (ltb 0 (x * 10) ≡ true)
small_zeros_fixed x h k = (ground arith, ground arith)

abbrev fixed_point : Real
fixed_point = record {
  D = ℕ;
  nil = 0;
  is_nan = λ x. false;
  is_inf = λ x. false;
  is_finite = λ x. true;
  is_negative = λ x. false;
  is_positive = λ x. ltb 0 x;
  is_zero = λ x. x == 0;
  lt_one = λ x. ltb x 1000000;
  neg = λ x. x;
  mul_10 = λ x. x * 10;
  div_10 = λ x. x / 10;
  whole = λ x. x / 1000000 * 1000000;
  frac = λ x. x % 1000000;
  to_int = λ x. x / 1000000;
  tenth = λ x. (x + 30000) * 10 / 1000000;
  digits = λ x. x;
  zeros = λ x. 1000000 - x;
  whole_digits = whole_digits_fixed;
  small_zeros = small_zeros_fixed;
  whole_finite = λ x h. refl;
  neg_finite = λ x h. refl;
}

abbrev stack : List ℕ
stack = replicate 80 0

abbrev arguments : List (Arg ℕ)
arguments = word (2 ^ 32 - 42) ∷ []

abbrev text : List ℕ
text =
    with_sign fixed_point stack (signed_value 32 (2 ^ 32 - 42))
      ((document_d fixed_point stack (2 ^ 32 - 42) (omega arith)).0)

pcc_snprintf_lem_example :
    pcc_snprintf fixed_point stack (replicate 30 7) 3 (codes "%d") arguments
    ≡ some (written 3 text (replicate 30 7), result_count 3 text)
pcc_snprintf_lem_example =
    let shown = document_d fixed_point stack (2 ^ 32 - 42) (omega arith) in
    pcc_snprintf_lem fixed_point stack (replicate 30 7) 3 (codes "%d") arguments text shown.1
      (omega arith) shown.3

-- The variables before the directives of a format.
abbrev start_state : State ℕ
start_state = record {
  out = record { memory = replicate 30 7; sp = some 0; bep = 9; cc = 0 };
  s_len = none;
  i_num = 0;
  args = arguments;
  stores = [];
}

format_loop_fuel_example :
    format_loop fixed_point stack 2 (codes "%d") start_state
    ≡ format_loop fixed_point stack 99 (codes "%d") start_state
format_loop_fuel_example =
    format_loop_fuel fixed_point stack 2 99 (codes "%d") start_state (omega arith) (omega arith)

-- A field of six characters, filled with zeros behind the sign.
abbrev wide : Layout
wide = record {
  flags = record default_flags { pad_char = b'0' };
  min_width = some 6;
  precision = none;
}

abbrev minus_42 : Conversion
minus_42 = record {
  text = record { bytes = codes "42"; room = 510; fixed = false };
  prefix_char = b'-';
  pad_char = b'0';
  i_num = 0;
}

abbrev empty_out : Out
empty_out = record { memory = replicate 9 7; sp = some 0; bep = 8; cc = 0 }

abbrev filled_out : Out
filled_out = record { memory = codes "-00042" ++ replicate 3 7; sp = some 6; bep = 8; cc = 6 }

minus_42-prefixed :
    prefixed minus_42 ≡ some (record { bytes = codes "-42"; room = 509; fixed = false })
unfolding prefixed put_before
minus_42-prefixed = refl

emit-filled : emit wide minus_42 empty_out ≡ ok (2, filled_out)
unfolding emit prefixed put_before pad_right pad_zeros pad_left print_loop ins_char ins_at pad
emit-filled = refl

emit-cc_example : filled_out.cc ≡ 0 + max (length (codes "-42")) (least_width (some 6))
emit-cc_example = emit-cc wide minus_42 _ empty_out filled_out 2 minus_42-prefixed emit-filled

-- 12.34 with three digits.
pcc_ecvt_ends_example :
    (v : Cvt) × (pcc_ecvt fixed_point 12340000 3 stack ≡ some v)
    × (length v.buf ≡ 80)
    × (get_elem? v.buf 3 ≡ some 0)
pcc_ecvt_ends_example = pcc_ecvt_ends fixed_point 12340000 3 stack refl refl
