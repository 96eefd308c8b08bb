-- ===== src/Format/Tests.antt =====
-- pcc_snprintf.c on concrete numbers.
use roadsend_php.Base.{◌≡◌, refl, ◌^◌, true, false, none, some, codes, arith}
use roadsend_php.Format.{conv_10, decimal_loop, magnitude_of, conv_p2, power_loop, digit}
use roadsend_php.Format.Directive.{Layout, default_flags, is_int}
use roadsend_php.Format.Convert.{case_x}
use roadsend_php.Format.Convert.Cases.{case_x_overflow}

least_long : conv_10 (2 ^ 63) false ≡ some (codes "9223372036854775808", true)
unfolding conv_10 decimal_loop magnitude_of
least_long = refl

capital : conv_p2 48879 4 true ≡ some (codes "BEEF")
unfolding conv_p2 power_loop digit
capital = refl

-- `%+.5d` and `%#.600x`.
abbrev signed_layout : Layout
signed_layout = record {
  flags = record default_flags { print_sign = true };
  min_width = none;
  precision = some 5;
}

abbrev long_layout : Layout
long_layout = record {
  flags = record default_flags { alternate_form = true };
  min_width = none;
  precision = some 600;
}

case_x_overflow_example : case_x b'x' long_layout is_int 255 1 ≡ none
case_x_overflow_example =
    case_x_overflow long_layout is_int 255 1 (omega arith) b'x' 600 refl refl (omega arith)
      (omega arith)
