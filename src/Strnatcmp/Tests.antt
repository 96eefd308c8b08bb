-- ===== src/Strnatcmp/Tests.antt =====
-- strnatcmp.c on concrete strings.
use roadsend_php.Base.{◌≡◌, refl, some, codes, true, false, arith}
use roadsend_php.Strnatcmp.{
  Sign, equal, greater, strnatcmp, strnatcasecmp, strnatcmp0, natcmp_loop, finish_round,
  finish_chars, digit_run, skip_spaces, compare_right, compare_left, next_bias, is_digit, is_space,
  to_upper, char_value, fold_char,
}
use roadsend_php.Strnatcmp.Order.{negate, strnatcmp0-negate}
use roadsend_php.Strnatcmp.Numbers.{compare_ℕ, number_value, strnatcmp0-compare_ℕ}

numbered : strnatcmp (codes "img12.png") (codes "img2.png") ≡ some greater
unfolding strnatcmp strnatcmp0 natcmp_loop finish_round finish_chars digit_run skip_spaces
    compare_right compare_left next_bias is_digit is_space to_upper char_value fold_char
numbered = refl

fractional : strnatcmp (codes "1.010") (codes "1.001") ≡ some greater
unfolding strnatcmp strnatcmp0 natcmp_loop finish_round finish_chars digit_run skip_spaces
    compare_right compare_left next_bias is_digit is_space to_upper char_value fold_char
fractional = refl

folded : strnatcasecmp (codes "ABC  10") (codes "abc 10") ≡ some equal
unfolding strnatcasecmp strnatcmp0 natcmp_loop finish_round finish_chars digit_run skip_spaces
    compare_right compare_left next_bias is_digit is_space to_upper char_value fold_char
folded = refl

strnatcmp0-negate_example :
    (s : Sign) × (strnatcmp0 true (codes "a12") (codes "A7") ≡ some s)
    × (strnatcmp0 true (codes "A7") (codes "a12") ≡ some (negate s))
strnatcmp0-negate_example = strnatcmp0-negate true (codes "a12") (codes "A7")

strnatcmp0-compare_ℕ_example :
    strnatcmp0 false (codes "123") (codes "45")
    ≡ some (compare_ℕ (number_value 0 (codes "123")) (number_value 0 (codes "45")))
strnatcmp0-compare_ℕ_example =
    strnatcmp0-compare_ℕ false (codes "123") (codes "45") (omega arith) (omega arith)
