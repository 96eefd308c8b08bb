-- ===== src/Hash/Tests.antt =====
-- php-hash-helper.c on concrete strings.
use Prim.Native.Nat.{bit_and, bit_xor}
use roadsend_php.Base.{◌%◌, ◌^◌, ◌<◌, ◌≡◌, ◌↔◌, refl, true, codes}
use roadsend_php.Base.Bits.{◌>>>◌}
use roadsend_php.Hash.{
  is_numeric, numeric_from, digits_to_end, is_digit, fnv1_32a_init, mask_24, php_string_hash_number,
  php_string_hash_number1,
}
use roadsend_php.Hash.Fnv.{fnv_1a, php_string_hash_number_lem}
use roadsend_php.Hash.Polynomial.{polynomial, php_string_hash_number1-polynomial}
use roadsend_php.Hash.Numeric.{IsDecimal, is_numeric_iff}

hash_foobar : php_string_hash_number (codes "foobar") ≡ bit_xor 0xbf (bit_and 0xbf9cf968 mask_24)
unfolding php_string_hash_number
hash_foobar = refl

-- A number of more than 64 bits is taken for an integer.
too_large_run : is_numeric (codes "99999999999999999999") ≡ true
unfolding is_numeric numeric_from digits_to_end is_digit
too_large_run = refl

is_numeric_iff_example : (is_numeric (codes "-16") ≡ true) ↔ IsDecimal (codes "-16")
is_numeric_iff_example = is_numeric_iff (codes "-16")

php_string_hash_number_lem_example :
    let h = fnv_1a fnv1_32a_init (codes "key") in
    (php_string_hash_number (codes "key") ≡ bit_xor (h >>> 24) (bit_and h mask_24))
    × (php_string_hash_number (codes "key") < 2 ^ 24)
    × (h < 2 ^ 32)
php_string_hash_number_lem_example = php_string_hash_number_lem (codes "key")

php_string_hash_number1-polynomial_example :
    php_string_hash_number1 (codes "ab") ≡ polynomial 0 (codes "ab") % 2 ^ 29
php_string_hash_number1-polynomial_example = php_string_hash_number1-polynomial (codes "ab")
