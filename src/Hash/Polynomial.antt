-- ===== src/Hash/Polynomial.antt =====
-- php-hash-helper.c: the older string hash.
use Prim.Native.Nat.{bit_and}
use roadsend_php.Base.{ℕ, ◌+◌, ◌*◌, ◌%◌, ◌^◌, ◌<◌, ◌≡◌, ap, ◌∙◌, List, [], ◌∷◌, arith}
use roadsend_php.Base.Bits.{bit_and_mask, u32, ◌<<<◌}
use roadsend_php.Hash.{sign_extend, hash1_loop, php_string_hash_number1, max_fixnum}

-- The value at 9 of the polynomial whose coefficients are the signed bytes, as 32-bit patterns,
-- computed without wrap-around.
pub polynomial : ℕ → List ℕ → ℕ
polynomial acc [] = acc
polynomial acc (c ∷ s) = polynomial (acc * 9 + sign_extend c) s

polynomial-mod :
    (a b : ℕ) (s : List ℕ)
    → a % 2 ^ 32 ≡ b % 2 ^ 32
    → polynomial a s % 2 ^ 32 ≡ polynomial b s % 2 ^ 32
unfolding polynomial
polynomial-mod a b [] h = h
polynomial-mod a b (c ∷ s) h =
    polynomial-mod (a * 9 + sign_extend c) (b * 9 + sign_extend c) s (omega arith)

hash1_loop-polynomial : (r : ℕ) (s : List ℕ) → r < 2 ^ 32 → hash1_loop r s ≡ polynomial r s % 2 ^ 32
unfolding hash1_loop polynomial
hash1_loop-polynomial r [] h = omega arith
hash1_loop-polynomial r (c ∷ s) h =
    hash1_loop-polynomial (u32 (r + u32 (u32 (r <<< 3) + sign_extend c))) s (omega arith)
    ∙ polynomial-mod (u32 (r + u32 (u32 (r <<< 3) + sign_extend c))) (r * 9 + sign_extend c) s
        (omega arith)

-- The older hash of a string is the value at 9 of the polynomial of its signed bytes, modulo
-- 2 ^ 29: the wrap-around at 32 bits on the way makes no difference, and a fixnum holds it.
pub php_string_hash_number1-polynomial :
    (s : List ℕ) → php_string_hash_number1 s ≡ polynomial 0 s % 2 ^ 29
unfolding php_string_hash_number1
php_string_hash_number1-polynomial s =
    ap (λ h. bit_and h max_fixnum) (hash1_loop-polynomial 0 s (omega arith))
    ∙ bit_and_mask 29 (polynomial 0 s % 2 ^ 32)
    ∙ omega arith
