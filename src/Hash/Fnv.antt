-- ===== src/Hash/Fnv.antt =====
-- php-hash-helper.c: the string hashes.
use Prim.Native.Nat.{bit_and, bit_xor}
use roadsend_php.Base.{ℕ, ◌^◌, ◌<◌, ◌≡◌, refl, List, [], ◌∷◌, arith}
use roadsend_php.Base.Bits.{◌>>>◌, bit_xor-lt, bit_and_mask}
use roadsend_php.Hash.{
  fnv_step, fnv_32a_op, fnv_loop, fnv1_32a_init, mask_24, php_string_hash_number,
}

-- The sum of shifts is the multiplication by the prime, wrap-around included.
pub fnv_step-eq-fnv_32a_op : (hval c : ℕ) → fnv_step hval c ≡ fnv_32a_op hval c
unfolding fnv_step fnv_32a_op
fnv_step-eq-fnv_32a_op hval c = omega arith

-- FNV-1a by multiplication, over the whole string.
pub fnv_1a : ℕ → List ℕ → ℕ
fnv_1a hval [] = hval
fnv_1a hval (c ∷ s) = fnv_1a (fnv_32a_op hval c) s

fnv_loop-eq-fnv_1a : (hval : ℕ) (s : List ℕ) → fnv_loop hval s ≡ fnv_1a hval s
unfolding fnv_loop fnv_1a
fnv_loop-eq-fnv_1a hval [] = refl
fnv_loop-eq-fnv_1a hval (c ∷ s) =
    rw fnv_step-eq-fnv_32a_op (fnv_loop-eq-fnv_1a (fnv_32a_op hval c) s)

fnv_1a-lt : (hval : ℕ) (s : List ℕ) → hval < 2 ^ 32 → fnv_1a hval s < 2 ^ 32
unfolding fnv_1a fnv_32a_op
fnv_1a-lt hval [] h = h
fnv_1a-lt hval (c ∷ s) h = fnv_1a-lt (fnv_32a_op hval c) s (omega arith)

-- The hash of a string is FNV-1a by multiplication modulo 2^32, folded to 24 bits: it is below
-- 2^24, so a fixnum of Bigloo holds it.
pub php_string_hash_number_lem :
    (s : List ℕ)
    → let h = fnv_1a fnv1_32a_init s in
      (php_string_hash_number s ≡ bit_xor (h >>> 24) (bit_and h mask_24))
      × (php_string_hash_number s < 2 ^ 24)
      × (h < 2 ^ 32)
unfolding php_string_hash_number
php_string_hash_number_lem s =
    let h = fnv_1a fnv1_32a_init s in
    let small = fnv_1a-lt fnv1_32a_init s (omega arith) in
    let low : bit_and h mask_24 < 2 ^ 24 = omega (arith, bit_and_mask 24 h) in
    (
      rw fnv_loop-eq-fnv_1a refl,
      rw fnv_loop-eq-fnv_1a (bit_xor-lt 24 (h >>> 24) (bit_and h mask_24) (omega arith) low),
      small,
    )
