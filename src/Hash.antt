-- ===== src/Hash.antt =====
-- runtime/php-hash-helper.c: numeric keys and the string hashes of PHP arrays.
-- A C string is the list of its bytes before the terminating NUL.
pub mod Fnv
pub mod Numeric
pub mod Polynomial
mod Tests
use Prim.Native.Nat.{bit_and, bit_xor}
use roadsend_php.Base.{
  ℕ, ◌+◌, ◌-◌, ◌*◌, ◌%◌, ◌^◌, List, [], ◌∷◌, Bool, true, false, not, ◌&&◌, ltb, leb, ◌==◌,
  if◌then◌else◌, length,
}
use roadsend_php.Base.Bits.{u32, ◌<<<◌, ◌>>>◌}

is_digit : ℕ → Bool
is_digit c = leb b'0' c && leb c b'9'

-- The byte that `*p` reads: the terminator is the NUL behind the last byte.
abbrev pub head_byte : List ℕ → ℕ
head_byte [] = 0
head_byte (c ∷ s) = c

-- `while (tmp<end)`, and the test `tmp==end && *tmp=='\0'` behind it.
digits_to_end : List ℕ → Bool
unfolding is_digit
digits_to_end [] = true
digits_to_end (c ∷ s) = if not (is_digit c) then false else digits_to_end s

-- The body of `if ((*tmp>='0' && *tmp<='9'))`; `total` is the parameter `length`.
numeric_from : ℕ → List ℕ → Bool
unfolding is_digit digits_to_end
numeric_from total [] = false
numeric_from total (c ∷ s) =
    if is_digit c then if c == b'0' && ltb 1 total then false else digits_to_end s else false

pub is_numeric : List ℕ → Bool
unfolding numeric_from
is_numeric [] = numeric_from 0 []
is_numeric (c ∷ s) =
    if c == b'-' then numeric_from (length (c ∷ s)) s else numeric_from (length (c ∷ s)) (c ∷ s)

-- `(int)c` for a byte `c` of the signed type `char`, as a 32-bit pattern.
abbrev pub sign_extend : ℕ → ℕ
sign_extend c = if ltb c 128 then c else c + (2 ^ 32 - 256)

abbrev pub max_fixnum : ℕ
max_fixnum = 0x1fff_ffff

-- `while( (c = *string++) )` of `php_string_hash_number1`; `result` as a 32-bit pattern.
hash1_loop : ℕ → List ℕ → ℕ
hash1_loop result [] = result
hash1_loop result (c ∷ s) = hash1_loop (u32 (result + u32 (u32 (result <<< 3) + sign_extend c))) s

pub php_string_hash_number1 : List ℕ → ℕ
unfolding hash1_loop
php_string_hash_number1 s = bit_and (hash1_loop 0 s) max_fixnum

abbrev pub fnv_32_prime : ℕ
fnv_32_prime = 0x0100_0193

abbrev pub fnv1_32a_init : ℕ
fnv1_32a_init = 0x811c_9dc5

abbrev pub mask_24 : ℕ
mask_24 = 2 ^ 24 - 1

-- The `#else` branch: `hval += (hval<<1) + (hval<<4) + ...`, each in `unsigned int`.
pub fnv_step : ℕ → ℕ → ℕ
fnv_step hval c =
    let h = bit_xor hval c in
    u32 (h + u32 (u32 (h <<< 1) + u32 (h <<< 4) + u32 (h <<< 7) + u32 (h <<< 8) + u32 (h <<< 24)))

-- The branch for `NO_FNV_GCC_OPTIMIZATION`, and the macro `FNV_32A_OP`.
pub fnv_32a_op : ℕ → ℕ → ℕ
fnv_32a_op hval c = u32 (bit_xor hval c * fnv_32_prime)

fnv_loop : ℕ → List ℕ → ℕ
fnv_loop hval [] = hval
fnv_loop hval (c ∷ s) = fnv_loop (fnv_step hval c) s

pub php_string_hash_number : List ℕ → ℕ
unfolding fnv_loop fnv_step
php_string_hash_number s =
    let hval = fnv_loop fnv1_32a_init s in bit_xor (hval >>> 24) (bit_and hval mask_24)
