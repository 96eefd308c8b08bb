-- ===== src/Format.antt =====
-- runtime/pcc_snprintf.c: the conversions of integers. A number is its pattern of 64 bits, and the
-- text that the code writes backwards from `buf_end` is the list of its bytes.
pub mod Digits
pub mod Numbers
pub mod Sink
pub mod Directive
pub mod Real
pub mod Cvt
pub mod Fp
pub mod Convert
pub mod Switch
pub mod Interpreter
mod Tests
use Prim.Native.Nat.{bit_and}
use roadsend_php.Base.{
  ℕ, zero, suc, ◌+◌, ◌-◌, ◌*◌, ◌/◌, ◌^◌, List, [], ◌∷◌, Option, none, some, Bool, true, false, not,
  ◌&&◌, ◌||◌, ltb, leb, ◌==◌, if◌then◌else◌, ◌>>=◌,
}
use roadsend_php.Base.Bits.{u64, ◌>>>◌}
use roadsend_php.Base.Int.{ℤ, pos, negsuc, long_value, ltb_ℤ}

-- `num < 0` for the `long` that the pattern stands for.
abbrev pub is_below_zero : ℕ → Bool
is_below_zero num = leb (2 ^ 63) num

-- The `magnitude` of a signed number: `num + 1`, negated, plus one, where it is negative.
pub magnitude_of : ℕ → ℕ
magnitude_of num =
    if is_below_zero num then (let t = u64 (num + 1) in u64 (u64 (2 ^ 64 - t) + 1)) else num

-- The `do` loop of `conv_10` on fuel.
pub decimal_loop : ℕ → ℕ → List ℕ → Option (List ℕ)
decimal_loop zero magnitude p = none
decimal_loop (suc fuel) magnitude p =
    let new_magnitude = magnitude / 10 in
    let q = (magnitude - new_magnitude * 10 + b'0') ∷ p in
    let more = decimal_loop fuel new_magnitude q in if new_magnitude == 0 then some q else more

-- The text and `*is_negative`; 64 rounds are enough for 64 bits.
pub conv_10 : ℕ → Bool → Option (List ℕ × Bool)
conv_10 num is_unsigned =
    let magnitude = if is_unsigned then num else magnitude_of num in
    let is_negative = not is_unsigned && is_below_zero num in
    decimal_loop 64 magnitude [] >>= λ p. some (p, is_negative)

-- `conv_10_quad`: `widest_int` is `long`. The first comparison is one of `unsigned long`.
pub conv_10_quad : ℕ → Bool → Option (List ℕ × Bool)
conv_10_quad num is_unsigned =
    let value = long_value num in
    let fits =
      not (ltb_ℤ (pos (2 ^ 63 - 1)) value)
      && not (ltb_ℤ value (negsuc (2 ^ 63 - 1)))
      && not is_unsigned in
    let magnitude = if is_unsigned then num else magnitude_of num in
    let wide =
      decimal_loop 64 magnitude [] >>= λ p. some (p, not is_unsigned && is_below_zero num) in
    if (leb num (2 ^ 64 - 1) && is_unsigned) || fits then conv_10 num is_unsigned else wide

-- `low_digits` and `upper_digits`.
pub digit : Bool → ℕ → ℕ
digit upper n = if ltb n 10 then b'0' + n else if upper then b'A' + (n - 10) else b'a' + (n - 10)

-- The `do` loop of `conv_p2`; `upper` stands for `format == 'X'`.
pub power_loop : ℕ → ℕ → Bool → ℕ → List ℕ → Option (List ℕ)
power_loop zero nbits upper num p = none
power_loop (suc fuel) nbits upper num p =
    let q = digit upper (bit_and num (2 ^ nbits - 1)) ∷ p in
    let rest = num >>> nbits in
    let more = power_loop fuel nbits upper rest q in if rest == 0 then some q else more

pub conv_p2 : ℕ → ℕ → Bool → Option (List ℕ)
conv_p2 num nbits upper = power_loop 64 nbits upper num []

pub conv_p2_quad : ℕ → ℕ → Bool → Option (List ℕ)
conv_p2_quad num nbits upper =
    let wide = power_loop 64 nbits upper num [] in
    if leb num (2 ^ 64 - 1) then conv_p2 num nbits upper else wide
