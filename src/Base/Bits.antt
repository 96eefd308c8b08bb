-- ===== src/Base/Bits.antt =====
-- Casts to machine widths, and the laws of the bit operations at variables.
use Prim.Native.Nat.{
  ℕ, zero, suc, ◌+◌, ◌-◌, ◌*◌, ◌/◌, ◌%◌, ◌^◌, ◌≤◌, ◌<◌, min, max, digits, bitwise, differ, bit_and,
  bit_or, bit_xor, bit_and-bitwise, bit_or-bitwise, bit_xor-bitwise,
}
use mathlib.Core.Path.{◌≡◌, refl, ap, ap₂, sym, ◌∙◌}
use native.Mathlib.Nat.{pow-suc, one-le-pow}
use native.Mathlib.Omega.{arith}

abbrev pub u8 : ℕ → ℕ
u8 n = n % 2 ^ 8

abbrev pub u32 : ℕ → ℕ
u32 n = n % 2 ^ 32

abbrev pub u64 : ℕ → ℕ
u64 n = n % 2 ^ 64

infixl 75 ◌<<<◌ ◌>>>◌
abbrev pub ◌<<<◌ : ℕ → ℕ → ℕ
x <<< k = x * 2 ^ k

abbrev pub ◌>>>◌ : ℕ → ℕ → ℕ
x >>> k = x / 2 ^ k

-- The native operations stand for a recursion on digits with fuel; the fuel does not matter.
module _ (z : ℕ → ℕ) (f : ℕ → ℕ → ℕ) where
  digits_agree : (k m x y : ℕ) → x ≤ k → x ≤ m → digits z f k x y ≡ digits z f m x y
  digits_agree zero zero zero y lo hi = refl
  digits_agree zero (suc m) zero y lo hi = refl
  digits_agree (suc k) zero zero y lo hi = refl
  digits_agree (suc k) (suc m) zero y lo hi = refl
  digits_agree zero m (suc x) y lo hi = absurd (omega arith)
  digits_agree (suc k) zero (suc x) y lo hi = absurd (omega arith)
  digits_agree (suc k) (suc m) (suc x) y lo hi =
      ap (λ t. t * 2 + f (suc x % 2) (y % 2))
        (digits_agree k m (suc x / 2) (y / 2) (omega arith) (omega arith))

  bitwise_unfold :
      (a b : ℕ)
      → bitwise z f (suc a) b ≡ bitwise z f (suc a / 2) (b / 2) * 2 + f (suc a % 2) (b % 2)
  bitwise_unfold a b =
      ap (λ t. t * 2 + f (suc a % 2) (b % 2))
        (digits_agree a (suc a / 2) (suc a / 2) (b / 2) (omega arith) (omega arith))

pub bit_and_lem : (a b : ℕ) → bit_and a b ≡ bit_and (a / 2) (b / 2) * 2 + min (a % 2) (b % 2)
bit_and_lem zero b = simp bit_and-bitwise (omega arith)
bit_and_lem (suc a) b = simp bit_and-bitwise (bitwise_unfold (λ y. 0) min a b)

pub bit_or_lem : (a b : ℕ) → bit_or a b ≡ bit_or (a / 2) (b / 2) * 2 + max (a % 2) (b % 2)
bit_or_lem zero b = simp bit_or-bitwise (omega arith)
bit_or_lem (suc a) b = simp bit_or-bitwise (bitwise_unfold (λ y. y) max a b)

differ_bits : (x y : ℕ) → x < 2 → y < 2 → differ x y ≡ (x + y) % 2
differ_bits zero y p q = omega arith
differ_bits (suc zero) zero p q = refl
differ_bits (suc zero) (suc zero) p q = refl
differ_bits (suc zero) (suc (suc y)) p q = absurd (omega arith)
differ_bits (suc (suc x)) y p q = absurd (omega arith)

differ_digits : (a b : ℕ) → differ (a % 2) (b % 2) ≡ (a % 2 + b % 2) % 2
differ_digits a b = differ_bits (a % 2) (b % 2) (omega arith) (omega arith)

pub bit_xor_lem : (a b : ℕ) → bit_xor a b ≡ bit_xor (a / 2) (b / 2) * 2 + (a % 2 + b % 2) % 2
bit_xor_lem zero b = simp bit_xor-bitwise (omega arith)
bit_xor_lem (suc a) b = simp bit_xor-bitwise (
    bitwise_unfold (λ y. y) differ a b
    ∙ ap (λ t. bitwise (λ y. y) differ (suc a / 2) (b / 2) * 2 + t) (differ_digits (suc a) b))

-- Induction over the binary digits of a number.
module _ (P : ℕ → Type 0) (base : P 0) (step : (a : ℕ) → P (suc a / 2) → P (suc a)) where
  by_halves_below : (k a : ℕ) → a ≤ k → P a
  by_halves_below k zero h = base
  by_halves_below zero (suc a) h = absurd (omega arith)
  by_halves_below (suc k) (suc a) h = step a (by_halves_below k (suc a / 2) (omega arith))

  by_halves : (a : ℕ) → P a
  by_halves a = by_halves_below a a (omega arith)

pub bit_and-zero : (a : ℕ) → bit_and a 0 ≡ 0
bit_and-zero =
    by_halves (λ a. bit_and a 0 ≡ 0) refl (λ a half. omega (arith, bit_and_lem (suc a) 0, half))

pub bit_or-zero : (a : ℕ) → bit_or a 0 ≡ a
bit_or-zero =
    by_halves (λ a. bit_or a 0 ≡ a) refl (λ a half. omega (arith, bit_or_lem (suc a) 0, half))

pub bit_xor-zero : (a : ℕ) → bit_xor a 0 ≡ a
bit_xor-zero =
    by_halves (λ a. bit_xor a 0 ≡ a) refl (λ a half. omega (arith, bit_xor_lem (suc a) 0, half))

bit_xor_comm_fuel : (n a b : ℕ) → a ≤ n → b ≤ n → bit_xor a b ≡ bit_xor b a
bit_xor_comm_fuel zero a b p q = ap₂ bit_xor (omega arith) (omega arith)
bit_xor_comm_fuel (suc n) a b p q = omega (
  arith,
  bit_xor_lem a b,
  bit_xor_lem b a,
  bit_xor_comm_fuel n (a / 2) (b / 2) (omega arith) (omega arith),
)

pub bit_xor_comm : (a b : ℕ) → bit_xor a b ≡ bit_xor b a
bit_xor_comm a b = bit_xor_comm_fuel (a + b) a b (omega arith) (omega arith)

bit_xor_assoc_fuel :
    (n a b c : ℕ) → a ≤ n → b ≤ n → c ≤ n → bit_xor (bit_xor a b) c ≡ bit_xor a (bit_xor b c)
bit_xor_assoc_fuel zero a b c p q r =
    let za : a ≡ 0 = omega arith in
    let zb : b ≡ 0 = omega arith in let zc : c ≡ 0 = omega arith in rw (za, zb, zc) refl
bit_xor_assoc_fuel (suc n) a b c p q r =
    let ab : bit_xor a b / 2 ≡ bit_xor (a / 2) (b / 2) = omega (arith, bit_xor_lem a b) in
    let bc : bit_xor b c / 2 ≡ bit_xor (b / 2) (c / 2) = omega (arith, bit_xor_lem b c) in
    let ih =
      bit_xor_assoc_fuel n (a / 2) (b / 2) (c / 2) (omega arith) (omega arith) (omega arith) in
    omega (
      arith,
      bit_xor_lem (bit_xor a b) c,
      bit_xor_lem a (bit_xor b c),
      bit_xor_lem a b,
      bit_xor_lem b c,
      ap (λ t. bit_xor t (c / 2)) ab,
      ap (λ t. bit_xor (a / 2) t) bc,
      ih,
    )

pub bit_xor_assoc : (a b c : ℕ) → bit_xor (bit_xor a b) c ≡ bit_xor a (bit_xor b c)
bit_xor_assoc a b c = bit_xor_assoc_fuel (a + b + c) a b c (omega arith) (omega arith) (omega arith)

-- Fields that do not overlap.
pub bit_xor_fields : (k h l : ℕ) → l < 2 ^ k → bit_xor (h * 2 ^ k) l ≡ h * 2 ^ k + l
bit_xor_fields zero h l fits = ground (arith, bit_xor-zero h)
bit_xor_fields (suc k) h l fits = ground (
  arith,
  bit_xor_lem (h * 2 ^ suc k) l,
  ap (λ (t : ℕ). h * t) (pow-suc 2 k),
  pow-suc 2 k,
  bit_xor_fields k h (l / 2) (omega (arith, pow-suc 2 k)),
)

pub bit_or_fields : (k h l : ℕ) → l < 2 ^ k → bit_or (h * 2 ^ k) l ≡ h * 2 ^ k + l
bit_or_fields zero h l fits = ground (arith, bit_or-zero h)
bit_or_fields (suc k) h l fits = ground (
  arith,
  bit_or_lem (h * 2 ^ suc k) l,
  ap (λ (t : ℕ). h * t) (pow-suc 2 k),
  pow-suc 2 k,
  bit_or_fields k h (l / 2) (omega (arith, pow-suc 2 k)),
)

bit_and_low : (k h l : ℕ) → l < 2 ^ k → bit_and (h * 2 ^ k + l) (2 ^ k - 1) ≡ l
bit_and_low zero h l fits = omega (arith, bit_and-zero (h * 1 + l))
bit_and_low (suc k) h l fits = ground (
  arith,
  bit_and_lem (h * 2 ^ suc k + l) (2 ^ suc k - 1),
  ap (λ (t : ℕ). h * t) (pow-suc 2 k),
  pow-suc 2 k,
  one-le-pow k 2,
  bit_and_low k h (l / 2) (omega (arith, pow-suc 2 k)),
)

-- A mask of `k` ones.
pub bit_and_mask : (k a : ℕ) → bit_and a (2 ^ k - 1) ≡ a % 2 ^ k
bit_and_mask k a = ground (arith, one-le-pow k 2, bit_and_low k (a / 2 ^ k) (a % 2 ^ k))

bit_and_single :
    (k h c l : ℕ) → c < 2 → l < 2 ^ k → bit_and ((h * 2 + c) * 2 ^ k + l) (2 ^ k) ≡ c * 2 ^ k
bit_and_single zero h c l lt fits =
    omega (arith, bit_and_lem ((h * 2 + c) * 1 + l) 1, bit_and-zero (((h * 2 + c) * 1 + l) / 2))
bit_and_single (suc k) h c l lt fits = ground (
  arith,
  bit_and_lem ((h * 2 + c) * 2 ^ suc k + l) (2 ^ suc k),
  ap (λ (t : ℕ). (h * 2 + c) * t) (pow-suc 2 k),
  ap (λ (t : ℕ). c * t) (pow-suc 2 k),
  pow-suc 2 k,
  bit_and_single k h c (l / 2) lt (omega (arith, pow-suc 2 k)),
)

-- A single bit.
pub bit_and_bit : (k a : ℕ) → bit_and a (2 ^ k) ≡ a / 2 ^ k % 2 * 2 ^ k
bit_and_bit k a =
    let q = a / 2 ^ k in
    let halves : q / 2 * 2 + q % 2 ≡ q = omega arith in
    let parts : q * 2 ^ k + a % 2 ^ k ≡ a = ground (arith, one-le-pow k 2) in
    let whole = ap (λ (t : ℕ). t * 2 ^ k + a % 2 ^ k) halves ∙ parts in
    let fits : a % 2 ^ k < 2 ^ k = ground (arith, one-le-pow k 2) in
    ap (λ (t : ℕ). bit_and t (2 ^ k)) (sym whole)
    ∙ bit_and_single k (q / 2) (q % 2) (a % 2 ^ k) (omega arith) fits

-- Results stay within the width of the operands.
pub bit_xor-lt : (k a b : ℕ) → a < 2 ^ k → b < 2 ^ k → bit_xor a b < 2 ^ k
bit_xor-lt zero a b p q =
    let za : a ≡ 0 = omega arith in let zb : b ≡ 0 = omega arith in rw (za, zb) (omega arith)
bit_xor-lt (suc k) a b p q = omega (
  arith,
  pow-suc 2 k,
  bit_xor_lem a b,
  bit_xor-lt k (a / 2) (b / 2) (omega (arith, pow-suc 2 k)) (omega (arith, pow-suc 2 k)),
)

pub bit_or-lt : (k a b : ℕ) → a < 2 ^ k → b < 2 ^ k → bit_or a b < 2 ^ k
bit_or-lt zero a b p q =
    let za : a ≡ 0 = omega arith in let zb : b ≡ 0 = omega arith in rw (za, zb) (omega arith)
bit_or-lt (suc k) a b p q = omega (
  arith,
  pow-suc 2 k,
  bit_or_lem a b,
  bit_or-lt k (a / 2) (b / 2) (omega (arith, pow-suc 2 k)) (omega (arith, pow-suc 2 k)),
)

pub bit_and-le : (n a b : ℕ) → b ≤ n → bit_and a b ≤ b
bit_and-le zero a b h = let z : b ≡ 0 = omega arith in rw z (omega (arith, bit_and-zero a))
bit_and-le (suc n) a b h =
    omega (arith, bit_and_lem a b, bit_and-le n (a / 2) (b / 2) (omega arith))
