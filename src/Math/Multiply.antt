-- ===== src/Math/Multiply.antt =====
-- opaque-math.c: multiplication of longs whose product a double holds exactly.
use roadsend_php.Base.{
  some, ℕ, ◌+◌, ◌-◌, ◌*◌, ◌%◌, ◌^◌, ◌≤◌, ◌<◌, ◌≡◌, refl, true, false, xor, arith, ltb, ◌∙◌, ap, ap₂,
  sym, Bool-cases, inl, inr, not, Bool, if◌then◌else◌,
}
use roadsend_php.Base.Bits.{u64}
use roadsend_php.Base.Int.{ℤ, magnitude, long_value, signed, ◌*ℤ◌}
use roadsend_php.Base.Signed.{signed_mul, magnitude-signed}
use roadsend_php.Math.{elong, ok, fast_long_multiply, product, phpmul}
use roadsend_php.Math.Float.{Double}

-- The wrapped product where one factor or both are negative, with `x` and `y` the magnitudes.
mul_pos_neg :
    (x y b : ℕ) → b + y ≡ 2 ^ 64 → x * y ≤ 2 ^ 53 → u64 (x * b) ≡ (2 ^ 64 - x * y) % 2 ^ 64
mul_pos_neg x y b e h = omega (arith, ap (λ (t : ℕ). x * t) e)

mul_neg_neg : (x y a b : ℕ) → a + x ≡ 2 ^ 64 → b + y ≡ 2 ^ 64 → x * y ≤ 2 ^ 53 → u64 (a * b) ≡ x * y
mul_neg_neg x y a b ea eb h = omega (arith, ap (λ (t : ℕ). t * b) ea, ap (λ (t : ℕ). x * t) eb)

-- The long with a sign and a small magnitude.
abbrev pattern_of : Bool → ℕ → ℕ
pattern_of s z = if s then (2 ^ 64 - z) % 2 ^ 64 else z

long_value-pattern_of : (s : Bool) (z : ℕ) → z ≤ 2 ^ 53 → long_value (pattern_of s z) ≡ signed s z
long_value-pattern_of true z h = ground arith
long_value-pattern_of false z h = ground arith

-- The sign and the magnitude of a pattern.
abbrev is_high : ℕ → Bool
is_high a = not (ltb a (2 ^ 63))

abbrev size : ℕ → ℕ
size a = if ltb a (2 ^ 63) then a else 2 ^ 64 - a

long_value-signed : (a : ℕ) → a < 2 ^ 64 → long_value a ≡ signed (is_high a) (size a)
long_value-signed a h = ground arith

wrapped_product :
    (a b : ℕ)
    → a < 2 ^ 64
    → b < 2 ^ 64
    → size a * size b ≤ 2 ^ 53
    → u64 (a * b) ≡ pattern_of (xor (is_high a) (is_high b)) (size a * size b)
unfolding xor
wrapped_product a b ha hb h = elim (Bool-cases (ltb a (2 ^ 63))) [
  | inl p ↦ elim (Bool-cases (ltb b (2 ^ 63))) [
    | inl q ↦ let h' = rw (p, q) at h in rw (p, q) (omega arith)
    | inr q ↦ let h' = rw (p, q) at h in rw (p, q) (mul_pos_neg a (2 ^ 64 - b) b (omega arith) h')
  ]
  | inr p ↦ elim (Bool-cases (ltb b (2 ^ 63))) [
    | inl q ↦
        let h' = rw (p, q) at h in
        rw (p, q) (omega (arith, mul_pos_neg b (2 ^ 64 - a) a (omega arith) (omega arith)))
    | inr q ↦
        let h' = rw (p, q) at h in
        rw (p, q) (mul_neg_neg (2 ^ 64 - a) (2 ^ 64 - b) a b (omega arith) (omega arith) h')
  ]
]

module _ (d : Double) (a b : ℕ) (ha : a < 2 ^ 64) (hb : b < 2 ^ 64) where
  abbrev exact : ℤ
  exact = long_value a *ℤ long_value b

  exact-signed : exact ≡ signed (xor (is_high a) (is_high b)) (size a * size b)
  exact-signed =
      ap₂ ◌*ℤ◌ (long_value-signed a ha) (long_value-signed b hb)
      ∙ signed_mul (is_high a) (is_high b) (size a) (size b)

  long_value-u64 : magnitude exact ≤ 2 ^ 53 → long_value (u64 (a * b)) ≡ exact
  long_value-u64 h =
      let s = xor (is_high a) (is_high b) in
      let small : size a * size b ≤ 2 ^ 53 =
        omega (arith, ap magnitude exact-signed, magnitude-signed s (size a * size b)) in
      ap long_value (wrapped_product a b ha hb small)
      ∙ long_value-pattern_of s (size a * size b) small
      ∙ sym exact-signed

  fast_long_multiply_small :
      magnitude (long_value a) ≤ 2 ^ 53
      → magnitude (long_value b) ≤ 2 ^ 53
      → magnitude exact ≤ 2 ^ 53
      → fast_long_multiply d a b ≡ some (u64 (a * b))
  unfolding fast_long_multiply
  fast_long_multiply_small ma mb mp =
      let product = d.mul_exact (long_value a) (long_value b) ma mb mp in
      rw (product, d.below_max exact mp, d.above_min exact mp) refl

  -- If both longs and their product have at most 53 bits, the product is the exact one, as a long.
  pub phpmul_small :
      magnitude (long_value a) ≤ 2 ^ 53
      → magnitude (long_value b) ≤ 2 ^ 53
      → magnitude exact ≤ 2 ^ 53
      → (w : ℕ) × (phpmul d (elong a) (elong b) ≡ ok (elong w)) × (long_value w ≡ exact)
  unfolding phpmul product
  phpmul_small ma mb mp =
      (u64 (a * b), rw (fast_long_multiply_small ma mb mp) refl, long_value-u64 mp)
