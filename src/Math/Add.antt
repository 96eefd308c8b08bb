-- ===== src/Math/Add.antt =====
-- opaque-math.c: addition and subtraction of longs, and when they leave the longs.
use roadsend_php.Base.{
  ◌⊎◌, ℕ, ◌+◌, ◌-◌, ◌/◌, ◌^◌, ◌<◌, ◌≡◌, refl, Bool, true, false, not, ◌&&◌, arith, ◌==◌, Bool-cases,
  inl, inr,
}
use roadsend_php.Base.Bits.{u64, bit_and_bit}
use roadsend_php.Base.Int.{ℤ, long_value, IsLong, ◌+ℤ◌, ◌-ℤ◌}
use roadsend_php.Math.{same_sign, Obj, elong, real, Outcome, ok, of_long, phpadd, phpsub}
use roadsend_php.Math.Float.{Double}

-- Masking with LONG_MIN leaves the sign bit.
same_sign_lem : (a b : ℕ) → a < 2 ^ 64 → b < 2 ^ 64 → same_sign a b ≡ (a / 2 ^ 63 == b / 2 ^ 63)
unfolding same_sign
same_sign_lem a b ha hb = rw (bit_and_bit 63 a, bit_and_bit 63 b) (ground arith)

abbrev add_overflow : ℕ → ℕ → Bool
add_overflow a b = same_sign a b && not (same_sign a (u64 (a + b)))

abbrev sub_overflow : ℕ → ℕ → Bool
sub_overflow a b = not (same_sign a b) && not (same_sign a (u64 (a + 2 ^ 64 - b)))

module _ (a b : ℕ) (ha : a < 2 ^ 64) (hb : b < 2 ^ 64) where
  add_fits :
      add_overflow a b ≡ false
      → IsLong (long_value a +ℤ long_value b)
        × (long_value (u64 (a + b)) ≡ long_value a +ℤ long_value b)
  unfolding ◌+ℤ◌
  add_fits h =
      let h' = rw (same_sign_lem a b ha hb, same_sign_lem a (u64 (a + b)) ha (omega arith)) at h in
      ground arith

  add_overflows : add_overflow a b ≡ true → ¬ IsLong (long_value a +ℤ long_value b)
  unfolding ◌+ℤ◌
  add_overflows h =
      let h' = rw (same_sign_lem a b ha hb, same_sign_lem a (u64 (a + b)) ha (omega arith)) at h in
      λ fits. ground arith

  sub_fits :
      sub_overflow a b ≡ false
      → IsLong (long_value a -ℤ long_value b)
        × (long_value (u64 (a + 2 ^ 64 - b)) ≡ long_value a -ℤ long_value b)
  unfolding ◌-ℤ◌
  sub_fits h =
      let h' =
        rw (same_sign_lem a b ha hb, same_sign_lem a (u64 (a + 2 ^ 64 - b)) ha (omega arith)) at
          h in
      ground arith

  sub_overflows : sub_overflow a b ≡ true → ¬ IsLong (long_value a -ℤ long_value b)
  unfolding ◌-ℤ◌
  sub_overflows h =
      let h' =
        rw (same_sign_lem a b ha hb, same_sign_lem a (u64 (a + 2 ^ 64 - b)) ha (omega arith)) at
          h in
      λ fits. ground arith

-- What a sum or a difference `exact` of two longs has to become: the long that stands for it if
-- there is one, and else the real `rounded`.
abbrev pub IsExactOr : {D : Type 0} → ℤ → D → Outcome (Obj D) → Type 0
IsExactOr exact rounded r =
    (IsLong exact × ((w : ℕ) × (r ≡ ok (elong w)) × (w < 2 ^ 64) × (long_value w ≡ exact)))
    ⊎ ((¬ IsLong exact) × (r ≡ ok (real rounded)))

-- The sum of two longs is the exact sum as a long if that fits 64 bits, and else the sum as
-- doubles; the test on the sign bits finds the overflow exactly.
pub phpadd_long :
    (d : Double) (a b : ℕ)
    → a < 2 ^ 64
    → b < 2 ^ 64
    → IsExactOr
        (long_value a +ℤ long_value b)
        (d.add (of_long d a) (of_long d b))
        (phpadd d (elong a) (elong b))
unfolding phpadd
phpadd_long d a b ha hb = elim (Bool-cases (add_overflow a b)) [
  | inl over ↦ inr (add_overflows a b ha hb over, rw over refl)
  | inr none_over ↦
      let (fits, exact) = add_fits a b ha hb none_over in
      inl (fits, (u64 (a + b), rw none_over refl, omega arith, exact))
]

-- The difference of two longs is the exact difference as a long if that fits 64 bits, and else the
-- difference as doubles.
pub phpsub_long :
    (d : Double) (a b : ℕ)
    → a < 2 ^ 64
    → b < 2 ^ 64
    → IsExactOr
        (long_value a -ℤ long_value b)
        (d.sub (of_long d a) (of_long d b))
        (phpsub d (elong a) (elong b))
unfolding phpsub
phpsub_long d a b ha hb = elim (Bool-cases (sub_overflow a b)) [
  | inl over ↦ inr (sub_overflows a b ha hb over, rw over refl)
  | inr none_over ↦
      let (fits, exact) = sub_fits a b ha hb none_over in
      inl (fits, (u64 (a + 2 ^ 64 - b), rw none_over refl, omega arith, exact))
]
