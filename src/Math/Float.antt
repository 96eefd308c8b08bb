-- ===== src/Math/Float.antt =====
-- The doubles of C, which opaque-math.c computes with, as a parameter.
use roadsend_php.Base.{ℕ, ◌-◌, ◌^◌, ◌≤◌, ◌≡◌, Bool, false}
use roadsend_php.Base.Int.{ℤ, pos, negsuc, magnitude, ◌*ℤ◌}

-- The operations that the code uses. The laws are those of IEEE 754 for integers of at most 53
-- bits, which a double holds exactly.
pub record Double : Type 1 where
  pub D : Type 0
  pub of_ℤ : ℤ → D
  pub to_long : D → ℕ
  pub to_ulong : D → ℕ
  pub add : D → D → D
  pub sub : D → D → D
  pub mul : D → D → D
  pub div : D → D → D
  pub gtb : D → D → Bool
  pub geb : D → D → Bool
  pub is_zero : D → Bool
  pub mul_exact :
      (x y : ℤ)
      → magnitude x ≤ 2 ^ 53
      → magnitude y ≤ 2 ^ 53
      → magnitude (x *ℤ y) ≤ 2 ^ 53
      → mul (of_ℤ x) (of_ℤ y) ≡ of_ℤ (x *ℤ y)
  pub below_max : (x : ℤ) → magnitude x ≤ 2 ^ 53 → geb (of_ℤ x) (of_ℤ (pos (2 ^ 63 - 1))) ≡ false
  pub above_min : (x : ℤ) → magnitude x ≤ 2 ^ 53 → geb (of_ℤ (negsuc (2 ^ 63 - 1))) (of_ℤ x) ≡ false
