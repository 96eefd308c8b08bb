-- ===== src/Math.antt =====
-- runtime/opaque-math.c: the numbers of PHP and their arithmetic, with a `long` of 64 bits.
pub mod Float
pub mod Add
pub mod Multiply
pub mod Divide
mod Tests
pub mod Radix
use Prim.Native.Nat.{bit_and}
use roadsend_php.Base.{
  ℕ, zero, suc, ◌+◌, ◌-◌, ◌*◌, ◌/◌, ◌%◌, ◌^◌, List, [], ◌∷◌, Option, none, some, Bool, true, false,
  not, ◌&&◌, ◌||◌, ltb, ◌==◌, if◌then◌else◌, codes,
}
use roadsend_php.Base.Bits.{u64}
use roadsend_php.Base.Int.{ℤ, pos, negsuc, long_value, to_pattern, c_div, c_rem}
use roadsend_php.Math.Float.{Double}

abbrev pub long_min : ℕ
long_min = 2 ^ 63

abbrev pub long_max : ℕ
long_max = 2 ^ 63 - 1

-- An `obj_t`: an elong with its pattern, a real, or an object that is no number.
pub data Obj (D : Type 0) : Type 0 where
  elong : ℕ → Obj D
  real : D → Obj D
  other : Obj D

-- `phpnum_fail` does not return; `fault` is undefined behaviour of C, a trap on x86.
pub data Outcome (A : Type 0) : Type 0 where
  ok : A → Outcome A
  fail : Outcome A
  fault : Outcome A

infixl 5 ◌>>=◌
abbrev pub ◌>>=◌ : {A B : Type 0} → Outcome A → (A → Outcome B) → Outcome B
ok a >>= f = f a
fail >>= f = fail
fault >>= f = fault

-- `a == b` for the sign bits of the patterns.
pub same_sign : ℕ → ℕ → Bool
same_sign a b = bit_and a long_min == bit_and b long_min

-- The quotient LONG_MIN / -1 does not fit: the processor traps.
pub overflows : ℕ → ℕ → Bool
overflows a b = a == long_min && b == 2 ^ 64 - 1

module _ (d : Double) where
  open d use {D, of_ℤ, to_long, to_ulong, add, sub, mul, div, gtb, geb, is_zero}

  -- `(double) BELONG_TO_LONG(a)`
  abbrev pub of_long : ℕ → D
  of_long a = of_ℤ (long_value a)

  pub phpnum_is_float : Obj D → Bool
  phpnum_is_float (real x) = true
  phpnum_is_float _ = false

  pub phpnum_is_long : Obj D → Bool
  phpnum_is_long (real x) = false
  phpnum_is_long _ = true

  -- Reading the number out of an object that is none is a fault.
  pub phpnum_to_long : Obj D → Outcome ℕ
  phpnum_to_long (real x) = ok (if gtb x (of_ℤ (pos long_max)) then to_ulong x else to_long x)
  phpnum_to_long (elong a) = ok a
  phpnum_to_long other = fault

  pub phpnum_to_double : Obj D → Outcome D
  phpnum_to_double (elong a) = ok (of_long a)
  phpnum_to_double (real x) = ok x
  phpnum_to_double other = fault

  pub phpadd : Obj D → Obj D → Outcome (Obj D)
  phpadd (elong a) (elong b) =
      let lval = u64 (a + b) in
      if same_sign a b && not (same_sign a lval)
      then ok (real (add (of_long a) (of_long b)))
      else ok (elong lval)
  phpadd (elong a) (real y) = ok (real (add (of_long a) y))
  phpadd (real x) (elong b) = ok (real (add x (of_long b)))
  phpadd (real x) (real y) = ok (real (add x y))
  phpadd _ _ = fail

  pub phpsub : Obj D → Obj D → Outcome (Obj D)
  phpsub (elong a) (elong b) =
      let lval = u64 (a + 2 ^ 64 - b) in
      if not (same_sign a b) && not (same_sign a lval)
      then ok (real (sub (of_long a) (of_long b)))
      else ok (elong lval)
  phpsub (elong a) (real y) = ok (real (sub (of_long a) y))
  phpsub (real x) (elong b) = ok (real (sub x (of_long b)))
  phpsub (real x) (real y) = ok (real (sub x y))
  phpsub _ _ = fail

  -- `FAST_LONG_MULTIPLY` without the assembly of i386: `none` stands for `usedval`. The product
  -- of the longs is written with wrap-around, as the machine computes it.
  pub fast_long_multiply : ℕ → ℕ → Option ℕ
  fast_long_multiply a b =
      let tmpvar = mul (of_long a) (of_long b) in
      if geb tmpvar (of_ℤ (pos long_max)) || geb (of_ℤ (long_value long_min)) tmpvar
      then none
      else some (u64 (a * b))

  -- `if (use_dval)`
  product : D → Option ℕ → Outcome (Obj D)
  product dval none = ok (real dval)
  product dval (some lval) = ok (elong lval)

  pub phpmul : Obj D → Obj D → Outcome (Obj D)
  phpmul (elong a) (elong b) = product (mul (of_long a) (of_long b)) (fast_long_multiply a b)
  phpmul (real x) (real y) = ok (real (mul x y))
  phpmul (real x) (elong b) = ok (real (mul x (of_long b)))
  phpmul (elong a) (real y) = ok (real (mul (of_long a) y))
  phpmul _ _ = fail

  -- The test for zero in front.
  pub is_zero_divisor : Obj D → Bool
  is_zero_divisor (elong b) = b == 0
  is_zero_divisor (real y) = is_zero y
  is_zero_divisor other = false

  -- Behind the test for zero.
  pub quotient : Obj D → Obj D → Outcome (Obj D)
  quotient (elong a) (elong b) =
      if overflows a b
      then fault
      else if to_pattern (c_rem (long_value a) (long_value b)) == 0
      then ok (elong (to_pattern (c_div (long_value a) (long_value b))))
      else ok (real (div (of_long a) (of_long b)))
  quotient (elong a) (real y) = ok (real (div (of_long a) y))
  quotient (real x) (elong b) = ok (real (div x (of_long b)))
  quotient (real x) (real y) = ok (real (div x y))
  quotient _ _ = fail

  pub phpdiv : Obj D → Obj D → Outcome (Obj D)
  phpdiv a b = if is_zero_divisor b then fail else quotient a b

  pub phpmod : Obj D → Obj D → Outcome (Obj D)
  phpmod a b = do
    aval ← phpnum_to_long a
    bval ← phpnum_to_long b
    if bval == 0
        then fail
        else if overflows aval bval
        then fault
        else ok (elong (to_pattern (c_rem (long_value aval) (long_value bval))))

  -- The two subtractions of the expression are the same one.
  pub phpnum_compare : Obj D → Obj D → Outcome ℤ
  phpnum_compare a b = do
    aval ← phpnum_to_double a
    bval ← phpnum_to_double b
    let diff = sub aval bval
    if not (is_zero diff)
        then if gtb diff (of_ℤ (pos 0)) then ok (pos 1) else ok (negsuc 0)
        else ok (pos 0)

-- `for( ax = x; ax > 0; ax /= radix ) bits++`, on fuel: the digits are counted first.
pub count_digits : ℕ → ℕ → ℕ → ℕ → Option ℕ
count_digits zero radix ax bits = none
count_digits (suc fuel) radix ax bits =
    let rest = count_digits fuel radix (ax / radix) (bits + 1) in
    if ax == 0 then some bits else rest

-- The table `letters`, with the NUL behind it.
pub letter : ℕ → Option ℕ
letter n =
    if ltb n 10
    then some (b'0' + n)
    else if ltb n 16
    then some (b'a' + (n - 10))
    else if n == 16
    then some 0
    else none

-- The second loop writes the string from its end.
pub write_digits : ℕ → ℕ → ℕ → List ℕ → Option (List ℕ)
write_digits zero radix ax s = some s
write_digits (suc bits) radix ax s = elim (letter (ax % radix)) [
  | none ↦ none
  | some c ↦ write_digits bits radix (ax / radix) (c ∷ s)
]

-- `x` and `radix` as patterns of `unsigned long`; a division by zero is `none`. 65 rounds are enough for a radix of 2 or more.
pub re_unsigned_to_string : ℕ → ℕ → Option (List ℕ)
re_unsigned_to_string x radix =
    if radix == 0 then none else elim (count_digits 65 radix x (if x == 0 then 1 else 0)) [
      | none ↦ none
      | some bits ↦ write_digits bits radix x []
    ]
