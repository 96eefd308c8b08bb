-- ===== src/Format/Directive/Length.antt =====
-- pcc_snprintf.c: reading a directive leaves no more of the format than there was.
use roadsend_php.Base.{
  ℕ, ◌+◌, ◌-◌, ◌*◌, ◌^◌, ◌≤◌, List, [], ◌∷◌, none, some, ltb, ◌==◌, length, arith,
}
use roadsend_php.Base.Ensures.{Ensures, Ensures-bind, Ensures-if, Ensures-any, Ensures-mono}
use roadsend_php.Format.Directive.{
  Arg, Flags, flag_step, flags_loop, dec_loop, is_digit, is_lower, int_value, va_word, star_width,
  width_of, digits_precision, precision_of, layout_full, layout_of, var_type_of, default_flags,
}

flags_loop-length : (fmt : List ℕ) (f : Flags) → length ((flags_loop fmt f).1) ≤ length fmt
unfolding flags_loop
flags_loop-length [] f = omega arith
flags_loop-length (c ∷ fmt) f =
    elim (flag_step c f)
      as (λ o.
        length (
          (elim o as (λ _. Flags × List ℕ) [ none ↦ (f, c ∷ fmt) | some f' ↦ flags_loop fmt f' ]).1)
        ≤ length (c ∷ fmt)) [ none ↦ omega arith | some g ↦ omega (arith, flags_loop-length fmt g) ]

dec_loop-length :
    (num : ℕ) (str : List ℕ) → Ensures (λ r. length r.1 ≤ length str) (dec_loop num str)
unfolding dec_loop
dec_loop-length num [] = omega arith
dec_loop-length num (c ∷ str) =
    let next = num * 10 + (c - b'0') in
    Ensures-if _ (is_digit c) _ _
      (Ensures-if _ (ltb next (2 ^ 31)) _ _
        (Ensures-mono _ _ (dec_loop next str) (dec_loop-length next str) (λ a h. omega arith)) tt)
      (omega arith)

module _ {D : Type 0} (args : List (Arg D)) where
  width_of-length :
      (f : Flags) (fmt : List ℕ) → Ensures (λ r. length r.2 ≤ length fmt) (width_of f fmt args)
  unfolding width_of
  width_of-length f [] = omega arith
  width_of-length f (c ∷ fmt) =
      Ensures-if _ (is_digit c) _ _
        (Ensures-bind _ _ (dec_loop 0 (c ∷ fmt)) _ (dec_loop-length 0 (c ∷ fmt)) (λ a h. h))
        (Ensures-if _ (c == b'*') _ _
          (Ensures-bind _ _ (va_word args) _ (Ensures-any (va_word args)) (λ a _.
            Ensures-bind _ _ (star_width (int_value a.0) f) _ (Ensures-any _) (λ b _. omega arith)))
          (omega arith))

  digits_precision-length :
      (fmt : List ℕ) → Ensures (λ r. length r.1 ≤ length fmt) (digits_precision fmt args)
  unfolding digits_precision
  digits_precision-length [] = omega arith
  digits_precision-length (c ∷ fmt) =
      Ensures-if _ (is_digit c) _ _
        (Ensures-bind _ _ (dec_loop 0 (c ∷ fmt)) _ (dec_loop-length 0 (c ∷ fmt)) (λ a h. h))
        (Ensures-if _ (c == b'*') _ _
          (Ensures-bind _ _ (va_word args) _ (Ensures-any (va_word args)) (λ a _. omega arith))
          (omega arith))

  precision_of-length :
      (fmt : List ℕ) → Ensures (λ r. length r.1 ≤ length fmt) (precision_of fmt args)
  unfolding precision_of
  precision_of-length [] = omega arith
  precision_of-length (c ∷ fmt) =
      Ensures-if _ (c == b'.') _ _
        (Ensures-bind _ _ (digits_precision fmt args) _ (digits_precision-length fmt)
          (λ a h. omega arith))
        (omega arith)

module _ {D : Type 0} where
  layout_full-length :
      (args : List (Arg D)) (fmt : List ℕ)
      → Ensures (λ r. length r.1 ≤ length fmt) (layout_full fmt args)
  unfolding layout_full
  layout_full-length args fmt =
      let (f, behind) = flags_loop fmt default_flags in
      let less = flags_loop-length fmt default_flags in
      Ensures-bind _ _ (width_of f behind args) _ (width_of-length args f behind) (λ a h.
        Ensures-bind _ _ (precision_of a.2 a.3) _ (precision_of-length a.3 a.2)
          (λ b k. omega arith))

  pub layout_of-length :
      (args : List (Arg D)) (fmt : List ℕ)
      → Ensures (λ r. length r.1 ≤ length fmt) (layout_of fmt args)
  unfolding layout_of
  layout_of-length args [] = layout_full-length args []
  layout_of-length args (c ∷ fmt) =
      Ensures-if _ (is_lower c) _ _ (omega arith) (layout_full-length args (c ∷ fmt))

pub var_type_of-length : (fmt : List ℕ) → length ((var_type_of fmt).1) ≤ length fmt
unfolding var_type_of
var_type_of-length [] = omega arith
var_type_of-length (c ∷ fmt) = ground arith
