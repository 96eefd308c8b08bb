-- ===== src/Format/Switch/Length.antt =====
-- pcc_snprintf.c: a directive leaves no more of the format than there was.
use roadsend_php.Base.{ℕ, ◌≤◌, ◌≡◌, List, [], ◌∷◌, some, ◌==◌, if◌then◌else◌, length, arith}
use roadsend_php.Base.Ensures.{
  Ensures, Ensures-bind, Ensures-if, Ensures-any, Ensures-some, Ensures-mono,
}
use roadsend_php.Format.Directive.{Arg, VarType, Layout, layout_of, var_type_of, va_word}
use roadsend_php.Format.Directive.Length.{layout_of-length, var_type_of-length}
use roadsend_php.Format.Real.{Real}
use roadsend_php.Format.Convert.{case_pp, case_bogus}
use roadsend_php.Format.Switch.{Action, switch_p, switch_letter, switch, directive}

switch_p-length :
    {D : Type 0} (fmt : List ℕ) (l : Layout) (i_num : ℕ) (args : List (Arg D))
    → Ensures (λ r. length r.1 ≤ length fmt) (switch_p fmt l i_num args)
unfolding switch_p
switch_p-length [] l i_num args = omega arith
switch_p-length (c ∷ fmt) l i_num args =
    Ensures-bind _ _ (va_word args) _ (Ensures-any (va_word args)) (λ a _.
      Ensures-bind _ _ (if c == b'p' then case_pp a.0 i_num else some (case_bogus l i_num)) _
        (Ensures-any _) (λ b _. omega arith))

module _ (r : Real) (buf1 : List ℕ) where
  open r use {D}

  switch-length :
      (fmt : List ℕ) (l : Layout) (t : VarType) (i_num : ℕ) (args : List (Arg D))
      → Ensures (λ x. length x.1 ≤ length fmt) (switch r buf1 fmt l t i_num args)
  unfolding switch
  switch-length [] l t i_num args = omega arith
  switch-length (c ∷ fmt) l t i_num args =
      Ensures-if _ (c == b'p') _ _
        (Ensures-mono _ _ (switch_p fmt l i_num args) (switch_p-length fmt l i_num args)
          (λ a h. omega arith))
        (Ensures-bind _ _ (switch_letter r buf1 c l t i_num args) _ (Ensures-any _)
          (λ a _. omega arith))

  directive-Ensures :
      (fmt : List ℕ) (i_num : ℕ) (args : List (Arg D))
      → Ensures (λ x. length x.3 ≤ length fmt) (directive r buf1 fmt i_num args)
  unfolding directive
  directive-Ensures fmt i_num args =
      Ensures-bind _ _ (layout_of fmt args) _ (layout_of-length args fmt) (λ a h.
        let t = var_type_of a.1 in
        Ensures-bind _ _ (switch r buf1 t.1 a.0 t.0 i_num a.2) _
          (switch-length t.1 a.0 t.0 i_num a.2) (λ b k. omega (arith, var_type_of-length a.1)))

  pub directive-length :
      (fmt rest : List ℕ) (i_num : ℕ) (args args' : List (Arg D)) (l : Layout) (t : VarType)
      (action : Action)
      → directive r buf1 fmt i_num args ≡ some (l, t, action, rest, args')
      → length rest ≤ length fmt
  directive-length fmt rest i_num args args' l t action e =
      Ensures-some (λ x. length x.3 ≤ length fmt) (directive r buf1 fmt i_num args) _
        (directive-Ensures fmt i_num args) e
