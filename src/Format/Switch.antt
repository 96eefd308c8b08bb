-- ===== src/Format/Switch.antt =====
-- pcc_snprintf.c: the `switch` of `pcc_vformatter` with the arguments that its cases take.
pub mod Length
pub mod Letters
use roadsend_php.Base.{ℕ, List, [], ◌∷◌, Option, none, some, ◌||◌, ◌==◌, if◌then◌else◌, ◌>>=◌}
use roadsend_php.Format.Directive.{
  Arg, word, chars, real, target, VarType, Layout, layout_of, var_type_of, va_word,
}
use roadsend_php.Format.Real.{Real}
use roadsend_php.Format.Convert.{
  Conversion, case_u, case_d, case_o, case_x, case_s, case_c, case_percent, case_default, case_pp,
  case_bogus, case_f, case_g,
}

-- What the `switch` leads to: a text to print, `%n`, or the end of the format.
pub data Action : Type 0 where
  print : Conversion → Action
  count : Action
  finish : Action

module _ {D : Type 0} where
  -- The cases with an argument.
  pub on_word : (ℕ → Option Conversion) → List (Arg D) → Option (Action × List (Arg D))
  on_word f args = va_word args >>= λ (w, rest). f w >>= λ c. some (print c, rest)

  pub on_chars : Layout → ℕ → List (Arg D) → Option (Action × List (Arg D))
  on_chars l i_num (chars s ∷ args) = case_s l s i_num >>= λ c. some (print c, args)
  on_chars l i_num (word w ∷ args) = none
  on_chars l i_num (real x ∷ args) = none
  on_chars l i_num (target ∷ args) = none
  on_chars l i_num [] = none

  pub on_real : (D → Option Conversion) → List (Arg D) → Option (Action × List (Arg D))
  on_real f (real x ∷ args) = f x >>= λ c. some (print c, args)
  on_real f (word w ∷ args) = none
  on_real f (chars s ∷ args) = none
  on_real f (target ∷ args) = none
  on_real f [] = none

  pub on_target : List (Arg D) → Option (Action × List (Arg D))
  on_target (target ∷ args) = some (count, args)
  on_target (word w ∷ args) = none
  on_target (chars s ∷ args) = none
  on_target (real x ∷ args) = none
  on_target [] = none

  -- "%p" and a second letter; at the end of the format it is ignored.
  pub switch_p : List ℕ → Layout → ℕ → List (Arg D) → Option (Action × List ℕ × List (Arg D))
  switch_p [] l i_num args = some (finish, [], args)
  switch_p (c ∷ fmt) l i_num args = do
    (w, rest) ← va_word args
    conversion ← if c == b'p' then case_pp w i_num else some (case_bogus l i_num)
    some (print conversion, fmt, rest)

module _ (r : Real) (buf1 : List ℕ) where
  open r use {D}

  -- The cases of one letter.
  pub switch_letter : ℕ → Layout → VarType → ℕ → List (Arg D) → Option (Action × List (Arg D))
  switch_letter c l t i_num args =
      if c == b'u'
      then on_word (λ w. case_u l t w i_num) args
      else if c == b'd' || c == b'i'
      then on_word (λ w. case_d l t w i_num) args
      else if c == b'o'
      then on_word (λ w. case_o l t w i_num) args
      else if c == b'x' || c == b'X'
      then on_word (λ w. case_x c l t w i_num) args
      else if c == b's'
      then on_chars l i_num args
      else if c == b'f' || c == b'e' || c == b'E'
      then on_real (λ x. case_f r c l x buf1 i_num) args
      else if c == b'g' || c == b'G'
      then on_real (λ x. case_g r c l x buf1 i_num) args
      else if c == b'c'
      then on_word (λ w. some (case_c w i_num)) args
      else if c == b'%'
      then some (print (case_percent i_num), args)
      else if c == b'n'
      then on_target args
      else some (print (case_default c i_num), args)

  pub switch :
      List ℕ → Layout → VarType → ℕ → List (Arg D) → Option (Action × List ℕ × List (Arg D))
  switch [] l t i_num args = some (finish, [], args)
  switch (c ∷ fmt) l t i_num args =
      if c == b'p'
      then switch_p fmt l i_num args
      else (do (action, rest) ← switch_letter c l t i_num args; some (action, fmt, rest))

  -- A directive, from behind its '%' to behind its letter.
  pub directive :
      List ℕ → ℕ → List (Arg D) → Option (Layout × VarType × Action × List ℕ × List (Arg D))
  directive fmt i_num args = do
    (l, behind, args') ← layout_of fmt args
    let (t, letter) = var_type_of behind
    (action, rest, args'') ← switch letter l t i_num args'
    some (l, t, action, rest, args'')
