-- ===== src/Format/Switch/Letters.antt =====
-- pcc_snprintf.c: directives of one letter.
use roadsend_php.Base.{ℕ, ◌≡◌, refl, List, ◌∷◌, none, some, ◌>>=◌, Option-cases, inl, inr}
use roadsend_php.Format.Directive.{
  Arg, word, is_int, Layout, layout_of, var_type_of, is_lower, layout_full, flags_loop, flag_step,
  width_of, precision_of, is_digit, va_word, default_flags,
}
use roadsend_php.Format.Real.{Real}
use roadsend_php.Format.Convert.{case_d, case_percent}
use roadsend_php.Format.Switch.{print, directive, switch, switch_letter, on_word}

-- No flags, no width and no precision.
abbrev pub plain_layout : Layout
plain_layout = record { flags = default_flags; min_width = none; precision = none }

module _ (r : Real) (buf1 : List ℕ) where
  open r use {D}

  pub directive_d :
      (fmt : List ℕ) (w i_num : ℕ) (args : List (Arg D))
      → directive r buf1 (b'd' ∷ fmt) i_num (word w ∷ args) ≡ (
          case_d plain_layout is_int w i_num >>= λ c.
          some (plain_layout, is_int, print c, fmt, args))
  unfolding directive switch switch_letter on_word layout_of var_type_of is_lower va_word
  directive_d fmt w i_num args = elim (Option-cases (case_d plain_layout is_int w i_num)) [
    | inl e ↦ rw e refl
    | inr (c, e) ↦ rw e refl
  ]

  pub directive_percent :
      (fmt : List ℕ) (i_num : ℕ) (args : List (Arg D))
      → directive r buf1 (b'%' ∷ fmt) i_num args
        ≡ some (plain_layout, is_int, print (case_percent i_num), fmt, args)
  unfolding directive switch switch_letter on_word layout_of var_type_of is_lower layout_full
      flags_loop flag_step width_of precision_of is_digit
  directive_percent fmt i_num args = refl
