-- ===== src/Format/Directive.antt =====
-- pcc_snprintf.c: a directive of `pcc_vformatter` up to its conversion character. A format is the
-- list of its bytes without the NUL, so that `[]` is the end; `none` is what C leaves undefined.
pub mod Length
use roadsend_php.Base.{
  ℕ, suc, ◌+◌, ◌-◌, ◌*◌, ◌^◌, List, [], ◌∷◌, Option, none, some, Bool, true, false, ◌&&◌, ltb, leb,
  ◌==◌, if◌then◌else◌, ◌>>=◌,
}
use roadsend_php.Base.Bits.{u32}
use roadsend_php.Base.Int.{ℤ, pos, negsuc}

-- A variable argument: the register of an integer, a string or NULL, a double, or the target of
-- `%n`. Reading one of another kind is undefined.
pub data Arg (D : Type 0) : Type 0 where
  word : ℕ → Arg D
  chars : Option (List ℕ) → Arg D
  real : D → Arg D
  target : Arg D

pub data Adjust : Type 0 where
  left : Adjust
  right : Adjust

-- `var_type_enum`
pub data VarType : Type 0 where
  is_quad : VarType
  is_long : VarType
  is_short : VarType
  is_int : VarType

-- The variables that the flags set.
pub record Flags : Type 0 where
  pub adjust : Adjust
  pub print_sign : Bool
  pub alternate_form : Bool
  pub print_blank : Bool
  pub pad_char : ℕ

abbrev pub default_flags : Flags
default_flags = record {
  adjust = right;
  print_sign = false;
  alternate_form = false;
  print_blank = false;
  pad_char = b' ';
}

-- `islower` and `isdigit` of the C locale.
unfoldable pub is_lower : ℕ → Bool
is_lower c = leb b'a' c && leb c b'z'

unfoldable pub is_digit : ℕ → Bool
is_digit c = leb b'0' c && leb c b'9'

-- The cascade for one flag; `none` is the `break`.
unfoldable pub flag_step : ℕ → Flags → Option Flags
flag_step c f =
    if c == b'-'
    then some (record f { adjust = left })
    else if c == b'+'
    then some (record f { print_sign = true })
    else if c == b'#'
    then some (record f { alternate_form = true })
    else if c == b' '
    then some (record f { print_blank = true })
    else if c == b'0'
    then some (record f { pad_char = b'0' })
    else none

unfoldable pub flags_loop : List ℕ → Flags → Flags × List ℕ
flags_loop [] f = (f, [])
flags_loop (c ∷ fmt) f = elim (flag_step c f) [ none ↦ (f, c ∷ fmt) | some f' ↦ flags_loop fmt f' ]

-- The loop of `STR_TO_DEC`; an `int` that overflows is undefined.
pub dec_loop : ℕ → List ℕ → Option (ℕ × List ℕ)
dec_loop num [] = some (num, [])
dec_loop num (c ∷ str) =
    let next = num * 10 + (c - b'0') in
    let rest = dec_loop next str in
    if is_digit c then (if ltb next (2 ^ 31) then rest else none) else some (num, c ∷ str)

-- The value of an `int` argument.
pub int_value : ℕ → ℤ
int_value w = let n = u32 w in if ltb n (2 ^ 31) then pos n else negsuc (2 ^ 32 - n - 1)

-- The minimal width is there where `adjust_width` is set, and the precision where
-- `adjust_precision` is.
pub record Layout : Type 0 where
  pub flags : Flags
  pub min_width : Option ℕ
  pub precision : Option ℕ

-- A width by an argument: a negative one adjusts to the left. Negating INT_MIN is undefined.
pub star_width : ℤ → Flags → Option (Flags × ℕ)
star_width (pos n) f = some (f, n)
star_width (negsuc n) f =
    if ltb (suc n) (2 ^ 31) then some (record f { adjust = left }, suc n) else none

-- A negative precision counts as zero.
pub star_precision : ℤ → ℕ
star_precision (pos n) = n
star_precision (negsuc n) = 0

module _ {D : Type 0} where
  -- `va_arg` for the types of integers.
  unfoldable pub va_word : List (Arg D) → Option (ℕ × List (Arg D))
  va_word (word w ∷ args) = some (w, args)
  va_word (chars s ∷ args) = none
  va_word (real x ∷ args) = none
  va_word (target ∷ args) = none
  va_word [] = none

  unfoldable pub width_of :
      Flags → List ℕ → List (Arg D) → Option (Flags × Option ℕ × List ℕ × List (Arg D))
  width_of f [] args = some (f, none, [], args)
  width_of f (c ∷ fmt) args =
      if is_digit c
      then (dec_loop 0 (c ∷ fmt) >>= λ (n, rest). some (f, some n, rest, args))
      else if c == b'*'
      then va_word args
        >>= (λ (w, args'). star_width (int_value w) f >>= λ (f', n). some (f', some n, fmt, args'))
      else some (f, none, c ∷ fmt, args)

  -- The precision behind the point.
  pub digits_precision : List ℕ → List (Arg D) → Option (ℕ × List ℕ × List (Arg D))
  digits_precision [] args = some (0, [], args)
  digits_precision (c ∷ fmt) args =
      if is_digit c
      then (dec_loop 0 (c ∷ fmt) >>= λ (n, rest). some (n, rest, args))
      else if c == b'*'
      then (va_word args >>= λ (w, args'). some (star_precision (int_value w), fmt, args'))
      else some (0, c ∷ fmt, args)

  unfoldable pub precision_of : List ℕ → List (Arg D) → Option (Option ℕ × List ℕ × List (Arg D))
  precision_of [] args = some (none, [], args)
  precision_of (c ∷ fmt) args =
      if c == b'.'
      then (digits_precision fmt args >>= λ (n, rest, args'). some (some n, rest, args'))
      else some (none, c ∷ fmt, args)

  -- Flags, width and precision, which are not looked for before a small letter.
  unfoldable pub layout_full : List ℕ → List (Arg D) → Option (Layout × List ℕ × List (Arg D))
  layout_full fmt args =
      let (f, behind) = flags_loop fmt default_flags in
      width_of f behind args >>= λ (f', width, fmt', args').
      precision_of fmt' args' >>= λ (precision, rest, args'').
      some (record { flags = f'; min_width = width; precision = precision }, rest, args'')

  unfoldable pub layout_of : List ℕ → List (Arg D) → Option (Layout × List ℕ × List (Arg D))
  layout_of [] args = layout_full [] args
  layout_of (c ∷ fmt) args =
      if is_lower c
      then some
          (record { flags = default_flags; min_width = none; precision = none }, c ∷ fmt, args)
      else layout_full (c ∷ fmt) args

-- The modifier of the type.
unfoldable pub var_type_of : List ℕ → VarType × List ℕ
var_type_of [] = (is_int, [])
var_type_of (c ∷ fmt) =
    if c == b'q'
    then (is_quad, fmt)
    else if c == b'l'
    then (is_long, fmt)
    else if c == b'h'
    then (is_short, fmt)
    else (is_int, c ∷ fmt)
