-- ===== src/Format/Convert.antt =====
-- pcc_snprintf.c: the `switch` of `pcc_vformatter`, which turns an argument into a text. A text in
-- `num_buf` has room in front of it; writing before the array is `none`.
pub mod Numerals
pub mod Cases
use roadsend_php.Base.{
  ℕ, zero, suc, ◌+◌, ◌-◌, ◌%◌, ◌^◌, List, [], ◌∷◌, ◌++◌, Option, none, some, Bool, true, false, not,
  ◌&&◌, ◌||◌, ltb, leb, ◌==◌, if◌then◌else◌, ◌>>=◌, length, codes,
}
use roadsend_php.Base.Bits.{u32, u64}
use roadsend_php.Format.{conv_10, conv_10_quad, conv_p2, conv_p2_quad}
use roadsend_php.Format.Directive.{VarType, is_quad, is_long, is_short, is_int, Flags, Layout}
use roadsend_php.Format.Real.{Real}
use roadsend_php.Format.Fp.{conv_fp, pcc_gcvt}

-- `NUM_BUF_SIZE`
abbrev pub num_buf_size : ℕ
num_buf_size = 512

-- `s`, the bytes of it, with so many bytes of `num_buf` before it; `fixed` tells that it is S_NULL
-- or `char_buf`.
pub record Text : Type 0 where
  pub bytes : List ℕ
  pub room : ℕ
  pub fixed : Bool

-- A constant or a string of the caller, and a text that ends with `num_buf`.
abbrev pub constant : List ℕ → Text
constant bytes = record { bytes = bytes; room = 0; fixed = false }

abbrev pub fixed_text : List ℕ → Text
fixed_text bytes = record { bytes = bytes; room = 0; fixed = true }

abbrev pub in_num_buf : List ℕ → Text
in_num_buf bytes = record { bytes = bytes; room = num_buf_size - length bytes; fixed = false }

-- `*--s = c; s_len++`
unfoldable pub put_before : ℕ → Text → Option Text
put_before c t =
    if t.room == 0
    then none
    else some (record { bytes = c ∷ t.bytes; room = t.room - 1; fixed = t.fixed })

-- The loop of `FIX_PRECISION` for so many rounds.
pub zeros_before : ℕ → Text → Option Text
zeros_before zero t = some t
zeros_before (suc n) t = put_before b'0' t >>= zeros_before n

pub fix_precision : Option ℕ → Text → Option Text
fix_precision none t = some t
fix_precision (some precision) t =
    let p = if ltb precision (num_buf_size - 1) then precision else num_buf_size - 1 in
    zeros_before (p - length t.bytes) t

-- A number of so many bits in an argument, extended to 64 bits by its sign or by zeros.
pub extend_sign : ℕ → ℕ → ℕ
extend_sign bits w =
    let n = w % 2 ^ bits in if ltb n (2 ^ (bits - 1)) then n else 2 ^ 64 - 2 ^ bits + n

pub signed_arg : VarType → ℕ → ℕ
signed_arg is_quad w = w
signed_arg is_long w = w
signed_arg is_short w = extend_sign 16 w
signed_arg is_int w = extend_sign 32 w

pub unsigned_arg : VarType → ℕ → ℕ
unsigned_arg is_quad w = w
unsigned_arg is_long w = w
unsigned_arg is_short w = w % 2 ^ 16
unsigned_arg is_int w = u32 w

-- `i_num` is assigned for all types but the quad.
pub next_num : VarType → ℕ → ℕ → ℕ
next_num is_quad i_num value = i_num
next_num is_long i_num value = value
next_num is_short i_num value = value
next_num is_int i_num value = value

pub print_10 : VarType → ℕ → Bool → Option (List ℕ × Bool)
print_10 is_quad num u = conv_10_quad num u
print_10 is_long num u = conv_10 num u
print_10 is_short num u = conv_10 num u
print_10 is_int num u = conv_10 num u

pub print_p2 : VarType → ℕ → ℕ → Bool → Option (List ℕ)
print_p2 is_quad num nbits upper = conv_p2_quad num nbits upper
print_p2 is_long num nbits upper = conv_p2 num nbits upper
print_p2 is_short num nbits upper = conv_p2 num nbits upper
print_p2 is_int num nbits upper = conv_p2 num nbits upper

-- The prefix of a number by its sign and the flags; 0 is NUL.
unfoldable pub sign_prefix : Flags → Bool → ℕ
sign_prefix f negative =
    if negative then b'-' else if f.print_sign then b'+' else if f.print_blank then b' ' else 0

-- `prefix_char`, `pad_char` and `s` behind the `switch`; `i_num` lives on to the next directive.
pub record Conversion : Type 0 where
  pub text : Text
  pub prefix_char : ℕ
  pub pad_char : ℕ
  pub i_num : ℕ

-- The cases 'u', and 'd' and 'i'.
pub case_u : Layout → VarType → ℕ → ℕ → Option Conversion
case_u l t w i_num = do
  let value = unsigned_arg t w
  (p, negative) ← print_10 t value true
  s ← fix_precision l.precision (in_num_buf p)
  some (record {
    text = s;
    prefix_char = 0;
    pad_char = l.flags.pad_char;
    i_num = next_num t i_num value;
  })

pub case_d : Layout → VarType → ℕ → ℕ → Option Conversion
case_d l t w i_num = do
  let value = signed_arg t w
  (p, negative) ← print_10 t value false
  s ← fix_precision l.precision (in_num_buf p)
  some (record {
    text = s;
    prefix_char = sign_prefix l.flags negative;
    pad_char = l.flags.pad_char;
    i_num = next_num t i_num value;
  })

-- `*s` is not '0'.
pub no_zero_first : List ℕ → Bool
no_zero_first [] = true
no_zero_first (c ∷ s) = not (c == b'0')

pub case_o : Layout → VarType → ℕ → ℕ → Option Conversion
case_o l t w i_num = do
  p ← print_p2 t (unsigned_arg t w) 3 false
  s ← fix_precision l.precision (in_num_buf p)
  octal ← if l.flags.alternate_form && no_zero_first s.bytes then put_before b'0' s else some s
  some (record { text = octal; prefix_char = 0; pad_char = l.flags.pad_char; i_num = i_num })

-- The cases 'x' and 'X'; the test is one of `i_num`, not of `ui_num`.
pub case_x : ℕ → Layout → VarType → ℕ → ℕ → Option Conversion
case_x format l t w i_num = do
  p ← print_p2 t (unsigned_arg t w) 4 (format == b'X')
  s ← fix_precision l.precision (in_num_buf p)
  hex ←
      if l.flags.alternate_form && not (i_num == 0)
      then put_before format s >>= put_before b'0'
      else some s
  some (record { text = hex; prefix_char = 0; pad_char = l.flags.pad_char; i_num = i_num })

-- `strlen`, and the walk of at most `precision` bytes; reading behind the string is `none`.
pub string_part : Option ℕ → List ℕ → Option (List ℕ)
string_part (some zero) s = some []
string_part precision [] = none
string_part none (c ∷ s) = if c == 0 then some [] else (string_part none s >>= λ t. some (c ∷ t))
string_part (some (suc n)) (c ∷ s) =
    if c == 0 then some [] else (string_part (some n) s >>= λ t. some (c ∷ t))

pub case_s : Layout → Option (List ℕ) → ℕ → Option Conversion
case_s l none i_num =
    some (record {
      text = fixed_text (codes "(null)");
      prefix_char = 0;
      pad_char = b' ';
      i_num = i_num;
    })
case_s l (some s) i_num = do
  t ← string_part l.precision s
  some (record { text = constant t; prefix_char = 0; pad_char = b' '; i_num = i_num })

pub case_c : ℕ → ℕ → Conversion
case_c w i_num = record {
  text = fixed_text ((w % 256) ∷ []);
  prefix_char = 0;
  pad_char = b' ';
  i_num = i_num;
}

-- The case '%', and the default one, which prints the letter that is not understood.
pub case_percent : ℕ → Conversion
case_percent i_num = record {
  text = fixed_text (b'%' ∷ []);
  prefix_char = 0;
  pad_char = b' ';
  i_num = i_num;
}

pub case_default : ℕ → ℕ → Conversion
case_default format i_num = record {
  text = fixed_text (b'%' ∷ format ∷ []);
  prefix_char = 0;
  pad_char = b' ';
  i_num = i_num;
}

-- "%pp"
pub case_pp : ℕ → ℕ → Option Conversion
case_pp w i_num = do
  p ← conv_p2 (u64 w) 4 false
  some (record { text = in_num_buf p; prefix_char = 0; pad_char = b' '; i_num = i_num })

-- A constant that keeps the padding of the flags, as `"%p"` with another letter prints one.
pub literal : List ℕ → Layout → ℕ → Conversion
literal s l i_num = record {
  text = constant s;
  prefix_char = 0;
  pad_char = l.flags.pad_char;
  i_num = i_num;
}

pub case_bogus : Layout → ℕ → Conversion
case_bogus l i_num = literal (codes "bogus %p") l i_num

-- A text that starts at `&num_buf[room]`, with so many bytes behind it inside the array.
abbrev pub from_index : ℕ → ℕ → List ℕ → Option Text
from_index room behind bytes =
    if leb (room + (length bytes + behind)) num_buf_size
    then some (record { bytes = bytes; room = room; fixed = false })
    else none

-- The text of 'g' behind the sign, with the point of the alternate form and the 'E' of 'G'.
pub has_byte : ℕ → List ℕ → Bool
has_byte c [] = false
has_byte c (d ∷ s) = d == c || has_byte c s

pub first_e : List ℕ → List ℕ
first_e [] = []
first_e (c ∷ s) = if c == b'e' then b'E' ∷ s else c ∷ first_e s

pub g_text : ℕ → Bool → List ℕ → List ℕ
g_text format altform s =
    let pointed = if altform && not (has_byte b'.' s) then s ++ b'.' ∷ [] else s in
    if format == b'G' then first_e pointed else pointed

-- `if (*s == '-') prefix_char = *s++`
pub g_sign : Flags → List ℕ → ℕ × ℕ × List ℕ
g_sign f [] = (sign_prefix f false, 1, [])
g_sign f (c ∷ s) = if c == b'-' then (b'-', 2, s) else (sign_prefix f false, 1, c ∷ s)

module _ (r : Real) where
  open r use {D, is_nan, is_inf, is_positive}

  -- The cases 'f', 'e' and 'E'; without a precision there are FLOAT_DIGITS.
  pub case_f : ℕ → Layout → D → List ℕ → ℕ → Option Conversion
  case_f format l num buf1 i_num =
      let precision : ℕ = elim l.precision [ none ↦ 6 | some n ↦ n ] in
      let number = (do
        (s, negative) ← conv_fp r format num l.flags.alternate_form precision buf1
        t ← from_index 1 0 s
        some (record {
          text = t;
          prefix_char = sign_prefix l.flags negative;
          pad_char = l.flags.pad_char;
          i_num = i_num;
        })) in
      if is_nan num
      then some (literal (codes "nan") l i_num)
      else if is_inf num
      then some (literal (codes "inf") l i_num)
      else number

  -- The cases 'g' and 'G'.
  pub case_g : ℕ → Layout → D → List ℕ → ℕ → Option Conversion
  case_g format l num buf1 i_num =
      let precision : ℕ = elim l.precision [ none ↦ 6 | some zero ↦ 1 | some (suc n) ↦ suc n ] in
      let number = (do
        s ← pcc_gcvt r num precision l.flags.alternate_form buf1
        whole ← from_index 1 1 s
        let (prefix_char, room, rest) = g_sign l.flags s
        let bytes = g_text format l.flags.alternate_form rest
        t ← from_index room 1 bytes
        some (record {
          text = t;
          prefix_char = prefix_char;
          pad_char = l.flags.pad_char;
          i_num = i_num;
        })) in
      if is_nan num
      then some (literal (codes "NAN") l i_num)
      else if is_inf num
      then some (literal (if is_positive num then codes "INF" else codes "-INF") l i_num)
      else number
