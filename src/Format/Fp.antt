-- ===== src/Format/Fp.antt =====
-- pcc_snprintf.c: the texts of doubles, `conv_fp` and `pcc_gcvt`. The text that is written through
-- `s` or `p2` is the list of its bytes.
use roadsend_php.Base.{
  ℕ, zero, suc, ◌+◌, ◌-◌, ◌/◌, ◌%◌, List, [], ◌∷◌, ◌++◌, Option, none, some, Bool, false, not, ◌&&◌,
  ◌||◌, ltb, leb, ◌==◌, if◌then◌else◌, ◌>>=◌, length, get_elem?, replicate, take, drop,
}
use roadsend_php.Base.Int.{ℤ, pos, negsuc, ◌-ℤ◌, to_pattern, magnitude, is_neg, pos_part}
use roadsend_php.Files.{last_byte}
use roadsend_php.Format.{conv_10}
use roadsend_php.Format.Directive.{is_lower}
use roadsend_php.Format.Real.{Real}
use roadsend_php.Format.Cvt.{Cvt, ndig, pcc_ecvt, pcc_fcvt}

-- `isalpha` of the C locale.
pub is_alpha : ℕ → Bool
is_alpha c = is_lower c || leb b'A' c && leb c b'Z'

-- So many bytes behind a pointer into an array, and the array from there on.
pub split : ℕ → List ℕ → Option (List ℕ × List ℕ)
split n s = if leb n (length s) then some (take n s, drop n s) else none

-- The bytes before the NUL; without one, the array is left.
pub before_nul : List ℕ → Option (List ℕ)
before_nul [] = none
before_nul (c ∷ s) = if c == 0 then some [] else (before_nul s >>= λ text. some (c ∷ text))

-- The number before the point, the point, and what is left of the digits.
pub fixed_part : ℤ → Bool → Bool → List ℕ → Option (List ℕ × List ℕ)
fixed_part (pos zero) some_digits add_dp p =
    some (if some_digits || add_dp then b'0' ∷ b'.' ∷ [] else b'0' ∷ [], p)
fixed_part (negsuc n) some_digits add_dp p =
    let text =
      if some_digits
      then b'0' ∷ b'.' ∷ replicate (suc n) b'0'
      else if add_dp
      then b'0' ∷ b'.' ∷ []
      else b'0' ∷ [] in
    some (text, p)
fixed_part (pos (suc n)) some_digits add_dp p = do
  (text, rest) ← split (suc n) p
  some (if some_digits || add_dp then text ++ b'.' ∷ [] else text, rest)

-- The digit before the point, and the point.
pub exponent_head : Bool → Bool → List ℕ → Option (List ℕ × List ℕ)
exponent_head some_digits add_dp p = do
  (text, rest) ← split 1 p
  some (if some_digits || add_dp then text ++ b'.' ∷ [] else text, rest)

-- The exponent, of two digits at least.
pub exponent_part : ℕ → ℤ → Option (List ℕ)
exponent_part format (pos zero) = some (format ∷ b'+' ∷ b'0' ∷ b'0' ∷ [])
exponent_part format point = do
  (p, negative) ← conv_10 (to_pattern point) false
  let sign = if negative then b'-' else b'+'
  some (format ∷ sign ∷ (if length p == 1 then b'0' ∷ p else p))

-- What stands behind the call of `pcc_fcvt` or `pcc_ecvt`: the text and `*is_negative`.
pub fp_text : ℕ → Bool → ℕ → Cvt → Option (List ℕ × Bool)
fp_text format add_dp precision cvt = do
  first ← get_elem? cvt.buf 0
  let word = (do text ← before_nul cvt.buf; some (text, false))
  let number = (do
    (head, p) ←
        if format == b'f'
        then fixed_part cvt.decpt (ltb 0 precision) add_dp cvt.buf
        else exponent_head (ltb 0 precision) add_dp cvt.buf
    rest ← before_nul p
    exponent ← if format == b'f' then some [] else exponent_part format (cvt.decpt -ℤ pos 1)
    some (head ++ (rest ++ exponent), cvt.sign))
  if is_alpha first then word else number

-- The loop of `pcc_gcvt` that leaves zeros at the end out: `i` and `ndigit`.
pub trim_loop : ℕ → List ℕ → ℕ → Option ℕ
trim_loop zero p1 ndigit = some ndigit
trim_loop (suc i) p1 ndigit = do
  c ← get_elem? p1 (suc i)
  let rest = trim_loop i p1 (ndigit - 1)
  if c == b'0' then rest else some ndigit

-- The exponent of the E-style: the digit of the tens also where there are hundreds.
pub e_digits : ℕ → List ℕ
e_digits n =
    let hundreds = if ltb 0 (n / 100) then (n / 100 + b'0') ∷ [] else [] in
    let tens = if ltb 0 (n / 10) then (n % 100 / 10 + b'0') ∷ [] else [] in
    hundreds ++ (tens ++ (n % 10 + b'0') ∷ [])

-- The E-style, for `decpt` behind its decrement.
pub e_style : ℕ → ℤ → List ℕ → Option (List ℕ)
e_style ndigit decpt p1 = do
  (first, p) ← split 1 p1
  (rest, q) ← split (ndigit - 1) p
  let zero_digit = if leb ndigit 1 then b'0' ∷ [] else []
  let sign = if is_neg decpt then b'-' else b'+'
  some (first ++ (b'.' ∷ (rest ++ (zero_digit ++ (b'e' ∷ sign ∷ e_digits (magnitude decpt))))))

-- What the plain style has in front where `decpt <= 0`.
pub plain_head : ℤ → ℕ → List ℕ
plain_head (pos zero) first = if first == b'0' then [] else b'0' ∷ b'.' ∷ []
plain_head (pos (suc n)) first = []
plain_head (negsuc n) first =
    (if first == b'0' then [] else b'0' ∷ b'.' ∷ []) ++ replicate (suc n) b'0'

-- The digits of the plain style, with the point behind the first `point` of them if any.
pub plain_digits : ℕ → ℕ → List ℕ → Option (List ℕ)
plain_digits ndigit zero p1 = split ndigit p1 >>= λ (text, rest). some text
plain_digits ndigit (suc point) p1 = do
  (text, rest) ← split ndigit p1
  some (
      if ltb ndigit (suc point)
      then text ++ (replicate (suc point - ndigit) b'0' ++ b'.' ∷ [])
      else take (suc point) text ++ (b'.' ∷ drop (suc point) text))

pub plain_style : ℕ → ℤ → List ℕ → Option (List ℕ)
plain_style ndigit decpt p1 = do
  first ← get_elem? p1 0
  text ← plain_digits ndigit (pos_part decpt) p1
  some (plain_head decpt first ++ text)

-- The test for the E-style.
pub is_e_style : ℕ → ℤ → Bool
is_e_style ndigit (pos n) = ltb (ndigit + 4) n
is_e_style ndigit (negsuc n) = ltb 3 (suc n)

-- The last point is left out, unless there is to be one.
pub drop_point : Bool → List ℕ → List ℕ
drop_point altform text =
    if last_byte text == b'.' && not altform then take (length text - 1) text else text

-- What stands behind the call of `pcc_ecvt` in `pcc_gcvt`.
pub gcvt_text : ℕ → Bool → Cvt → Option (List ℕ)
gcvt_text ndigit altform cvt = do
  kept ← trim_loop (ndigit - 1) cvt.buf ndigit
  text ←
      if is_e_style kept cvt.decpt
      then e_style kept (cvt.decpt -ℤ pos 1) cvt.buf
      else plain_style kept cvt.decpt cvt.buf
  some (drop_point altform (if cvt.sign then b'-' ∷ text else text))

module _ (r : Real) where
  open r use {D}

  -- The array `buf1` is the last argument.
  pub conv_fp : ℕ → D → Bool → ℕ → List ℕ → Option (List ℕ × Bool)
  conv_fp format num add_dp precision buf1 = do
    cvt ←
        if format == b'f'
        then pcc_fcvt r num precision buf1
        else pcc_ecvt r num (precision + 1) buf1
    fp_text format add_dp precision cvt

  pub pcc_gcvt : D → ℕ → Bool → List ℕ → Option (List ℕ)
  pcc_gcvt number ndigit altform buf1 = do
    let n = if leb (ndig - 1) ndigit then ndig - 2 else ndigit
    cvt ← pcc_ecvt r number n buf1
    gcvt_text n altform cvt
