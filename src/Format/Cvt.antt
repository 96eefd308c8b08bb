-- ===== src/Format/Cvt.antt =====
-- pcc_snprintf.c: the decimal digits of a double, `pcc_cvt`. What the array `buf` of 80 bytes holds
-- at the start is an argument; pointers into it are indices, and an access outside of it is `none`.
pub mod Bounds
pub mod Safety
use roadsend_php.Base.{
  ℕ, zero, suc, ◌+◌, ◌-◌, ◌%◌, List, ◌++◌, Option, none, some, Bool, true, false, not, ◌&&◌, ltb,
  leb, ◌==◌, if◌then◌else◌, ◌>>=◌, length, get_elem?, set, take, drop,
}
use roadsend_php.Base.Int.{ℤ, pos, negsuc, ◌+ℤ◌, sub_ℕ}
use roadsend_php.Format.Real.{Real}

-- `NDIG`
abbrev pub ndig : ℕ
ndig = 80

-- `*p = c`
pub store : List ℕ → ℕ → ℕ → Option (List ℕ)
store buf p c = if ltb p (length buf) then some (set buf p (c % 256)) else none

-- `memmove(&buf[dst], &buf[0], n)`
pub move : List ℕ → ℕ → ℕ → Option (List ℕ)
move buf dst n =
    if leb (dst + n) (length buf)
    then some (take dst buf ++ (take n buf ++ drop (dst + n) buf))
    else none

-- What the loop over the integer part changes, apart from `fi`.
pub record Whole : Type 0 where
  pub buf : List ℕ
  pub p1 : ℕ
  pub r2 : ℕ

-- Making room for more digits in front.
pub make_room : ℕ → Whole → Option Whole
make_room ndigits w =
    let mvl = ndig - ndigits in
    let moved = if ltb 0 ndigits then move w.buf mvl (ndig - mvl - 1) else some w.buf in
    if w.p1 == 0 then (moved >>= λ buf. some (record w { buf = buf; p1 = mvl })) else some w

-- A round of the loop, but for `fi`.
pub whole_step : ℕ → ℕ → Whole → Option Whole
whole_step ndigits digit w = do
  v ← make_room ndigits w
  buf ← store v.buf (v.p1 - 1) (digit + b'0')
  some (record { buf = buf; p1 = v.p1 - 1; r2 = v.r2 + 1 })

-- `*p++ = *p1++` for so many rounds.
pub copy_loop : ℕ → ℕ → ℕ → List ℕ → Option (List ℕ)
copy_loop zero p p1 buf = some buf
copy_loop (suc rounds) p p1 buf = do
  c ← get_elem? buf p1
  next ← store buf p c
  copy_loop rounds (p + 1) (p1 + 1) next

-- Rounding: the carry runs towards the front; whether it leaves the first place.
pub carry : ℕ → List ℕ → Option (List ℕ × Bool)
carry zero buf = do
  c ← get_elem? buf 0
  if ltb b'9' c then (store buf 0 b'1' >>= λ next. some (next, true)) else some (buf, false)
carry (suc p1) buf = do
  c ← get_elem? buf (suc p1)
  let on = (do
    zeroed ← store buf (suc p1) b'0'
    d ← get_elem? zeroed p1
    next ← store zeroed p1 (d + 1)
    carry p1 next)
  if ltb b'9' c then on else some (buf, false)

-- The digits, the place of the decimal point and the sign.
pub record Cvt : Type 0 where
  pub buf : List ℕ
  pub decpt : ℤ
  pub sign : Bool

-- The end of `pcc_cvt`, behind `p = p1`.
pub round_at : Bool → ℕ → ℤ → Bool → List ℕ → Option Cvt
round_at eflag p1 r2 sign buf = do
  c ← get_elem? buf p1
  raised ← store buf p1 (c + 5)
  (rounded, out) ← carry p1 raised
  let longer = out && not eflag
  zeroed ← (if longer && ltb 0 p1 then store rounded p1 b'0' else some rounded)
  ended ← store zeroed (if longer then p1 + 1 else p1) 0
  some (record { buf = ended; decpt = (if out then r2 +ℤ pos 1 else r2); sign = sign })

module _ (r : Real) where
  open r use {D, nil, is_negative, is_positive, is_zero, lt_one, neg, mul_10, div_10, whole, frac}
  open r use {to_int, tenth, digits, zeros}

  -- The loop over the integer part, on fuel.
  pub whole_loop : ℕ → ℕ → D → Whole → Option Whole
  whole_loop zero ndigits fi w = none
  whole_loop (suc fuel) ndigits fi w =
      let quotient = div_10 fi in
      let rest = whole_step ndigits (tenth (frac quotient)) w >>= λ v.
      whole_loop fuel ndigits (whole quotient) v in
      if is_zero fi then some w else rest

  -- The loop over the zeros behind the point, on fuel: `arg`, and -r2.
  pub zeros_loop : ℕ → Bool → ℕ → D → ℕ → Option (D × ℕ)
  zeros_loop zero eflag ndigits arg n = none
  zeros_loop (suc fuel) eflag ndigits arg n =
      let fj = mul_10 arg in
      let rest = zeros_loop fuel eflag ndigits fj (n + 1) in
      if lt_one fj && not (not eflag && ltb n ndigits) then rest else some (arg, n)

  -- `*p++ = (int) fj + '0'; arg = modf(arg * 10, &fj);` for so many rounds.
  pub digits_loop : ℕ → ℕ → D → D → List ℕ → Option (List ℕ)
  digits_loop zero p fj arg buf = some buf
  digits_loop (suc rounds) p fj arg buf = do
    next ← store buf p (to_int fj + b'0')
    digits_loop rounds (p + 1) (whole (mul_10 arg)) (frac (mul_10 arg)) next

  -- What stands when the integer part or the zeros are done: `arg`, the array, `p` and `r2`.
  pub record Start : Type 0 where
    pub arg : D
    pub buf : List ℕ
    pub p : ℕ
    pub r2 : ℤ

  -- The two loops before `p1 = &buf[ndigits]`; `fi` and `arg` are the parts of the number.
  pub cvt_start : Bool → ℕ → D → D → List ℕ → Option Start
  cvt_start eflag ndigits fi arg buf =
      if not (is_zero fi)
      then (do
        w ← whole_loop (suc (digits fi)) ndigits fi (record { buf = buf; p1 = ndig; r2 = 0 })
        copied ← copy_loop (ndig - w.p1) 0 w.p1 w.buf
        some (record { arg = arg; buf = copied; p = ndig - w.p1; r2 = pos w.r2 }))
      else if is_positive arg
      then (do
        (small, n) ← zeros_loop (suc (zeros arg)) eflag ndigits arg 0
        some (record { arg = small; buf = buf; p = 0; r2 = sub_ℕ 0 n }))
      else some (record { arg = arg; buf = buf; p = 0; r2 = pos 0 })

  -- The digits up to the place `p1`, and whether the first of them was 10.
  pub cvt_digits : ℕ → Start → Option (List ℕ × ℤ)
  cvt_digits p1 s =
      let last = if ltb p1 ndig then p1 + 1 else ndig in
      let fj = whole (mul_10 s.arg) in
      let arg = frac (mul_10 s.arg) in
      if leb s.p p1 && ltb s.p ndig
      then (if to_int fj == 10
          then (do
            one ← store s.buf s.p b'1'
            buf ← digits_loop (last - (s.p + 1)) (s.p + 1) nil arg one
            some (buf, s.r2 +ℤ pos 1))
          else (do buf ← digits_loop (last - s.p) s.p fj arg s.buf; some (buf, s.r2)))
      else some (s.buf, s.r2)

  -- From `p1` on; it may lie before the array.
  pub cvt_finish : Bool → ℤ → Bool → Start → Option Cvt
  cvt_finish eflag (negsuc n) sign s = do
    buf ← store s.buf 0 0
    some (record { buf = buf; decpt = s.r2; sign = sign })
  cvt_finish eflag (pos p1) sign s = do
    (buf, r2) ← cvt_digits p1 s
    let cut = (do
      ended ← store buf (ndig - 1) 0
      some (record { buf = ended; decpt = r2; sign = sign }))
    if leb ndig p1 then cut else round_at eflag p1 r2 sign buf

  pub pcc_cvt : D → ℕ → Bool → List ℕ → Option Cvt
  pcc_cvt arg ndigits eflag buf = do
    let n = if leb (ndig - 1) ndigits then ndig - 2 else ndigits
    let abs = if is_negative arg then neg arg else arg
    s ← cvt_start eflag n (whole abs) (frac abs) buf
    cvt_finish eflag (if eflag then pos n else pos n +ℤ s.r2) (is_negative arg) s

  pub pcc_ecvt : D → ℕ → List ℕ → Option Cvt
  pcc_ecvt arg ndigits buf = pcc_cvt arg ndigits true buf

  pub pcc_fcvt : D → ℕ → List ℕ → Option Cvt
  pcc_fcvt arg ndigits buf = pcc_cvt arg ndigits false buf
