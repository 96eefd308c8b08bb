-- ===== src/Format/Interpreter.antt =====
-- pcc_snprintf.c: `pcc_vformatter` and `pcc_snprintf`. A character count stands for the `int` of the
-- code while it is below 2 ^ 31.
pub mod Shown
pub mod Width
pub mod Fuel
mod Tests
pub mod Written
pub mod Document
use roadsend_php.Base.{
  ℕ, zero, suc, ◌-◌, List, [], ◌∷◌, Option, none, some, not, ◌&&◌, ltb, ◌==◌, if◌then◌else◌, length,
  set,
}
use mathlib.Core.Option
use roadsend_php.Format.Sink.{
  Vbuff, Out, Run, ok, full, fault, ◌>>=◌, of_option, ins_char, pad, print_loop,
}
use roadsend_php.Format.Directive.{Arg, Adjust, left, right, VarType, Layout}
use roadsend_php.Format.Real.{Real}
use roadsend_php.Format.Switch.{Action, print, count, finish, directive}
use roadsend_php.Format.Convert.{Text, Conversion, put_before}

-- The prefix is put before the text, unless that is S_NULL or `char_buf`.
pub prefixed : Conversion → Option Text
prefixed c =
    if not (c.prefix_char == 0) && not c.text.fixed
    then put_before c.prefix_char c.text
    else some c.text

-- The padding on the right side of `s`, and what is left of `s`.
pub pad_zeros : ℕ → ℕ → List ℕ → Out → Run (List ℕ × Out)
pad_zeros width ch [] o = fault
pad_zeros width ch (c ∷ s) o =
    ins_char c o >>= λ o'. pad (width - 1) (length s) ch o' >>= λ o''. ok (s, o'')

pub pad_right : Adjust → Option ℕ → ℕ → ℕ → List ℕ → Out → Run (List ℕ × Out)
pad_right right (some width) prefix_char ch s o =
    if ltb (length s) width
    then (if ch == b'0' && not (prefix_char == 0)
        then pad_zeros width ch s o
        else (pad width (length s) ch o >>= λ o'. ok (s, o')))
    else ok (s, o)
pad_right right none prefix_char ch s o = ok (s, o)
pad_right left width prefix_char ch s o = ok (s, o)

pub pad_left : Adjust → Option ℕ → ℕ → ℕ → Out → Run Out
pad_left left (some width) s_len ch o = if ltb s_len width then pad width s_len ch o else ok o
pad_left left none s_len ch o = ok o
pad_left right width s_len ch o = ok o

-- What stands behind the `switch` for a text; the value is `s_len`.
pub emit : Layout → Conversion → Out → Run (ℕ × Out)
emit l c o = do
  t ← of_option (prefixed c)
  (s, padded) ← pad_right l.flags.adjust l.min_width c.prefix_char c.pad_char t.bytes o
  printed ← print_loop s padded
  whole ← pad_left l.flags.adjust l.min_width (length s) c.pad_char printed
  ok (length s, whole)

-- The same for `%n`, which prints nothing but may pad by the `s_len` of an earlier directive.
pub emit_count : Layout → Option ℕ → Out → Run Out
emit_count l s_len o = elim l.min_width [
  | none ↦ ok o
  | some width ↦ elim s_len [
    | none ↦ fault
    | some n ↦ if ltb n width then pad width n l.flags.pad_char o else ok o
  ]
]

module _ (D : Type 0) where
  -- The variables that live through the loop of `pcc_vformatter`; `s_len` has no value at first.
  -- What `%n` writes to its targets is `stores`, the last one first.
  pub record State : Type 0 where
    pub out : Out
    pub s_len : Option ℕ
    pub i_num : ℕ
    pub args : List (Arg D)
    pub stores : List (VarType × ℕ)

module _ (r : Real) (buf1 : List ℕ) where
  open r use {D}

  -- What stands behind the `switch`; the letter `finish` ends the loop.
  pub act : Layout → VarType → Action → List (Arg D) → State D → Run (State D)
  act l t (print c) args s = emit l c s.out >>= λ (n, out).
      ok (record { out = out; s_len = some n; i_num = c.i_num; args = args; stores = s.stores })
  act l t count args s = emit_count l s.s_len s.out >>= λ out.
      ok (record s { out = out; args = args; stores = (t, s.out.cc) ∷ s.stores })
  act l t finish args s = ok (record s { args = args })

  -- A directive, and the format behind it.
  pub on_directive : List ℕ → State D → Run (State D × List ℕ)
  on_directive fmt s = do
    (l, t, action, rest, args) ← of_option (directive r buf1 fmt s.i_num s.args)
    s' ← act l t action args s
    ok (s', rest)

  -- The loop, on fuel: each round takes a byte of the format at least.
  pub format_loop : ℕ → List ℕ → State D → Run (State D)
  format_loop fuel [] s = ok s
  format_loop zero (c ∷ fmt) s = fault
  format_loop (suc fuel) (c ∷ fmt) s =
      let plain = ins_char c s.out >>= λ out. format_loop fuel fmt (record s { out = out }) in
      let special = on_directive fmt s >>= λ (s', rest). format_loop fuel rest s' in
      if c == b'%' then special else plain

  -- `pcc_vformatter`: the count with the buffer, and what `%n` stored.
  pub pcc_vformatter : Vbuff → List ℕ → List (Arg D) → Run (State D)
  pcc_vformatter vbuff fmt args = format_loop (length fmt) fmt (record {
    out = record { memory = vbuff.memory; sp = vbuff.curpos; bep = vbuff.endpos; cc = 0 };
    s_len = none;
    i_num = 0;
    args = args;
    stores = [];
  })

  -- The NUL behind the text, where the length is not 0.
  pub terminate : ℕ → List ℕ → Option ℕ → Option (List ℕ)
  terminate zero memory curpos = some memory
  terminate (suc n) memory none = none
  terminate (suc n) memory (some p) = if ltb p (length memory) then some (set memory p 0) else none

  -- The length of 0 makes no buffer; else a byte is saved for the NUL.
  pub start_buffer : ℕ → List ℕ → Vbuff
  start_buffer zero memory = record { memory = memory; curpos = none; endpos = 0 }
  start_buffer (suc n) memory = record { memory = memory; curpos = some 0; endpos = n }

  -- The memory behind `buf` afterwards, and the result.
  pub pcc_snprintf : List ℕ → ℕ → List ℕ → List (Arg D) → Option (List ℕ × ℕ)
  pcc_snprintf memory len fmt args = elim (pcc_vformatter (start_buffer len memory) fmt args) [
    | ok s ↦ Option.map (λ m. (m, s.out.cc)) (terminate len s.out.memory s.out.sp)
    | full vbuff ↦ Option.map (λ m. (m, len)) (terminate len vbuff.memory vbuff.curpos)
    | fault ↦ none
  ]

  -- The function that is handed its arguments as a `va_list`.
  pub pcc_vsnprintf : List ℕ → ℕ → List ℕ → List (Arg D) → Option (List ℕ × ℕ)
  pcc_vsnprintf memory len fmt args = elim (pcc_vformatter (start_buffer len memory) fmt args) [
    | ok s ↦ Option.map (λ m. (m, s.out.cc)) (terminate len s.out.memory s.out.sp)
    | full vbuff ↦ Option.map (λ m. (m, len)) (terminate len vbuff.memory vbuff.curpos)
    | fault ↦ none
  ]
