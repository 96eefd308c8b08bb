-- ===== src/Format/Interpreter/Document.antt =====
-- pcc_snprintf.c: the text of a whole format, without a buffer, and that an action of
-- `pcc_vformatter` prints its text.
pub mod Loop
pub mod Texts
use roadsend_php.Base.{
  ℕ, zero, suc, ◌+◌, ◌-◌, ◌≡◌, refl, sym, ap, ◌∙◌, List, [], ◌∷◌, ◌++◌, Option, none, some, Bool,
  true, false, ltb, ◌==◌, if◌then◌else◌, length, replicate, arith, Bool-cases, Option-cases, inl,
  inr, ltb→lt,
}
use mathlib.Core.Option
use roadsend_php.Format.Sink.{Out, Run, ok, fault, ◌>>=◌, of_option, ins_char, pad, print_loop}
use roadsend_php.Format.Sink.Print.{
  >>=_assoc, >>=_ext, print_loop-append, print_loop-cc, print_loop_nil, print_loop_cons,
  ins_char-cc, pad-print_loop,
}
use roadsend_php.Format.Directive.{Arg, VarType, Layout}
use roadsend_php.Format.Real.{Real}
use roadsend_php.Format.Convert.{Conversion}
use roadsend_php.Format.Switch.{Action, print, count, finish, directive}
use roadsend_php.Format.Interpreter.{
  prefixed, emit, emit_count, State, act, on_directive, format_loop,
}
use roadsend_php.Format.Interpreter.Shown.{field, emit_lem, print_then}

-- The chain of steps that may be undefined.
infixl 5 ◌then?◌
abbrev pub ◌then?◌ {ℓ κ} : {A : Type ℓ} {B : Type κ} → Option A → (A → Option B) → Option B
none then? f = none
some a then? f = f a

-- The text of a conversion, with the value of `s_len` behind it.
pub shown : Layout → Conversion → Option (List ℕ × ℕ)
shown l c = prefixed c then? λ t. field l.flags.adjust l.min_width c t.bytes

-- What `%n` prints.
pub shown_count : Layout → Option ℕ → Option (List ℕ)
shown_count l s_len = elim l.min_width [
  | none ↦ some []
  | some width ↦ Option.map (λ n. replicate (width - n) l.flags.pad_char) s_len
]

-- What lives through the text of a format: the variables of the loop, but for the buffer.
pub record Doc (D : Type 0) : Type 0 where
  pub cc : ℕ
  pub s_len : Option ℕ
  pub i_num : ℕ
  pub args : List (Arg D)
  pub stores : List (VarType × ℕ)

abbrev pub with_out : {D : Type 0} → Doc D → Out → State D
with_out d o = record {
  out = o;
  s_len = d.s_len;
  i_num = d.i_num;
  args = d.args;
  stores = d.stores;
}

module _ (r : Real) (buf1 : List ℕ) where
  open r use {D}

  pub doc_act : Layout → VarType → Action → List (Arg D) → Doc D → Option (List ℕ × Doc D)
  doc_act l t (print c) args d = shown l c then? λ (piece, n). some (
    piece,
    record {
      cc = d.cc + length piece;
      s_len = some n;
      i_num = c.i_num;
      args = args;
      stores = d.stores;
    },
  )
  doc_act l t count args d = shown_count l d.s_len then? λ piece. some (
    piece,
    record {
      cc = d.cc + length piece;
      s_len = d.s_len;
      i_num = d.i_num;
      args = args;
      stores = (t, d.cc) ∷ d.stores;
    },
  )
  doc_act l t finish args d = some ([], record d { args = args })

  pub doc_directive : List ℕ → Doc D → Option (List ℕ × Doc D × List ℕ)
  doc_directive fmt d = directive r buf1 fmt d.i_num d.args then? λ (l, t, action, rest, args).
      doc_act l t action args d then? λ (piece, d'). some (piece, d', rest)

  -- The text of a format: each byte stands for itself, and a directive for what it shows.
  pub document : ℕ → List ℕ → Doc D → Option (List ℕ × Doc D)
  document fuel [] d = some ([], d)
  document zero (c ∷ fmt) d = none
  document (suc fuel) (c ∷ fmt) d =
      let plain =
        document fuel fmt (record d { cc = suc d.cc }) then? λ (text, d'). some (c ∷ text, d') in
      let special = doc_directive fmt d then? λ (piece, d1, rest).
      document fuel rest d1 then? λ (text, d'). some (piece ++ text, d') in
      if c == b'%' then special else plain

  count_lem :
      (width ch : ℕ) (s_len : Option ℕ) (o : Out)
      → (elim s_len as (λ _. Run Out) [
        | none ↦ fault
        | some n ↦ if ltb n width then pad width n ch o else ok o
      ])
        ≡ (of_option (Option.map (λ n. replicate (width - n) ch) s_len) >>= λ piece.
            print_loop piece o)
  count_lem width ch none o = refl
  count_lem width ch (some n) o = elim (Bool-cases (ltb n width)) [
    | inl wide ↦ rw wide (pad-print_loop width n ch o (ltb→lt _ _ wide))
    | inr narrow ↦
        let none_left : width - n ≡ 0 = ground arith in
        rw (narrow, none_left) (sym (print_loop_nil o))
  ]

  emit_count_lem :
      (l : Layout) (s_len : Option ℕ) (o : Out)
      → emit_count l s_len o ≡ (of_option (shown_count l s_len) >>= λ piece. print_loop piece o)
  unfolding emit_count shown_count
  emit_count_lem l s_len o = elim (Option-cases l.min_width) [
    | inl e ↦ rw e (sym (print_loop_nil o))
    | inr (width, e) ↦ rw e (count_lem width l.flags.pad_char s_len o)
  ]

  -- What the loop goes on with behind a text.
  abbrev pub after : Out → List ℕ × Doc D → Run (State D)
  after o (piece, d') = print_loop piece o >>= λ o'. ok (with_out d' o')

  -- An action prints its text.
  pub act_lem :
      (l : Layout) (t : VarType) (action : Action) (args : List (Arg D)) (d : Doc D) (o : Out)
      → o.cc ≡ d.cc
      → act r buf1 l t action args (with_out d o)
        ≡ (of_option (doc_act l t action args d) >>= after o)
  unfolding act doc_act shown
  act_lem l t (print c) args d o h = elim (Option-cases (prefixed c)) [
    | inl e ↦ rw (emit_lem l c o, e) refl
    | inr (text, e) ↦ elim (Option-cases (field l.flags.adjust l.min_width c text.bytes)) [
      | inl f ↦ rw (emit_lem l c o, e, f) refl
      | inr ((piece, n), f) ↦
          rw (emit_lem l c o, e, f) (>>=_assoc (print_loop piece o) (λ w. ok (n, w)) _)
    ]
  ]
  act_lem l t count args d o h = elim (Option-cases (shown_count l d.s_len)) [
    | inl e ↦ rw (emit_count_lem l d.s_len o, e) refl
    | inr (piece, e) ↦ rw (emit_count_lem l d.s_len o, e, h) refl
  ]
  act_lem l t finish args d o h = rw (print_loop_nil o) refl

  pub doc_act-cc :
      (l : Layout) (t : VarType) (action : Action) (args : List (Arg D)) (d d' : Doc D)
      (piece : List ℕ)
      → doc_act l t action args d ≡ some (piece, d')
      → d'.cc ≡ d.cc + length piece
  unfolding doc_act
  doc_act-cc l t (print c) args d d' piece e = ground arith
  doc_act-cc l t count args d d' piece e = ground arith
  doc_act-cc l t finish args d d' piece e = ground arith
