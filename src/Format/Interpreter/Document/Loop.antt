-- ===== src/Format/Interpreter/Document/Loop.antt =====
-- pcc_snprintf.c: the loop of `pcc_vformatter` prints the text of a format.
use roadsend_php.Base.{
  ℕ, zero, suc, ◌+◌, ◌≡◌, refl, sym, ap, ◌∙◌, List, [], ◌∷◌, ◌++◌, Option, none, some, ◌==◌, length,
  arith, Bool-cases, Option-cases, inl, inr,
}
use mathlib.Core.Option
use roadsend_php.Format.Sink.{Out, Run, ok, ◌>>=◌, of_option, ins_char, print_loop}
use roadsend_php.Format.Sink.Print.{
  >>=_assoc, >>=_ext, print_loop-append, print_loop-cc, print_loop_nil, print_loop_cons,
  ins_char-cc,
}
use roadsend_php.Format.Real.{Real}
use roadsend_php.Format.Switch.{directive}
use roadsend_php.Format.Interpreter.{State, on_directive, format_loop}
use roadsend_php.Format.Interpreter.Document.{
  Doc, with_out, doc_act, doc_directive, document, after, act_lem, doc_act-cc,
}

none-ne-some {ℓ} : {A : Type ℓ} {a : A} → none ≡ some a → ⊥
none-ne-some h = cc

module _ (r : Real) (buf1 : List ℕ) where
  open r use {D}

  on_directive_lem :
      (fmt : List ℕ) (d : Doc D) (o : Out)
      → o.cc ≡ d.cc
      → on_directive r buf1 fmt (with_out d o) ≡ (
          of_option (doc_directive r buf1 fmt d) >>= λ (piece, d', rest).
          after r buf1 o (piece, d') >>= λ s. ok (s, rest))
  unfolding on_directive doc_directive
  on_directive_lem fmt d o h = elim (Option-cases (directive r buf1 fmt d.i_num d.args)) [
    | inl e ↦ rw e refl
    | inr ((l, t, action, rest, args), e) ↦ elim (Option-cases (doc_act r buf1 l t action args d)) [
      | inl f ↦ rw (e, act_lem r buf1 l t action args d o h, f) refl
      | inr ((piece, d'), f) ↦ rw (e, act_lem r buf1 l t action args d o h, f) refl
    ]
  ]

  doc_directive-cc :
      (fmt rest : List ℕ) (d d' : Doc D) (piece : List ℕ)
      → doc_directive r buf1 fmt d ≡ some (piece, d', rest)
      → d'.cc ≡ d.cc + length piece
  unfolding doc_directive
  doc_directive-cc fmt rest d d' piece h =
      elim (Option-cases (directive r buf1 fmt d.i_num d.args)) [
        | inl e ↦ absurd (none-ne-some (rw e at h))
        | inr ((l, t, action, behind, args), e) ↦
            elim (Option-cases (doc_act r buf1 l t action args d)) [
              | inl f ↦ absurd (none-ne-some (rw (e, f) at h))
              | inr ((q, d1), f) ↦
                  let k : ◌≡◌ {A = Option (List ℕ × Doc D × List ℕ)} (some (q, d1, behind))
                      (some (piece, d', rest)) =
                    rw (e, f) at h in
                  doc_act-cc r buf1 l t action args d d' piece
                    (f ∙ ap (Option.map (λ x. (x.0, x.1))) k)
            ]
      ]

  after_then :
      (o : Out) (piece text : List ℕ) (d d' : Doc D) (k : State D → Run (State D))
      → ((o' : Out) → o'.cc ≡ o.cc + length piece → k (with_out d o') ≡ after r buf1 o' (text, d'))
      → (after r buf1 o (piece, d) >>= k) ≡ after r buf1 o (piece ++ text, d')
  after_then o piece text d d' k h =
      >>=_assoc (print_loop piece o) (λ o'. ok (with_out d o')) k
      ∙ >>=_ext (print_loop piece o) (λ o'. k (with_out d o')) (λ o'. after r buf1 o' (text, d'))
          (λ o' e. h o' (print_loop-cc piece o o' e))
      ∙ sym (>>=_assoc (print_loop piece o) (print_loop text) (λ o'. ok (with_out d' o')))
      ∙ ap (λ m. m >>= λ o'. ok (with_out d' o')) (sym (print_loop-append piece text o))

  after_same :
      (o : Out) (s t : List ℕ) (d d' : Doc D)
      → ◌≡◌ {A = Option (List ℕ × Doc D)} (some (s, d)) (some (t, d'))
      → after r buf1 o (s, d) ≡ after r buf1 o (t, d')
  after_same o s t d d' h =
      let e : ◌≡◌ {A = List ℕ × Doc D} (s, d) (t, d') = cc in ap (after r buf1 o) e

  -- Where the text of the format is defined, the loop prints it.
  pub format_loop-document :
      (fuel : ℕ) (fmt : List ℕ) (d d' : Doc D) (text : List ℕ) (o : Out)
      → o.cc ≡ d.cc
      → document r buf1 fuel fmt d ≡ some (text, d')
      → format_loop r buf1 fuel fmt (with_out d o) ≡ after r buf1 o (text, d')
  unfolding format_loop document
  format_loop-document fuel [] d d' text o h e =
      let same : ◌≡◌ {A = List ℕ × Doc D} ([], d) (text, d') = cc in
      sym (ap (λ m. m >>= λ o'. ok (with_out d o')) (print_loop_nil o)) ∙ ap (after r buf1 o) same
  format_loop-document zero (c ∷ fmt) d d' text o h e = absurd (none-ne-some e)
  format_loop-document (suc fuel) (c ∷ fmt) d d' text o h e = elim (Bool-cases (c == b'%')) [
    | inl special ↦ elim (Option-cases (doc_directive r buf1 fmt d)) [
      | inl f ↦ absurd (none-ne-some (rw (special, f) at e))
      | inr ((piece, d1, rest), f) ↦ elim (Option-cases (document r buf1 fuel rest d1)) [
        | inl g ↦ absurd (none-ne-some (rw (special, f, g) at e))
        | inr ((more, d2), g) ↦
            let k : ◌≡◌ {A = Option (List ℕ × Doc D)} (some (piece ++ more, d2)) (some (text, d')) =
              rw (special, f, g) at e in
            let grown = doc_directive-cc fmt rest d d1 piece f in
            rw (special, on_directive_lem fmt d o h, f)
              (>>=_assoc (after r buf1 o (piece, d1)) (λ s. ok (s, rest))
                  (λ (s', behind). format_loop r buf1 fuel behind s')
                ∙ after_then o piece more d1 d2 (format_loop r buf1 fuel rest) (λ o' p.
                  format_loop-document fuel rest d1 d2 more o' (omega (arith, p, h, grown)) g)
                ∙ after_same o (piece ++ more) text d2 d' k)
      ]
    ]
    | inr plain ↦
        let d1 = record d { cc = suc d.cc } in
        elim (Option-cases (document r buf1 fuel fmt d1)) [
          | inl g ↦ absurd (none-ne-some (rw (plain, g) at e))
          | inr ((more, d2), g) ↦
              let k : ◌≡◌ {A = Option (List ℕ × Doc D)} (some (c ∷ more, d2)) (some (text, d')) =
                rw (plain, g) at e in
              rw plain (
                >>=_ext (ins_char c o) (λ out. format_loop r buf1 fuel fmt (with_out d1 out))
                  (λ out. after r buf1 out (more, d2))
                  (λ o' p.
                    format_loop-document fuel fmt d1 d2 more o'
                      (omega (arith, ins_char-cc c o o' p, h)) g)
                ∙ sym (>>=_assoc (ins_char c o) (print_loop more) (λ o'. ok (with_out d2 o')))
                ∙ ap (λ m. m >>= λ o'. ok (with_out d2 o')) (sym (print_loop_cons c more o))
                ∙ after_same o (c ∷ more) text d2 d' k)
        ]
  ]
