-- ===== src/Format/Interpreter/Shown.antt =====
-- pcc_snprintf.c: what a directive prints, as a text, and that the macros print it.
use roadsend_php.Base.{
  ℕ, suc, ◌-◌, ◌<◌, ◌≡◌, refl, sym, ap, ◌∙◌, List, [], ◌∷◌, ◌++◌, Option, none, some, Bool, not,
  ◌&&◌, ltb, ◌==◌, if◌then◌else◌, length, replicate, arith, Bool-cases, inl, inr, ltb→lt,
  append-nil,
}
use roadsend_php.Format.Sink.{Out, Run, ok, ◌>>=◌, of_option, ins_char, pad, print_loop}
use roadsend_php.Format.Sink.Print.{
  >>=_assoc, >>=_ext, print_loop-append, pad-print_loop, print_loop_nil, print_loop_cons,
}
use roadsend_php.Format.Directive.{Adjust, left, right, Layout}
use roadsend_php.Format.Convert.{Conversion}
use roadsend_php.Format.Interpreter.{prefixed, pad_zeros, pad_right, pad_left, emit}

-- The text of a field of the given width, and the value of `s_len` behind it: blanks or zeros in
-- front, zeros behind the sign, or the padding behind the text.
unfoldable pub field : Adjust → Option ℕ → Conversion → List ℕ → Option (List ℕ × ℕ)
field left none c s = some (s, length s)
field left (some width) c s = some (s ++ replicate (width - length s) c.pad_char, length s)
field right none c s = some (s, length s)
field right (some width) c [] =
    if ltb 0 width && (c.pad_char == b'0' && not (c.prefix_char == 0))
    then none
    else some (replicate width c.pad_char, 0)
field right (some width) c (a ∷ s) =
    let fill = replicate (width - suc (length s)) c.pad_char in
    if ltb (suc (length s)) width && (c.pad_char == b'0' && not (c.prefix_char == 0))
    then some (a ∷ (fill ++ s), length s)
    else some (fill ++ (a ∷ s), suc (length s))

-- Printing a text and going on with the value `n`.
abbrev pub print_then : List ℕ → ℕ → Out → Run (ℕ × Out)
print_then piece n o = print_loop piece o >>= λ whole. ok (n, whole)

-- Printing what is left of the text, without padding behind it.
abbrev finish_text : List ℕ × Out → Run (ℕ × Out)
finish_text (s, padded) = print_loop s padded >>= λ printed. ok (length s, printed)

-- The part of `emit` behind the prefix.
abbrev emit_text : Adjust → Option ℕ → Conversion → List ℕ → Out → Run (ℕ × Out)
emit_text adjust width c t o =
    pad_right adjust width c.prefix_char c.pad_char t o >>= λ (s, padded).
    print_loop s padded >>= λ printed.
    pad_left adjust width (length s) c.pad_char printed >>= λ whole. ok (length s, whole)

print_then-append :
    (s t : List ℕ) (n : ℕ) (o : Out)
    → print_then (s ++ t) n o ≡ (print_loop s o >>= λ o'. print_loop t o' >>= λ o''. ok (n, o''))
print_then-append s t n o =
    ap (λ m. m >>= λ w. ok (n, w)) (print_loop-append s t o)
    ∙ >>=_assoc (print_loop s o) (print_loop t) (λ w. ok (n, w))

emit_left :
    (width : ℕ) (c : Conversion) (t : List ℕ) (o : Out)
    → emit_text left (some width) c t o
      ≡ print_then (t ++ replicate (width - length t) c.pad_char) (length t) o
unfolding pad_left pad_right
emit_left width c t o =
    let k : Out → Run (ℕ × Out) =
      λ p. print_loop (replicate (width - length t) c.pad_char) p >>= λ w. ok (length t, w) in
    >>=_ext (print_loop t o)
      (λ p. pad_left left (some width) (length t) c.pad_char p >>= λ w. ok (length t, w)) k
      (λ p _. elim (Bool-cases (ltb (length t) width)) [
        | inl more ↦ rw (more, pad-print_loop width (length t) c.pad_char p (ltb→lt _ _ more)) refl
        | inr enough ↦
            let none_left : width - length t ≡ 0 = ground arith in
            rw (enough, none_left, print_loop_nil p) refl
      ])
    ∙ sym (print_then-append t (replicate (width - length t) c.pad_char) (length t) o)

-- The test for zeros behind the sign.
abbrev zero_fill : Conversion → Bool
zero_fill c = c.pad_char == b'0' && not (c.prefix_char == 0)

-- Padding in front, and the text.
emit_padded :
    (width ch : ℕ) (t : List ℕ) (o : Out)
    → length t < width
    → (pad width (length t) ch o >>= λ o'. print_loop t o' >>= λ o''. ok (length t, o''))
      ≡ print_then (replicate (width - length t) ch ++ t) (length t) o
emit_padded width ch t o h =
    rw (pad-print_loop width (length t) ch o h)
      (sym (print_then-append (replicate (width - length t) ch) t (length t) o))

-- The first character, zeros, and the rest.
emit_zeros :
    (width ch a : ℕ) (t : List ℕ) (o : Out)
    → suc (length t) < width
    → (ins_char a o >>= λ o'.
        pad (width - 1) (length t) ch o' >>= λ o''. print_loop t o'' >>= λ p. ok (length t, p))
      ≡ print_then (a ∷ (replicate (width - suc (length t)) ch ++ t)) (length t) o
emit_zeros width ch a t o h =
    let fill = replicate (width - suc (length t)) ch in
    let count : width - 1 - length t ≡ width - suc (length t) = omega arith in
    >>=_ext (ins_char a o)
      (λ o'. pad (width - 1) (length t) ch o' >>= λ o''. print_loop t o'' >>= λ p. ok (length t, p))
      (print_then (fill ++ t) (length t))
      (λ o' _.
        emit_padded (width - 1) ch t o' (omega arith)
        ∙ ap (λ n. print_then (replicate n ch ++ t) (length t) o') count)
    ∙ sym (>>=_assoc (ins_char a o) (print_loop (fill ++ t)) (λ w. ok (length t, w)))
    ∙ ap (λ m. m >>= λ w. ok (length t, w)) (sym (print_loop_cons a (fill ++ t) o))

sub_zero : (n : ℕ) → n - 0 ≡ n
sub_zero n = omega arith

emit_right :
    (width : ℕ) (c : Conversion) (t : List ℕ) (o : Out)
    → emit_text right (some width) c t o
      ≡ (of_option (field right (some width) c t) >>= λ (piece, n). print_then piece n o)
unfolding pad_left pad_right pad_zeros field
emit_right width c [] o = elim (Bool-cases (ltb 0 width)) [
  | inl wide ↦ elim (Bool-cases (zero_fill c)) [
    | inl z ↦ rw (wide, z) refl
    | inr z ↦
        rw (wide, z)
          (>>=_assoc (pad width 0 c.pad_char o) (λ o'. ok ([], o')) finish_text
            ∙ emit_padded width c.pad_char [] o (ltb→lt _ _ wide)
            ∙ ap (λ n. print_then (replicate n c.pad_char ++ []) 0 o) (sub_zero width)
            ∙ ap (λ s. print_then s 0 o) (append-nil (replicate width c.pad_char)))
  ]
  | inr narrow ↦ let none_left : width ≡ 0 = ground arith in rw (narrow, none_left) refl
]
emit_right width c (a ∷ t) o = elim (Bool-cases (ltb (suc (length t)) width)) [
  | inl wide ↦ elim (Bool-cases (zero_fill c)) [
    | inl z ↦
        rw (wide, z)
          (>>=_assoc (ins_char a o)
              (λ o'. pad (width - 1) (length t) c.pad_char o' >>= λ o''. ok (t, o'')) finish_text
            ∙ >>=_ext (ins_char a o)
                (λ o'.
                  (pad (width - 1) (length t) c.pad_char o' >>= λ o''. ok (t, o'')) >>= finish_text)
                (λ o'. pad (width - 1) (length t) c.pad_char o' >>= λ o''.
                  print_loop t o'' >>= λ p. ok (length t, p))
                (λ o' _.
                  >>=_assoc (pad (width - 1) (length t) c.pad_char o') (λ o''. ok (t, o''))
                    finish_text)
            ∙ emit_zeros width c.pad_char a t o (ltb→lt _ _ wide))
    | inr z ↦
        rw (wide, z)
          (>>=_assoc (pad width (suc (length t)) c.pad_char o) (λ o'. ok (a ∷ t, o')) finish_text
            ∙ emit_padded width c.pad_char (a ∷ t) o (ltb→lt _ _ wide))
  ]
  | inr narrow ↦
      let none_left : width - suc (length t) ≡ 0 = ground arith in rw (narrow, none_left) refl
]

emit_text_lem :
    (adjust : Adjust) (width : Option ℕ) (c : Conversion) (t : List ℕ) (o : Out)
    → emit_text adjust width c t o
      ≡ (of_option (field adjust width c t) >>= λ (piece, n). print_then piece n o)
unfolding pad_left pad_right field
emit_text_lem left none c t o = refl
emit_text_lem left (some width) c t o = emit_left width c t o
emit_text_lem right none c t o = refl
emit_text_lem right (some width) c t o = emit_right width c t o

-- The code behind the `switch` prints the field, or is undefined where there is none.
pub emit_lem :
    (l : Layout) (c : Conversion) (o : Out)
    → emit l c o ≡ (
        of_option (prefixed c) >>= λ t.
        of_option (field l.flags.adjust l.min_width c t.bytes) >>= λ (piece, n).
        print_then piece n o)
unfolding emit
emit_lem l c o =
    >>=_ext (of_option (prefixed c)) (λ t. emit_text l.flags.adjust l.min_width c t.bytes o)
      (λ t. of_option (field l.flags.adjust l.min_width c t.bytes) >>= λ (piece, n).
        print_then piece n o)
      (λ t _. emit_text_lem l.flags.adjust l.min_width c t.bytes o)
