-- ===== src/Format/Interpreter/Width.antt =====
-- pcc_snprintf.c: the minimal width of a field.
use roadsend_php.Base.{
  ℕ, suc, ◌+◌, ◌-◌, ◌≡◌, List, [], ◌∷◌, Option, none, some, ltb, if◌then◌else◌, length, replicate,
  arith, Option-cases, inl, inr, length-append, length-replicate,
}
use roadsend_php.Format.Sink.{Out, Run, ok, full, fault, ◌>>=◌, print_loop}
use roadsend_php.Format.Sink.Print.{print_loop-cc}
use roadsend_php.Format.Directive.{Adjust, left, right, Layout}
use roadsend_php.Format.Convert.{Text, Conversion}
use roadsend_php.Format.Interpreter.{prefixed, emit}
use roadsend_php.Format.Interpreter.Shown.{field, print_then, emit_lem}

-- A width that is not asked for counts as 0.
abbrev pub least_width : Option ℕ → ℕ
least_width none = 0
least_width (some n) = n

abbrev pub max : ℕ → ℕ → ℕ
max a b = if ltb a b then b else a

field-length :
    (adjust : Adjust) (width : Option ℕ) (c : Conversion) (s piece : List ℕ) (n : ℕ)
    → field adjust width c s ≡ some (piece, n)
    → length piece ≡ max (length s) (least_width width)
unfolding field
field-length left none c s piece n e = ground arith
field-length left (some width) c s piece n e =
    let ch = c.pad_char in
    ground (
      arith,
      length-append s (replicate (width - length s) ch),
      length-replicate (width - length s) ch,
    )
field-length right none c s piece n e = ground arith
field-length right (some width) c [] piece n e = ground (arith, length-replicate width c.pad_char)
field-length right (some width) c (a ∷ s) piece n e =
    let fill = replicate (width - suc (length s)) c.pad_char in
    ground (
      arith,
      length-append fill s,
      length-append fill (a ∷ s),
      length-replicate (width - suc (length s)) c.pad_char,
    )

fault-ne-ok {ℓ} : {A : Type ℓ} {a : A} {P : Type 0} → fault ≡ ok a → P
fault-ne-ok h = cc

bind-ok :
    (m : Run Out) (k n : ℕ) (o : Out)
    → ◌>>=◌ {B = ℕ × Out} m (λ w. ok (k, w)) ≡ ok (n, o)
    → m ≡ ok o
bind-ok (ok w) k n o h = cc
bind-ok (full v) k n o h = cc
bind-ok fault k n o h = cc

print_then-cc :
    (piece : List ℕ) (k n : ℕ) (o o' : Out)
    → print_then piece k o ≡ ok (n, o')
    → o'.cc ≡ o.cc + length piece
print_then-cc piece k n o o' h = print_loop-cc piece o o' (bind-ok (print_loop piece o) k n o' h)

-- What a conversion prints is as long as its text, the prefix included, or as the minimal width,
-- whichever is more, and the count grows by so much.
pub emit-cc :
    (l : Layout) (c : Conversion) (t : Text) (o o' : Out) (n : ℕ)
    → prefixed c ≡ some t
    → emit l c o ≡ ok (n, o')
    → o'.cc ≡ o.cc + max (length t.bytes) (least_width l.min_width)
emit-cc l c t o o' n e h = elim (Option-cases (field l.flags.adjust l.min_width c t.bytes)) [
  | inl f ↦ fault-ne-ok (rw (emit_lem l c o, e, f) at h)
  | inr ((piece, k), f) ↦
      let done : print_then piece k o ≡ ok (n, o') = rw (emit_lem l c o, e, f) at h in
      omega (
        arith,
        print_then-cc piece k n o o' done,
        field-length l.flags.adjust l.min_width c t.bytes piece k f,
      )
]
