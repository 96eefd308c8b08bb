-- ===== src/Format/Sink/Print.antt =====
-- pcc_snprintf.c: INS_CHAR and PAD print texts.
use roadsend_php.Base.{
  ℕ, zero, suc, ◌+◌, ◌-◌, ◌<◌, ◌≡◌, ◌⊎◌, refl, sym, ◌∙◌, List, [], ◌∷◌, ◌++◌, ltb, length,
  replicate, arith, Bool-cases, inl, inr, ltb→lt,
}
use roadsend_php.Format.Sink.{Out, Run, ok, full, fault, ◌>>=◌, ins_char, ins_at, pad, print_loop}

pub >>=_assoc {ℓ} :
    {A B C : Type ℓ} (m : Run A) (f : A → Run B) (g : B → Run C)
    → ((m >>= f) >>= g) ≡ (m >>= λ a. f a >>= g)
>>=_assoc (ok a) f g = refl
>>=_assoc (full v) f g = refl
>>=_assoc fault f g = refl

-- Two continuations that agree on the results of `m`.
pub >>=_ext {ℓ} :
    {A B : Type ℓ} (m : Run A) (f g : A → Run B)
    → ((a : A) → m ≡ ok a → f a ≡ g a)
    → (m >>= f) ≡ (m >>= g)
>>=_ext (ok a) f g h = h a refl
>>=_ext (full v) f g h = refl
>>=_ext fault f g h = refl

pub >>=_ok {ℓ} : {A : Type ℓ} (m : Run A) → (m >>= ok) ≡ m
>>=_ok (ok a) = refl
>>=_ok (full v) = refl
>>=_ok fault = refl

-- A result is there, or no continuation gives one.
pub Run-cases {ℓ} :
    {A : Type ℓ} (m : Run A)
    → ((a : A) × (m ≡ ok a)) ⊎ ((b : A) (f : A → Run A) → (m >>= f) ≡ ok b → ⊥)
Run-cases (ok a) = inl (a, refl)
Run-cases (full v) = inr (λ b f h. cc)
Run-cases fault = inr (λ b f h. cc)

pub print_loop-append :
    (s t : List ℕ) (o : Out) → print_loop (s ++ t) o ≡ (print_loop s o >>= print_loop t)
unfolding print_loop
print_loop-append [] t o = refl
print_loop-append (c ∷ s) t o =
    >>=_ext (ins_char c o) (print_loop (s ++ t)) (λ o'. print_loop s o' >>= print_loop t)
      (λ o' _. print_loop-append s t o')
    ∙ sym (>>=_assoc (ins_char c o) (print_loop s) (print_loop t))

-- The `do` loop prints one character, or so many as the width exceeds the length.
pub pad-print_loop :
    (width len ch : ℕ) (o : Out)
    → len < width
    → pad width len ch o ≡ print_loop (replicate (width - len) ch) o
unfolding pad print_loop
pad-print_loop zero len ch o h = absurd (omega arith)
pad-print_loop (suc width) len ch o h = elim (Bool-cases (ltb len width)) [
  | inl more ↦
      let count : suc width - len ≡ suc (width - len) = ground arith in
      rw (more, count)
        (>>=_ext (ins_char ch o) (pad width len ch) (print_loop (replicate (width - len) ch))
          (λ o' _. pad-print_loop width len ch o' (ltb→lt _ _ more)))
  | inr last ↦ let count : suc width - len ≡ 1 = ground arith in rw (last, count) refl
]

pub print_loop_nil : (o : Out) → print_loop [] o ≡ ok o
unfolding print_loop
print_loop_nil o = refl

pub print_loop_cons :
    (c : ℕ) (s : List ℕ) (o : Out) → print_loop (c ∷ s) o ≡ (ins_char c o >>= print_loop s)
unfolding print_loop
print_loop_cons c s o = refl

pub ins_char-cc : (c : ℕ) (o o' : Out) → ins_char c o ≡ ok o' → o'.cc ≡ suc o.cc
unfolding ins_char ins_at
ins_char-cc c o o' h = ground arith

-- The count grows with what is printed.
pub print_loop-cc : (s : List ℕ) (o o' : Out) → print_loop s o ≡ ok o' → o'.cc ≡ o.cc + length s
unfolding print_loop
print_loop-cc [] o o' h = ground arith
print_loop-cc (c ∷ s) o o' h = elim (Run-cases (ins_char c o)) [
  | inl (o1, e) ↦ omega (arith, ins_char-cc c o o1 e, print_loop-cc s o1 o' (rw e at h))
  | inr other ↦ absurd (other o' (print_loop s) h)
]
