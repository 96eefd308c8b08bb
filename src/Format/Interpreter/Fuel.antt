-- ===== src/Format/Interpreter/Fuel.antt =====
-- pcc_snprintf.c: the loop of `pcc_vformatter` ends.
use roadsend_php.Base.{
  ℕ, zero, suc, ◌≤◌, ◌≡◌, refl, List, [], ◌∷◌, ◌==◌, length, arith, Bool-cases, Option-cases, inl,
  inr,
}
use roadsend_php.Format.Sink.{Run, ok, full, fault, ◌>>=◌, ins_char}
use roadsend_php.Format.Sink.Print.{>>=_ext}
use roadsend_php.Format.Real.{Real}
use roadsend_php.Format.Switch.{directive}
use roadsend_php.Format.Switch.Length.{directive-length}
use roadsend_php.Format.Interpreter.{State, act, on_directive, format_loop}

act_ext {ℓ} :
    {A B : Type ℓ} {R : Type ℓ} (m : Run A) (rest : R) (f g : A × R → Run B)
    → ((a : A) → f (a, rest) ≡ g (a, rest))
    → ((m >>= λ a. ok (a, rest)) >>= f) ≡ ((m >>= λ a. ok (a, rest)) >>= g)
act_ext (ok a) rest f g h = h a
act_ext (full v) rest f g h = refl
act_ext fault rest f g h = refl

module _ (r : Real) (buf1 : List ℕ) where
  open r use {D}

  -- Two continuations of a directive that agree where less of the format is left.
  on_directive_ext :
      (fmt : List ℕ) (s : State D) (f g : State D × List ℕ → Run (State D))
      → ((s' : State D) (rest : List ℕ) → length rest ≤ length fmt → f (s', rest) ≡ g (s', rest))
      → (on_directive r buf1 fmt s >>= f) ≡ (on_directive r buf1 fmt s >>= g)
  unfolding on_directive
  on_directive_ext fmt s f g h = elim (Option-cases (directive r buf1 fmt s.i_num s.args)) [
    | inl e ↦ rw e refl
    | inr ((l, t, action, rest, args), e) ↦
        let less = directive-length r buf1 fmt rest s.i_num s.args args l t action e in
        rw e (act_ext (act r buf1 l t action args s) rest f g (λ s'. h s' rest less))
  ]

  -- The loop ends by the end of the format: with so much fuel as the format has bytes, any
  -- other fuel gives the same.
  pub format_loop_fuel :
      (n m : ℕ) (fmt : List ℕ) (s : State D)
      → length fmt ≤ n
      → length fmt ≤ m
      → format_loop r buf1 n fmt s ≡ format_loop r buf1 m fmt s
  unfolding format_loop
  format_loop_fuel n m [] s h k = refl
  format_loop_fuel zero m (c ∷ fmt) s h k = absurd (omega arith)
  format_loop_fuel (suc n) zero (c ∷ fmt) s h k = absurd (omega arith)
  format_loop_fuel (suc n) (suc m) (c ∷ fmt) s h k = elim (Bool-cases (c == b'%')) [
    | inl special ↦ rw special (
        on_directive_ext fmt s (λ (s', rest). format_loop r buf1 n rest s')
          (λ (s', rest). format_loop r buf1 m rest s')
          (λ s' rest less. format_loop_fuel n m rest s' (omega arith) (omega arith)))
    | inr plain ↦ rw plain (
        >>=_ext (ins_char c s.out) (λ out. format_loop r buf1 n fmt (record s { out = out }))
          (λ out. format_loop r buf1 m fmt (record s { out = out }))
          (λ out _. format_loop_fuel n m fmt (record s { out = out }) (omega arith) (omega arith)))
  ]
