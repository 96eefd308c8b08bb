-- ===== src/Format/Interpreter/Written.antt =====
-- pcc_snprintf.c: `pcc_snprintf` writes the text of its format, cut off where the buffer ends.
use roadsend_php.Base.{
  ℕ, zero, suc, ◌<◌, ◌≤◌, ◌≡◌, refl, sym, ap, ◌∙◌, List, [], ◌∷◌, ◌++◌, Option, none, some, true,
  ltb, leb, if◌then◌else◌, length, take, drop, set, arith, length-append, length-drop, append_assoc,
  lt→ltb, leb→le, length-take, Bool-cases, inl, inr,
}
use mathlib.Core.Option
use roadsend_php.Format.Sink.{Run, ok, full, fault, ◌>>=◌}
use roadsend_php.Format.Sink.Place.{
  placed, cut, print_loop-placed, print_loop-null, set-behind, take_all,
}
use roadsend_php.Format.Directive.{Arg}
use roadsend_php.Format.Real.{Real}
use roadsend_php.Format.Interpreter.{
  State, pcc_vformatter, terminate, start_buffer, pcc_snprintf, pcc_vsnprintf,
}
use roadsend_php.Format.Interpreter.Document.{Doc, with_out, document}
use roadsend_php.Format.Interpreter.Document.Loop.{format_loop-document}

-- The variables before the loop.
abbrev pub start_doc : {D : Type 0} → List (Arg D) → Doc D
start_doc args = record { cc = 0; s_len = none; i_num = 0; args = args; stores = [] }

-- The memory behind `buf` for a text that is cut off to leave a byte for the NUL. What stands
-- behind the NUL is left alone.
pub written : ℕ → List ℕ → List ℕ → List ℕ
written zero text mem = mem
written (suc n) text mem = let kept = take n text in kept ++ (0 ∷ drop (suc (length kept)) mem)

-- The length of the whole text where it is known, and else that of the buffer.
pub result_count : ℕ → List ℕ → ℕ
result_count zero text = length text
result_count (suc n) text = if leb (length text) n then length text else suc n

module _ (r : Real) (buf1 : List ℕ) where
  open r use {D}

  finish_run : ℕ → Run (State D) → Option (List ℕ × ℕ)
  finish_run len m = elim m [
    | ok s ↦ Option.map (λ m. (m, s.out.cc)) (terminate r buf1 len s.out.memory s.out.sp)
    | full vbuff ↦ Option.map (λ m. (m, len)) (terminate r buf1 len vbuff.memory vbuff.curpos)
    | fault ↦ none
  ]

  terminate-placed :
      (n p : ℕ) (t mem : List ℕ)
      → length t ≡ p
      → p < length mem
      → terminate r buf1 (suc n) (t ++ drop p mem) (some p) ≡ some (t ++ (0 ∷ drop (suc p) mem))
  unfolding terminate
  terminate-placed n p t mem e h =
      let size : length (t ++ drop p mem) ≡ length mem =
        length-append t (drop p mem) ∙ omega (arith, length-drop p mem, e, h) in
      let inside : ltb p (length (t ++ drop p mem)) ≡ true = rw size (lt→ltb _ _ h) in
      let here : set (t ++ drop p mem) p 0 ≡ t ++ (0 ∷ drop (suc p) mem) =
        ap (λ k. set (t ++ drop k mem) k 0) (sym e)
        ∙ set-behind t mem 0 (omega (arith, e, h))
        ∙ append_assoc t (0 ∷ []) (drop (suc (length t)) mem)
        ∙ ap (λ k. t ++ (0 ∷ drop (suc k) mem)) e in
      rw inside (ap some here)

  finish_placed :
      (n : ℕ) (text mem : List ℕ) (d : Doc D)
      → suc n ≤ length mem
      → finish_run (suc n) (
          (if leb (length text) n then ok (placed mem n text) else full (cut mem n text)) >>= λ o.
          ok (with_out d o))
        ≡ some (written (suc n) text mem, result_count (suc n) text)
  unfolding finish_run written result_count
  finish_placed n text mem d h = elim (Bool-cases (leb (length text) n)) [
    | inl fits ↦
        let le = leb→le _ _ fits in
        rw (fits, take_all n text le)
          (ap (Option.map (λ m. (m, length text)))
            (terminate-placed n (length text) text mem refl (omega (arith, le))))
    | inr over ↦
        let size : length (take n text) ≡ n = length-take n text (ground arith) in
        rw (over, size)
          (ap (Option.map (λ m. (m, suc n))) (terminate-placed n n (take n text) mem size h))
  ]

  -- The text of the format is written to the buffer if that is long enough, and else cut off, with
  -- a NUL behind it and nothing else changed. The result is the length of the text, or of a
  -- buffer that is too short; without a buffer, the memory is left alone.
  pub pcc_snprintf_lem :
      (mem : List ℕ) (len : ℕ) (fmt : List ℕ) (args : List (Arg D)) (text : List ℕ) (d : Doc D)
      → len ≤ length mem
      → document r buf1 (length fmt) fmt (start_doc args) ≡ some (text, d)
      → pcc_snprintf r buf1 mem len fmt args ≡ some (written len text mem, result_count len text)
  unfolding pcc_snprintf pcc_vformatter start_buffer finish_run terminate written result_count
  pcc_snprintf_lem mem zero fmt args text d h e =
      ap (finish_run zero) (
        format_loop-document r buf1 (length fmt) fmt (start_doc args) d text _ refl e
        ∙ ap (λ m. m >>= λ o. ok (with_out d o)) (print_loop-null text mem 0 0))
      ∙ ap (λ k. some (mem, k)) (omega arith)
  pcc_snprintf_lem mem (suc n) fmt args text d h e =
      ap (finish_run (suc n)) (
        format_loop-document r buf1 (length fmt) fmt (start_doc args) d text _ refl e
        ∙ ap (λ m. m >>= λ o. ok (with_out d o))
            (print_loop-placed mem n (omega arith) text [] (omega arith)))
      ∙ finish_placed n text mem d h

  -- The two functions are the same.
  pub pcc_vsnprintf-pcc_snprintf :
      (mem : List ℕ) (len : ℕ) (fmt : List ℕ) (args : List (Arg D))
      → pcc_vsnprintf r buf1 mem len fmt args ≡ pcc_snprintf r buf1 mem len fmt args
  unfolding pcc_vsnprintf pcc_snprintf
  pcc_vsnprintf-pcc_snprintf mem len fmt args = refl
