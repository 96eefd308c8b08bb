-- ===== src/Format/Interpreter/Document/Texts.antt =====
-- pcc_snprintf.c: the texts of some formats.
use roadsend_php.Base.{
  ◌++◌, replicate, ℕ, suc, ◌+◌, ◌-◌, ◌^◌, ◌<◌, ◌≤◌, ◌≡◌, ◌≢◌, refl, ap, ◌∙◌, List, [], ◌∷◌, some,
  false, ◌==◌, if◌then◌else◌, length, codes, arith, All, append-nil, Bool-cases, inl, inr,
}
use roadsend_php.Base.Int.{ℤ, magnitude, is_neg}
use roadsend_php.Format.Digits.{IsPrinted}
use roadsend_php.Format.Directive.{Arg, word, is_int}
use roadsend_php.Format.Real.{Real}
use roadsend_php.Format.Convert.{Text, Conversion, put_before, case_d, sign_prefix}
use roadsend_php.Format.Convert.Cases.{signed_value, case_d-Gives}
use roadsend_php.Format.Switch.Letters.{plain_layout, directive_d}
use roadsend_php.Format.Interpreter.{prefixed, pcc_snprintf}
use roadsend_php.Format.Interpreter.Shown.{field}
use roadsend_php.Format.Interpreter.Document.{Doc, document, doc_directive, doc_act, shown}
use roadsend_php.Format.Interpreter.Written.{written, result_count, start_doc, pcc_snprintf_lem}

module _ (r : Real) (buf1 : List ℕ) where
  open r use {D}

  document_plain :
      (fmt : List ℕ) (d : Doc D)
      → All (λ c. c ≢ b'%') fmt
      → document r buf1 (length fmt) fmt d ≡ some (fmt, record d { cc = d.cc + length fmt })
  unfolding document
  document_plain [] d h = ap (λ n. some ([], record d { cc = n })) (omega arith)
  document_plain (c ∷ fmt) d h =
      let plain : (c == b'%') ≡ false = ground (arith, h.0) in
      rw (plain, document_plain fmt (record d { cc = suc d.cc }) h.1)
        (ap (λ n. some (c ∷ fmt, record d { cc = n })) (omega arith))

  -- A format without a percent sign is written as it stands.
  pub pcc_snprintf_plain :
      (mem : List ℕ) (len : ℕ) (fmt : List ℕ) (args : List (Arg D))
      → len ≤ length mem
      → All (λ c. c ≢ b'%') fmt
      → pcc_snprintf r buf1 mem len fmt args ≡ some (written len fmt mem, result_count len fmt)
  pcc_snprintf_plain mem len fmt args h k =
      pcc_snprintf_lem r buf1 mem len fmt args fmt _ h (document_plain fmt (start_doc args) k)

  -- The text of a number and its sign.
  abbrev pub with_sign : ℤ → List ℕ → List ℕ
  with_sign v digits = if is_neg v then b'-' ∷ digits else digits

  prefixed_sign :
      (v : ℤ) (c : Conversion)
      → c.prefix_char ≡ sign_prefix plain_layout.flags (is_neg v)
      → c.text.fixed ≡ false
      → 1 ≤ c.text.room
      → (t : Text) × (prefixed c ≡ some t) × (t.bytes ≡ with_sign v c.text.bytes)
  unfolding prefixed sign_prefix put_before
  prefixed_sign v c e f h = elim (Bool-cases (is_neg v)) [
    | inl negative ↦
        let minus : c.prefix_char ≡ b'-' = e ∙ rw negative refl in
        let inside : (c.text.room == 0) ≡ false = ground arith in
        (
          record {
            bytes = c.prefix_char ∷ c.text.bytes;
            room = c.text.room - 1;
            fixed = c.text.fixed;
          },
          ground arith,
          rw negative (ap (λ m. m ∷ c.text.bytes) minus),
        )
    | inr positive ↦
        let nothing : c.prefix_char ≡ 0 = e ∙ rw positive refl in
        (c.text, ground arith, rw positive refl)
  ]

  abbrev pub behind_text : Conversion → List ℕ → Doc D
  behind_text c bytes = record {
    cc = 0 + length bytes;
    s_len = some (length bytes);
    i_num = c.i_num;
    args = [];
    stores = [];
  }

  doc_directive_d :
      (w : ℕ) (c : Conversion) (t : Text)
      → case_d plain_layout is_int w 0 ≡ some c
      → prefixed c ≡ some t
      → doc_directive r buf1 (codes "d") (start_doc (word w ∷ []))
        ≡ some (t.bytes, behind_text c t.bytes, [])
  unfolding doc_directive doc_act shown field
  doc_directive_d w c t e f = rw (directive_d r buf1 [] w 0 [], e, f) refl

  -- The text of "%d".
  pub document_d :
      (w : ℕ)
      → w < 2 ^ 64
      → (digits : List ℕ) × (d : Doc D) × IsPrinted 10
          (magnitude (signed_value 32 w))
          64
          (some digits)
        × (document r buf1 2 (codes "%d") (start_doc (word w ∷ []))
            ≡ some (with_sign (signed_value 32 w) digits, d))
  unfolding document
  document_d w k =
      let g = case_d-Gives plain_layout is_int w 0 k in
      let (t, e, bytes) =
        prefixed_sign (signed_value 32 w) g.conversion g.prefixed g.numeral.pointed
          g.numeral.spare in
      let nothing : 0 - length g.numeral.digits ≡ 0 = omega arith in
      let plain : g.conversion.text.bytes ≡ g.numeral.digits =
        g.numeral.padded ∙ ap (λ n. replicate n b'0' ++ g.numeral.digits) nothing in
      (
        g.numeral.digits,
        behind_text g.conversion t.bytes,
        g.numeral.printed,
        rw (doc_directive_d w g.conversion t g.returns e, append-nil t.bytes)
            (ap (λ s. some (s, behind_text g.conversion t.bytes))
              (bytes ∙ ap (with_sign (signed_value 32 w)) plain)),
      )
