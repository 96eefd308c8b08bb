-- ===== src/Format/Sink/Place.antt =====
-- pcc_snprintf.c: printing into a buffer that starts at the caller's `buf`, or into none.
use roadsend_php.Base.{
  ℕ, zero, suc, ◌+◌, ◌<◌, ◌≤◌, ◌≡◌, refl, sym, ap, ◌∙◌, List, [], ◌∷◌, ◌++◌, none, some, true,
  false, ltb, leb, if◌then◌else◌, length, take, drop, set, arith, Bool-cases, inl, inr, tests,
  ltb→lt, append-nil, append_assoc, length-append, length-drop, set-append,
}
use roadsend_php.Format.Sink.{Vbuff, Out, ok, full, ins_char, ins_at, print_loop}

module _ {ℓ} {A : Type ℓ} where
  drop-lt : (n : ℕ) (xs : List A) → n < length xs → (x : A) × (drop n xs ≡ x ∷ drop (suc n) xs)
  drop-lt n [] h = absurd (omega arith)
  drop-lt zero (x ∷ xs) h = (x, refl)
  drop-lt (suc n) (x ∷ xs) h = drop-lt n xs (omega arith)

  -- Writing behind what is written.
  pub set-behind :
      (s mem : List A) (c : A)
      → length s < length mem
      → set (s ++ drop (length s) mem) (length s) c ≡ (s ++ c ∷ []) ++ drop (suc (length s)) mem
  set-behind s mem c h =
      let (x, e) = drop-lt (length s) mem h in
      ap (λ l. set (s ++ l) (length s) c) e ∙ set-append s (drop (suc (length s)) mem) x c

  pub take_all : (n : ℕ) (s : List A) → length s ≤ n → take n s ≡ s
  take_all zero [] h = refl
  take_all zero (x ∷ s) h = absurd (omega arith)
  take_all (suc n) [] h = refl
  take_all (suc n) (x ∷ s) h = ap (λ l. x ∷ l) (take_all n s (omega arith))

  pub take-append : (s t : List A) → take (length s) (s ++ t) ≡ s
  take-append [] t = refl
  take-append (x ∷ s) t = ap (λ l. x ∷ l) (take-append s t)

lt-leb : (a b : ℕ) → b < a → leb a b ≡ false
lt-leb a b h = ground arith

-- The output behind a text, in a memory with so much room for it.
abbrev pub placed : List ℕ → ℕ → List ℕ → Out
placed mem bep text = record {
  memory = text ++ drop (length text) mem;
  sp = some (length text);
  bep = bep;
  cc = length text;
}

-- The full buffer: the text is cut off.
abbrev pub cut : List ℕ → ℕ → List ℕ → Vbuff
cut mem bep text = record {
  memory = take bep text ++ drop bep mem;
  curpos = some bep;
  endpos = bep;
}

module _ (mem : List ℕ) (bep : ℕ) (room : bep < length mem) where
  ins_char-placed :
      (c : ℕ) (text : List ℕ)
      → length text < bep
      → ins_char c (placed mem bep text) ≡ ok (placed mem bep (text ++ c ∷ []))
  unfolding ins_char ins_at
  ins_char-placed c text h =
      let free : leb bep (length text) ≡ false = ground arith in
      let size : length (text ++ drop (length text) mem) ≡ length mem =
        length-append text (drop (length text) mem)
        ∙ omega (arith, length-drop (length text) mem) in
      let inside : ltb (length text) (length (text ++ drop (length text) mem)) ≡ true =
        rw size (ground arith) in
      let count : length (text ++ c ∷ []) ≡ suc (length text) =
        omega (arith, length-append text (c ∷ [])) in
      rw (free, inside, count, set-behind text mem c (omega arith)) refl

  ins_char-full :
      (c : ℕ) (text : List ℕ)
      → length text ≡ bep
      → ins_char c (placed mem bep text) ≡ full (cut mem bep text)
  unfolding ins_char ins_at
  ins_char-full c text h =
      let reached : leb bep (length text) ≡ true = ground arith in
      let whole : take bep text ≡ text = take_all bep text (omega arith) in
      rw (reached, whole, h) refl

  -- A text is printed where it has room, and else cut off.
  pub print_loop-placed :
      (s text : List ℕ)
      → length text ≤ bep
      → print_loop s (placed mem bep text) ≡ (
          if leb (length (text ++ s)) bep
          then ok (placed mem bep (text ++ s))
          else full (cut mem bep (text ++ s)))
  unfolding print_loop
  print_loop-placed [] text h =
      let fits : leb (length text) bep ≡ true = ground arith in rw (append-nil text, fits) refl
  print_loop-placed (c ∷ s) text h = elim (Bool-cases (ltb (length text) bep)) [
    | inl free ↦
        let size : length (text ++ c ∷ []) ≤ bep =
          omega (tests, length-append text (c ∷ []), ltb→lt _ _ free) in
        rw (ins_char-placed c text (ltb→lt _ _ free)) (
          print_loop-placed s (text ++ c ∷ []) size
          ∙ ap (λ t. if leb (length t) bep then ok (placed mem bep t) else full (cut mem bep t))
              (append_assoc text (c ∷ []) s))
    | inr last ↦
        let at_end : length text ≡ bep = ground arith in
        let over : leb (length (text ++ c ∷ s)) bep ≡ false =
          lt-leb _ _ (omega (arith, length-append text (c ∷ s), at_end)) in
        let prefix : take bep (text ++ c ∷ s) ≡ take bep text =
          ap (λ n. take n (text ++ c ∷ s)) (sym at_end)
          ∙ take-append text (c ∷ s)
          ∙ sym (take_all bep text h) in
        rw (ins_char-full c text at_end, over, prefix) refl
  ]

-- Without a buffer the characters are counted.
pub print_loop-null :
    (s : List ℕ) (mem : List ℕ) (bep n : ℕ)
    → print_loop s (record { memory = mem; sp = none; bep = bep; cc = n })
      ≡ ok (record { memory = mem; sp = none; bep = bep; cc = n + length s })
unfolding print_loop ins_char
print_loop-null [] mem bep n =
    ap (λ m. ok (record { memory = mem; sp = none; bep = bep; cc = m })) (omega arith)
print_loop-null (c ∷ s) mem bep n =
    print_loop-null s mem bep (suc n)
    ∙ ap (λ m. ok (record { memory = mem; sp = none; bep = bep; cc = m })) (omega arith)
