-- ===== src/Files/Chunks.antt =====
-- c-files.c: a line and its pieces.
use roadsend_php.Base.{
  ℕ, zero, suc, ◌+◌, ◌<◌, ◌≤◌, ◌≡◌, ◌≢◌, ◌⊎◌, inl, inr, refl, sym, ap, ◌∙◌, List, [], ◌∷◌, ◌++◌,
  true, false, arith, ◌==◌, length, drop, All, Bool-cases,
}
use roadsend_php.Files.{newline, c_string, last_byte}
use roadsend_php.Files.Line.{first_line}

-- No byte is NUL.
abbrev pub NoNul : List ℕ → Type 0
NoNul = All (λ b. b ≢ 0)

pub c_string_same : (t : List ℕ) → NoNul t → c_string t ≡ t
unfolding c_string
c_string_same [] h = refl
c_string_same (b ∷ t) (hb, ht) = ground (arith, c_string_same t ht)

pub first_line-NoNul : (n : ℕ) (bytes : List ℕ) → NoNul bytes → NoNul (first_line n bytes)
unfolding first_line
first_line-NoNul zero bytes h = tt
first_line-NoNul (suc n) [] h = tt
first_line-NoNul (suc n) (b ∷ bytes) (hb, h) =
    let rest = first_line-NoNul n bytes h in
    elim (Bool-cases (b == newline)) [ inl t ↦ rw t (hb, tt) | inr t ↦ rw t (hb, rest) ]

pub drop-NoNul : (n : ℕ) (bytes : List ℕ) → NoNul bytes → NoNul (drop n bytes)
drop-NoNul zero bytes h = h
drop-NoNul (suc n) [] h = h
drop-NoNul (suc n) (b ∷ bytes) (hb, h) = drop-NoNul n bytes h

pub length-first_line : (n : ℕ) (bytes : List ℕ) → length (first_line n bytes) ≤ n
unfolding first_line
length-first_line zero bytes = omega arith
length-first_line (suc n) [] = omega arith
length-first_line (suc n) (b ∷ bytes) = ground (arith, length-first_line n bytes)

pub length-first_line_le : (n : ℕ) (bytes : List ℕ) → length (first_line n bytes) ≤ length bytes
unfolding first_line
length-first_line_le zero bytes = omega arith
length-first_line_le (suc n) [] = omega arith
length-first_line_le (suc n) (b ∷ bytes) = ground (arith, length-first_line_le n bytes)

pub last_byte-append :
    (got : List ℕ) (b : ℕ) (t : List ℕ) → last_byte (got ++ b ∷ t) ≡ last_byte (b ∷ t)
unfolding last_byte
last_byte-append [] b t = refl
last_byte-append (x ∷ []) b t = refl
last_byte-append (x ∷ y ∷ got) b t = last_byte-append (y ∷ got) b t

line_open :
    (n b : ℕ) (bytes : List ℕ)
    → (b == newline) ≡ false
    → first_line (suc n) (b ∷ bytes) ≡ b ∷ first_line n bytes
unfolding first_line
line_open n b bytes t = rw t refl

line_end :
    (n b : ℕ) (bytes : List ℕ) → (b == newline) ≡ true → first_line (suc n) (b ∷ bytes) ≡ b ∷ []
unfolding first_line
line_end n b bytes t = rw t refl

last_byte-newline : (b : ℕ) → (b == newline) ≡ true → last_byte (b ∷ []) ≡ newline
unfolding last_byte
last_byte-newline b t = ground arith

last_byte-tail :
    (b : ℕ) (t : List ℕ)
    → (b == newline) ≡ false
    → last_byte (b ∷ t) ≡ newline
    → last_byte t ≡ newline
unfolding last_byte
last_byte-tail b [] e h = absurd (ground arith)
last_byte-tail b (c ∷ t) e h = h

last_byte-cons : (b : ℕ) (t : List ℕ) → last_byte t ≡ newline → last_byte (b ∷ t) ≡ newline
unfolding last_byte
last_byte-cons b [] h = absurd (omega arith)
last_byte-cons b (c ∷ t) h = h

-- A line that ends with its newline, or that is not cut, does not grow with the limit.
pub first_line_more :
    (m n : ℕ) (bytes : List ℕ)
    → m ≤ n
    → (length (first_line m bytes) < m) ⊎ (last_byte (first_line m bytes) ≡ newline)
    → first_line n bytes ≡ first_line m bytes
unfolding first_line last_byte
first_line_more zero n bytes h (inl few) = absurd (omega arith)
first_line_more zero n bytes h (inr end) = absurd (omega arith)
first_line_more (suc m) zero bytes h done = absurd (omega arith)
first_line_more (suc m) (suc n) [] h done = refl
first_line_more (suc m) (suc n) (b ∷ bytes) h done =
    let rest = first_line_more m n bytes (omega arith) in
    elim (Bool-cases (b == newline)) [
      | inl t ↦ rw t refl
      | inr t ↦
          let here = line_open m b bytes t in
          let done' : (length (first_line m bytes) < m)
              ⊎ (last_byte (first_line m bytes) ≡ newline) =
            elim done [
              | inl few ↦ inl (omega (arith, few, ap length here))
              | inr end ↦
                  inr (last_byte-tail b (first_line m bytes) t (sym (ap last_byte here) ∙ end))
            ] in
          line_open n b bytes t ∙ ap (λ l. b ∷ l) (rest done') ∙ sym here
    ]

-- A line that is cut before its newline goes on behind the cut.
pub first_line_cut :
    (m k : ℕ) (bytes : List ℕ)
    → length (first_line m bytes) ≡ m
    → last_byte (first_line m bytes) ≢ newline
    → first_line (m + k) bytes ≡ first_line m bytes ++ first_line k (drop m bytes)
first_line_cut zero k bytes full goes_on =
    let e : 0 + k ≡ k = omega arith in unfold first_line in ap (λ i. first_line i bytes) e
first_line_cut (suc m) k [] full goes_on = absurd (unfold first_line in omega arith)
first_line_cut (suc m) k (b ∷ bytes) full goes_on =
    let e : suc m + k ≡ suc (m + k) = omega arith in
    elim (Bool-cases (b == newline)) [
      | inl t ↦ absurd (goes_on (ap last_byte (line_end m b bytes t) ∙ last_byte-newline b t))
      | inr t ↦
          let here = line_open m b bytes t in
          let rest =
            first_line_cut m k bytes (omega (arith, full, ap length here))
              (λ end. goes_on (ap last_byte here ∙ last_byte-cons b (first_line m bytes) end)) in
          ap (λ i. first_line i (b ∷ bytes)) e
          ∙ line_open (m + k) b bytes t
          ∙ ap (λ l. b ∷ l) rest
          ∙ ap (λ l. l ++ first_line k (drop m bytes)) (sym here)
    ]
