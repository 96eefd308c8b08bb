-- ===== src/Files/Pieces.antt =====
-- c-files.c: the pieces in which `php_fgets` reads a long line.
use mathlib.Core.Option
use roadsend_php.Base.{
  ℕ, zero, suc, ◌+◌, ◌<◌, ◌≤◌, ◌≡◌, ◌≢◌, ◌⊎◌, inl, inr, refl, sym, ap, ◌∙◌, List, [], ◌∷◌, ◌++◌,
  some, true, false, arith, ltb, length, drop, length-append, Bool-cases,
}
use roadsend_php.Base.Int.{pos, ◌-ℤ◌, -ℤ_parts, eq_of_parts}
use roadsend_php.Files.{
  newline, buffersize, unless_empty, c_string, last_byte, is_finished, min_ℤ, leb_ℤ,
}
use roadsend_php.Files.Line.{first_line, behind}
use roadsend_php.Files.Chunks.{NoNul, c_string_same, first_line_more}

-- The size of a piece: all that is wanted, or all that the buffer holds.
pub record Piece (n : ℕ) : Type 0 where
  pub m : ℕ
  pub size : min_ℤ (pos buffersize) (pos (n + 1)) ≡ pos (m + 1)
  pub le : m ≤ n
  pub room : m ≤ 8191
  pub which : (m ≡ n) ⊎ (m ≡ 8191)

pub piece : (n : ℕ) → Piece n
unfolding min_ℤ
piece n = elim (Bool-cases (ltb buffersize (n + 1))) [
  | inl t ↦ record {
    m = 8191;
    size = ground arith;
    le = ground arith;
    room = omega arith;
    which = inr refl;
  }
  | inr t ↦ record {
    m = n;
    size = ground arith;
    le = omega arith;
    room = ground arith;
    which = inl refl;
  }
]

pub whole_line :
    (m n : ℕ) (bytes : List ℕ)
    → m ≤ n
    → (m ≡ n) ⊎ (m ≡ 8191)
    → (length (first_line m bytes) < 8191) ⊎ (last_byte (first_line m bytes) ≡ newline)
    → first_line n bytes ≡ first_line m bytes
whole_line m n bytes le (inl same) done = ap (λ k. first_line k bytes) (sym same)
whole_line m n bytes le (inr full) (inl few) = first_line_more m n bytes le (inl (omega arith))
whole_line m n bytes le (inr full) (inr end) = first_line_more m n bytes le (inr end)

pub unless_empty-append :
    (got : List ℕ) (b : ℕ) (t : List ℕ) → unless_empty (got ++ b ∷ t) ≡ some (got ++ b ∷ t)
unless_empty-append [] b t = refl
unless_empty-append (x ∷ got) b t = refl

drop_nil : (n : ℕ) → drop {A = ℕ} n [] ≡ []
drop_nil zero = refl
drop_nil (suc n) = refl

drop-drop : (k m : ℕ) (bytes : List ℕ) → drop k (drop m bytes) ≡ drop (m + k) bytes
drop-drop k zero bytes = let e : k ≡ 0 + k = omega arith in ap (λ i. drop i bytes) e
drop-drop k (suc m) [] = drop_nil k ∙ sym (drop_nil (suc m + k))
drop-drop k (suc m) (b ∷ bytes) =
    let e : suc (m + k) ≡ suc m + k = omega arith in
    drop-drop k m bytes ∙ ap (λ i. drop i (b ∷ bytes)) e

-- How `is_finished` ends.
pub finished_cases :
    (len : ℕ) (got : List ℕ)
    → ((is_finished len got ≡ true) × ((len < 8191) ⊎ (last_byte got ≡ newline)))
      ⊎ ((is_finished len got ≡ false) × (8191 ≤ len) × (last_byte got ≢ newline))
unfolding is_finished
finished_cases len got = ground arith

pub not_below : (k : ℕ) → leb_ℤ (pos 0) (pos (k + 1)) ≡ true
not_below k = ground arith

pub left_over : (k : ℕ) → pos (8191 + k + 1) -ℤ pos 8191 ≡ pos (k + 1)
left_over k =
    eq_of_parts (pos (8191 + k + 1) -ℤ pos 8191) (pos (k + 1))
      (omega (arith, -ℤ_parts (pos (8191 + k + 1)) (pos 8191)))

-- Behind a full piece, and the line behind that.
pub behind_both :
    (line bytes : List ℕ) (k : ℕ)
    → length line ≡ 8191
    → behind (first_line k (drop 8191 bytes)) (drop 8191 bytes)
      ≡ behind (line ++ first_line k (drop 8191 bytes)) bytes
behind_both line bytes k full =
    let more = first_line k (drop 8191 bytes) in
    let total : 8191 + length more ≡ length (line ++ more) =
      omega (arith, length-append line more, full) in
    ap (λ l. record { bytes = l; failing = false })
      (drop-drop (length more) 8191 bytes ∙ ap (λ i. drop i bytes) total)

pub map-c_string : (t : List ℕ) → NoNul t → Option.map c_string (unless_empty t) ≡ unless_empty t
map-c_string [] h = refl
map-c_string (b ∷ t) h = ap some (c_string_same (b ∷ t) h)
