-- ===== src/Files/Whole.antt =====
-- c-files.c: `php_fgets` reads one line, also where it reads it in pieces.
use mathlib.Core.Option
use mathlib.Core.Path.{subst}
use roadsend_php.Base.{
  ℕ, zero, suc, ◌+◌, ◌-◌, ◌<◌, ◌≤◌, ◌≡◌, ◌≢◌, ◌⊎◌, inl, inr, refl, sym, ap, ap₂, ◌∙◌, List, [], ◌∷◌,
  ◌++◌, append-nil, append_assoc, Option, none, some, Bool, true, false, not, ◌&&◌, arith,
  if◌then◌else◌, length, drop, length-drop, Bool-cases,
}
use roadsend_php.Base.Int.{ℤ, pos, ◌-ℤ◌}
use roadsend_php.Files.{
  Stream, newline, buffersize, unless_empty, fngets, c_string, last_byte, is_finished, min_ℤ,
  read_big, php_fgets, leb_ℤ,
}
use roadsend_php.Files.Line.{first_line, behind, fngets_lem}
use roadsend_php.Files.Chunks.{
  NoNul, c_string_same, first_line-NoNul, drop-NoNul, length-first_line, length-first_line_le,
  last_byte-append, first_line_cut,
}
use roadsend_php.Files.Pieces.{
  piece, whole_line, unless_empty-append, finished_cases, not_below, left_over, behind_both,
  map-c_string,
}

module _ (alloc : ℕ → Bool) (enough : (n : ℕ) → alloc n ≡ true) where
  -- What the round makes of the result of `fngets`.
  abbrev go : ℕ → List ℕ → ℤ → Stream → Option (List ℕ) × Stream → Option (Option (List ℕ) × Stream)
  go fuel got limit s p =
      if alloc (length got + buffersize)
      then elim p.0 [
        | none ↦ some (unless_empty got, p.1)
        | some t ↦
            let len = length (c_string t) in
            let more = got ++ c_string t in
            let left = limit -ℤ pos len in
            let again = read_big alloc fuel more left p.1 in
            if not (is_finished len more) && leb_ℤ (pos 0) left
            then again
            else some (some more, p.1)
      ]
      else some (none, s)

  go-none :
      (fuel : ℕ) (got : List ℕ) (limit : ℤ) (s after : Stream)
      → go fuel got limit s (none, after) ≡ some (unless_empty got, after)
  go-none fuel got limit s after = rw (enough (length got + buffersize)) refl

  go_finished :
      (fuel : ℕ) (got : List ℕ) (limit : ℤ) (s after : Stream) (t : List ℕ)
      → c_string t ≡ t
      → is_finished (length t) (got ++ t) ≡ true
      → go fuel got limit s (some t, after) ≡ some (some (got ++ t), after)
  go_finished fuel got limit s after t same end =
      rw (enough (length got + buffersize), same, end) refl

  go_more :
      (fuel : ℕ) (got : List ℕ) (k : ℕ) (limit : ℤ) (s after : Stream) (t : List ℕ)
      → c_string t ≡ t
      → is_finished (length t) (got ++ t) ≡ false
      → limit -ℤ pos (length t) ≡ pos (k + 1)
      → go fuel got limit s (some t, after) ≡ read_big alloc fuel (got ++ t) (pos (k + 1)) after
  go_more fuel got k limit s after t same end left =
      rw (enough (length got + buffersize), same, end, left, not_below k) refl

  -- The loop reads the first line of what is left, behind what it has.
  abbrev Reads : ℕ → Type 0
  Reads fuel =
      (k : ℕ) (more rest : List ℕ)
      → NoNul rest
      → length rest < fuel
      → read_big alloc fuel more (pos (k + 1)) (behind [] rest)
        ≡ some (unless_empty (more ++ first_line k rest), behind (first_line k rest) rest)

  -- A full piece without the end of the line: the loop goes on behind it.
  round_more :
      (fuel k : ℕ) (got bytes line : List ℕ)
      → NoNul bytes
      → length bytes ≤ fuel
      → first_line 8191 bytes ≡ line
      → length line ≡ 8191
      → is_finished (length line) (got ++ line) ≡ false
      → last_byte line ≢ newline
      → Reads fuel
      → go fuel got (pos (8191 + k + 1)) (behind [] bytes) (some line, behind line bytes)
        ≡ some (
          unless_empty (got ++ first_line (8191 + k) bytes),
          behind (first_line (8191 + k) bytes) bytes,
        )
  round_more fuel k got bytes line ok fits head full end goes_on again =
      let rest = drop 8191 bytes in
      let size = 8191 + k + 1 in
      let same : c_string line ≡ line =
        c_string_same line (subst NoNul head (first_line-NoNul 8191 bytes ok)) in
      let cut : first_line (8191 + k) bytes ≡ line ++ first_line k rest =
        first_line_cut 8191 k bytes (ap length head ∙ full)
          (λ nl. goes_on (sym (ap last_byte head) ∙ nl))
        ∙ ap (λ l. l ++ first_line k rest) head in
      let left : pos size -ℤ pos (length line) ≡ pos (k + 1) =
        ap (λ i. pos size -ℤ pos i) full ∙ left_over k in
      go_more fuel got k (pos size) (behind [] bytes) (behind line bytes) line same end left
      ∙ ap (read_big alloc fuel (got ++ line) (pos (k + 1)))
          (ap (λ i. record { bytes = drop i bytes; failing = false }) full)
      ∙ again k (got ++ line) rest (drop-NoNul 8191 bytes ok)
          (omega (arith, length-drop 8191 bytes, length-first_line_le 8191 bytes, ap length head))
      ∙ ap₂ (λ g r. some (unless_empty g, r)) (append_assoc got line (first_line k rest))
          (behind_both line bytes k full)
      ∙ ap (λ l. some (unless_empty (got ++ l), behind l bytes)) (sym cut)

  -- A piece with the end of the line, or of the limit or the stream.
  round_done :
      (fuel n b : ℕ) (got bytes t : List ℕ)
      → NoNul (b ∷ t)
      → is_finished (length (b ∷ t)) (got ++ b ∷ t) ≡ true
      → first_line n bytes ≡ b ∷ t
      → go fuel got (pos (n + 1)) (behind [] bytes) (some (b ∷ t), behind (b ∷ t) bytes)
        ≡ some (unless_empty (got ++ first_line n bytes), behind (first_line n bytes) bytes)
  round_done fuel n b got bytes t ok end all =
      let line = b ∷ t in
      go_finished fuel got (pos (n + 1)) (behind [] bytes) (behind line bytes) line
        (c_string_same line ok) end
      ∙ ap (λ o. some (o, behind line bytes)) (sym (unless_empty-append got b t))
      ∙ ap (λ l. some (unless_empty (got ++ l), behind l bytes)) (sym all)

  -- The round for a piece of `m` bytes, by what was read.
  round_lem :
      (fuel n m : ℕ) (got bytes t : List ℕ)
      → NoNul bytes
      → length bytes ≤ fuel
      → m ≤ n
      → m ≤ 8191
      → (m ≡ n) ⊎ (m ≡ 8191)
      → first_line m bytes ≡ t
      → Reads fuel
      → go fuel got (pos (n + 1)) (behind [] bytes) (unless_empty t, behind t bytes)
        ≡ some (unless_empty (got ++ first_line n bytes), behind (first_line n bytes) bytes)
  round_lem fuel n m got bytes [] ok fits le room which read again =
      let few : length (first_line m bytes) < 8191 = omega (arith, ap length read) in
      let all : first_line n bytes ≡ [] = whole_line m n bytes le which (inl few) ∙ read in
      go-none fuel got (pos (n + 1)) (behind [] bytes) (behind [] bytes)
      ∙ ap (λ g. some (unless_empty g, behind [] bytes)) (sym (append-nil got))
      ∙ ap (λ l. some (unless_empty (got ++ l), behind l bytes)) (sym all)
  round_lem fuel n m got bytes (b ∷ t) ok fits le room which read again =
      let line = b ∷ t in
      let last = last_byte-append got b t in
      elim (finished_cases (length line) (got ++ line)) [
        | inl (end, how) ↦
            let how' : (length (first_line m bytes) < 8191)
                ⊎ (last_byte (first_line m bytes) ≡ newline) =
              elim how [
                | inl few ↦ inl (omega (arith, few, ap length read))
                | inr nl ↦ inr (ap last_byte read ∙ sym last ∙ nl)
              ] in
            round_done fuel n b got bytes t (subst NoNul read (first_line-NoNul m bytes ok)) end
              (whole_line m n bytes le which how' ∙ read)
        | inr (end, many, goes_on) ↦
            let short = length-first_line m bytes in
            let full : length line ≡ 8191 = omega (arith, ap length read) in
            let place : m ≡ 8191 = omega (arith, ap length read) in
            let sum : 8191 + (n - 8191) ≡ n = omega arith in
            let head : first_line 8191 bytes ≡ line =
              ap (λ i. first_line i bytes) (sym place) ∙ read in
            subst
              (λ i.
                go fuel got (pos (i + 1)) (behind [] bytes) (some line, behind line bytes)
                ≡ some
                    (unless_empty (got ++ first_line i bytes), behind (first_line i bytes) bytes))
              sum
              (round_more fuel (n - 8191) got bytes line ok fits head full end
                (λ nl. goes_on (last ∙ nl)) again)
      ]

  read_big-go :
      (fuel : ℕ) (got : List ℕ) (limit : ℤ) (s : Stream)
      → read_big alloc (suc fuel) got limit s
        ≡ go fuel got limit s (fngets (min_ℤ (pos buffersize) limit) s)
  unfolding read_big
  read_big-go fuel got limit s = refl

  read_big_lem :
      (fuel k : ℕ) (more rest : List ℕ)
      → NoNul rest
      → length rest < fuel
      → read_big alloc fuel more (pos (k + 1)) (behind [] rest)
        ≡ some (unless_empty (more ++ first_line k rest), behind (first_line k rest) rest)
  read_big_lem zero n got bytes ok fits = absurd (omega arith)
  read_big_lem (suc fuel) n got bytes ok fits =
      let p = piece n in
      read_big-go fuel got (pos (n + 1)) (behind [] bytes)
      ∙ ap (go fuel got (pos (n + 1)) (behind [] bytes))
          (ap (λ size. fngets size (behind [] bytes)) p.size ∙ fngets_lem p.m bytes)
      ∙ round_lem fuel n p.m got bytes (first_line p.m bytes) ok (omega arith) p.le p.room p.which
          refl (read_big_lem fuel)

  memory : (ready : Bool) → (not ready && not (alloc buffersize)) ≡ false
  memory true = refl
  memory false = rw (enough buffersize) refl

  -- On a stream of bytes without NUL that does not fail, with a limit of `n + 1` and memory enough,
  -- `php_fgets` returns the first line or its first `n` bytes, and '() where that is nothing, with
  -- the static buffer as with pieces of it; the stream is left behind what was returned.
  pub php_fgets-first_line :
      (ready : Bool) (n : ℕ) (bytes : List ℕ)
      → NoNul bytes
      → php_fgets alloc ready (behind [] bytes) (pos (n + 1))
        ≡ some (unless_empty (first_line n bytes), behind (first_line n bytes) bytes, true)
  unfolding php_fgets
  php_fgets-first_line ready n bytes ok =
      let line = first_line n bytes in
      elim (Bool-cases (leb_ℤ (pos (n + 1)) (pos buffersize))) [
        | inl small ↦
            rw (memory ready, small)
              (ap (λ p. some (Option.map c_string p.0, p.1, true)) (fngets_lem n bytes)
                ∙ ap (λ o. some (o, behind line bytes, true))
                    (map-c_string line (first_line-NoNul n bytes ok)))
        | inr large ↦
            rw (memory ready, large)
              (ap (Option.map (λ p. (p.0, p.1, true)))
                (read_big_lem (length bytes + 1) n [] bytes ok (omega arith)))
      ]
