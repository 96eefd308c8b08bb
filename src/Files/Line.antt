-- ===== src/Files/Line.antt =====
-- c-files.c: what one call of `fngets` reads.
use roadsend_php.Base.{
  ℕ, zero, suc, ◌+◌, ◌-◌, ◌≡◌, inl, inr, refl, ap, ap₂, ◌∙◌, List, [], ◌∷◌, Option, none, some,
  false, arith, ◌==◌, if◌then◌else◌, length, drop, Bool-cases,
}
use roadsend_php.Base.Int.{pos}
use roadsend_php.Files.{
  Stream, newline, unless_empty, cons_read, fngets_loop, fngets_result, fngets,
}

-- The first line, its newline included, cut after `n` bytes.
unfoldable pub first_line : ℕ → List ℕ → List ℕ
first_line zero bytes = []
first_line (suc n) [] = []
first_line (suc n) (b ∷ bytes) = b ∷ (if b == newline then [] else first_line n bytes)

-- The stream behind the line.
abbrev pub behind : List ℕ → List ℕ → Stream
behind line bytes = record { bytes = drop (length line) bytes; failing = false }

result_read : (c : Option ℕ) (x : ℕ) (t : List ℕ) → fngets_result c false (x ∷ t) ≡ some (x ∷ t)
unfolding fngets_result
result_read none x t = refl
result_read (some c) x t = refl

loop_lem :
    (n : ℕ) (c : Option ℕ) (bytes : List ℕ)
    → ((fngets_loop n c bytes false).text ≡ first_line n bytes)
      × ((fngets_loop n c bytes false).stream ≡ behind (first_line n bytes) bytes)
unfolding fngets_loop first_line cons_read
loop_lem zero c bytes = (refl, refl)
loop_lem (suc n) c [] = (refl, refl)
loop_lem (suc n) c (b ∷ bytes) =
    let rest = loop_lem n (some b) bytes in
    elim (Bool-cases (b == newline)) [
      | inl t ↦ rw t (refl, refl)
      | inr t ↦ rw t (ap (λ l. b ∷ l) rest.0, rest.1)
    ]

both :
    (n : ℕ) (bytes : List ℕ)
    → ◌≡◌ {A = Option (List ℕ) × Stream}
        (
          fngets_result
              (fngets_loop n none bytes false).c
              (fngets_loop n none bytes false).stream.failing
              (fngets_loop n none bytes false).text,
          (fngets_loop n none bytes false).stream,
        )
        (unless_empty (first_line n bytes), behind (first_line n bytes) bytes)
unfolding fngets_loop first_line cons_read fngets_result
both zero bytes = refl
both (suc n) [] = refl
both (suc n) (b ∷ bytes) =
    let r = fngets_loop n (some b) bytes false in
    let rest = loop_lem n (some b) bytes in
    elim (Bool-cases (b == newline)) [
      | inl t ↦ rw t refl
      | inr t ↦ rw t (
          ap₂ (λ o s. (o, s))
            (ap (λ s. fngets_result r.c s.failing (b ∷ r.text)) rest.1
              ∙ result_read r.c b r.text
              ∙ ap (λ l. some (b ∷ l)) rest.0)
            rest.1)
    ]

-- A call with `n + 1` for the size, on a stream that does not fail, reads the first line or the
-- `n` bytes that fit before the NUL; it reports the end where nothing is left, or no room.
pub fngets_lem :
    (n : ℕ) (bytes : List ℕ)
    → fngets (pos (n + 1)) (record { bytes = bytes; failing = false })
      ≡ (unless_empty (first_line n bytes), behind (first_line n bytes) bytes)
unfolding fngets
fngets_lem n bytes =
    let size : n + 1 - 1 ≡ n = omega arith in
    ap
      (λ k.
        let r = fngets_loop k none bytes false in
        (fngets_result r.c r.stream.failing r.text, r.stream))
      size
    ∙ both n bytes
