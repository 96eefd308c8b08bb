-- ===== src/Files/Tests.antt =====
-- c-files.c on concrete streams.
use roadsend_php.Base.{◌≡◌, refl, [], ◌∷◌, Bool, true, false, ℕ, some, arith}
use roadsend_php.Base.Int.{pos}
use roadsend_php.Files.{
  unless_empty, newline, php_fgets, fngets, fngets_loop, fngets_result, cons_read, c_string,
}
use roadsend_php.Files.Line.{first_line, behind}
use roadsend_php.Files.Whole.{php_fgets-first_line}

abbrev all_memory : ℕ → Bool
all_memory n = true

-- A NUL cuts the line that is returned, although the stream has advanced behind its newline.
php_fgets_nul :
    php_fgets all_memory true (behind [] (b'a' ∷ 0 ∷ b'b' ∷ newline ∷ b'c' ∷ [])) (pos 100)
    ≡ some (some (b'a' ∷ []), behind [] (b'c' ∷ []), true)
unfolding php_fgets fngets fngets_loop fngets_result cons_read c_string
php_fgets_nul = refl

php_fgets-first_line_example :
    php_fgets all_memory false (behind [] (b'a' ∷ b'b' ∷ newline ∷ b'c' ∷ [])) (pos 10001)
    ≡ some (
      unless_empty (first_line 10000 (b'a' ∷ b'b' ∷ newline ∷ b'c' ∷ [])),
      behind
          (first_line 10000 (b'a' ∷ b'b' ∷ newline ∷ b'c' ∷ []))
          (b'a' ∷ b'b' ∷ newline ∷ b'c' ∷ []),
      true,
    )
php_fgets-first_line_example =
    php_fgets-first_line all_memory (λ n. refl) false 10000 (b'a' ∷ b'b' ∷ newline ∷ b'c' ∷ [])
      (omega arith)
