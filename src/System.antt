-- ===== src/System.antt =====
-- runtime/ext/standard/php-system.c: the output of a command, read through a pipe into a buffer
-- that grows; the version for Unix.
pub mod Buffer
mod Tests
use roadsend_php.Base.{
  ℕ, zero, suc, ◌+◌, ◌-◌, List, [], ◌∷◌, ◌++◌, Option, none, some, ltb, ◌==◌, if◌then◌else◌, ◌>>=◌,
  length, take, drop,
}
use roadsend_php.Files.{c_string}

abbrev pub increment : ℕ
increment = 1024

-- The bytes written to `buf`, whose number is `pos`, and the size of the buffer.
pub record Filled : Type 0 where
  pub buf : List ℕ
  pub currentsize : ℕ

-- The extension where the buffer is full: the bytes are copied.
extend : ℕ → Filled → Filled
extend by b =
    if length b.buf == b.currentsize then record b { currentsize = b.currentsize + by } else b

-- The `while` loop on fuel: `fread` gives the next bytes of `output`, as many as fit, or as are
-- left. `none` is fuel that does not suffice.
pub read_loop : ℕ → Filled → List ℕ → Option Filled
read_loop zero b output = none
read_loop (suc fuel) b output =
    let room = b.currentsize - length b.buf in
    let got = take room output in
    let rest =
      read_loop fuel (extend increment (record b { buf = b.buf ++ got })) (drop room output) in
    if length got == 0 then some b else rest

-- `buf[pos] = 0` behind the second extension; `none` is a write outside of the buffer.
terminate : Filled → Option (List ℕ)
terminate b = if ltb (length b.buf) b.currentsize then some b.buf else none

-- `php_c_system`: `pipe` is what the command prints, or `none` where `popen` fails, and `retval`
-- what `pclose` returns. The outer `none` is a fault, the inner one BNIL; `string_to_bstring`
-- takes the buffer up to its first NUL.
pub php_c_system : Option (List ℕ) → ℕ → Option (Option (List ℕ × ℕ))
php_c_system none retval = some none
php_c_system (some output) retval = do
  b ← read_loop (length output + 1) (record { buf = []; currentsize = increment }) output
  text ← terminate (extend 1 b)
  some (some (c_string text, retval))
