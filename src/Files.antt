-- ===== src/Files.antt =====
-- runtime/ext/standard/c-files.c: reading a line from a stream.
-- A stream is what is left to read, and whether a read behind that is an error or the end of the
-- file. Whether an allocation of so many bytes succeeds is a parameter.
pub mod Line
pub mod Chunks
pub mod Pieces
pub mod Whole
mod Tests
use roadsend_php.Base.{
  ℕ, zero, suc, ◌+◌, ◌-◌, List, [], ◌∷◌, ◌++◌, Option, none, some, Bool, true, false, not, ◌&&◌,
  ◌||◌, ltb, leb, ◌==◌, if◌then◌else◌, length,
}
use mathlib.Core.Option
use roadsend_php.Base.Int.{ℤ, pos, negsuc, ◌-ℤ◌, ltb_ℤ}

abbrev pub newline : ℕ
newline = 10

abbrev pub buffersize : ℕ
buffersize = 8192

-- `a <= b` on `int`.
abbrev pub leb_ℤ : ℤ → ℤ → Bool
leb_ℤ a b = not (ltb_ℤ b a)

pub record Stream : Type 0 where
  pub bytes : List ℕ
  pub failing : Bool

-- `while(--size>0 && ...)` goes round so often at most.
abbrev pub rounds : ℤ → ℕ
rounds (pos n) = n - 1
rounds (negsuc n) = 0

-- What the loop of `fngets` has written to `s`, the last `c` with `none` for EOF, and the stream.
pub record Read : Type 0 where
  pub text : List ℕ
  pub c : Option ℕ
  pub stream : Stream

cons_read : ℕ → Read → Read
cons_read b r = record r { text = b ∷ r.text }

-- `getc` takes the first byte; at the end it gives EOF.
pub fngets_loop : ℕ → Option ℕ → List ℕ → Bool → Read
fngets_loop zero c bytes failing = record {
  text = [];
  c = c;
  stream = record { bytes = bytes; failing = failing };
}
fngets_loop (suc n) c [] failing = record {
  text = [];
  c = none;
  stream = record { bytes = []; failing = failing };
}
fngets_loop (suc n) c (b ∷ bytes) failing =
    let stop : Read = record {
      text = [];
      c = some b;
      stream = record { bytes = bytes; failing = failing };
    } in
    let rest = fngets_loop n (some b) bytes failing in
    cons_read b (if b == newline then stop else rest)

-- `none` where nothing was read.
abbrev pub unless_empty : List ℕ → Option (List ℕ)
unless_empty [] = none
unless_empty (b ∷ text) = some (b ∷ text)

-- The tests behind the loop: `none` is the result -1, else the text is in the buffer with a NUL
-- behind it, and its length is the result. Where EOF was met, `feof` tells if it was no error.
fngets_result : Option ℕ → Bool → List ℕ → Option (List ℕ)
fngets_result (some c) failing text = some text
fngets_result none failing text = if failing then none else unless_empty text

pub fngets : ℤ → Stream → Option (List ℕ) × Stream
fngets size s =
    let r = fngets_loop (rounds size) none s.bytes s.failing in
    (fngets_result r.c r.stream.failing r.text, r.stream)

-- The bytes that `strlen` counts.
pub c_string : List ℕ → List ℕ
c_string [] = []
c_string (b ∷ text) = if b == 0 then [] else b ∷ c_string text

pub last_byte : List ℕ → ℕ
last_byte [] = 0
last_byte (b ∷ []) = b
last_byte (b ∷ c ∷ text) = last_byte (c ∷ text)

-- The condition of the `do` loop, negated, apart from `limit`: `len` and what is read so far.
pub is_finished : ℕ → List ℕ → Bool
is_finished len got = ltb len (buffersize - 1) || last_byte got == newline

pub min_ℤ : ℤ → ℤ → ℤ
min_ℤ a b = if ltb_ℤ a b then a else b

-- The `do` loop for a large limit, on fuel; `got` is what `actually_read` counts in `bigbuf`. The
-- outer `none` is fuel that does not suffice, the inner one BNIL.
pub read_big : (ℕ → Bool) → ℕ → List ℕ → ℤ → Stream → Option (Option (List ℕ) × Stream)
read_big alloc zero got limit s = none
read_big alloc (suc fuel) got limit s =
    let (text, after) = fngets (min_ℤ (pos buffersize) limit) s in
    if alloc (length got + buffersize)
    then elim text [
      | none ↦ some (unless_empty got, after)
      | some t ↦
          let len = length (c_string t) in
          let more = got ++ c_string t in
          let left = limit -ℤ pos len in
          let again = read_big alloc fuel more left after in
          if not (is_finished len more) && leb_ℤ (pos 0) left
          then again
          else some (some more, after)
    ]
    else some (none, s)

-- `php_fgets`; `ready` tells if the static buffer is there, and the last result if it is then.
pub php_fgets : (ℕ → Bool) → Bool → Stream → ℤ → Option (Option (List ℕ) × Stream × Bool)
php_fgets alloc ready s limit =
    if not ready && not (alloc buffersize)
    then some (none, s, false)
    else if leb_ℤ limit (pos buffersize)
    then (let (text, after) = fngets limit s in some (Option.map c_string text, after, true))
    else elim (read_big alloc (length s.bytes + 1) [] limit s) [
      | none ↦ none
      | some (value, after) ↦ some (value, after, true)
    ]
