-- ===== src/Strnatcmp.antt =====
-- runtime/ext/standard/strnatcmp.c: the natural order of strings, which takes runs of digits for
-- numbers. A C string is the list of its bytes before the terminating NUL.
pub mod Order
pub mod Numbers
mod Tests
use roadsend_php.Base.{
  ℕ, zero, suc, ◌+◌, ◌-◌, ◌%◌, List, [], ◌∷◌, Option, none, some, Bool, true, false, not, ◌&&◌,
  ◌||◌, ltb, leb, ◌==◌, if◌then◌else◌, length,
}

-- The results -1, 0 and +1.
pub data Sign : Type 0 where
  less : Sign
  equal : Sign
  greater : Sign

-- The byte at the start, and the string behind it.
abbrev pub head_byte : List ℕ → ℕ
head_byte [] = 0
head_byte (c ∷ s) = c

abbrev pub rest_bytes : List ℕ → List ℕ
rest_bytes [] = []
rest_bytes (c ∷ s) = s

-- `isdigit`, `isspace` and `toupper` of the C locale.
pub is_digit : ℕ → Bool
is_digit c = leb b'0' c && leb c b'9'

pub is_space : ℕ → Bool
is_space c = c == 32 || (leb 9 c && leb c 13)

pub to_upper : ℕ → ℕ
to_upper c = if leb b'a' c && leb c b'z' then c - 32 else c

-- A byte as a `char`, which is signed, plus 128.
pub char_value : ℕ → ℕ
char_value c = if ltb c 128 then c + 128 else c % 128

-- How a pair of digits changes `bias`.
next_bias : Sign → ℕ → ℕ → Sign
next_bias less x y = less
next_bias greater x y = greater
next_bias equal x y = if ltb x y then less else if ltb y x then greater else equal

-- The loop of `compare_right`, with `bias`; it ends at a NUL at the latest, which is no digit.
pub compare_right : Sign → List ℕ → List ℕ → Sign
compare_right bias [] b = if is_digit (head_byte b) then less else bias
compare_right bias (x ∷ a) [] = if is_digit x then greater else bias
compare_right bias (x ∷ a) (y ∷ b) =
    let rest = compare_right (next_bias bias x y) a b in
    if not (is_digit x) && not (is_digit y)
    then bias
    else if not (is_digit x)
    then less
    else if not (is_digit y)
    then greater
    else rest

pub compare_left : List ℕ → List ℕ → Sign
compare_left [] b = if is_digit (head_byte b) then less else equal
compare_left (x ∷ a) [] = if is_digit x then greater else equal
compare_left (x ∷ a) (y ∷ b) =
    let rest = compare_left a b in
    if not (is_digit x) && not (is_digit y)
    then equal
    else if not (is_digit x)
    then less
    else if not (is_digit y)
    then greater
    else if ltb x y
    then less
    else if ltb y x
    then greater
    else rest

-- `while (isspace(ca)) ca = a[++ai]`
pub skip_spaces : List ℕ → List ℕ
skip_spaces [] = []
skip_spaces (c ∷ s) = if is_space c then skip_spaces s else c ∷ s

-- `result` of the run of digits; `equal` where there is none.
pub digit_run : List ℕ → List ℕ → Sign
digit_run a b =
    let ca = head_byte a in
    let cb = head_byte b in
    if is_digit ca && is_digit cb
    then if ca == b'0' || cb == b'0' then compare_left a b else compare_right equal a b
    else equal

fold_char : Bool → ℕ → ℕ
fold_char fold_case c = if fold_case then to_upper c else c

-- The end of a round, with `x` and `y` for `ca` and `cb` behind `toupper`; `next` is what the
-- next round returns.
finish_chars : ℕ → ℕ → ℕ → ℕ → Option Sign → Option Sign
finish_chars ca cb x y next =
    if ca == 0 && cb == 0
    then some equal
    else if ltb x y
    then some less
    else if ltb y x
    then some greater
    else next

-- The rest of a round, behind the run of digits.
finish_round : Bool → ℕ → ℕ → Sign → Option Sign → Option Sign
finish_round fold_case ca cb less next = some less
finish_round fold_case ca cb greater next = some greater
finish_round fold_case ca cb equal next =
    finish_chars ca cb (char_value (fold_char fold_case ca)) (char_value (fold_char fold_case cb))
      next

-- `while (1)` on fuel.
natcmp_loop : ℕ → Bool → List ℕ → List ℕ → Option Sign
natcmp_loop zero fold_case a b = none
natcmp_loop (suc fuel) fold_case a b =
    let sa = skip_spaces a in
    let sb = skip_spaces b in
    let next = natcmp_loop fuel fold_case (rest_bytes sa) (rest_bytes sb) in
    finish_round fold_case (head_byte sa) (head_byte sb) (digit_run sa sb) next

-- Each round but the last takes a byte of `a`.
pub strnatcmp0 : Bool → List ℕ → List ℕ → Option Sign
strnatcmp0 fold_case a b = natcmp_loop (length a + 1) fold_case a b

pub strnatcmp : List ℕ → List ℕ → Option Sign
strnatcmp a b = strnatcmp0 false a b

pub strnatcasecmp : List ℕ → List ℕ → Option Sign
strnatcasecmp a b = strnatcmp0 true a b
