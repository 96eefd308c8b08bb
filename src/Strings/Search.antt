-- ===== src/Strings/Search.antt =====
-- runtime/c-runtime.c: the searches `re_strstr` and `re_stristr`, and `re_strpos`. The haystack and
-- the needle are the bytes that can be read from their pointers on; pointers are indices, and a read
-- behind the bytes is `fault`. The two searches are the same code, which reads through `tolower` in
-- `re_stristr`: that is the parameter `fold`.
pub mod Compare
pub mod First
pub mod Loops
pub mod Position
mod Tests
use roadsend_php.Base.{
  ℕ, zero, suc, ◌+◌, ◌-◌, ◌%◌, ◌^◌, ltb, List, Option, none, some, Bool, true, false, ◌&&◌, leb,
  ◌==◌, if◌then◌else◌, ◌>>=◌, length, get_elem?, drop,
}
use roadsend_php.Base.Int.{ℤ, pos, negsuc, ◌-ℤ◌, ltb_ℤ, pos_part}

-- A pointer to the occurrence, or the null pointer of `ret0`.
pub data Result : Type 0 where
  found : ℕ → Result
  missing : Result
  fault : Result

-- `tolower` of the C locale.
unfoldable pub to_lower : ℕ → ℕ
to_lower c = if leb b'A' c && leb c b'Z' then c + 32 else c

-- Reading a byte and going on.
abbrev pub reading : List ℕ → ℕ → (ℕ → Result) → Result
reading memory p k = elim (get_elem? memory p) [ none ↦ fault | some a ↦ k a ]

module _ (fold : ℕ → ℕ) (haystack needle : List ℕ) where
  -- The `do` loop that compares the rest, with `in` of the code first, and whether the code then
  -- leaves by `foundneedle` or by `in <= 0`; the pointers are `rhaystack` and `needle`.
  pub rest_loop : ℕ → ℕ → ℕ → Option Bool
  rest_loop zero r q = some true
  rest_loop (suc zero) r q = do
    a ← get_elem? needle (q + 1)
    x ← get_elem? haystack (r + 1)
    some true
  rest_loop (suc (suc n)) r q = do
    a ← get_elem? needle (q + 1)
    x ← get_elem? haystack (r + 1)
    let go_on = (do
      d ← get_elem? needle (q + 2)
      y ← get_elem? haystack (r + 2)
      let rest = rest_loop n (r + 2) (q + 2)
      if fold y == fold d then rest else some (n == 0))
    if fold x == fold a then go_on else some false

  -- `crest`: the third byte is compared without `tolower`.
  pub compare_rest : ℕ → ℕ → Option Bool
  compare_rest n r = do
    x ← get_elem? haystack r
    a ← get_elem? needle 2
    let rest = rest_loop n r 2
    if x == a then rest else some (n == 0)

  module _ (c n : ℕ) where
    -- The byte `x` at `p`, behind one that is `b`: the rest is compared if `x` is `c`. Where that
    -- fails, `haystack--` and the next `*++haystack` give the same byte again. `on` is the loop.
    pub second_byte : (ℕ → ℕ → ℤ → Result) → ℕ → ℤ → ℕ → Result
    second_byte on p ih x =
        let again = on (fold x) (p + 1) (ih -ℤ pos 1) in
        let rest : Result = elim (compare_rest n (p + 1)) [
          | none ↦ fault
          | some true ↦ found (p - 1)
          | some false ↦ again
        ] in
        if fold x == c then rest else again

    pub second : (ℕ → ℕ → ℤ → Result) → ℕ → ℤ → Result
    second on p ih = reading haystack p (second_byte on p ih)

  module _ (b c n : ℕ) where
    -- In the `for` loop: the byte that its body reads at `p`, which may be `b`, and else the test
    -- of `ih` and the byte behind.
    pub next_byte : (ℕ → ℕ → ℤ → Result) → ℕ → ℤ → ℕ → Result
    next_byte on p ih x =
        let left = ih -ℤ pos 1 in
        let third = reading haystack (p + 1) (λ y. on (fold y) (p + 2) (left -ℤ pos 1)) in
        if fold x == b
        then second c n on (p + 1) left
        else if ltb_ℤ left (pos 0)
        then missing
        else third

    -- The `for` loop in the `do` loop, on fuel: `a` is the last byte and `p` the next index.
    pub scan : ℕ → ℕ → ℕ → ℤ → Result
    scan zero a p ih = fault
    scan (suc fuel) a p ih =
        let on = reading haystack p (next_byte (scan fuel) p ih) in
        if a == b then second c n (scan fuel) p ih else if ltb_ℤ ih (pos 0) then missing else on

  -- What stands behind the first loop, which has found `b` before `p`.
  pub behind : ℕ → ℕ → ℕ → ℕ → ℤ → Result
  behind fuel nlen b p ih = reading needle 1 (λ c.
      let on = scan b (fold c) (nlen - 2) fuel in
      if nlen - 1 == 0 then found (p - 1) else second (fold c) (nlen - 2) on p ih)

  -- The first loop, on fuel, which looks for `b`: the byte that it reads at `p`.
  pub first_byte : (ℕ → ℤ → Result) → ℕ → ℕ → ℕ → ℕ → ℤ → ℕ → Result
  first_byte on fuel nlen b p ih a =
      let left = ih -ℤ pos 1 in
      if ltb_ℤ left (pos 0)
      then missing
      else if fold a == b
      then behind fuel nlen b (p + 1) left
      else on (p + 1) left

  pub first_loop : ℕ → ℕ → ℕ → ℕ → ℤ → Result
  first_loop zero nlen b p ih = fault
  first_loop (suc fuel) nlen b p ih =
      reading haystack p (first_byte (first_loop fuel nlen b) fuel nlen b p ih)

  -- The whole search; each round reads a byte at least.
  pub search : ℤ → ℕ → Result
  search hslen nlen = reading needle 0 (λ b. first_loop (length haystack + 2) nlen (fold b) 0 hslen)

pub re_strstr : List ℕ → ℤ → List ℕ → ℕ → Result
re_strstr haystack hslen needle nlen = search (λ x. x) haystack needle hslen nlen

pub re_stristr : List ℕ → ℤ → List ℕ → ℕ → Result
re_stristr haystack hslen needle nlen = search to_lower haystack needle hslen nlen

-- The conversion to an `int` of 32 bits.
unfoldable pub narrow_int : ℕ → ℤ
narrow_int n = let w = n % 2 ^ 32 in if ltb w (2 ^ 31) then pos w else negsuc (2 ^ 32 - w - 1)

-- The `int` that a search counts a length down in. The least `int` cannot be counted down, and a
-- search with it is taken as undefined, whether it gets to that or not.
unfoldable pub int_length : ℕ → Option ℤ
int_length n = if n % 2 ^ 32 == 2 ^ 31 then none else some (narrow_int n)

-- The index of an occurrence behind the offset, or -1, as an `int`; `none` is what C leaves
-- undefined. A needle with a negative length is searched as one of length 0.
pub re_strpos : List ℕ → ℕ → List ℕ → ℕ → ℕ → Bool → Option ℤ
re_strpos haystack length_of_haystack needle length_of_needle offset cs = do
  hlen ← int_length (length_of_haystack % 2 ^ 32 + 2 ^ 32 - offset)
  nlen ← int_length length_of_needle
  let h = drop offset haystack
  let result =
      (if cs
        then re_strstr h hlen needle (pos_part nlen)
        else re_stristr h hlen needle (pos_part nlen))
  elim result [
    | found i ↦ some (narrow_int (i + offset))
    | missing ↦ some (negsuc 0)
    | fault ↦ none
  ]
