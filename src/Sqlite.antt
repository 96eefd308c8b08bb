-- ===== src/Sqlite.antt =====
-- runtime/ext/sqlite/encode.c: binary data as text without NUL and quote, and back.
-- A buffer is the list of its bytes; reading behind the end of `in` is `none`.
pub mod RoundTrip
pub mod Offset
pub mod Size
pub mod Encode
mod Tests
use roadsend_php.Base.{
  ℕ, zero, suc, ◌+◌, ◌-◌, ◌%◌, List, [], ◌∷◌, ◌++◌, Option, none, some, ◌||◌, ltb, ◌==◌,
  if◌then◌else◌, ◌>>=◌, length,
}
use roadsend_php.Base.Bits.{u8}

-- The byte '\''.
abbrev pub quote : ℕ
quote = 39

-- `for(i=n-1; i>=0; i--){ cnt[in[i]]++; }` on a zeroed array, here a function of the index.
pub count_bytes : List ℕ → ℕ → ℕ
count_bytes [] v = 0
count_bytes (x ∷ xs) v = count_bytes xs v + (if x == v then 1 else 0)

-- `sum`: the bytes that offset `i` would have escaped.
pub escape_sum : (ℕ → ℕ) → ℕ → ℕ
escape_sum cnt i = cnt i + cnt ((i + 1) % 256) + cnt ((i + quote) % 256)

-- `m` and `e`; `e` is `none` as long as it is not assigned.
pub record Choice : Type 0 where
  pub m : ℕ
  pub e : Option ℕ

-- `for(i=1; i<256; i++)` with the rounds left.
pub choose_offset : (ℕ → ℕ) → ℕ → ℕ → Choice → Choice
choose_offset cnt zero i s = s
choose_offset cnt (suc left) i s =
    let sum = escape_sum cnt i in
    let better : Choice = record { m = sum; e = some i } in
    let skip = choose_offset cnt left (i + 1) s in
    let go_on = choose_offset cnt left (i + 1) better in
    if i == quote then skip else if ltb sum s.m then if sum == 0 then better else go_on else skip

-- The two loops before the output.
pub choice : List ℕ → Choice
choice input = choose_offset (count_bytes input) 255 1 (record { m = length input; e = none })

-- What one input byte appends to `out`; the `unsigned char` subtraction wraps.
pub encode_byte : ℕ → ℕ → List ℕ
encode_byte e b =
    let x = u8 (b + 256 - e) in
    if x == 0 || (x == 1 || x == quote) then 1 ∷ u8 (x + 1) ∷ [] else x ∷ []

pub encode_bytes : ℕ → List ℕ → List ℕ
encode_bytes e [] = []
encode_bytes e (b ∷ bs) = encode_byte e b ++ encode_bytes e bs

-- The result of a call with an output buffer: the returned count, and what is in `out`.
pub record Encoded : Type 0 where
  pub count : ℕ
  pub out : List ℕ

-- The call with `out == NULL`: the length that would be written.
pub sqlite_encode_size : List ℕ → ℕ
sqlite_encode_size [] = 1
sqlite_encode_size (b ∷ bs) = length (b ∷ bs) + (choice (b ∷ bs)).m + 1

-- The call with a buffer. `none` is an offset that was never assigned, or the failed `assert`.
pub sqlite_encode_binary : List ℕ → Option Encoded
sqlite_encode_binary [] = some (record { count = 1; out = b'x' ∷ 0 ∷ [] })
sqlite_encode_binary (b ∷ bs) = do
  e ← (choice (b ∷ bs)).e
  let body = encode_bytes e (b ∷ bs)
  let j = 1 + length body
  if j == length (b ∷ bs) + (choice (b ∷ bs)).m + 1
      then some (record { count = j; out = e ∷ (body ++ 0 ∷ []) })
      else none

-- `while( (c = *(in++))!=0 )`: the bytes written to `out`.
pub decode_loop : ℕ → List ℕ → Option (List ℕ)
decode_loop e [] = none
decode_loop e (c ∷ []) = if c == 0 then some [] else none
decode_loop e (c ∷ d ∷ rest) =
    let escaped = decode_loop e rest in
    let plain = decode_loop e (d ∷ rest) in
    if c == 0
    then some []
    else if c == 1
    then (escaped >>= λ out. some (u8 (u8 (d + 255) + e) ∷ out))
    else (plain >>= λ out. some (u8 (c + e) ∷ out))

pub sqlite_decode_binary : List ℕ → Option (List ℕ)
sqlite_decode_binary [] = none
sqlite_decode_binary (e ∷ rest) = decode_loop e rest
