-- ===== src/Sqlite/RoundTrip.antt =====
-- encode.c: decoding what the encoder wrote, and the bytes that it never writes.
use roadsend_php.Base.{
  ℕ, ◌+◌, ◌-◌, ◌<◌, ◌∙◌, ◌||◌, ◌==◌, if◌then◌else◌, ◌≡◌, ◌≢◌, refl, List, [], ◌∷◌, ◌++◌, some,
  arith, ◌>>=◌, All, All-append, append_assoc, IsBytes, Bool-cases, ==_iff, inl, inr,
}
use roadsend_php.Base.Bits.{u8}
use roadsend_php.Sqlite.{encode_byte, encode_bytes, decode_loop, quote}

-- The escape of one shifted byte, apart from the shift.
written : ℕ → List ℕ
written x = if x == 0 || (x == 1 || x == quote) then 1 ∷ u8 (x + 1) ∷ [] else x ∷ []

decode-written :
    (e x d : ℕ) (rest : List ℕ)
    → x < 256
    → decode_loop e (written x ++ d ∷ rest)
      ≡ (decode_loop e (d ∷ rest) >>= λ out. some (u8 (x + e) ∷ out))
unfolding decode_loop written
decode-written e x d rest hx = elim (Bool-cases (x == 0)) [
  | inl z ↦ rw ((==_iff x 0).0 z) refl
  | inr z ↦ elim (Bool-cases (x == 1)) [
    | inl o ↦ rw ((==_iff x 1).0 o) refl
    | inr o ↦ elim (Bool-cases (x == quote)) [
      | inl q ↦ rw ((==_iff x quote).0 q) refl
      | inr q ↦ rw (z, o, q) (rw (z, o) refl)
    ]
  ]
]

shift_back : (e b : ℕ) → e < 256 → b < 256 → u8 (u8 (b + 256 - e) + e) ≡ b
shift_back e b he hb = omega arith

decode-encode_byte :
    (e b d : ℕ) (rest : List ℕ)
    → e < 256
    → b < 256
    → decode_loop e (encode_byte e b ++ d ∷ rest)
      ≡ (decode_loop e (d ∷ rest) >>= λ out. some (b ∷ out))
unfolding encode_byte written
decode-encode_byte e b d rest he hb =
    decode-written e (u8 (b + 256 - e)) d rest (omega arith) ∙ rw (shift_back e b he hb) refl

encode_byte-cons : (e b : ℕ) → (d : ℕ) × (rest : List ℕ) × (encode_byte e b ≡ d ∷ rest)
unfolding encode_byte
encode_byte-cons e b =
    let x = u8 (b + 256 - e) in
    elim (Bool-cases (x == 0 || (x == 1 || x == quote))) [
      | inl t ↦ (1, u8 (x + 1) ∷ [], rw t)
      | inr t ↦ (x, [], rw t)
    ]

encode_bytes-cons :
    (e : ℕ) (bs : List ℕ) → (d : ℕ) × (rest : List ℕ) × (encode_bytes e bs ++ 0 ∷ [] ≡ d ∷ rest)
unfolding encode_bytes
encode_bytes-cons e [] = (0, [], refl)
encode_bytes-cons e (b ∷ bs) =
    let (d, rest, same) = encode_byte-cons e b in
    (d, (rest ++ encode_bytes e bs) ++ 0 ∷ [], rw same refl)

pub decode_loop-encode_bytes :
    (e : ℕ) (bs : List ℕ)
    → e < 256
    → IsBytes bs
    → decode_loop e (encode_bytes e bs ++ 0 ∷ []) ≡ some bs
unfolding encode_bytes
decode_loop-encode_bytes e [] he h = unfold decode_loop in refl
decode_loop-encode_bytes e (b ∷ bs) he (hb, hbs) =
    let (d, rest, same) = encode_bytes-cons e bs in
    rw (append_assoc, same)
      (decode-encode_byte e b d rest he hb ∙ rw (← same, decode_loop-encode_bytes e bs he hbs) refl)

-- Neither NUL nor the quote.
abbrev pub IsSafe : ℕ → Type 0
IsSafe x = (x ≢ 0) × (x ≢ quote)

encode_byte-IsSafe : (e b : ℕ) → e < 256 → b < 256 → All IsSafe (encode_byte e b)
unfolding encode_byte
encode_byte-IsSafe e b he hb = ground arith

pub encode_bytes-IsSafe :
    (e : ℕ) (bs : List ℕ) → e < 256 → IsBytes bs → All IsSafe (encode_bytes e bs)
unfolding encode_bytes
encode_bytes-IsSafe e [] he h = tt
encode_bytes-IsSafe e (b ∷ bs) he (hb, hbs) =
    All-append IsSafe (encode_byte e b) _ (encode_byte-IsSafe e b he hb)
      (encode_bytes-IsSafe e bs he hbs)
