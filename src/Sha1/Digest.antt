-- ===== src/Sha1/Digest.antt =====
-- sha1.c: the digest of a message fed from `SHA1Reset` on.
use roadsend_php.Base.{
  ℕ, zero, suc, ◌+◌, ◌*◌, ◌/◌, ◌%◌, ◌^◌, ◌<◌, ◌≡◌, refl, sym, ap, ap₂, ◌∙◌, List, [], ◌∷◌, ◌++◌,
  false, arith, ◌==◌, length, replicate, take, drop, length-append, take-append-drop, length-take,
  length-drop, All, Bool-cases, inl, inr,
}
use roadsend_php.Sha1.{
  Words, Context, reset, compress, store, count_bits, process_if_full, process_message_block,
  input_byte, input_loop, feed, length_bytes, pad_message, result,
}
use roadsend_php.Sha1.Valid.{
  IsValid, bit_length, input_loop-IsInput, input_byte-IsInput, reset-IsValid,
}
use roadsend_php.Sha1.Absorb.{absorb, absorb_all, absorb_all-append, absorb_all_block}
use roadsend_php.Sha1.Pad.{zeros, padding, length-replicate, pad_message-absorb_all}
use roadsend_php.Sha1.Stream.{
  feed-input_loop, input_loop_open, input_all, message_of, IsPiece, input_all-feed,
}

-- A context without its count of bits.
abbrev erase : Context → Context
erase ctx = record ctx { length_low = 0; length_high = 0; corrupted = false }

erase-process_if_full : (ctx : Context) → erase (process_if_full ctx) ≡ process_if_full (erase ctx)
unfolding process_if_full process_message_block
erase-process_if_full ctx = elim (Bool-cases (ctx.block_index == 64)) [
  | inl t ↦ rw t refl
  | inr t ↦ rw t refl
]

erase-count_bits : (ctx : Context) → erase (count_bits ctx) ≡ erase ctx
unfolding count_bits
erase-count_bits ctx = ground arith

erase-absorb : (v : ℕ) (ctx : Context) → erase (absorb v ctx) ≡ absorb v (erase ctx)
unfolding absorb store
erase-absorb v ctx = unfold store in erase-process_if_full (store v ctx)

erase-absorb_all :
    (vs : List ℕ) (ctx : Context) → erase (absorb_all vs ctx) ≡ absorb_all vs (erase ctx)
unfolding absorb_all
erase-absorb_all [] ctx = refl
erase-absorb_all (v ∷ vs) ctx =
    erase-absorb_all vs (absorb v ctx) ∙ ap (absorb_all vs) (erase-absorb v ctx)

erase-input_byte : (v : ℕ) (ctx : Context) → erase (input_byte v ctx) ≡ absorb v (erase ctx)
unfolding input_byte absorb
erase-input_byte v ctx =
    erase-process_if_full (count_bits (store v ctx))
    ∙ ap process_if_full (erase-count_bits (store v ctx))
    ∙ unfold store in refl

erase-input_loop :
    (message : List ℕ) (ctx : Context)
    → IsValid ctx
    → ctx.corrupted ≡ false
    → bit_length ctx + 8 * length message < 2 ^ 64
    → erase (input_loop message ctx) ≡ absorb_all message (erase ctx)
erase-input_loop [] ctx valid fine fits = unfold input_loop absorb_all in refl
erase-input_loop (v ∷ message) ctx valid fine fits =
    let one = input_byte-IsInput v ctx valid fine (omega arith) in
    let rest =
      erase-input_loop message (input_byte v ctx) one.valid one.corrupted
        (omega (arith, one.counted)) in
    ap erase (input_loop_open v message ctx fine)
    ∙ rest
    ∙ ap (absorb_all message) (erase-input_byte v ctx)
    ∙ unfold absorb_all in refl

-- The hash of `n` blocks of 64 bytes, from `h` on.
pub hash_blocks : ℕ → Words → List ℕ → Words
hash_blocks zero h bytes = h
hash_blocks (suc n) h bytes = hash_blocks n (compress h (take 64 bytes)) (drop 64 bytes)

-- The length of the message in bits, in eight bytes, most significant first.
pub big_endian : ℕ → List ℕ
big_endian n =
    n / 2 ^ 56 % 256
    ∷ n / 2 ^ 48 % 256
    ∷ n / 2 ^ 40 % 256
    ∷ n / 2 ^ 32 % 256
    ∷ n / 2 ^ 24 % 256
    ∷ n / 2 ^ 16 % 256
    ∷ n / 2 ^ 8 % 256
    ∷ n % 256
    ∷ []

-- The padded message of FIPS 180-1.
pub padded : List ℕ → List ℕ
padded message = message ++ padding (length message % 64) (big_endian (8 * length message))

length-padded : (message : List ℕ) → length (padded message) ≡ 64 * ((length message + 72) / 64)
unfolding padded padding big_endian
length-padded message =
    let i = length message % 64 in
    ground (
      arith,
      length-append message (padding i (big_endian (8 * length message))),
      length-append (replicate (zeros i) 0) (big_endian (8 * length message)),
      length-replicate (zeros i) 0,
    )

length_bytes-big_endian :
    (ctx : Context)
    → ctx.length_low < 2 ^ 32
    → ctx.length_high < 2 ^ 32
    → length_bytes ctx ≡ big_endian (bit_length ctx)
unfolding length_bytes big_endian bit_length
length_bytes-big_endian ctx low high =
    ap₂ (λ t r. t ∷ r) (omega arith)
      (ap₂ (λ t r. t ∷ r) (omega arith)
        (ap₂ (λ t r. t ∷ r) (omega arith)
          (ap₂ (λ t r. t ∷ r) (omega arith)
            (ap₂ (λ t r. t ∷ r) (omega arith)
              (ap₂ (λ t r. t ∷ r) (omega arith)
                (ap₂ (λ t r. t ∷ r) (omega arith) (ap (λ t. t ∷ []) (omega arith))))))))

absorb_all-hash_blocks :
    (n : ℕ) (bytes : List ℕ) (ctx : Context)
    → length bytes ≡ 64 * n
    → length ctx.block ≡ 64
    → ctx.block_index ≡ 0
    → (absorb_all bytes ctx).digest ≡ hash_blocks n ctx.digest bytes
unfolding hash_blocks
absorb_all-hash_blocks zero [] ctx h size start = unfold absorb_all in refl
absorb_all-hash_blocks zero (x ∷ bytes) ctx h size start = absurd (omega arith)
absorb_all-hash_blocks (suc n) bytes ctx h size start =
    let whole = length-take 64 bytes (omega arith) in
    let next : Context = record ctx {
      digest = compress ctx.digest (take 64 bytes);
      block = take 64 bytes;
      block_index = 0;
    } in
    let rest =
      absorb_all-hash_blocks n (drop 64 bytes) next (omega (arith, length-drop 64 bytes)) whole
        refl in
    let first = absorb_all_block (take 64 bytes) ctx whole size start in
    let halves : absorb_all bytes ctx
        ≡ absorb_all (drop 64 bytes) (absorb_all (take 64 bytes) ctx) =
      ap (λ l. absorb_all l ctx) (sym (take-append-drop 64 bytes))
      ∙ absorb_all-append (take 64 bytes) (drop 64 bytes) ctx in
    ap (λ c. c.digest) (halves ∙ ap (absorb_all (drop 64 bytes)) first) ∙ rest

-- `SHA1Result` on an open context: the padded rest is absorbed.
result_open :
    (ctx : Context)
    → ctx.corrupted ≡ false
    → ctx.computed ≡ false
    → (result ctx).0.digest ≡ (pad_message ctx).digest
unfolding result
result_open ctx fine still = ground arith

-- One piece of any size.
feed-hash_blocks :
    (message : List ℕ) (ctx : Context)
    → length ctx.block ≡ 64
    → 8 * length message < 2 ^ 64
    → (result (feed message (reset ctx))).0.digest
      ≡ hash_blocks ((length message + 72) / 64) (reset ctx).digest (padded message)
unfolding padded
feed-hash_blocks message ctx size fits =
    let start = reset ctx in
    let none : bit_length start ≡ 0 = unfold reset bit_length in refl in
    let still : start.computed ≡ false = unfold reset in refl in
    let fine : start.corrupted ≡ false = unfold reset in refl in
    let first : start.block_index ≡ 0 = unfold reset in refl in
    let valid = reset-IsValid ctx size in
    let fed = input_loop message start in
    let is = input_loop-IsInput message start valid fine (omega arith) in
    let bits : bit_length fed ≡ 8 * length message = omega (arith, is.counted) in
    let place : fed.block_index ≡ length message % 64 = omega (arith, is.place) in
    let pad = padding fed.block_index (length_bytes fed) in
    let same : pad ≡ padding (length message % 64) (big_endian (8 * length message)) =
      ap₂ padding place
        (length_bytes-big_endian fed is.valid.low is.valid.high ∙ ap big_endian bits) in
    let erased = erase start in
    ap (λ c. (result c).0.digest) (feed-input_loop message start still)
    ∙ result_open fed is.corrupted (is.computed ∙ still)
    ∙ ap (λ c. c.digest) (pad_message-absorb_all fed is.valid.room)
    ∙ ap (λ c. c.digest) (erase-absorb_all pad fed)
    ∙ ap (λ c. (absorb_all pad c).digest) (erase-input_loop message start valid fine (omega arith))
    ∙ ap (λ c. c.digest) (sym (absorb_all-append message pad erased))
    ∙ ap (λ p. (absorb_all (message ++ p) erased).digest) same
    ∙ absorb_all-hash_blocks ((length message + 72) / 64) (padded message) erased
        (length-padded message) valid.full_block first

-- The digest of a message of less than 2 ^ 61 bytes, fed to a reset context in pieces of less than
-- 2 ^ 32 bytes, is the digest of FIPS 180-1: the compression of the blocks of the padded message,
-- from the initial words on.
pub digest-hash_blocks :
    (pieces : List (List ℕ)) (ctx : Context)
    → All IsPiece pieces
    → length ctx.block ≡ 64
    → 8 * length (message_of pieces) < 2 ^ 64
    → (result (input_all pieces (reset ctx))).0.digest
      ≡ hash_blocks
          ((length (message_of pieces) + 72) / 64)
          (reset ctx).digest
          (padded (message_of pieces))
digest-hash_blocks pieces ctx h size fits =
    ap (λ c. (result c).0.digest) (input_all-feed pieces (reset ctx) h)
    ∙ feed-hash_blocks (message_of pieces) ctx size fits
