-- ===== src/Sha1/Tests.antt =====
-- sha1.c on concrete messages.
use roadsend_php.Base.{List, ℕ, ◌++◌, ◌+◌, ◌/◌, arith, ◌≡◌, refl, ◌∷◌, [], codes, false, replicate}
use roadsend_php.Sha1.Valid.{bit_length, IsInput, reset-IsValid, input-IsInput}
use roadsend_php.Sha1.Stream.{input-append, input_all}
use roadsend_php.Sha1.Digest.{hash_blocks, padded, digest-hash_blocks}
use roadsend_php.Sha1.{
  Context, reset, input, feed, input_loop, input_byte, process_if_full, count_bits, store, result,
  re_get_sha1_digest, pad_message, process_message_block, fill_zeros, set_all, finish, length_bytes,
  compress, rounds, round, logic, constant, schedule, more_words, first_words, first_word,
  circular_shift, word_bytes,
}

-- A context with anything in it.
abbrev blank : Context
blank = record {
  digest = record { a = 0; b = 0; c = 0; d = 0; e = 0 };
  length_low = 0;
  length_high = 0;
  block = replicate 64 0;
  block_index = 0;
  computed = false;
  corrupted = false;
}

-- The test vector of FIPS 180-1.
sha1_abc :
    re_get_sha1_digest (result (input (codes "abc") (reset blank))).0 (replicate 20 0)
    ≡ 0xa9 ∷ 0x99 ∷ 0x3e ∷ 0x36 ∷ 0x47 ∷ 0x06 ∷ 0x81 ∷ 0x6a ∷ 0xba ∷ 0x3e ∷ 0x25 ∷ 0x71 ∷ 0x78
      ∷ 0x50 ∷ 0xc2 ∷ 0x6c ∷ 0x9c ∷ 0xd0 ∷ 0xd8 ∷ 0x9d ∷ []
unfolding reset input feed input_loop input_byte process_if_full count_bits store result
    re_get_sha1_digest pad_message process_message_block fill_zeros set_all finish length_bytes
    compress rounds round logic constant schedule more_words first_words first_word circular_shift
    word_bytes
sha1_abc = refl

input-append_example :
    input (codes "abc" ++ codes "de") (reset blank)
    ≡ input (codes "de") (input (codes "abc") (reset blank))
input-append_example = input-append (codes "abc") (codes "de") (reset blank) (omega arith)

input-IsInput_example : IsInput 3 (reset blank) (input (codes "abc") (reset blank))
unfolding reset
input-IsInput_example =
    input-IsInput (codes "abc") (reset blank) (reset-IsValid blank refl) refl refl
      (unfold bit_length in omega arith)

-- "abc" in two pieces.
abbrev pieces : List (List ℕ)
pieces = codes "ab" ∷ codes "c" ∷ []

digest-hash_blocks_example :
    (result (input_all pieces (reset blank))).0.digest
    ≡ hash_blocks ((3 + 72) / 64) (reset blank).digest (padded (codes "abc"))
digest-hash_blocks_example =
    digest-hash_blocks pieces blank (omega arith, (omega arith, tt)) refl (omega arith)
