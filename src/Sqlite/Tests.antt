-- ===== src/Sqlite/Tests.antt =====
-- encode.c on concrete buffers.
use roadsend_php.Base.{ℕ, ◌≡◌, ◌≤◌, refl, List, ◌∷◌, [], some, none, arith, length, IsBytes}
use roadsend_php.Sqlite.{
  Encoded, sqlite_encode_binary, sqlite_decode_binary, sqlite_encode_size, encode_bytes,
  encode_byte, choice, choose_offset, escape_sum, count_bytes, decode_loop,
}
use roadsend_php.Sqlite.Encode.{
  IsEncoding, sqlite_encode_binary-IsEncoding, sqlite_decode_binary-encode,
  sqlite_encode_size-minimal,
}

abbrev quotes : List ℕ
quotes = 39 ∷ 39 ∷ 0 ∷ []

quotes-IsBytes : IsBytes quotes
quotes-IsBytes = omega arith

encode_quotes :
    sqlite_encode_binary quotes ≡ some (record { count = 4; out = 1 ∷ 38 ∷ 38 ∷ 255 ∷ 0 ∷ [] })
unfolding sqlite_encode_binary encode_bytes encode_byte choice choose_offset escape_sum count_bytes
encode_quotes = refl

-- A lone escape byte at the end makes the decoder read behind the terminator.
decode_unterminated : sqlite_decode_binary (5 ∷ 1 ∷ 0 ∷ []) ≡ none
unfolding sqlite_decode_binary decode_loop
decode_unterminated = refl

sqlite_encode_binary-IsEncoding_example :
    (r : Encoded) × (sqlite_encode_binary quotes ≡ some r) × IsEncoding quotes r
sqlite_encode_binary-IsEncoding_example = sqlite_encode_binary-IsEncoding quotes quotes-IsBytes

sqlite_decode_binary-encode_example :
    (r : Encoded) × (sqlite_encode_binary quotes ≡ some r)
    × (sqlite_decode_binary r.out ≡ some quotes)
sqlite_decode_binary-encode_example = sqlite_decode_binary-encode quotes quotes-IsBytes

sqlite_encode_size-minimal_example : sqlite_encode_size quotes ≤ length (7 ∷ encode_bytes 7 quotes)
sqlite_encode_size-minimal_example =
    sqlite_encode_size-minimal 39 (39 ∷ 0 ∷ []) 7 quotes-IsBytes (omega arith) (omega arith)
      (omega arith)
