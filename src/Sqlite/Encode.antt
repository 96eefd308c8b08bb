-- ===== src/Sqlite/Encode.antt =====
-- encode.c: what `sqlite_encode_binary` returns, for every buffer.
use roadsend_php.Base.{
  ℕ, ◌+◌, ◌*◌, ◌≤◌, ◌<◌, ◌≡◌, ◌≢◌, refl, List, [], ◌∷◌, ◌++◌, some, arith, length, length-append,
  All, IsBytes, inl, inr, ==_iff,
}
use roadsend_php.Sqlite.{
  quote, Encoded, choice, escape_sum, count_bytes, encode_bytes, sqlite_encode_size,
  sqlite_encode_binary, sqlite_decode_binary, decode_loop,
}
use roadsend_php.Sqlite.Offset.{IsChosen, choose_offset-minimal, choose_offset-IsChosen}
use roadsend_php.Sqlite.RoundTrip.{IsSafe, decode_loop-encode_bytes, encode_bytes-IsSafe}
use roadsend_php.Sqlite.Size.{length-encode_bytes, best_offset_le}

-- The offset found for a buffer that is not empty.
record HasOffset (bs : List ℕ) : Type 0 where
  e : ℕ
  chosen : (choice bs).e ≡ some e
  escapes : (choice bs).m ≡ escape_sum (count_bytes bs) e
  pos : 0 < e
  lt : e < 256
  not_quote : e ≢ quote

choice-minimal :
    (bs : List ℕ) (j : ℕ)
    → 0 < j
    → j < 256
    → j ≢ quote
    → (choice bs).m ≤ escape_sum (count_bytes bs) j
unfolding choice
choice-minimal bs j lo hi ne = choose_offset-minimal (count_bytes bs) 255 1 _ j lo hi ne

choice_le : (bs : List ℕ) → IsBytes bs → 254 * (choice bs).m ≤ 3 * length bs
choice_le bs h = best_offset_le bs h (choice bs).m (choice-minimal bs)

choice-HasOffset : (bs : List ℕ) → 0 < length bs → IsBytes bs → HasOffset bs
choice-HasOffset bs some_byte h = go found
  where
    found : IsChosen (count_bytes bs) (length bs) (choice bs)
    found =
        unfold choice in
        choose_offset-IsChosen (count_bytes bs) (length bs) 255 1 _ (omega arith) refl
          (inl (refl, refl))

    go : IsChosen (count_bytes bs) (length bs) (choice bs) → HasOffset bs
    go (inl (unset, same)) = absurd (omega (arith, choice_le bs h))
    go (inr (e, chosen, escapes, pos, lt, not_quote)) = record {
      e = e;
      chosen = chosen;
      escapes = escapes;
      pos = pos;
      lt = lt;
      not_quote = not_quote;
    }

-- The result of the call on a buffer that is not empty.
module _ (b : ℕ) (bs : List ℕ) (h : IsBytes (b ∷ bs)) where
  abbrev offset : HasOffset (b ∷ bs)
  offset = choice-HasOffset (b ∷ bs) (omega arith) h

  abbrev body : List ℕ
  body = encode_bytes offset.e (b ∷ bs)

  length-body : length body ≡ length (b ∷ bs) + (choice (b ∷ bs)).m
  length-body =
      omega (arith, offset.escapes, length-encode_bytes offset.e (b ∷ bs) offset.pos offset.lt h)

  encode_result :
      sqlite_encode_binary (b ∷ bs)
      ≡ some (record { count = 1 + length body; out = offset.e ∷ (body ++ 0 ∷ []) })
  unfolding sqlite_encode_binary
  encode_result =
      rw
        (
          offset.chosen,
          (==_iff (1 + length body) (length (b ∷ bs) + (choice (b ∷ bs)).m + 1)).1
              (omega (arith, length-body)),
        )
        refl

-- What the header of `sqlite_encode_binary` promises of one result.
pub record IsEncoding (bs : List ℕ) (r : Encoded) : Type 0 where
  pub text : List ℕ
  pub terminated : r.out ≡ text ++ 0 ∷ []
  pub safe : All IsSafe text
  pub counted : length text ≡ r.count
  pub predicted : r.count ≡ sqlite_encode_size bs
  pub fits : 254 * length r.out ≤ 2 * 254 + 257 * length bs

-- For every buffer of bytes the encoder returns: the offset is assigned and the `assert` holds.
-- The output is a text without NUL and quote and its terminator, the returned count is the
-- length of the text and the one that a call without a buffer predicts, and the output fits the
-- 2 + (257 * n) / 254 bytes that the caller has to provide.
pub sqlite_encode_binary-IsEncoding :
    (bs : List ℕ)
    → IsBytes bs
    → (r : Encoded) × (sqlite_encode_binary bs ≡ some r) × IsEncoding bs r
sqlite_encode_binary-IsEncoding [] h = (
  record { count = 1; out = b'x' ∷ 0 ∷ [] },
  unfold sqlite_encode_binary in refl,
  record {
    text = b'x' ∷ [];
    terminated = refl;
    safe = omega arith;
    counted = refl;
    predicted = unfold sqlite_encode_size in refl;
    fits = omega arith;
  },
)
sqlite_encode_binary-IsEncoding (b ∷ bs) h =
    let o = offset b bs h in
    let text = body b bs h in
    (
      record { count = 1 + length text; out = o.e ∷ (text ++ 0 ∷ []) },
      encode_result b bs h,
      record {
        text = o.e ∷ text;
        terminated = refl;
        safe = ((omega (arith, o.pos), o.not_quote), encode_bytes-IsSafe o.e (b ∷ bs) o.lt h);
        counted = omega arith;
        predicted = unfold sqlite_encode_size in omega (arith, length-body b bs h);
        fits =
            omega
              (arith, length-append {0} text (0 ∷ []), length-body b bs h, choice_le (b ∷ bs) h);
      },
    )

-- Every buffer of bytes is encoded, and the decoder gives it back.
pub sqlite_decode_binary-encode :
    (bs : List ℕ)
    → IsBytes bs
    → (r : Encoded) × (sqlite_encode_binary bs ≡ some r) × (sqlite_decode_binary r.out ≡ some bs)
sqlite_decode_binary-encode [] h = (
  record { count = 1; out = b'x' ∷ 0 ∷ [] },
  unfold sqlite_encode_binary in refl,
  unfold sqlite_decode_binary decode_loop in refl,
)
sqlite_decode_binary-encode (b ∷ bs) h =
    let o = offset b bs h in
    (
      record { count = 1 + length (body b bs h); out = o.e ∷ (body b bs h ++ 0 ∷ []) },
      encode_result b bs h,
      unfold sqlite_decode_binary in decode_loop-encode_bytes o.e (b ∷ bs) o.lt h,
    )

-- No legal offset `j` (not 0, not the quote) gives a shorter text than the one that is chosen.
pub sqlite_encode_size-minimal :
    (b : ℕ) (bs : List ℕ) (j : ℕ)
    → IsBytes (b ∷ bs)
    → 0 < j
    → j < 256
    → j ≢ quote
    → sqlite_encode_size (b ∷ bs) ≤ length (j ∷ encode_bytes j (b ∷ bs))
unfolding sqlite_encode_size
sqlite_encode_size-minimal b bs j h lo hi ne =
    omega (arith, choice-minimal (b ∷ bs) j lo hi ne, length-encode_bytes j (b ∷ bs) lo hi h)
