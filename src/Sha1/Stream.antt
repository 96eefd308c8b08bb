-- ===== src/Sha1/Stream.antt =====
-- sha1.c: a message may be fed in pieces.
use roadsend_php.Base.{
  ℕ, ◌≡◌, refl, List, [], ◌∷◌, ◌++◌, append-nil, true, false, ◌||◌, arith, if◌then◌else◌,
  Bool-cases, ◌+◌, ◌%◌, ◌^◌, ◌<◌, length, take, take-all, length-append, All, inl, inr, ap, ◌∙◌,
  sym,
}
use roadsend_php.Sha1.{
  Context, input, feed, input_loop, input_byte, process_if_full, process_message_block, count_bits,
  store,
}

pub input_loop_open :
    (v : ℕ) (message : List ℕ) (ctx : Context)
    → ctx.corrupted ≡ false
    → input_loop (v ∷ message) ctx ≡ input_loop message (input_byte v ctx)
unfolding input_loop
input_loop_open v message ctx h =
    ap (λ t. if t then ctx else input_loop message (input_byte v ctx)) h

-- A corrupted context stays as it is.
input_loop_corrupted :
    (message : List ℕ) (ctx : Context) → ctx.corrupted ≡ true → input_loop message ctx ≡ ctx
unfolding input_loop
input_loop_corrupted [] ctx h = refl
input_loop_corrupted (v ∷ message) ctx h =
    ap (λ t. if t then ctx else input_loop message (input_byte v ctx)) h

input_loop-append :
    (xs ys : List ℕ) (ctx : Context) → input_loop (xs ++ ys) ctx ≡ input_loop ys (input_loop xs ctx)
input_loop-append [] ys ctx = unfold input_loop in refl
input_loop-append (x ∷ xs) ys ctx =
    let rest = input_loop-append xs ys (input_byte x ctx) in
    elim (Bool-cases ctx.corrupted) [
      | inl t ↦
          input_loop_corrupted (x ∷ xs ++ ys) ctx t
          ∙ sym (input_loop_corrupted ys ctx t)
          ∙ ap (input_loop ys) (sym (input_loop_corrupted (x ∷ xs) ctx t))
      | inr t ↦
          input_loop_open x (xs ++ ys) ctx t
          ∙ rest
          ∙ ap (input_loop ys) (sym (input_loop_open x xs ctx t))
    ]

count_bits-computed : (ctx : Context) → (count_bits ctx).computed ≡ ctx.computed
unfolding count_bits
count_bits-computed ctx = ground arith

input_byte-computed : (v : ℕ) (ctx : Context) → (input_byte v ctx).computed ≡ ctx.computed
unfolding input_byte process_if_full process_message_block store
input_byte-computed v ctx = ground (arith, count_bits-computed (store v ctx))

input_loop-computed : (xs : List ℕ) (ctx : Context) → (input_loop xs ctx).computed ≡ ctx.computed
unfolding input_loop
input_loop-computed [] ctx = refl
input_loop-computed (x ∷ xs) ctx =
    ground (arith, input_loop-computed xs (input_byte x ctx), input_byte-computed x ctx)

corrupt_again : (ctx : Context) → ctx.corrupted ≡ true → record ctx { corrupted = true } ≡ ctx
corrupt_again ctx h = ground arith

-- Where the context is open, `feed` is the loop, also when it gets corrupted on the way.
pub feed-input_loop :
    (ys : List ℕ) (ctx : Context) → ctx.computed ≡ false → feed ys ctx ≡ input_loop ys ctx
unfolding feed
feed-input_loop [] ctx h = unfold input_loop in refl
feed-input_loop (y ∷ ys) ctx h =
    let loop = input_loop (y ∷ ys) ctx in
    let test = ap (λ t. if t || ctx.corrupted then record ctx { corrupted = true } else loop) h in
    elim (Bool-cases ctx.corrupted) [
      | inl t ↦
          test
          ∙ ap (λ t. if t then record ctx { corrupted = true } else loop) t
          ∙ corrupt_again ctx t
          ∙ sym (input_loop_corrupted (y ∷ ys) ctx t)
      | inr t ↦ test ∙ ap (λ t. if t then record ctx { corrupted = true } else loop) t
    ]

-- A finished context is only marked.
feed_finished :
    (y : ℕ) (ys : List ℕ) (ctx : Context)
    → ctx.computed ≡ true
    → feed (y ∷ ys) ctx ≡ record ctx { corrupted = true }
unfolding feed
feed_finished y ys ctx h =
    ap
      (λ t. if t || ctx.corrupted then record ctx { corrupted = true } else input_loop (y ∷ ys) ctx)
      h

-- The pieces of a message, in every state of the context: open, finished, or corrupted.
pub feed-append : (xs ys : List ℕ) (ctx : Context) → feed (xs ++ ys) ctx ≡ feed ys (feed xs ctx)
feed-append [] ys ctx = unfold feed in refl
feed-append (x ∷ xs) [] ctx = ap (λ m. feed (x ∷ m) ctx) (append-nil xs) ∙ unfold feed in refl
feed-append (x ∷ xs) (y ∷ ys) ctx = elim (Bool-cases ctx.computed) [
  | inl t ↦
      feed_finished x (xs ++ y ∷ ys) ctx t
      ∙ sym (feed_finished y ys (record ctx { corrupted = true }) t)
      ∙ ap (feed (y ∷ ys)) (sym (feed_finished x xs ctx t))
  | inr t ↦
      feed-input_loop (x ∷ xs ++ y ∷ ys) ctx t
      ∙ input_loop-append (x ∷ xs) (y ∷ ys) ctx
      ∙ sym (
          feed-input_loop (y ∷ ys) (input_loop (x ∷ xs) ctx) (input_loop-computed (x ∷ xs) ctx ∙ t))
      ∙ ap (feed (y ∷ ys)) (sym (feed-input_loop (x ∷ xs) ctx t))
]

pub input-feed : (xs : List ℕ) (ctx : Context) → length xs < 2 ^ 32 → input xs ctx ≡ feed xs ctx
unfolding input
input-feed xs ctx h =
    let whole : length xs % 2 ^ 32 ≡ length xs = omega arith in
    ap (λ n. feed (take n xs) ctx) whole
    ∙ ap (λ l. feed l ctx) (take-all xs (length xs) (omega arith))

-- Feeding two pieces that are less than 2 ^ 32 bytes together is feeding their concatenation, in
-- every state of the context: open, finished, or corrupted.
pub input-append :
    (xs ys : List ℕ) (ctx : Context)
    → length (xs ++ ys) < 2 ^ 32
    → input (xs ++ ys) ctx ≡ input ys (input xs ctx)
input-append xs ys ctx h =
    let both : length xs + length ys < 2 ^ 32 = omega (arith, h, length-append xs ys) in
    input-feed (xs ++ ys) ctx h
    ∙ feed-append xs ys ctx
    ∙ sym (input-feed ys (feed xs ctx) (omega (arith, both)))
    ∙ ap (input ys) (sym (input-feed xs ctx (omega (arith, both))))

-- Calls of `SHA1Input` one behind the other, and their message.
pub input_all : List (List ℕ) → Context → Context
input_all [] ctx = ctx
input_all (piece ∷ pieces) ctx = input_all pieces (input piece ctx)

abbrev pub message_of : List (List ℕ) → List ℕ
message_of [] = []
message_of (piece ∷ pieces) = piece ++ message_of pieces

-- A piece is no longer than one call takes.
abbrev pub IsPiece : List ℕ → Type 0
IsPiece piece = length piece < 2 ^ 32

pub input_all-feed :
    (pieces : List (List ℕ)) (ctx : Context)
    → All IsPiece pieces
    → input_all pieces ctx ≡ feed (message_of pieces) ctx
unfolding input_all
input_all-feed [] ctx h = unfold feed in refl
input_all-feed (piece ∷ pieces) ctx h =
    ap (input_all pieces) (input-feed piece ctx h.0)
    ∙ input_all-feed pieces (feed piece ctx) h.1
    ∙ sym (feed-append piece (message_of pieces) ctx)
