-- ===== src/Sha1/Pad.antt =====
-- sha1.c: `SHA1PadMessage` feeds the padding of the standard.
use roadsend_php.Base.{
  ℕ, zero, suc, ◌+◌, ◌-◌, ◌≤◌, ◌<◌, ◌≡◌, refl, sym, ap, ◌∙◌, List, ◌∷◌, ◌++◌, append_assoc, arith,
  ltb, if◌then◌else◌, length, replicate, Bool-cases, inl, inr, ltb→lt,
}
use roadsend_php.Sha1.{
  Context, store, process_message_block, fill_zeros, set_all, length_bytes, finish, pad_message,
}
use roadsend_php.Sha1.Absorb.{
  absorb, absorb_all, store_all, absorb_all-append, absorb_all_room, absorb_all_full, absorb_room,
  fill_zeros-store_all, store_all-set_all,
}

-- How many zeros stand between the mark 0x80 and the length.
abbrev pub zeros : ℕ → ℕ
zeros index = if ltb 55 index then 119 - index else 55 - index

unfoldable pub padding : ℕ → List ℕ → List ℕ
padding index length_field = 0x80 ∷ (replicate (zeros index) 0 ++ length_field)

pub length-replicate : (n a : ℕ) → length (replicate n a) ≡ n
length-replicate zero a = refl
length-replicate (suc n) a = ap suc (length-replicate n a)

replicate-append : (m n : ℕ) → replicate {A = ℕ} m 0 ++ replicate n 0 ≡ replicate (m + n) 0
replicate-append zero n = ap (λ k. replicate k 0) (omega arith)
replicate-append (suc m) n =
    let e : suc (m + n) ≡ suc m + n = omega arith in
    ap (λ l. 0 ∷ l) (replicate-append m n) ∙ ap (λ k. replicate k 0) e

fill_zeros-index : (n : ℕ) (ctx : Context) → (fill_zeros n ctx).block_index ≡ ctx.block_index + n
fill_zeros-index n ctx =
    ap (λ c. c.block_index) (fill_zeros-store_all n ctx ∙ store_all-set_all (replicate n 0) ctx)
    ∙ omega (arith, length-replicate n 0)

fill_zeros-length_bytes :
    (n : ℕ) (ctx : Context) → length_bytes (fill_zeros n ctx) ≡ length_bytes ctx
fill_zeros-length_bytes n ctx =
    ap length_bytes (fill_zeros-store_all n ctx ∙ store_all-set_all (replicate n 0) ctx)
    ∙ unfold length_bytes in refl

fill_zeros-absorb_all :
    (n : ℕ) (ctx : Context)
    → ctx.block_index + n < 64
    → fill_zeros n ctx ≡ absorb_all (replicate n 0) ctx
fill_zeros-absorb_all n ctx h =
    fill_zeros-store_all n ctx
    ∙ sym (absorb_all_room (replicate n 0) ctx (omega (arith, length-replicate n 0)))

finish-absorb_all :
    (ctx : Context) → ctx.block_index ≡ 56 → finish ctx ≡ absorb_all (length_bytes ctx) ctx
unfolding finish length_bytes
finish-absorb_all ctx h =
    let stored = store_all-set_all (length_bytes ctx) ctx in
    sym (
      absorb_all_full _ _ ctx (omega arith)
      ∙ ap process_message_block stored
      ∙ unfold process_message_block in
        ap
          (λ i. process_message_block (record ctx {
            block = set_all ctx.block i (length_bytes ctx);
            block_index = ctx.block_index + 8;
          }))
          h)

module _ (ctx : Context) (room : ctx.block_index < 64) where
  abbrev marked : Context
  marked = store 0x80 ctx

  -- From a context with `n` zeros to go before the length.
  abbrev rest : ℕ → Context → Context
  rest n c = absorb_all (replicate n 0 ++ length_bytes ctx) c

  finish-rest :
      (n : ℕ) (c : Context)
      → c.block_index + n ≡ 56
      → length_bytes c ≡ length_bytes ctx
      → finish (fill_zeros n c) ≡ rest n c
  finish-rest n c place same =
      finish-absorb_all (fill_zeros n c) (fill_zeros-index n c ∙ place)
      ∙ ap (λ l. absorb_all l (fill_zeros n c)) (fill_zeros-length_bytes n c ∙ same)
      ∙ ap (absorb_all (length_bytes ctx)) (fill_zeros-absorb_all n c (omega arith))
      ∙ sym (absorb_all-append (replicate n 0) (length_bytes ctx) c)

  short :
      ctx.block_index ≤ 55
      → finish (fill_zeros (56 - marked.block_index) marked)
        ≡ rest (55 - ctx.block_index) (absorb 0x80 ctx)
  short h =
      let index : marked.block_index ≡ ctx.block_index + 1 = unfold store in refl in
      finish-rest (56 - marked.block_index) marked (omega arith) (unfold length_bytes store in refl)
      ∙ ap (λ n. rest n marked) (omega arith)
      ∙ ap (rest (55 - ctx.block_index)) (sym (absorb_room 0x80 ctx (omega arith)))

  abbrev full : Context
  full = process_message_block (fill_zeros (64 - marked.block_index) marked)

  full-absorb_all :
      55 < ctx.block_index
      → full ≡ absorb_all (replicate (63 - ctx.block_index) 0) (absorb 0x80 ctx)
  full-absorb_all h =
      let n = 63 - ctx.block_index in
      let left : 64 - marked.block_index ≡ n = unfold store in omega arith in
      ap (λ k. process_message_block (fill_zeros k marked)) left
      ∙ ap process_message_block (fill_zeros-store_all n marked)
      ∙ sym (
          unfold absorb_all store_all in
          absorb_all_full 0x80 (replicate n 0) ctx (omega (arith, length-replicate n 0)))

  long :
      55 < ctx.block_index
      → finish (fill_zeros (56 - full.block_index) full)
        ≡ rest (119 - ctx.block_index) (absorb 0x80 ctx)
  long h =
      let i = ctx.block_index in
      let n = 64 - marked.block_index in
      let same : length_bytes full ≡ length_bytes ctx =
        unfold process_message_block length_bytes store in (fill_zeros-length_bytes n marked) in
      let start : full.block_index ≡ 0 = unfold process_message_block in refl in
      let m : 63 - i + 56 ≡ 119 - i = omega arith in
      let zs = replicate (63 - i) 0 in
      finish-rest (56 - full.block_index) full (omega arith) same
      ∙ ap (λ k. rest (56 - k) full) start
      ∙ ap (rest 56) (full-absorb_all h)
      ∙ sym (absorb_all-append zs (replicate 56 0 ++ length_bytes ctx) (absorb 0x80 ctx))
      ∙ ap (λ l. absorb_all l (absorb 0x80 ctx))
          (sym (append_assoc zs (replicate 56 0) (length_bytes ctx))
            ∙ ap (λ l. l ++ length_bytes ctx)
                (replicate-append (63 - i) 56 ∙ ap (λ k. replicate k 0) m))

  -- Padding is feeding, byte by byte, the mark 0x80, as many zeros as leave eight bytes of a
  -- block, and the length: in a second block where the first has no room for the length.
  pub pad_message-absorb_all :
      pad_message ctx ≡ absorb_all (padding ctx.block_index (length_bytes ctx)) ctx
  unfolding pad_message padding absorb_all
  pad_message-absorb_all = elim (Bool-cases (ltb 55 ctx.block_index)) [
    | inl t ↦ rw t (long (ltb→lt 55 ctx.block_index t))
    | inr t ↦ rw t (short (ground arith))
  ]
