-- ===== src/Sha1/Absorb.antt =====
-- sha1.c: storing bytes one by one and compressing full blocks, apart from the count of bits.
use roadsend_php.Base.{
  set-append, append_assoc, ap₂, set, sym, [], ◌++◌, ℕ, zero, suc, ◌+◌, ◌<◌, ◌≡◌, refl, sym, ap,
  ap₂, ◌∙◌, List, [], ◌∷◌, ◌++◌, true, false, arith, ◌==◌, if◌then◌else◌, length, set, replicate,
  length-append,
}
use roadsend_php.Sha1.{
  Context, store, process_if_full, process_message_block, compress, fill_zeros, set_all,
}

unfoldable pub absorb : ℕ → Context → Context
absorb v ctx = process_if_full (store v ctx)

unfoldable pub absorb_all : List ℕ → Context → Context
absorb_all [] ctx = ctx
absorb_all (v ∷ vs) ctx = absorb_all vs (absorb v ctx)

unfoldable pub store_all : List ℕ → Context → Context
store_all [] ctx = ctx
store_all (v ∷ vs) ctx = store_all vs (store v ctx)

pub absorb_all-append :
    (xs ys : List ℕ) (ctx : Context) → absorb_all (xs ++ ys) ctx ≡ absorb_all ys (absorb_all xs ctx)
unfolding absorb_all
absorb_all-append [] ys ctx = refl
absorb_all-append (x ∷ xs) ys ctx = absorb_all-append xs ys (absorb x ctx)

-- As long as the block does not get full, bytes are only stored.
pub absorb_room : (v : ℕ) (ctx : Context) → ctx.block_index + 1 < 64 → absorb v ctx ≡ store v ctx
unfolding absorb process_if_full store
absorb_room v ctx h =
    let test : (ctx.block_index + 1 == 64) ≡ false = ground arith in
    ap (λ t. if t then process_message_block (unfold store in store v ctx) else store v ctx) test

pub absorb_full :
    (v : ℕ) (ctx : Context)
    → ctx.block_index + 1 ≡ 64
    → absorb v ctx ≡ process_message_block (store v ctx)
unfolding absorb process_if_full store
absorb_full v ctx h =
    let test : (ctx.block_index + 1 == 64) ≡ true = ground arith in
    ap (λ t. if t then process_message_block (store v ctx) else store v ctx) test

pub absorb_all_room :
    (vs : List ℕ) (ctx : Context)
    → ctx.block_index + length vs < 64
    → absorb_all vs ctx ≡ store_all vs ctx
unfolding absorb_all store_all
absorb_all_room [] ctx h = refl
absorb_all_room (v ∷ vs) ctx h =
    ap (absorb_all vs) (absorb_room v ctx (omega arith))
    ∙ absorb_all_room vs (store v ctx) (unfold store in omega arith)

-- The byte that fills the block makes it be compressed.
pub absorb_all_full :
    (v : ℕ) (vs : List ℕ) (ctx : Context)
    → ctx.block_index + 1 + length vs ≡ 64
    → absorb_all (v ∷ vs) ctx ≡ process_message_block (store_all (v ∷ vs) ctx)
unfolding absorb_all store_all
absorb_all_full v [] ctx h = absorb_full v ctx (omega arith)
absorb_all_full v (u ∷ vs) ctx h =
    ap (λ c. absorb_all vs (absorb u c)) (absorb_room v ctx (omega arith))
    ∙ absorb_all_full u vs (store v ctx) (unfold store in omega arith)

pub fill_zeros-store_all :
    (n : ℕ) (ctx : Context) → fill_zeros n ctx ≡ store_all (replicate n 0) ctx
unfolding fill_zeros store_all
fill_zeros-store_all zero ctx = refl
fill_zeros-store_all (suc n) ctx = fill_zeros-store_all n (store 0 ctx)

-- What `store_all` makes of the block and the index.
pub store_all-set_all :
    (vs : List ℕ) (ctx : Context)
    → store_all vs ctx ≡ record ctx {
      block = set_all ctx.block ctx.block_index vs;
      block_index = ctx.block_index + length vs;
    }
unfolding store_all set_all store
store_all-set_all [] ctx = ap (λ n. record ctx { block_index = n }) (omega arith)
store_all-set_all (v ∷ vs) ctx =
    store_all-set_all vs (store v ctx)
    ∙ ap
        (λ n. record ctx {
          block = set_all (set ctx.block ctx.block_index v) (ctx.block_index + 1) vs;
          block_index = n;
        })
        (omega arith)

set_all-append :
    (pre xs ys : List ℕ) → length xs ≡ length ys → set_all (pre ++ xs) (length pre) ys ≡ pre ++ ys
unfolding set_all
set_all-append pre [] [] h = refl
set_all-append pre [] (y ∷ ys) h = absurd (omega arith)
set_all-append pre (x ∷ xs) [] h = absurd (omega arith)
set_all-append pre (x ∷ xs) (y ∷ ys) h =
    let rest = set_all-append (pre ++ y ∷ []) xs ys (omega arith) in
    ap₂ (λ b i. set_all b i ys) (set-append pre xs x y)
      (omega (arith, length-append {0} pre (y ∷ [])))
    ∙ rest
    ∙ append_assoc pre (y ∷ []) ys

-- Writing as many bytes as the block has makes it those bytes.
set_all_self : (xs ys : List ℕ) → length xs ≡ length ys → set_all xs 0 ys ≡ ys
set_all_self xs ys h = set_all-append [] xs ys h

-- A whole block, from its first byte on, is one step of the compression.
pub absorb_all_block :
    (vs : List ℕ) (ctx : Context)
    → length vs ≡ 64
    → length ctx.block ≡ 64
    → ctx.block_index ≡ 0
    → absorb_all vs ctx
      ≡ record ctx { digest = compress ctx.digest vs; block = vs; block_index = 0 }
absorb_all_block [] ctx h size start = absurd (omega arith)
absorb_all_block (v ∷ vs) ctx h size start =
    absorb_all_full v vs ctx (omega arith)
    ∙ ap process_message_block (store_all-set_all (v ∷ vs) ctx)
    ∙ unfold process_message_block in
      ap (λ b. record ctx { digest = compress ctx.digest b; block = b; block_index = 0 })
        (ap (λ i. set_all ctx.block i (v ∷ vs)) start
          ∙ set_all_self ctx.block (v ∷ vs) (size ∙ sym h))
