-- ===== src/Sha1/Valid.antt =====
-- sha1.c: the invariant of a context, and how it counts the message.
use mathlib.Core.Path.{subst}
use roadsend_php.Base.{
  true, List, [], ◌∷◌, sym, ◌||◌, if◌then◌else◌, ℕ, ◌+◌, ◌*◌, ◌%◌, ◌^◌, ◌≤◌, ◌<◌, ◌≡◌, refl, ap,
  ◌∙◌, List, false, arith, ◌==◌, length, take, length-take, length-set, Bool-cases, inl, inr,
}
use roadsend_php.Sha1.{
  input, feed, input_loop, Words, Context, reset, compress, process_message_block, store,
  count_bits, process_if_full, input_byte,
}

pub record IsWords (w : Words) : Type 0 where
  pub a : w.a < 2 ^ 32
  pub b : w.b < 2 ^ 32
  pub c : w.c < 2 ^ 32
  pub d : w.d < 2 ^ 32
  pub e : w.e < 2 ^ 32

-- The next byte fits the block, every word has 32 bits, and whole bytes are counted.
pub record IsValid (ctx : Context) : Type 0 where
  pub words : IsWords ctx.digest
  pub full_block : length ctx.block ≡ 64
  pub room : ctx.block_index < 64
  pub low : ctx.length_low < 2 ^ 32
  pub high : ctx.length_high < 2 ^ 32
  pub whole_bytes : ctx.length_low % 8 ≡ 0

pub compress-IsWords : (w : Words) (block : List ℕ) → IsWords (compress w block)
unfolding compress
compress-IsWords w block = record {
  a = omega arith;
  b = omega arith;
  c = omega arith;
  d = omega arith;
  e = omega arith;
}

pub reset-IsValid : (ctx : Context) → length ctx.block ≡ 64 → IsValid (reset ctx)
unfolding reset
reset-IsValid ctx h = record {
  words = omega arith;
  full_block = h;
  room = omega arith;
  low = omega arith;
  high = omega arith;
  whole_bytes = omega arith;
}

-- The bits of the message so far, as the two length fields count them.
unfoldable pub bit_length : Context → ℕ
bit_length ctx = ctx.length_high * 2 ^ 32 + ctx.length_low

-- One byte: what becomes of each field.
pub record IsInput (n : ℕ) (before after : Context) : Type 0 where
  pub valid : IsValid after
  pub computed : after.computed ≡ before.computed
  pub corrupted : after.corrupted ≡ false
  pub counted : bit_length after ≡ bit_length before + 8 * n
  pub place : after.block_index ≡ (before.block_index + n) % 64

-- The fields that `count_bits` and `process_if_full` leave alone.
record SameBlock (before after : Context) : Type 0 where
  digest : after.digest ≡ before.digest
  block : after.block ≡ before.block
  block_index : after.block_index ≡ before.block_index
  computed : after.computed ≡ before.computed

count_bits-SameBlock : (ctx : Context) → SameBlock ctx (count_bits ctx)
unfolding count_bits
count_bits-SameBlock ctx = ground arith

record Counted (before after : Context) : Type 0 where
  corrupted : after.corrupted ≡ false
  counted : bit_length after ≡ bit_length before + 8
  low : after.length_low < 2 ^ 32
  high : after.length_high < 2 ^ 32
  whole_bytes : after.length_low % 8 ≡ 0

count_bits-Counted :
    (ctx : Context)
    → ctx.length_low < 2 ^ 32
    → ctx.length_high < 2 ^ 32
    → ctx.length_low % 8 ≡ 0
    → ctx.corrupted ≡ false
    → bit_length ctx + 8 < 2 ^ 64
    → Counted ctx (count_bits ctx)
unfolding count_bits bit_length
count_bits-Counted ctx low high eights fine fits = ground arith

record Processed (before after : Context) : Type 0 where
  words : IsWords before.digest → IsWords after.digest
  full_block : length after.block ≡ length before.block
  place : before.block_index ≤ 64 → after.block_index ≡ before.block_index % 64
  low : after.length_low ≡ before.length_low
  high : after.length_high ≡ before.length_high
  computed : after.computed ≡ before.computed
  corrupted : after.corrupted ≡ before.corrupted

process_if_full-Processed : (ctx : Context) → Processed ctx (process_if_full ctx)
unfolding process_if_full process_message_block
process_if_full-Processed ctx = elim (Bool-cases (ctx.block_index == 64)) [
  | inl t ↦ rw t (record {
    words = λ _. compress-IsWords ctx.digest ctx.block;
    full_block = refl;
    place = λ _. ground arith;
    low = refl;
    high = refl;
    computed = refl;
    corrupted = refl;
  })
  | inr t ↦ rw t (record {
    words = λ w. w;
    full_block = refl;
    place = λ h. ground arith;
    low = refl;
    high = refl;
    computed = refl;
    corrupted = refl;
  })
]

pub input_byte-IsInput :
    (v : ℕ) (ctx : Context)
    → IsValid ctx
    → ctx.corrupted ≡ false
    → bit_length ctx + 8 < 2 ^ 64
    → IsInput 1 ctx (input_byte v ctx)
unfolding input_byte
input_byte-IsInput v ctx valid fine fits =
    let s = store v ctx in
    let c = count_bits s in
    let p = process_if_full-Processed c in
    let n : Counted s c =
      unfold store bit_length in
      count_bits-Counted s valid.low valid.high valid.whole_bytes fine fits in
    let b = count_bits-SameBlock s in
    let index : s.block_index ≡ ctx.block_index + 1 = unfold store in refl in
    let size : length s.block ≡ length ctx.block =
      unfold store in length-set ctx.block ctx.block_index v in
    let words : IsWords c.digest = rw b.digest (unfold store in valid.words) in
    let same_size = ap length b.block in
    record {
      valid = record {
        words = p.words words;
        full_block = p.full_block ∙ same_size ∙ size ∙ valid.full_block;
        room = omega (arith, p.place (omega arith));
        low = omega arith;
        high = omega arith;
        whole_bytes = omega (arith, p.low, n.whole_bytes);
      };
      computed = p.computed ∙ b.computed ∙ unfold store in refl;
      corrupted = p.corrupted ∙ n.corrupted;
      counted = unfold bit_length store in omega (arith, p.low, p.high, n.counted);
      place = omega (arith, p.place (omega arith));
    }

pub input_loop-IsInput :
    (message : List ℕ) (ctx : Context)
    → IsValid ctx
    → ctx.corrupted ≡ false
    → bit_length ctx + 8 * length message < 2 ^ 64
    → IsInput (length message) ctx (input_loop message ctx)
unfolding input_loop
input_loop-IsInput [] ctx valid fine fits = record {
  valid = valid;
  computed = refl;
  corrupted = fine;
  counted = omega arith;
  place = omega (arith, valid.room);
}
input_loop-IsInput (v ∷ message) ctx valid fine fits =
    let one = input_byte-IsInput v ctx valid fine (omega arith) in
    let rest =
      input_loop-IsInput message (input_byte v ctx) one.valid one.corrupted
        (omega (arith, one.counted)) in
    let same = ap (λ t. if t then ctx else input_loop message (input_byte v ctx)) (sym fine) in
    subst (IsInput (length (v ∷ message)) ctx) same (record {
      valid = rest.valid;
      computed = rest.computed ∙ one.computed;
      corrupted = rest.corrupted;
      counted = omega (arith, rest.counted, one.counted);
      place = omega (arith, rest.place, one.place);
    })

feed-IsInput :
    (message : List ℕ) (ctx : Context)
    → IsValid ctx
    → ctx.computed ≡ false
    → ctx.corrupted ≡ false
    → bit_length ctx + 8 * length message < 2 ^ 64
    → IsInput (length message) ctx (feed message ctx)
unfolding feed
feed-IsInput [] ctx valid open_ctx fine fits =
    unfold input_loop in input_loop-IsInput [] ctx valid fine fits
feed-IsInput (v ∷ message) ctx valid open_ctx fine fits =
    let loop = input_loop (v ∷ message) ctx in
    let first =
      ap (λ t. if t || ctx.corrupted then record ctx { corrupted = true } else loop) open_ctx in
    let second = ap (λ t. if t then record ctx { corrupted = true } else loop) fine in
    subst (IsInput (length (v ∷ message)) ctx) (sym (first ∙ second))
      (input_loop-IsInput (v ∷ message) ctx valid fine fits)

-- Feeding a context that is neither finished nor corrupted keeps the invariant and counts the bits
-- and the place in the block of as many bytes as the 32 bits of the length tell, as long as the
-- count fits 64 bits.
pub input-IsInput :
    (message : List ℕ) (ctx : Context)
    → IsValid ctx
    → ctx.computed ≡ false
    → ctx.corrupted ≡ false
    → bit_length ctx + 8 * (length message % 2 ^ 32) < 2 ^ 64
    → IsInput (length message % 2 ^ 32) ctx (input message ctx)
unfolding input
input-IsInput message ctx valid open_ctx fine fits =
    let n = length message % 2 ^ 32 in
    let taken : length (take n message) ≡ n = length-take n message (omega arith) in
    subst (λ k. IsInput k ctx (feed (take n message) ctx)) taken
      (feed-IsInput (take n message) ctx valid open_ctx fine (omega (arith, taken, fits)))
