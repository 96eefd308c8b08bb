-- ===== src/Sha1.antt =====
-- runtime/ext/standard/sha1.c: the SHA-1 hash over a context that is fed piece by piece.
pub mod Valid
pub mod Stream
pub mod Absorb
pub mod Pad
pub mod Digest
mod Tests
use Prim.Native.Nat.{bit_and, bit_or, bit_xor}
use roadsend_php.Base.{
  ℕ, zero, suc, ◌+◌, ◌-◌, ◌*◌, ◌/◌, ◌%◌, ◌^◌, List, [], ◌∷◌, ◌++◌, Bool, true, false, not, ◌&&◌,
  ◌||◌, ltb, leb, ◌==◌, if◌then◌else◌, length, take, get_or, set, replicate,
}
use roadsend_php.Base.Bits.{u8, u32, ◌<<<◌, ◌>>>◌}

-- The five words of `Message_Digest`, and the word buffers A to E.
pub record Words : Type 0 where
  pub a : ℕ
  pub b : ℕ
  pub c : ℕ
  pub d : ℕ
  pub e : ℕ

-- `SHA1Context`.
pub record Context : Type 0 where
  pub digest : Words
  pub length_low : ℕ
  pub length_high : ℕ
  pub block : List ℕ
  pub block_index : ℕ
  pub computed : Bool
  pub corrupted : Bool

-- `SHA1Reset` leaves `Message_Block` as it is.
pub reset : Context → Context
reset ctx = record {
  digest = record {
    a = 0x6745_2301;
    b = 0xefcd_ab89;
    c = 0x98ba_dcfe;
    d = 0x1032_5476;
    e = 0xc3d2_e1f0;
  };
  length_low = 0;
  length_high = 0;
  block = ctx.block;
  block_index = 0;
  computed = false;
  corrupted = false;
}

-- The macro `SHA1CircularShift`.
pub circular_shift : ℕ → ℕ → ℕ
circular_shift bits word = bit_or (u32 (word <<< bits)) (word >>> (32 - bits))

-- `~` on `unsigned`.
abbrev complement : ℕ → ℕ
complement w = 2 ^ 32 - 1 - w

-- `W[t]` for `t < 16`.
first_word : List ℕ → ℕ → ℕ
first_word block t =
    bit_or
      (bit_or
        (bit_or (u32 (get_or block (t * 4) 0 <<< 24)) (u32 (get_or block (t * 4 + 1) 0 <<< 16)))
        (u32 (get_or block (t * 4 + 2) 0 <<< 8)))
      (get_or block (t * 4 + 3) 0)

-- The two loops that fill `W`, with the rounds left.
first_words : List ℕ → ℕ → ℕ → List ℕ → List ℕ
first_words block zero t w = w
first_words block (suc left) t w = first_words block left (t + 1) (w ++ first_word block t ∷ [])

more_words : ℕ → ℕ → List ℕ → List ℕ
more_words zero t w = w
more_words (suc left) t w =
    let mixed =
      bit_xor (bit_xor (bit_xor (get_or w (t - 3) 0) (get_or w (t - 8) 0)) (get_or w (t - 14) 0))
        (get_or w (t - 16) 0) in
    more_words left (t + 1) (w ++ circular_shift 1 mixed ∷ [])

pub schedule : List ℕ → List ℕ
schedule block = more_words 64 16 (first_words block 16 0 [])

-- The logical function and the constant of each of the four loops.
logic : ℕ → ℕ → ℕ → ℕ → ℕ
logic t b c d =
    if ltb t 20
    then bit_or (bit_and b c) (bit_and (complement b) d)
    else if ltb t 40
    then bit_xor (bit_xor b c) d
    else if ltb t 60
    then bit_or (bit_or (bit_and b c) (bit_and b d)) (bit_and c d)
    else bit_xor (bit_xor b c) d

constant : ℕ → ℕ
constant t =
    if ltb t 20
    then 0x5a82_7999
    else if ltb t 40
    then 0x6ed9_eba1
    else if ltb t 60
    then 0x8f1b_bcdc
    else 0xca62_c1d6

-- One round; the sum wraps in `unsigned`.
round : ℕ → ℕ → Words → Words
round t w s = record {
  a = u32 (circular_shift 5 s.a + logic t s.b s.c s.d + s.e + w + constant t);
  b = s.a;
  c = circular_shift 30 s.b;
  d = s.c;
  e = s.d;
}

rounds : ℕ → ℕ → List ℕ → Words → Words
rounds zero t w s = s
rounds (suc left) t w s = rounds left (t + 1) w (round t (get_or w t 0) s)

-- What `SHA1ProcessMessageBlock` makes of the digest and a full block.
pub compress : Words → List ℕ → Words
compress h block =
    let s = rounds 80 0 (schedule block) h in
    record {
      a = u32 (h.a + s.a);
      b = u32 (h.b + s.b);
      c = u32 (h.c + s.c);
      d = u32 (h.d + s.d);
      e = u32 (h.e + s.e);
    }

pub process_message_block : Context → Context
process_message_block ctx = record ctx { digest = compress ctx.digest ctx.block; block_index = 0 }

-- `context->Message_Block[context->Message_Block_Index++] = v`
pub store : ℕ → Context → Context
store v ctx = record ctx {
  block = set ctx.block ctx.block_index v;
  block_index = ctx.block_index + 1;
}

-- The bit count, and `Corrupted` where it wraps around.
pub count_bits : Context → Context
count_bits ctx =
    let low = u32 (ctx.length_low + 8) in
    let high = u32 (ctx.length_high + 1) in
    if low == 0
    then (if high == 0
        then record ctx { length_low = low; length_high = high; corrupted = true }
        else record ctx { length_low = low; length_high = high })
    else record ctx { length_low = low }

pub process_if_full : Context → Context
process_if_full ctx = if ctx.block_index == 64 then process_message_block ctx else ctx

-- One round of the loop of `SHA1Input`.
pub input_byte : ℕ → Context → Context
input_byte v ctx = process_if_full (count_bits (store v ctx))

pub input_loop : List ℕ → Context → Context
input_loop [] ctx = ctx
input_loop (v ∷ message) ctx =
    let rest = input_loop message (input_byte v ctx) in if ctx.corrupted then ctx else rest

-- `SHA1Input` behind its first line, for the bytes that `length` counts.
pub feed : List ℕ → Context → Context
feed [] ctx = ctx
feed (v ∷ message) ctx =
    if ctx.computed || ctx.corrupted
    then record ctx { corrupted = true }
    else input_loop (v ∷ message) ctx

-- `SHA1Input`; the Bigloo string is the list of its bytes, whose length is cut to the 32 bits of
-- `unsigned`.
pub input : List ℕ → Context → Context
input bmessage ctx = feed (take (length bmessage % 2 ^ 32) bmessage) ctx

-- `while(context->Message_Block_Index < limit) ... = 0`, with the rounds that are left.
pub fill_zeros : ℕ → Context → Context
fill_zeros zero ctx = ctx
fill_zeros (suc left) ctx = fill_zeros left (store 0 ctx)

-- The eight bytes of the message length, most significant first.
pub length_bytes : Context → List ℕ
length_bytes ctx =
    u8 (ctx.length_high >>> 24)
    ∷ u8 (ctx.length_high >>> 16)
    ∷ u8 (ctx.length_high >>> 8)
    ∷ u8 ctx.length_high
    ∷ u8 (ctx.length_low >>> 24)
    ∷ u8 (ctx.length_low >>> 16)
    ∷ u8 (ctx.length_low >>> 8)
    ∷ u8 ctx.length_low
    ∷ []

-- `Message_Block[56]` to `[63]`.
pub set_all : List ℕ → ℕ → List ℕ → List ℕ
set_all block i [] = block
set_all block i (v ∷ vs) = set_all (set block i v) (i + 1) vs

-- The last eight bytes and the compression behind them.
pub finish : Context → Context
finish ctx = process_message_block (record ctx { block = set_all ctx.block 56 (length_bytes ctx) })

pub pad_message : Context → Context
pad_message ctx =
    let marked = store 0x80 ctx in
    let full = process_message_block (fill_zeros (64 - marked.block_index) marked) in
    let padded =
      if ltb 55 ctx.block_index
      then fill_zeros (56 - full.block_index) full
      else fill_zeros (56 - marked.block_index) marked in
    finish padded

-- `SHA1Result`: the new context and the returned value.
pub result : Context → Context × Bool
result ctx =
    if ctx.corrupted
    then (ctx, false)
    else if not ctx.computed
    then (record (pad_message ctx) { computed = true }, true)
    else (ctx, true)

-- A word as four bytes, most significant first.
word_bytes : ℕ → List ℕ
word_bytes w = u8 (w >>> 24) ∷ u8 (w >>> 16) ∷ u8 (w >>> 8) ∷ u8 w ∷ []

-- What the call leaves in `output`.
pub re_get_sha1_digest : Context → List ℕ → List ℕ
re_get_sha1_digest ctx output =
    let h = ctx.digest in
    if length output == 20
    then word_bytes h.a ++ word_bytes h.b ++ word_bytes h.c ++ word_bytes h.d ++ word_bytes h.e
    else output
