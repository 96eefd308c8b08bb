-- ===== src/Crc/Bitwise.antt =====
-- crc.c: the table computes the polynomial division bit by bit.
use Prim.Native.Nat.{bit_and, bit_xor}
use native.Mathlib.Nat.{pow-suc}
use roadsend_php.Base.{
  ◌+◌, length, ℕ, zero, suc, ◌-◌, ◌*◌, ◌/◌, ◌%◌, ◌^◌, ◌<◌, ◌≡◌, refl, sym, ap, ◌∙◌, List, [], ◌∷◌,
  Bool, true, ◌&&◌, arith, get_or, ◌==◌, if◌then◌else◌, IsBytes, inl, inr, Bool-cases,
}
use roadsend_php.Base.Bits.{bit_xor_assoc, bit_xor_fields, bit_xor_lem, bit_xor-lt, bit_and_mask}
use roadsend_php.Crc.{crc_step, crc_loop, woot_crc32}
use roadsend_php.Crc.Table.{crctab}

-- The reflected AUTODIN II polynomial of the comment above the table.
abbrev pub polynomial : ℕ
polynomial = 0xedb8_8320

-- One bit of the division.
pub shift_bit : ℕ → ℕ
shift_bit c = if c % 2 == 1 then bit_xor (c / 2) polynomial else c / 2

pub shift_bits : ℕ → ℕ → ℕ
shift_bits zero c = c
shift_bits (suc n) c = shift_bits n (shift_bit c)

-- The CRC of the textbook: xor a byte into the register, divide by eight bits.
pub crc_bitwise : ℕ → List ℕ → ℕ
crc_bitwise crc [] = crc
crc_bitwise crc (c ∷ p) = crc_bitwise (shift_bits 8 (bit_xor crc c)) p

-- The division is linear in the bits above the ones that it shifts out.
halve : (h : ℕ) → h * 2 / 2 ≡ h
halve h = omega arith

shift_bit-split : (h l : ℕ) → shift_bit (bit_xor (h * 2) l) ≡ bit_xor h (shift_bit l)
unfolding shift_bit
shift_bit-split h l =
    let half : bit_xor (h * 2) l / 2 ≡ bit_xor h (l / 2) =
      omega (arith, bit_xor_lem (h * 2) l, ap (λ t. bit_xor t (l / 2)) (halve h)) in
    let low : bit_xor (h * 2) l % 2 ≡ l % 2 = omega (arith, bit_xor_lem (h * 2) l) in
    elim (Bool-cases (l % 2 == 1)) [
      | inl t ↦ rw (low, t, half) (bit_xor_assoc h (l / 2) polynomial)
      | inr t ↦ rw (low, t, half) refl
    ]

shift_bits-split : (n h l : ℕ) → shift_bits n (bit_xor (h * 2 ^ n) l) ≡ bit_xor h (shift_bits n l)
unfolding shift_bits
shift_bits-split zero h l = ap (λ t. bit_xor t l) (omega arith)
shift_bits-split (suc n) h l =
    let double : h * 2 ^ suc n ≡ h * 2 ^ n * 2 =
      omega (arith, ap (λ (t : ℕ). h * t) (pow-suc 2 n)) in
    ap (λ t. shift_bits n (shift_bit (bit_xor t l))) double
    ∙ ap (shift_bits n) (shift_bit-split (h * 2 ^ n) l)
    ∙ shift_bits-split n h (shift_bit l)

-- The entries of a table are the divisions of their indices, from `i` on.
table_from : ℕ → List ℕ → Bool
table_from i [] = true
table_from i (t ∷ ts) = (t == shift_bits 8 i) && table_from (i + 1) ts

get_or-table_from :
    (i : ℕ) (ts : List ℕ) (k : ℕ)
    → table_from i ts ≡ true
    → k < length ts
    → get_or ts k 0 ≡ shift_bits 8 (i + k)
unfolding table_from
get_or-table_from i [] k h lt = absurd (omega arith)
get_or-table_from i (t ∷ ts) zero h lt =
    let here : t ≡ shift_bits 8 i = ground arith in here ∙ ap (shift_bits 8) (omega arith)
get_or-table_from i (t ∷ ts) (suc k) h lt =
    get_or-table_from (i + 1) ts k (ground arith) (omega arith) ∙ ap (shift_bits 8) (omega arith)

table_check : table_from 0 crctab ≡ true
unfolding table_from shift_bits shift_bit
table_check = refl

pub crctab_entry : (i : ℕ) → i < 256 → get_or crctab i 0 ≡ shift_bits 8 i
crctab_entry i h = get_or-table_from 0 crctab i table_check h ∙ ap (shift_bits 8) (omega arith)

-- A word is its upper part and its low byte.
word_split : (w : ℕ) → bit_xor (w / 256 * 2 ^ 8) (w % 256) ≡ w
word_split w = bit_xor_fields 8 (w / 256) (w % 256) (omega arith) ∙ omega arith

-- One round of the table is eight rounds of the division.
crc_step-shift_bits : (crc c : ℕ) → c < 256 → crc_step crc c ≡ shift_bits 8 (bit_xor crc c)
unfolding crc_step
crc_step-shift_bits crc c h =
    let up = crc / 256 in
    let low = bit_xor (crc % 256) c in
    let small : low < 256 = bit_xor-lt 8 (crc % 256) c (omega arith) h in
    let word : bit_xor crc c ≡ bit_xor (up * 2 ^ 8) low =
      ap (λ t. bit_xor t c) (sym (word_split crc)) ∙ bit_xor_assoc (up * 2 ^ 8) (crc % 256) c in
    let index : bit_and (bit_xor crc c) 255 ≡ low =
      bit_and_mask 8 (bit_xor crc c) ∙ omega (arith, word, bit_xor_fields 8 up low small) in
    ap (λ t. bit_xor up (get_or crctab t 0)) index
    ∙ ap (bit_xor up) (crctab_entry low small)
    ∙ sym (shift_bits-split 8 up low)
    ∙ ap (shift_bits 8) (sym word)

crc_loop-crc_bitwise : (crc : ℕ) (p : List ℕ) → IsBytes p → crc_loop crc p ≡ crc_bitwise crc p
unfolding crc_loop crc_bitwise
crc_loop-crc_bitwise crc [] h = refl
crc_loop-crc_bitwise crc (c ∷ p) (hc, hp) =
    rw (crc_step-shift_bits crc c hc) (crc_loop-crc_bitwise (shift_bits 8 (bit_xor crc c)) p hp)

-- The table-driven loop is the CRC-32 by polynomial division: start with ones, divide by the
-- AUTODIN II polynomial bit by bit, complement at the end.
pub woot_crc32-crc_bitwise :
    (p : List ℕ) → IsBytes p → woot_crc32 p ≡ 2 ^ 32 - 1 - crc_bitwise (2 ^ 32 - 1) p
unfolding woot_crc32
woot_crc32-crc_bitwise p h = ap (λ (t : ℕ). 2 ^ 32 - 1 - t) (crc_loop-crc_bitwise (2 ^ 32 - 1) p h)

shift_bit-lt : (c : ℕ) → c < 2 ^ 32 → shift_bit c < 2 ^ 32
unfolding shift_bit
shift_bit-lt c h = elim (Bool-cases (c % 2 == 1)) [
  | inl t ↦ rw t (bit_xor-lt 32 (c / 2) polynomial (omega arith) (omega arith))
  | inr t ↦ rw t (omega arith)
]

shift_bits-lt : (n c : ℕ) → c < 2 ^ 32 → shift_bits n c < 2 ^ 32
unfolding shift_bits
shift_bits-lt zero c h = h
shift_bits-lt (suc n) c h = shift_bits-lt n (shift_bit c) (shift_bit-lt c h)

pub crc_bitwise-lt : (crc : ℕ) (p : List ℕ) → crc < 2 ^ 32 → IsBytes p → crc_bitwise crc p < 2 ^ 32
unfolding crc_bitwise
crc_bitwise-lt crc [] h hp = h
crc_bitwise-lt crc (c ∷ p) h (hc, hp) =
    crc_bitwise-lt (shift_bits 8 (bit_xor crc c)) p
      (shift_bits-lt 8 _ (bit_xor-lt 32 crc c h (omega arith))) hp
