-- ===== src/Random/Seed.antt =====
-- mt_rand.c: the words that `seedMT` writes.
use native.Mathlib.Nat.{pow-suc, add-mul-mod_self_right, mul_assoc, mul_comm}
use Prim.Native.Nat.{bit_and, bit_or}
use roadsend_php.Base.{
  ℕ, zero, suc, ◌+◌, ◌*◌, ◌/◌, ◌%◌, ◌^◌, ◌<◌, ◌≡◌, sym, ap, ap₂, ◌∙◌, arith, drop, get_or,
  get_or-append_left,
}
use roadsend_php.Base.Bits.{u64, bit_and_mask}
use roadsend_php.Random.{Generator, seed_loop, seed_mt}
use roadsend_php.Random.Output.{length-seed_loop}

wrap_mul : (a p : ℕ) → (u64 a * p) % 2 ^ 32 ≡ (a * p) % 2 ^ 32
wrap_mul a p =
    let q = a / 2 ^ 64 in
    let r = a % 2 ^ 64 in
    let whole : a ≡ r + q * 2 ^ 64 = omega arith in
    let split : a * p ≡ r * p + q * 2 ^ 32 * p * 2 ^ 32 = ap (λ t. t * p) whole ∙ grind arith in
    sym (ap (λ t. t % 2 ^ 32) split ∙ add-mul-mod_self_right (r * p) (q * 2 ^ 32 * p) (2 ^ 32))

seed_loop_lem : (j x k : ℕ) → k < j → get_or (seed_loop j x) k 0 ≡ (x * 69069 ^ (k + 1)) % 2 ^ 32
unfolding seed_loop
seed_loop_lem zero x k h = absurd (omega arith)
seed_loop_lem (suc j) x zero h =
    let wrapped : u64 (x * 69069) % 2 ^ 32 ≡ (x * 69069) % 2 ^ 32 = omega arith in
    bit_and_mask 32 (u64 (x * 69069)) ∙ wrapped
seed_loop_lem (suc j) x (suc k) h =
    let next : suc (k + 1) ≡ suc k + 1 = omega arith in
    seed_loop_lem j (u64 (x * 69069)) k (omega arith)
    ∙ wrap_mul (x * 69069) (69069 ^ (k + 1))
    ∙ ap (λ t. t % 2 ^ 32)
        (mul_assoc x 69069 (69069 ^ (k + 1))
          ∙ ap (λ t. x * t) (mul_comm 69069 (69069 ^ (k + 1)) ∙ sym (pow-suc 69069 (k + 1)))
          ∙ ap (λ t. x * 69069 ^ t) next)

-- The seed as `seedMT` uses it: odd, and of 32 bits.
abbrev pub odd_seed : ℕ → ℕ
odd_seed seed = bit_or seed 1 % 2 ^ 32

-- The words of a seeded state are the odd seed times the powers of 69069 modulo 2 ^ 32, although
-- the variable that is multiplied wraps only at 64 bits.
pub seed_mt_lem :
    (seed : ℕ) (g : Generator) (k : ℕ)
    → k < 624
    → get_or (seed_mt seed g).state k 0 ≡ (odd_seed seed * 69069 ^ k) % 2 ^ 32
unfolding seed_mt
seed_mt_lem seed g zero h = bit_and_mask 32 (bit_or seed 1) ∙ omega arith
seed_mt_lem seed g (suc k) h =
    let x = bit_and (bit_or seed 1) 0xffff_ffff in
    let next : k + 1 ≡ suc k = omega arith in
    get_or-append_left (seed_loop 623 x) (drop 624 g.state) k 0
      (omega (arith, length-seed_loop 623 x))
    ∙ seed_loop_lem 623 x k (omega arith)
    ∙ ap₂ (λ a e. (a * 69069 ^ e) % 2 ^ 32) (bit_and_mask 32 (bit_or seed 1)) next
