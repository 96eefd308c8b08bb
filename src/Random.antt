-- ===== src/Random.antt =====
-- runtime/ext/standard/mt_rand.c: the Mersenne Twister MT19937. Its `uint32` is `unsigned long`, of
-- 64 bits; reading or writing outside of `state` is `none`.
pub mod Twist
pub mod Reload
pub mod Output
pub mod Seed
mod Tests
use Prim.Native.Nat.{bit_and, bit_or, bit_xor}
use roadsend_php.Base.{
  ℕ, zero, suc, ◌+◌, ◌-◌, ◌*◌, ◌^◌, List, [], ◌∷◌, ◌++◌, Option, none, some, Bool, true, false, ltb,
  ◌==◌, if◌then◌else◌, ◌>>=◌, length, get_elem?, set, drop,
}
use roadsend_php.Base.Bits.{u32, u64, ◌<<<◌, ◌>>>◌}
use roadsend_php.Base.Int.{ℤ, pos, negsuc, ◌-ℤ◌, ltb_ℤ}

-- The constants `N` and `M`, and `K`.
abbrev pub size : ℕ
size = 624

abbrev pub offset : ℕ
offset = 397

abbrev pub magic : ℕ
magic = 0x9908_b0df

-- The static variables; `next` is an index into `state`.
pub record Generator : Type 0 where
  pub state : List ℕ
  pub next : ℕ
  pub left : ℤ

-- The value of the loop of `seedMT` with `j` rounds left.
pub seed_loop : ℕ → ℕ → List ℕ
seed_loop zero x = []
seed_loop (suc j) x = let y = u64 (x * 69069) in bit_and y 0xffff_ffff ∷ seed_loop j y

-- `seedMT` writes the first 624 words and leaves the extra one.
pub seed_mt : ℕ → Generator → Generator
seed_mt seed g =
    let x = bit_and (bit_or seed 1) 0xffff_ffff in
    record g { state = x ∷ seed_loop (size - 1) x ++ drop size g.state; left = pos 0 }

-- The macros `hiBit`, `loBits` and `mixBits`.
mix_bits : ℕ → ℕ → ℕ
mix_bits u v = bit_or (bit_and u 0x8000_0000) (bit_and v 0x7fff_ffff)

-- `m ^ (mixBits(s0, s1) >> 1) ^ (loBit(s1) ? K : 0U)`
pub twist : ℕ → ℕ → ℕ → ℕ
twist m s0 s1 = bit_xor (bit_xor m (mix_bits s0 s1 >>> 1)) (if bit_and s1 1 == 0 then 0 else magic)

-- The four lines behind the twist, without the shift that `randomMT` adds.
pub temper : ℕ → ℕ
temper y0 =
    let y1 = bit_xor y0 (y0 >>> 11) in
    let y2 = bit_xor y1 (bit_and (u64 (y1 <<< 7)) 0x9d2c_5680) in
    let y3 = bit_xor y2 (bit_and (u64 (y2 <<< 15)) 0xefc6_0000) in bit_xor y3 (y3 >>> 18)

-- What the loops of `reloadMT` change, apart from `pM`: the pointers are indices.
pub record Scan : Type 0 where
  pub state : List ℕ
  pub p0 : ℕ
  pub p2 : ℕ
  pub s0 : ℕ
  pub s1 : ℕ

-- `*p0 = v`
pub write : List ℕ → ℕ → ℕ → Option (List ℕ)
write state p0 v = if ltb p0 (length state) then some (set state p0 v) else none

-- A round: `*p0++ = *pM++ ^ ...`, then `s0=s1, s1=*p2++`.
pub reload_step : ℕ → Scan → Option Scan
reload_step pm c = do
  m ← get_elem? c.state pm
  state ← write c.state c.p0 (twist m c.s0 c.s1)
  s1 ← get_elem? state c.p2
  some (record { state = state; p0 = c.p0 + 1; p2 = c.p2 + 1; s0 = c.s1; s1 = s1 })

pub reload_loop : ℕ → ℕ → Scan → Option Scan
reload_loop zero pm c = some c
reload_loop (suc rounds) pm c = reload_step pm c >>= λ next. reload_loop rounds (pm + 1) next

-- The line behind the loops, and the result.
pub reload_last : Scan → Option (Generator × ℕ)
reload_last c = do
  s1 ← get_elem? c.state 0
  m ← get_elem? c.state (offset - 1)
  state ← write c.state c.p0 (twist m c.s0 s1)
  some (record { state = state; next = 1; left = pos (size - 1) }, temper s1)

-- Behind `if(left < -1) seedMT(4357U)`.
pub reload_words : List ℕ → Option (Generator × ℕ)
reload_words state = do
  s0 ← get_elem? state 0
  s1 ← get_elem? state 1
  front ←
      reload_loop (size - offset) offset
        (record { state = state; p0 = 0; p2 = 2; s0 = s0; s1 = s1 })
  back ← reload_loop (offset - 1) 0 front
  reload_last back

pub reload_mt : Generator → Option (Generator × ℕ)
reload_mt g =
    if ltb_ℤ g.left (negsuc 0) then reload_words (seed_mt 4357 g).state else reload_words g.state

-- `randomMT`; only the numbers that it takes from the state are shifted.
pub random_mt : Generator → Option (Generator × ℕ)
random_mt g =
    let left = g.left -ℤ pos 1 in
    if ltb_ℤ left (pos 0)
    then reload_mt (record g { left = left })
    else (get_elem? g.state g.next >>= λ y.
        some (record g { left = left; next = g.next + 1 }, temper y >>> 1))
