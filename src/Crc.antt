-- ===== src/Crc.antt =====
-- runtime/ext/standard/crc.c: the CRC-32 of a buffer.
pub mod Table
pub mod Bitwise
mod Tests
use Prim.Native.Nat.{bit_and, bit_xor}
use roadsend_php.Base.{ℕ, ◌-◌, ◌^◌, List, [], ◌∷◌, get_or}
use roadsend_php.Base.Bits.{u32, ◌>>>◌}
use roadsend_php.Crc.Table.{crctab}

-- The macro `CRC(crc, ch)`; the mask keeps the index within the table.
pub crc_step : ℕ → ℕ → ℕ
crc_step crc ch = bit_xor (crc >>> 8) (get_or crctab (bit_and (bit_xor crc ch) 0xff) 0)

-- `for (i += slen; i--; ++p)` over the `slen` bytes at `p`.
pub crc_loop : ℕ → List ℕ → ℕ
crc_loop crc [] = crc
crc_loop crc (c ∷ p) = crc_loop (crc_step crc c) p

-- `~` on `unsigned int` subtracts from the word of ones.
pub woot_crc32 : List ℕ → ℕ
woot_crc32 p = 2 ^ 32 - 1 - crc_loop (2 ^ 32 - 1) p
