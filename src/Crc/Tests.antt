-- ===== src/Crc/Tests.antt =====
-- crc.c on concrete buffers.
use roadsend_php.Base.{◌-◌, ◌^◌, ◌≡◌, refl, codes, arith}
use roadsend_php.Crc.{woot_crc32, crc_loop, crc_step}
use roadsend_php.Crc.Bitwise.{crc_bitwise, woot_crc32-crc_bitwise}

-- The check value of CRC-32.
crc_check : woot_crc32 (codes "123456789") ≡ 0xcbf4_3926
unfolding woot_crc32 crc_loop crc_step
crc_check = refl

woot_crc32-crc_bitwise_example :
    woot_crc32 (codes "abc") ≡ 2 ^ 32 - 1 - crc_bitwise (2 ^ 32 - 1) (codes "abc")
woot_crc32-crc_bitwise_example = woot_crc32-crc_bitwise (codes "abc") (omega arith)
