-- ===== src/Libc/Crc.antt =====
-- libc/our-crc32.c: the table-driven checksum. boot/boot-crc32.h has the same text under other names.
pub mod Table
pub mod Bitwise
use pi3_distributed_llm_infe.Base.{ℕ, ◌-◌, ◌^◌, List, [], ◌∷◌, get_or, bit_and, bit_xor, ◌>>>◌}
use pi3_distributed_llm_infe.Libc.Crc.Table.{crc32_tab}

-- `crc32_tab[(crc ^ *p++) & 0xFF] ^ (crc >> 8)`
unfoldable pub crc_round : ℕ → ℕ → ℕ
crc_round crc b = bit_xor (get_or crc32_tab (bit_and (bit_xor crc b) 255) 0) (crc >>> 8)

unfoldable pub crc_loop : List ℕ → ℕ → ℕ
unfolding crc_round
crc_loop [] crc = crc
crc_loop (b ∷ p) crc = crc_loop p (crc_round crc b)

unfoldable pub our_crc32_inc : List ℕ → ℕ → ℕ
unfolding crc_loop
our_crc32_inc buf crc = bit_xor (crc_loop buf (bit_xor crc 4294967295)) 4294967295

unfoldable pub our_crc32 : List ℕ → ℕ
our_crc32 buf = our_crc32_inc buf 0
