-- ===== src/Boot/Words.antt =====
-- A word that either side sends is the word that the other reads.
use pi3_distributed_llm_infe.Base.{
  ℕ, ◌+◌, ◌*◌, ◌/◌, ◌%◌, ◌^◌, ◌<◌, ◌≡◌, refl, ap, ◌∙◌, arith, List, ◌∷◌, ◌++◌, some,
}
use pi3_distributed_llm_infe.Base.Xor.{bit_or-add_field}
use pi3_distributed_llm_infe.Base.Bytes.{le_bytes}
use pi3_distributed_llm_infe.Boot.{boot_get8, boot_get32}

-- The four bytes put together.
pub boot_get32_bytes :
    (a b c d : ℕ) (rest : List ℕ)
    → a < 256
    → b < 256
    → c < 256
    → d < 256
    → boot_get32 (a ∷ b ∷ c ∷ d ∷ rest) ≡ some (a + 256 * b + 65536 * c + 16777216 * d, rest)
unfolding boot_get32 boot_get8
boot_get32_bytes a b c d rest ha hb hc hd =
    let one = bit_or-add_field 8 a b ha in
    let two = bit_or-add_field 16 (b * 256 + a) c (omega arith) in
    let three = bit_or-add_field 24 (c * 65536 + (b * 256 + a)) d (omega arith) in
    let sum : d * 16777216 + (c * 65536 + (b * 256 + a)) ≡ a + 256 * b + 65536 * c + 16777216 * d =
      omega arith in
    rw (one, two, three, sum) refl

-- `boot_put32` and then `boot_get32`.
pub boot_get32-le_bytes :
    (u : ℕ) (rest : List ℕ) → u < 2 ^ 32 → boot_get32 (le_bytes 4 u ++ rest) ≡ some (u, rest)
boot_get32-le_bytes u rest h =
    boot_get32_bytes (u % 256) (u / 256 % 256) (u / 256 / 256 % 256) (u / 256 / 256 / 256 % 256)
      rest (omega arith) (omega arith) (omega arith) (omega arith)
    ∙ ap (λ x. some (x, rest)) (omega arith)
