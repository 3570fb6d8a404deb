-- ===== src/Boot/Errors.antt =====
-- What `get_code` never does to memory, whatever the host sends.
pub mod Copy
use Copy.{copy_code_keeps}
use pi3_distributed_llm_infe.Base.{
  ℕ, zero, suc, ◌+◌, ◌^◌, ◌≤◌, ◌<◌, ◌≡◌, refl, ◌∙◌, arith, List, [], ◌∷◌, ◌++◌, Option, none, some,
  ◌⊎◌, inl, inr, Bool-cases, true, false, ◌==◌, not, ◌||◌, ltb, if◌then◌else◌, u32,
}
use pi3_distributed_llm_infe.Base.Bytes.{le_bytes}
use pi3_distributed_llm_infe.Libc.Crc.{our_crc32}
use pi3_distributed_llm_infe.Boot.{put_code_op, get_code_op, boot_get32}
use pi3_distributed_llm_infe.Boot.Pi.{
  Board, Pi, memory_bytes, copy_code, check_code, expect_code, check_info,
}

check_code_mem :
    (board : Board) (addr n ck : ℕ) (out : List ℕ) (r : Option (List ℕ) × (ℕ → ℕ)) (b : ℕ)
    → (check_code board addr n ck out r).mem b ≡ r.1 b
unfolding check_code
check_code_mem board addr n ck out (none, mem) b = refl
check_code_mem board addr n ck out (some s, mem) b =
    elim (Bool-cases (our_crc32 (memory_bytes n addr mem) == ck)) [
      | inl good ↦ rw good refl
      | inr bad ↦ rw bad refl
    ]

expect_code_mem :
    (board : Board) (addr n ck : ℕ) (out : List ℕ) (mem : ℕ → ℕ) (r : Option (ℕ × List ℕ)) (b : ℕ)
    → (b < addr) ⊎ (addr + n ≤ b)
    → addr + n < 2 ^ 32
    → (expect_code board addr n ck out mem r).mem b ≡ mem b
unfolding expect_code
expect_code_mem board addr n ck out mem none b h w = refl
expect_code_mem board addr n ck out mem (some (op, s)) b h w =
    elim (Bool-cases (op == put_code_op)) [
      | inl yes_code ↦ rw yes_code (
          check_code_mem board addr n ck out (copy_code n addr s mem) b
          ∙ copy_code_keeps n addr s mem b h w)
      | inr other ↦ rw other refl
    ]

-- Whatever program a host announces, as long as its address and size do not wrap a 32-bit sum, and
-- whatever it sends after that: no byte from `PUT32` up to `__prog_end__` is written.
pub check_info_keeps :
    (board : Board) (out : List ℕ) (mem : ℕ → ℕ) (addr nbytes cksum : ℕ) (s : List ℕ) (b : ℕ)
    → addr + nbytes < 2 ^ 32
    → board.put32_addr ≤ b
    → b ≤ board.prog_end
    → (check_info board out mem (some ((addr, nbytes, cksum), s))).mem b ≡ mem b
unfolding check_info
check_info_keeps board out mem addr nbytes cksum s b w low high =
    elim (Bool-cases (ltb (u32 (addr + nbytes)) board.put32_addr || ltb board.prog_end addr)) [
      | inl apart ↦ rw apart (
          expect_code_mem board addr nbytes cksum
            (out ++ (le_bytes 4 get_code_op ++ le_bytes 4 cksum)) mem (boot_get32 s) b
            (ground arith) w)
      | inr clash ↦ rw clash refl
    ]
