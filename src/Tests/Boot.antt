-- ===== src/Tests/Boot.antt =====
-- The boot protocol and its checksum at small inputs.
use pi3_distributed_llm_infe.Base.{
  ℕ, ◌+◌, ◌≤◌, ◌<◌, ◌≡◌, ◌⊎◌, refl, arith, List, [], ◌∷◌, ◌++◌, some,
}
use pi3_distributed_llm_infe.Libc.Crc.{our_crc32, our_crc32_inc}
use pi3_distributed_llm_infe.Libc.Crc.Bitwise.{bitwise_crc32, our_crc32-bitwise}
use pi3_distributed_llm_infe.Boot.{armbase}
use pi3_distributed_llm_infe.Boot.Pi.{Board, booted, memory_bytes, check_info, get_code}
use pi3_distributed_llm_infe.Boot.Host.{ok, panicked, info_message, code_message, simple_boot}
use pi3_distributed_llm_infe.Boot.Errors.{check_info_keeps}
use pi3_distributed_llm_infe.Boot.Dialog.{
  IsProgram, board_out, get_code_lem, simple_boot_lem, simple_boot_extra,
}

-- The check value of this checksum: that of the text "123456789".
our_crc32_digits : our_crc32 (49 ∷ 50 ∷ 51 ∷ 52 ∷ 53 ∷ 54 ∷ 55 ∷ 56 ∷ 57 ∷ []) ≡ 3421780262
unfolding our_crc32 our_crc32_inc
our_crc32_digits = refl

our_crc32-bitwise_example : our_crc32 (1 ∷ 255 ∷ []) ≡ bitwise_crc32 (1 ∷ 255 ∷ [])
our_crc32-bitwise_example = our_crc32-bitwise (1 ∷ 255 ∷ []) (omega arith, (omega arith, tt))

-- The boot loader stands at 2 MB.
abbrev board : Board
board = record {
  hello = 104 ∷ 105 ∷ [];
  collision = [];
  bad_cksum = [];
  success = 111 ∷ 107 ∷ [];
  put32_addr = 2097152;
  prog_end = 2105344;
}

abbrev program : List ℕ
program = 30 ∷ 255 ∷ 47 ∷ 225 ∷ []

program-IsProgram : IsProgram board program
program-IsProgram = record { fits = omega arith; apart = refl }

get_code_example :
    ((get_code board 2 (info_message program ++ (code_message program ++ [])) (λ b. 0)).end
      ≡ booted armbase)
    × ((get_code board 2 (info_message program ++ (code_message program ++ [])) (λ b. 0)).out
        ≡ board_out board 2 program)
    × (memory_bytes 4 armbase
          (get_code board 2 (info_message program ++ (code_message program ++ [])) (λ b. 0)).mem
        ≡ program)
    × ((b : ℕ)
        → (b < armbase) ⊎ (armbase + 4 ≤ b)
        → (get_code board 2 (info_message program ++ (code_message program ++ [])) (λ b. 0)).mem b
          ≡ 0)
get_code_example = get_code_lem board 2 program [] (λ b. 0) program-IsProgram

simple_boot_example :
    simple_boot program (board_out board 0 program ++ (7 ∷ []))
    ≡ ok (info_message program ++ code_message program, 7 ∷ [])
simple_boot_example = simple_boot_lem board program (7 ∷ []) (omega arith) (omega arith)

simple_boot_extra_example : simple_boot program (board_out board 1 program ++ []) ≡ panicked
simple_boot_extra_example = simple_boot_extra board program [] (omega arith)

-- A program of 8 bytes that starts inside the boot loader.
check_info_example : (check_info board [] (λ b. 5) (some ((2097156, 8, 0), []))).mem 2097160 ≡ 5
check_info_example =
    check_info_keeps board [] (λ b. 5) 2097156 8 0 [] 2097160 (omega arith) (omega arith)
      (omega arith)
