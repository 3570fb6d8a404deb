-- ===== src/Boot.antt =====
-- The boot protocol: libpi/boot/get-code.h on the board and libunix/put-code.c on the host, with the
-- opcodes of boot/boot-defs.h. Each side reads the list of the bytes that the other sends, and what
-- it sends itself is the list `out`.
pub mod Words
pub mod Pi
pub mod Host
pub mod Dialog
pub mod Errors
use pi3_distributed_llm_infe.Base.{
  ℕ, ◌*◌, ◌^◌, List, [], ◌∷◌, Option, none, some, ◌>>=◌, bit_or, ◌<<<◌,
}

abbrev pub get_prog_info : ℕ
get_prog_info = 286335522

abbrev pub put_prog_info : ℕ
put_prog_info = 858997828

abbrev pub get_code_op : ℕ
get_code_op = 1431660134

abbrev pub put_code_op : ℕ
put_code_op = 2004322440

abbrev pub boot_success : ℕ
boot_success = 2576984746

abbrev pub boot_error : ℕ
boot_error = 3149647052

abbrev pub print_string : ℕ
print_string = 3722309358

abbrev pub armbase : ℕ
armbase = 32768

-- `boot_get8` and `get_uint8`; `none` is a read that waits.
unfoldable pub boot_get8 : List ℕ → Option (ℕ × List ℕ)
boot_get8 [] = none
boot_get8 (b ∷ s) = some (b, s)

-- `boot_get32` and `get_uint32`, which read the same way.
unfoldable pub boot_get32 : List ℕ → Option (ℕ × List ℕ)
boot_get32 s = do
  (b0, s0) ← boot_get8 s
  (b1, s1) ← boot_get8 s0
  (b2, s2) ← boot_get8 s1
  (b3, s3) ← boot_get8 s2
  some (bit_or (bit_or (bit_or b0 (b1 <<< 8)) (b2 <<< 16)) (b3 <<< 24), s3)
