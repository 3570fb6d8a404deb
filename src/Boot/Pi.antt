-- ===== src/Boot/Pi.antt =====
-- The board's side, libpi/boot/get-code.h.
use pi3_distributed_llm_infe.Base.{
  ℕ, zero, suc, ◌+◌, List, [], ◌∷◌, ◌++◌, Option, none, some, ◌>>=◌, ◌==◌, not, ◌||◌, ltb,
  if◌then◌else◌, u32, length,
}
use pi3_distributed_llm_infe.Base.Bytes.{le_bytes}
use pi3_distributed_llm_infe.Libc.Crc.{our_crc32}
use pi3_distributed_llm_infe.Boot.{
  get_prog_info, put_prog_info, get_code_op, put_code_op, boot_success, boot_error, print_string,
  boot_get32,
}

-- How `get_code` ends: it returns an address, reboots after an error, panics, or waits for a byte.
pub data End : Type 0 where
  booted : (addr : ℕ) → End
  rebooted panicked waiting : End

pub record Pi : Type 0 where
  pub end : End
  pub out : List ℕ
  pub mem : ℕ → ℕ

-- The messages, the address of `PUT32`, and `__prog_end__`.
pub record Board : Type 0 where
  pub hello : List ℕ
  pub collision : List ℕ
  pub bad_cksum : List ℕ
  pub success : List ℕ
  pub put32_addr : ℕ
  pub prog_end : ℕ

unfoldable pub boot_putk : List ℕ → List ℕ
boot_putk msg =
    if length msg == 0 then [] else le_bytes 4 print_string ++ (le_bytes 4 (length msg) ++ msg)

unfoldable pub boot_err : List ℕ → List ℕ
boot_err msg = boot_putk msg ++ le_bytes 4 boot_error

-- `crc32` over `[addr, addr + n)`.
unfoldable pub memory_bytes : ℕ → ℕ → (ℕ → ℕ) → List ℕ
memory_bytes zero addr mem = []
memory_bytes (suc n) addr mem = mem addr ∷ memory_bytes n (u32 (addr + 1)) mem

-- `PUT8`
abbrev pub put8 : ℕ → ℕ → (ℕ → ℕ) → ℕ → ℕ
put8 a v mem b = if a == b then v else mem b

-- The loop of step 5, `left` bytes to go, the next one to `addr`.
unfoldable pub copy_code : ℕ → ℕ → List ℕ → (ℕ → ℕ) → Option (List ℕ) × (ℕ → ℕ)
copy_code zero addr s mem = (some s, mem)
copy_code (suc left) addr [] mem = (none, mem)
copy_code (suc left) addr (b ∷ s) mem = copy_code left (u32 (addr + 1)) s (put8 addr b mem)

-- Steps 6 and 7.
unfoldable pub check_code : Board → ℕ → ℕ → ℕ → List ℕ → Option (List ℕ) × (ℕ → ℕ) → Pi
check_code board addr nbytes cksum out (none, mem) = record { end = waiting; out = out; mem = mem }
check_code board addr nbytes cksum out (some s, mem) =
    if not (our_crc32 (memory_bytes nbytes addr mem) == cksum)
    then record { end = rebooted; out = out ++ boot_err board.bad_cksum; mem = mem }
    else record {
      end = booted addr;
      out = out ++ (boot_putk board.success ++ le_bytes 4 boot_success);
      mem = mem;
    }

-- Step 5.
unfoldable pub expect_code : Board → ℕ → ℕ → ℕ → List ℕ → (ℕ → ℕ) → Option (ℕ × List ℕ) → Pi
expect_code board addr nbytes cksum out mem none = record { end = waiting; out = out; mem = mem }
expect_code board addr nbytes cksum out mem (some (op, s)) =
    if not (op == put_code_op)
    then record { end = panicked; out = out; mem = mem }
    else check_code board addr nbytes cksum out (copy_code nbytes addr s mem)

-- The rest of step 2.
unfoldable pub prog_info : List ℕ → Option ((ℕ × ℕ × ℕ) × List ℕ)
prog_info s = do
  (addr, s1) ← boot_get32 s
  (nbytes, s2) ← boot_get32 s1
  (cksum, s3) ← boot_get32 s2
  some ((addr, nbytes, cksum), s3)

-- Steps 3 and 4.
unfoldable pub check_info : Board → List ℕ → (ℕ → ℕ) → Option ((ℕ × ℕ × ℕ) × List ℕ) → Pi
check_info board out mem none = record { end = waiting; out = out; mem = mem }
check_info board out mem (some ((addr, nbytes, cksum), s)) =
    if not (ltb (u32 (addr + nbytes)) board.put32_addr || ltb board.prog_end addr)
    then record { end = rebooted; out = out ++ boot_err board.collision; mem = mem }
    else expect_code board addr nbytes cksum (out ++ (le_bytes 4 get_code_op ++ le_bytes 4 cksum))
        mem (boot_get32 s)

-- Step 2.
unfoldable pub expect_info : Board → List ℕ → (ℕ → ℕ) → Option (ℕ × List ℕ) → Pi
expect_info board out mem none = record { end = waiting; out = out; mem = mem }
expect_info board out mem (some (op, s)) =
    if not (op == put_prog_info)
    then record { end = panicked; out = out; mem = mem }
    else check_info board out mem (prog_info s)

-- `wait_for_data`, when the host's first byte comes after `polls` more timeouts.
unfoldable pub wait_for_data : ℕ → List ℕ
wait_for_data zero = le_bytes 4 get_prog_info
wait_for_data (suc polls) = le_bytes 4 get_prog_info ++ wait_for_data polls

unfoldable pub get_code : Board → ℕ → List ℕ → (ℕ → ℕ) → Pi
get_code board polls s mem =
    expect_info board (boot_putk board.hello ++ wait_for_data polls) mem (boot_get32 s)
