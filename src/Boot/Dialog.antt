-- ===== src/Boot/Dialog.antt =====
-- The two sides together: each is given what the other sends.
mod Host
use pi3_distributed_llm_infe.Base.{
  ℕ, zero, suc, ◌+◌, ◌^◌, ◌≤◌, ◌<◌, ◌≡◌, refl, sym, ap, ◌∙◌, arith, Bool, true, false, List, [],
  ◌∷◌, ◌++◌, Option, none, some, ◌==◌, ==_self, not, ◌||◌, ltb, if◌then◌else◌, u32, length,
  append_assoc, ◌⊎◌, inl, inr,
}
use pi3_distributed_llm_infe.Base.Bytes.{le_bytes, IsBytes}
use pi3_distributed_llm_infe.Libc.Crc.{our_crc32}
use pi3_distributed_llm_infe.Libc.Crc.Bitwise.{our_crc32-lt}
use pi3_distributed_llm_infe.Boot.{
  get_prog_info, put_prog_info, get_code_op, put_code_op, boot_success, armbase, boot_get32,
}
use pi3_distributed_llm_infe.Boot.Words.{boot_get32-le_bytes}
use pi3_distributed_llm_infe.Boot.Errors.Copy.{copy_code_keeps, copy_code_lem}
use pi3_distributed_llm_infe.Boot.Pi.{
  Board, Pi, End, booted, boot_putk, memory_bytes, copy_code, check_code, expect_code, prog_info,
  check_info, expect_info, wait_for_data, get_code,
}
use pi3_distributed_llm_infe.Boot.Dialog.Host.{
  greeting, request, done, simple_boot_runs, simple_boot_shifted,
}
use pi3_distributed_llm_infe.Boot.Host.{
  Result, ok, panicked, info_message, code_message, simple_boot,
}

-- A host's program fits behind `ARMBASE`, and apart from the boot loader.
pub record IsProgram (board : Board) (buf : List ℕ) : Type 0 where
  pub fits : armbase + length buf < 2 ^ 32
  pub apart : (ltb (armbase + length buf) board.put32_addr || ltb board.prog_end armbase) ≡ true

-- What the board has sent when it returns, with `polls` timeouts before the host's first byte.
abbrev pub board_out : Board → ℕ → List ℕ → List ℕ
board_out board polls buf =
    ((boot_putk board.hello ++ wait_for_data polls)
      ++ (le_bytes 4 get_code_op ++ le_bytes 4 (our_crc32 buf)))
    ++ (boot_putk board.success ++ le_bytes 4 boot_success)

-- Where the board is after the copy loop of a program that has arrived whole.
done_with : Board → List ℕ → List ℕ → (ℕ → ℕ) → Pi
done_with board out buf mem = record {
  end = booted armbase;
  out = out ++ (boot_putk board.success ++ le_bytes 4 boot_success);
  mem = mem;
}

check_code_good :
    (board : Board) (out buf s : List ℕ) (r : Option (List ℕ) × (ℕ → ℕ))
    → r.0 ≡ some s
    → memory_bytes (length buf) armbase r.1 ≡ buf
    → check_code board armbase (length buf) (our_crc32 buf) out r ≡ done_with board out buf r.1
unfolding check_code done_with
check_code_good board out buf s (none, mem) e m = cc
check_code_good board out buf s (some t, mem) e m =
    let same : (our_crc32 (memory_bytes (length buf) armbase mem) == our_crc32 buf) ≡ true =
      rw m (==_self (our_crc32 buf)) in
    rw same refl

prog_info_lem :
    (n ck : ℕ) (r : List ℕ)
    → n < 2 ^ 32
    → ck < 2 ^ 32
    → prog_info (le_bytes 4 armbase ++ (le_bytes 4 n ++ (le_bytes 4 ck ++ r)))
      ≡ some ((armbase, n, ck), r)
unfolding prog_info
prog_info_lem n ck r hn hc =
    rw
      (
        boot_get32-le_bytes armbase (le_bytes 4 n ++ (le_bytes 4 ck ++ r)) (omega arith),
        boot_get32-le_bytes n (le_bytes 4 ck ++ r) hn,
        boot_get32-le_bytes ck r hc,
      )
      refl

check_info_good :
    (board : Board) (out buf rest : List ℕ) (mem : ℕ → ℕ)
    → IsProgram board buf
    → check_info board out mem
        (some ((armbase, length buf, our_crc32 buf), le_bytes 4 put_code_op ++ (buf ++ rest)))
      ≡ done_with board
          (out ++ (le_bytes 4 get_code_op ++ le_bytes 4 (our_crc32 buf)))
          buf
          (copy_code (length buf) armbase (buf ++ rest) mem).1
unfolding check_info expect_code
check_info_good board out buf rest mem v =
    let sum : u32 (armbase + length buf) ≡ armbase + length buf = omega (arith, v.fits) in
    let (e, m) = copy_code_lem buf rest armbase mem v.fits in
    rw (sum, v.apart, boot_get32-le_bytes put_code_op (buf ++ rest) (omega arith))
      (check_code_good board (out ++ (le_bytes 4 get_code_op ++ le_bytes 4 (our_crc32 buf))) buf
        rest (copy_code (length buf) armbase (buf ++ rest) mem) e m)

get_code_runs :
    (board : Board) (polls : ℕ) (buf rest : List ℕ) (mem : ℕ → ℕ)
    → IsProgram board buf
    → get_code board polls (info_message buf ++ (code_message buf ++ rest)) mem
      ≡ done_with board
          ((boot_putk board.hello ++ wait_for_data polls)
            ++ (le_bytes 4 get_code_op ++ le_bytes 4 (our_crc32 buf)))
          buf
          (copy_code (length buf) armbase (buf ++ rest) mem).1
unfolding get_code info_message code_message expect_info
get_code_runs board polls buf rest mem v =
    let n = length buf in
    let r4 = le_bytes 4 put_code_op ++ (buf ++ rest) in
    let r1 = le_bytes 4 armbase ++ (le_bytes 4 n ++ (le_bytes 4 (our_crc32 buf) ++ r4)) in
    rw
      (
        boot_get32-le_bytes put_prog_info r1 (omega arith),
        prog_info_lem n (our_crc32 buf) r4 (omega (arith, v.fits)) (our_crc32-lt buf),
      )
      (check_info_good board (boot_putk board.hello ++ wait_for_data polls) buf rest mem v)

-- Given the host's two messages, the board returns `ARMBASE`; it has sent the messages of the
-- protocol, the program is in memory from there on, and no other byte has changed.
pub get_code_lem :
    (board : Board) (polls : ℕ) (buf rest : List ℕ) (mem : ℕ → ℕ)
    → IsProgram board buf
    → ((get_code board polls (info_message buf ++ (code_message buf ++ rest)) mem).end
        ≡ booted armbase)
      × ((get_code board polls (info_message buf ++ (code_message buf ++ rest)) mem).out
          ≡ board_out board polls buf)
      × (memory_bytes
            (length buf)
            armbase
            (get_code board polls (info_message buf ++ (code_message buf ++ rest)) mem).mem
          ≡ buf)
      × ((b : ℕ)
          → (b < armbase) ⊎ (armbase + length buf ≤ b)
          → (get_code board polls (info_message buf ++ (code_message buf ++ rest)) mem).mem b
            ≡ mem b)
unfolding done_with
get_code_lem board polls buf rest mem v =
    let run = get_code_runs board polls buf rest mem v in
    let (e, m) = copy_code_lem buf rest armbase mem v.fits in
    (
      ap (λ p. p.end) run,
      ap (λ p. p.out) run,
      ap (λ p. memory_bytes (length buf) armbase p.mem) run ∙ m,
      λ b h.
          ap (λ p. p.mem b) run ∙ copy_code_keeps (length buf) armbase (buf ++ rest) mem b h v.fits,
    )

-- The messages of the board, one after the other.
board_out_shape :
    (hello info word crc success end rest : List ℕ)
    → (((hello ++ info) ++ (word ++ crc)) ++ (success ++ end)) ++ rest
      ≡ hello ++ (info ++ (word ++ (crc ++ (success ++ (end ++ rest)))))
board_out_shape hello info word crc success end rest =
    rw
      (
        append_assoc ((hello ++ info) ++ (word ++ crc)) (success ++ end) rest,
        append_assoc (hello ++ info) (word ++ crc) ((success ++ end) ++ rest),
        append_assoc hello info ((word ++ crc) ++ ((success ++ end) ++ rest)),
        append_assoc word crc ((success ++ end) ++ rest),
        append_assoc success end rest,
      )
      refl

-- A host that reads what the board sends up to the end of the protocol, after one `GET_PROG_INFO`,
-- returns; it has sent its two messages, and reads nothing that follows.
pub simple_boot_lem :
    (board : Board) (buf rest : List ℕ)
    → length board.hello ≤ 1024
    → length board.success ≤ 1024
    → simple_boot buf (board_out board 0 buf ++ rest)
      ≡ ok (info_message buf ++ code_message buf, rest)
unfolding wait_for_data
simple_boot_lem board buf rest hm sm =
    ap (simple_boot buf) (
      board_out_shape (boot_putk board.hello) (le_bytes 4 get_prog_info) (le_bytes 4 get_code_op)
        (le_bytes 4 (our_crc32 buf)) (boot_putk board.success) (le_bytes 4 boot_success) rest)
    ∙ simple_boot_runs board.hello board.success buf rest hm sm

-- When the board has sent `GET_PROG_INFO` twice, the host panics: with the second one it throws away
-- the first byte of `GET_CODE`.
pub simple_boot_extra :
    (board : Board) (buf rest : List ℕ)
    → length board.hello ≤ 1024
    → simple_boot buf (board_out board 1 buf ++ rest) ≡ panicked
unfolding wait_for_data
simple_boot_extra board buf rest hm =
    ap (simple_boot buf) (
      board_out_shape (boot_putk board.hello) (le_bytes 4 get_prog_info ++ le_bytes 4 get_prog_info)
        (le_bytes 4 get_code_op) (le_bytes 4 (our_crc32 buf)) (boot_putk board.success)
        (le_bytes 4 boot_success) rest)
    ∙ simple_boot_shifted board.hello buf (done board.success rest) hm
