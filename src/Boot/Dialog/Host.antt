-- ===== src/Boot/Dialog/Host.antt =====
-- The host on what the board sends.
use pi3_distributed_llm_infe.Base.{
  ℕ, zero, suc, ◌+◌, ◌*◌, ◌%◌, ◌/◌, ◌^◌, ◌≤◌, ◌<◌, ◌≡◌, ◌≢◌, refl, arith, false, List, ◌∷◌, ◌++◌,
  ◌==◌, ==_self, ltb, length, length-append, Bool-cases, inl, inr,
}
use pi3_distributed_llm_infe.Base.Bytes.{le_bytes, read_bytes-append}
use pi3_distributed_llm_infe.Libc.Crc.{our_crc32}
use pi3_distributed_llm_infe.Libc.Crc.Bitwise.{our_crc32-lt}
use pi3_distributed_llm_infe.Boot.{
  get_prog_info, get_code_op, boot_success, print_string, boot_get8,
}
use pi3_distributed_llm_infe.Boot.Words.{boot_get32-le_bytes, boot_get32_bytes}
use pi3_distributed_llm_infe.Boot.Pi.{boot_putk}
use pi3_distributed_llm_infe.Boot.Host.{
  ok, panicked, get_op, drain, drain_extra, wait_success, info_message, code_message, simple_boot,
}

-- A word that is no `PRINT_STRING` is the next opcode.
get_op-word :
    (fuel op : ℕ) (rest : List ℕ)
    → 0 < fuel
    → op < 2 ^ 32
    → op ≢ print_string
    → get_op fuel (le_bytes 4 op ++ rest) ≡ ok (op, rest)
unfolding get_op
get_op-word zero op rest f h ne = absurd (omega arith)
get_op-word (suc fuel) op rest f h ne =
    let e = boot_get32-le_bytes op rest h in
    let other : (op == print_string) ≡ false = ground arith in rw (e, other) refl

-- The board's text in front of it is read past.
get_op-putk :
    (fuel op : ℕ) (msg rest : List ℕ)
    → 1 < fuel
    → op < 2 ^ 32
    → op ≢ print_string
    → length msg ≤ 1024
    → get_op fuel (boot_putk msg ++ (le_bytes 4 op ++ rest)) ≡ ok (op, rest)
unfolding get_op boot_putk
get_op-putk zero op msg rest f h ne m = absurd (omega arith)
get_op-putk (suc fuel) op msg rest f h ne m = elim (Bool-cases (length msg == 0)) [
  | inl empty ↦ rw empty (get_op-word (suc fuel) op rest (omega arith) h ne)
  | inr text ↦
      let r = le_bytes 4 op ++ rest in
      let e1 =
        boot_get32-le_bytes print_string (le_bytes 4 (length msg) ++ (msg ++ r)) (omega arith) in
      let e2 = boot_get32-le_bytes (length msg) (msg ++ r) (omega arith) in
      let e3 = read_bytes-append (length msg) msg r refl in
      let short : ltb 1024 (length msg) ≡ false = ground arith in
      rw (text, e1, e2, text, short, e3) (get_op-word fuel op rest (omega arith) h ne)
]

-- A word that is no `PRINT_STRING` is the next opcode, when there is text in front of it or not, with
-- the fuel that the loops give.
get_op_text :
    (op : ℕ) (msg rest : List ℕ)
    → op < 2 ^ 32
    → op ≢ print_string
    → length msg ≤ 1024
    → get_op
        (length (boot_putk msg ++ (le_bytes 4 op ++ rest)))
        (boot_putk msg ++ (le_bytes 4 op ++ rest))
      ≡ ok (op, rest)
get_op_text op msg rest h ne m =
    let size = length-append (boot_putk msg) (le_bytes 4 op ++ rest) in
    let fuel : 1 < length (boot_putk msg ++ (le_bytes 4 op ++ rest)) = omega (arith, size) in
    get_op-putk (length (boot_putk msg ++ (le_bytes 4 op ++ rest))) op msg rest fuel h ne m

get_op_next :
    (op : ℕ) (rest : List ℕ)
    → op < 2 ^ 32
    → op ≢ print_string
    → get_op (length (le_bytes 4 op ++ rest)) (le_bytes 4 op ++ rest) ≡ ok (op, rest)
get_op_next op rest h ne = get_op-word (length (le_bytes 4 op ++ rest)) op rest (omega arith) h ne

-- The loops end at the opcode that they wait for.
drain_once :
    (fuel : ℕ) (s rest : List ℕ)
    → 0 < fuel
    → get_op (length s) s ≡ ok (get_prog_info, rest)
    → drain fuel s ≡ ok rest
unfolding drain
drain_once zero s rest f e = absurd (omega arith)
drain_once (suc fuel) s rest f e = rw e refl

drain_extra_once :
    (fuel op : ℕ) (s rest : List ℕ)
    → 0 < fuel
    → op ≢ get_prog_info
    → get_op (length s) s ≡ ok (op, rest)
    → drain_extra fuel s ≡ ok (op, rest)
unfolding drain_extra
drain_extra_once zero op s rest f ne e = absurd (omega arith)
drain_extra_once (suc fuel) op s rest f ne e =
    let other : (op == get_prog_info) ≡ false = ground arith in rw (e, other) refl

wait_success_once :
    (fuel : ℕ) (s rest : List ℕ)
    → 0 < fuel
    → get_op (length s) s ≡ ok (boot_success, rest)
    → wait_success fuel s ≡ ok rest
unfolding wait_success
wait_success_once zero s rest f e = absurd (omega arith)
wait_success_once (suc fuel) s rest f e = rw e refl

length_text : (op : ℕ) (msg rest : List ℕ) → 0 < length (boot_putk msg ++ (le_bytes 4 op ++ rest))
length_text op msg rest = omega (arith, length-append (boot_putk msg) (le_bytes 4 op ++ rest))

-- What the board sends up to the second step.
abbrev pub greeting : List ℕ → List ℕ → List ℕ
greeting hello s = boot_putk hello ++ (le_bytes 4 get_prog_info ++ s)

drain_text :
    (hello s : List ℕ)
    → length hello ≤ 1024
    → drain (length (greeting hello s)) (greeting hello s) ≡ ok s
drain_text hello s m =
    drain_once (length (greeting hello s)) (greeting hello s) s (length_text get_prog_info hello s)
      (get_op_text get_prog_info hello s (omega arith) (λ e. absurd (omega (arith, e))) m)

-- The rest of a run that goes well.
abbrev pub request : List ℕ → List ℕ → List ℕ
request buf s = le_bytes 4 get_code_op ++ (le_bytes 4 (our_crc32 buf) ++ s)

abbrev pub done : List ℕ → List ℕ → List ℕ
done success s = boot_putk success ++ (le_bytes 4 boot_success ++ s)

pub simple_boot_runs :
    (hello success buf rest : List ℕ)
    → length hello ≤ 1024
    → length success ≤ 1024
    → simple_boot buf (greeting hello (request buf (done success rest)))
      ≡ ok (info_message buf ++ code_message buf, rest)
unfolding simple_boot
simple_boot_runs hello success buf rest mh ms =
    let s2 = done success rest in
    let s1 = le_bytes 4 (our_crc32 buf) ++ s2 in
    let s0 = le_bytes 4 get_code_op ++ s1 in
    let e0 = drain_text hello s0 mh in
    let e1 =
      drain_extra_once (length s0) get_code_op s0 s1 (omega arith) (λ e. absurd (omega (arith, e)))
        (get_op_next get_code_op s1 (omega arith) (λ e. absurd (omega (arith, e)))) in
    let e2 = boot_get32-le_bytes (our_crc32 buf) s2 (our_crc32-lt buf) in
    let e3 =
      wait_success_once (length s2) s2 rest (length_text boot_success success rest)
        (get_op_text boot_success success rest (omega arith) (λ e. absurd (omega (arith, e))) ms) in
    rw (e0, e1, e2, ==_self (our_crc32 buf), e3) refl

-- The board's second `GET_PROG_INFO` takes the first byte of the next word with it, and what is left of
-- that word is no opcode.
get_op_shifted :
    (buf s : List ℕ)
    → get_op
        (length (102 ∷ 85 ∷ 85 ∷ (le_bytes 4 (our_crc32 buf) ++ s)))
        (102 ∷ 85 ∷ 85 ∷ (le_bytes 4 (our_crc32 buf) ++ s))
      ≡ ok (5592422 + 16777216 * (our_crc32 buf % 256), le_bytes 3 (our_crc32 buf / 256) ++ s)
unfolding get_op
get_op_shifted buf s =
    let c = our_crc32 buf in
    let e =
      boot_get32_bytes 102 85 85 (c % 256) (le_bytes 3 (c / 256) ++ s) (omega arith) (omega arith)
        (omega arith) (omega arith) in
    let sum : 102 + 256 * 85 + 65536 * 85 + 16777216 * (c % 256) ≡ 5592422 + 16777216 * (c % 256) =
      omega arith in
    let other : (5592422 + 16777216 * (c % 256) == print_string) ≡ false = ground arith in
    rw (e, sum, other) refl

drain_extra_shifted :
    (fuel : ℕ) (s0 buf s : List ℕ)
    → 1 < fuel
    → get_op (length s0) s0 ≡ ok (get_prog_info, request buf s)
    → drain_extra fuel s0
      ≡ ok (5592422 + 16777216 * (our_crc32 buf % 256), le_bytes 3 (our_crc32 buf / 256) ++ s)
unfolding drain_extra boot_get8
drain_extra_shifted zero s0 buf s f e = absurd (omega arith)
drain_extra_shifted (suc fuel) s0 buf s f e = rw e (
    drain_extra_once fuel (5592422 + 16777216 * (our_crc32 buf % 256))
      (102 ∷ 85 ∷ 85 ∷ (le_bytes 4 (our_crc32 buf) ++ s)) (le_bytes 3 (our_crc32 buf / 256) ++ s)
      (omega arith) (λ e. absurd (omega (arith, e))) (get_op_shifted buf s))

pub simple_boot_shifted :
    (hello buf s : List ℕ)
    → length hello ≤ 1024
    → simple_boot buf (greeting hello (le_bytes 4 get_prog_info ++ request buf s)) ≡ panicked
unfolding simple_boot
simple_boot_shifted hello buf s m =
    let c = our_crc32 buf in
    let s0 = le_bytes 4 get_prog_info ++ request buf s in
    let e0 = drain_text hello s0 m in
    let e1 =
      drain_extra_shifted (length s0) s0 buf s (omega arith) (
        get_op_next get_prog_info (request buf s) (omega arith) (λ e. absurd (omega (arith, e)))) in
    let other : (5592422 + 16777216 * (c % 256) == get_code_op) ≡ false = ground arith in
    rw (e0, e1, other) refl
