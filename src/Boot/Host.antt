-- ===== src/Boot/Host.antt =====
-- The host's side, libunix/put-code.c.
use pi3_distributed_llm_infe.Base.{
  ℕ, zero, suc, List, ◌++◌, Option, none, some, ◌==◌, not, ltb, if◌then◌else◌, length,
}
use pi3_distributed_llm_infe.Base.Bytes.{le_bytes, read_bytes}
use pi3_distributed_llm_infe.Libc.Crc.{our_crc32}
use pi3_distributed_llm_infe.Boot.{
  get_prog_info, put_prog_info, get_code_op, put_code_op, boot_success, print_string, armbase,
  boot_get8, boot_get32,
}

-- `starved` is a read that waits, or a loop that the fuel does not finish.
pub data Result {ℓ} (A : Type ℓ) : Type ℓ where
  ok : A → Result A
  panicked : Result A
  starved : Result A

infixl 5 ◌>>=◌
abbrev pub ◌>>=◌ {ℓ κ} : {A : Type ℓ} {B : Type κ} → Result A → (A → Result B) → Result B
ok a >>= f = f a
panicked >>= f = panicked
starved >>= f = starved

abbrev pub get {ℓ} : {A : Type ℓ} → Option A → Result A
get none = starved
get (some a) = ok a

-- `get_op`: the next word that is no `PRINT_STRING`; the strings are read past.
unfoldable pub get_op : ℕ → List ℕ → Result (ℕ × List ℕ)
get_op zero s = starved
get_op (suc fuel) s = do
  (op, s1) ← get (boot_get32 s)
  (let print = (do
    (nbytes, s2) ← get (boot_get32 s1)
    (let read = (get (read_bytes nbytes s2) >>= (λ r. get_op fuel r.1)) in
        if nbytes == 0 then panicked else if ltb 1024 nbytes then panicked else read)) in
      if not (op == print_string) then ok (op, s1) else print)

-- Step 0: reads on until the first `GET_PROG_INFO`.
unfoldable pub drain : ℕ → List ℕ → Result (List ℕ)
drain zero s = starved
drain (suc fuel) s = do
  (op, s1) ← get_op (length s) s
  (let again = (get (boot_get8 s1) >>= (λ r. drain fuel r.1)) in
      if not (op == get_prog_info) then again else ok s1)

-- Step 2: reads past further `GET_PROG_INFO`s, each with the byte behind it.
unfoldable pub drain_extra : ℕ → List ℕ → Result (ℕ × List ℕ)
drain_extra zero s = starved
drain_extra (suc fuel) s = do
  (op, s1) ← get_op (length s) s
  (let again = (get (boot_get8 s1) >>= (λ r. drain_extra fuel r.1)) in
      if op == get_prog_info then again else ok (op, s1))

-- Step 5: reads on until `BOOT_SUCCESS`.
unfoldable pub wait_success : ℕ → List ℕ → Result (List ℕ)
wait_success zero s = starved
wait_success (suc fuel) s = do
  (op, s1) ← get_op (length s) s
  (let again = (get (boot_get8 s1) >>= (λ r. wait_success fuel r.1)) in
      if not (op == boot_success) then again else ok s1)

-- The message of step 1, and that of step 4.
unfoldable pub info_message : List ℕ → List ℕ
info_message buf =
    le_bytes 4 put_prog_info
    ++ (le_bytes 4 armbase ++ (le_bytes 4 (length buf) ++ le_bytes 4 (our_crc32 buf)))

unfoldable pub code_message : List ℕ → List ℕ
code_message buf = le_bytes 4 put_code_op ++ buf

-- `simple_boot`: the bytes sent by the time it returns, and the bytes that it has not read. Each loop
-- takes a byte at least a round, so its stream's length is fuel enough.
unfoldable pub simple_boot : List ℕ → List ℕ → Result (List ℕ × List ℕ)
simple_boot buf s = do
  s0 ← drain (length s) s
  (op, s1) ← drain_extra (length s0) s0
  (let go_on = (do
    (crc, s2) ← get (boot_get32 s1)
    (let handle =
          (wait_success (length s2) s2 >>= (λ s3. ok (info_message buf ++ code_message buf, s3))) in
        if not (crc == our_crc32 buf) then panicked else handle)) in
      if not (op == get_code_op) then panicked else go_on)
