-- ===== src/Comm/Link.antt =====
-- The two wires that a byte crosses: `comm_master_send_byte` on one board and `comm_slave_recv_byte`
-- on the other. The slave polls; what it sees is a list of samples of the clock and of the data wire.
pub mod Byte
pub mod Bytes
use pi3_distributed_llm_infe.Base.{
  ℕ, zero, suc, ◌+◌, ◌^◌, Bool, true, false, List, [], ◌∷◌, ◌++◌, Option, none, some, ◌>>=◌, not,
  ◌==◌, bit_and, bit_or, if◌then◌else◌, replicate, length,
}

pub record Level : Type 0 where
  pub sclk : Bool
  pub mosi : Bool

-- How many times the slave samples the wires while the master makes one bit: before the clock rises
-- (`early`), in the delay while it is up, and in the delay after it has fallen.
pub record Pace : Type 0 where
  pub early : ℕ
  pub up : ℕ
  pub down : ℕ

-- One round of `comm_master_send_byte`, as the slave samples it.
unfoldable pub send_bit : Pace → Bool → List Level → List Level
send_bit pace bit later =
    replicate pace.early (record { sclk = false; mosi = bit })
    ++ (replicate pace.up (record { sclk = true; mosi = bit })
        ++ (replicate pace.down (record { sclk = false; mosi = bit }) ++ later))

-- `b & (1 << i)`
unfoldable pub bit_of : ℕ → ℕ → Bool
bit_of b i = not (bit_and b (2 ^ i) == 0)

-- `comm_master_send_byte` with `left` bits to go; `pace` says how each bit is sampled.
unfoldable pub comm_master_send_byte : (ℕ → Pace) → ℕ → ℕ → List Level → List Level
comm_master_send_byte pace b zero later = later
comm_master_send_byte pace b (suc i) later =
    send_bit (pace i) (bit_of b i) (comm_master_send_byte pace b i later)

-- `while (gpio_read(COMM_PIN_SCLK) == 0) {}`
unfoldable pub wait_high : List Level → Option (List Level)
wait_high [] = none
wait_high (l ∷ s) = let rest = wait_high s in if l.sclk then some s else rest

-- `while (gpio_read(COMM_PIN_SCLK) != 0) {}`
unfoldable pub wait_low : List Level → Option (List Level)
wait_low [] = none
wait_low (l ∷ s) = let rest = wait_low s in if l.sclk then rest else some s

-- `gpio_read(COMM_PIN_MOSI)`
unfoldable pub read_mosi : List Level → Option (Bool × List Level)
read_mosi [] = none
read_mosi (l ∷ s) = some (l.mosi, s)

-- `comm_slave_recv_byte` with `left` bits to go and those before them in `b`.
unfoldable pub comm_slave_recv_byte : ℕ → ℕ → List Level → Option (ℕ × List Level)
comm_slave_recv_byte zero b s = some (b, s)
comm_slave_recv_byte (suc i) b s = do
  s1 ← wait_high s
  (bit, s2) ← read_mosi s1
  s3 ← wait_low s2
  comm_slave_recv_byte i (if bit then bit_or b (2 ^ i) else b) s3

-- The master's side of `comm_send_bytes`: one byte behind the other.
unfoldable pub comm_send_bytes : (ℕ → ℕ → Pace) → List ℕ → List Level
comm_send_bytes pace [] = []
comm_send_bytes pace (b ∷ buf) =
    comm_master_send_byte (pace (length buf)) b 8 (comm_send_bytes pace buf)

-- The slave's side of `comm_recv_bytes`.
unfoldable pub comm_recv_bytes : ℕ → List Level → Option (List ℕ × List Level)
comm_recv_bytes zero s = some ([], s)
comm_recv_bytes (suc len) s = do
  (b, s1) ← comm_slave_recv_byte 8 0 s
  (buf, s2) ← comm_recv_bytes len s1
  some (b ∷ buf, s2)
