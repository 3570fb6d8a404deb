-- ===== src/Comm/Link/Byte.antt =====
-- A byte that the master sends is the byte that the slave receives.
use pi3_distributed_llm_infe.Base.{
  ℕ, zero, suc, ◌+◌, ◌*◌, ◌/◌, ◌%◌, ◌^◌, ◌≤◌, ◌<◌, ◌≡◌, refl, sym, ap, ap₂, ◌∙◌, ◌-◌, arith, Bool,
  true, false, List, ◌++◌, some, not, ◌==◌, bit_and, bit_or, if◌then◌else◌, replicate, Bool-cases,
  inl, inr,
}
use native.Mathlib.Nat.{pow-succ', div-div-eq-div-mul}
use pi3_distributed_llm_infe.Base.Bits.{bit_and-high, bit_or-fields, one-le-two_pow}
use pi3_distributed_llm_infe.Comm.Link.{
  Level, Pace, send_bit, bit_of, comm_master_send_byte, wait_high, wait_low, read_mosi,
  comm_slave_recv_byte,
}

wait_high-low :
    (n : ℕ) (b : Bool) (s : List Level)
    → wait_high (replicate n (record { sclk = false; mosi = b }) ++ s) ≡ wait_high s
unfolding wait_high
wait_high-low zero b s = refl
wait_high-low (suc n) b s = wait_high-low n b s

wait_low-high :
    (n : ℕ) (b : Bool) (s : List Level)
    → wait_low (replicate n (record { sclk = true; mosi = b }) ++ s) ≡ wait_low s
unfolding wait_low
wait_low-high zero b s = refl
wait_low-high (suc n) b s = wait_low-high n b s

-- The low samples that a wait leaves are skipped by the next one.
recv_early :
    (n i b : ℕ) (c : Bool) (s : List Level)
    → comm_slave_recv_byte (suc i) b (replicate n (record { sclk = false; mosi = c }) ++ s)
      ≡ comm_slave_recv_byte (suc i) b s
unfolding comm_slave_recv_byte
recv_early n i b c s = rw (wait_high-low n c s) refl

-- The delays of a bit are long enough for the slave: it samples the wires twice at least while the
-- clock is up, and once while it is down.
abbrev pub IsSlow : Pace → Type 0
IsSlow pace = (2 ≤ pace.up) × (1 ≤ pace.down)

-- One bit, as the slave takes it.
recv_samples :
    (early up down : ℕ) (bit : Bool) (i b : ℕ) (later : List Level)
    → comm_slave_recv_byte
        (suc i)
        b
        (send_bit (record { early = early; up = suc (suc up); down = suc down }) bit later)
      ≡ comm_slave_recv_byte i
          (if bit then bit_or b (2 ^ i) else b)
          (replicate down (record { sclk = false; mosi = bit }) ++ later)
unfolding comm_slave_recv_byte send_bit wait_high wait_low read_mosi
recv_samples early up down bit i b later =
    let low : List Level = replicate (suc down) (record { sclk = false; mosi = bit }) ++ later in
    let high : List Level = replicate (suc (suc up)) (record { sclk = true; mosi = bit }) ++ low in
    recv_early early i b bit high ∙ rw (wait_low-high up bit low) refl

recv_bit :
    (pace : Pace) (bit : Bool) (i b : ℕ) (later : List Level)
    → IsSlow pace
    → comm_slave_recv_byte (suc i) b (send_bit pace bit later)
      ≡ comm_slave_recv_byte i
          (if bit then bit_or b (2 ^ i) else b)
          (replicate (pace.down - 1) (record { sclk = false; mosi = bit }) ++ later)
recv_bit pace bit i b later (up, down) =
    let two : pace.up ≡ suc (suc (pace.up - 2)) = omega (arith, up) in
    let one : pace.down ≡ suc (pace.down - 1) = omega (arith, down) in
    ap₂
      (λ u d.
        comm_slave_recv_byte (suc i) b
          (send_bit (record { early = pace.early; up = u; down = d }) bit later))
      two one
    ∙ recv_samples pace.early (pace.up - 2) (pace.down - 1) bit i b later

-- The test of bit `i`.
bit_of_lem : (b i : ℕ) → bit_of b i ≡ (b / 2 ^ i % 2 == 1)
unfolding bit_of
bit_of_lem b i =
    let mask : 1 * 2 ^ i ≡ 2 ^ i = omega arith in
    let found : bit_and b (1 * 2 ^ i) ≡ b / 2 ^ i % 2 * 2 ^ i = bit_and-high i 1 b in
    test (2 ^ i) (b / 2 ^ i % 2) (bit_and b (2 ^ i)) (one-le-two_pow i) (omega arith)
      (rw mask at found)
  where
    test : (p d x : ℕ) → 1 ≤ p → d < 2 → x ≡ d * p → not (x == 0) ≡ (d == 1)
    test p zero x h k e = let z : x ≡ 0 = omega arith in ground arith
    test p (suc zero) x h k e = let z : x ≡ p = omega arith in ground arith
    test p (suc (suc d)) x h k e = absurd (omega arith)

-- Taking in bit `i` leaves the bits from `i` on.
bits_taken :
    (b i acc : ℕ)
    → acc ≡ b / 2 ^ suc i * 2 ^ suc i
    → (if bit_of b i then bit_or acc (2 ^ i) else acc) ≡ b / 2 ^ i * 2 ^ i
bits_taken b i acc e =
    let halves : b / 2 ^ suc i ≡ b / 2 ^ i / 2 =
      ap (λ x. b / x) pow-succ ∙ sym (div-div-eq-div-mul b (2 ^ i) 2) in
    let top : acc ≡ b / 2 ^ i / 2 * (2 * 2 ^ i) =
      e ∙ ap (λ x. x * 2 ^ suc i) halves ∙ ap (λ x. b / 2 ^ i / 2 * x) (pow-succ' 2 i) in
    let add =
      bit_or-fields (suc i) (b / 2 ^ suc i) (2 ^ i)
        (omega (arith, pow-succ' 2 i, one-le-two_pow i)) in
    rw (bit_of_lem b i) (elim (Bool-cases (b / 2 ^ i % 2 == 1)) [
      | inl one ↦ rw one (
          ap (λ x. bit_or x (2 ^ i)) e
          ∙ add
          ∙ ap (λ x. x + 2 ^ i) (sym e ∙ top)
          ∙ with_bit (2 ^ i) (b / 2 ^ i) (b / 2 ^ i / 2) (ground arith))
      | inr none_set ↦
          rw none_set (top ∙ without_bit (2 ^ i) (b / 2 ^ i) (b / 2 ^ i / 2) (ground arith))
    ])
  where
    pow-succ : 2 ^ suc i ≡ 2 ^ i * 2
    pow-succ = omega (arith, pow-succ' 2 i)

    with_bit : (p d q : ℕ) → d ≡ 2 * q + 1 → q * (2 * p) + p ≡ d * p
    with_bit p d q h = rw h (grind arith)

    without_bit : (p d q : ℕ) → d ≡ 2 * q → q * (2 * p) ≡ d * p
    without_bit p d q h = rw h (grind arith)

recv_none : (acc b : ℕ) (s : List Level) → acc ≡ b → comm_slave_recv_byte 0 acc s ≡ some (b, s)
unfolding comm_slave_recv_byte
recv_none acc b s e = rw e refl

-- With the bits above `i` taken in, and some low samples left of the bit before.
pub recv_from :
    (pace : ℕ → Pace) (b i acc n : ℕ) (c : Bool) (later : List Level)
    → ((j : ℕ) → IsSlow (pace j))
    → acc ≡ b / 2 ^ i * 2 ^ i
    → (m : ℕ) × ((d : Bool) × (comm_slave_recv_byte i acc (
            replicate n (record { sclk = false; mosi = c }) ++ comm_master_send_byte pace b i later)
          ≡ some (b, replicate m (record { sclk = false; mosi = d }) ++ later)))
unfolding comm_master_send_byte
recv_from pace b zero acc n c later slow e =
    let done : acc ≡ b = e ∙ omega arith in (n, (c, recv_none acc b _ done))
recv_from pace b (suc i) acc n c later slow e =
    let rest = comm_master_send_byte pace b i later in
    let (m, (d, r)) =
      recv_from pace b i (if bit_of b i then bit_or acc (2 ^ i) else acc) ((pace i).down - 1)
        (bit_of b i) later slow (bits_taken b i acc e) in
    (
      m,
      (
        d,
        recv_early n i acc c (send_bit (pace i) (bit_of b i) rest)
            ∙ recv_bit (pace i) (bit_of b i) i acc rest (slow i)
            ∙ r,
      ),
    )
