-- ===== src/Infer/Sampler/Random.antt =====
-- The state of `random_u32` never gets stuck.
use pi3_distributed_llm_infe.Base.{
  ℕ, zero, suc, ◌/◌, ◌^◌, ◌<◌, ◌≤◌, ◌≡◌, ◌≢◌, refl, sym, ◌∙◌, arith, bit_xor, u64, ap, ◌<<<◌, ◌>>>◌,
}
use pi3_distributed_llm_infe.Base.Bits.{bit_xor_undo, bit_xor-lt, xor_digit}
use pi3_distributed_llm_infe.Infer.Sampler.{xorshift, random_u32}

zero_xor : (n b : ℕ) → b ≤ n → bit_xor 0 b ≡ b
zero_xor n zero h = refl
zero_xor zero (suc b) h = absurd (omega arith)
zero_xor (suc n) (suc b) h =
    omega (arith, xor_digit 0 (suc b), zero_xor n (suc b / 2) (omega arith))

-- An exclusive or is 0 between equal numbers only.
eq_of_bit_xor : (a b : ℕ) → bit_xor a b ≡ 0 → a ≡ b
eq_of_bit_xor a b h = sym (bit_xor_undo a b) ∙ ap (λ x. bit_xor x b) h ∙ zero_xor b b (omega arith)

-- From a state of 64 bits that is not 0, the next state is one of 64 bits that is not 0, and the
-- number drawn has 32 bits.
random_u32_lem :
    (state : ℕ)
    → state ≢ 0
    → state < 2 ^ 64
    → ((random_u32 state).0 ≢ 0) × ((random_u32 state).0 < 2 ^ 64) × ((random_u32 state).1 < 2 ^ 32)
unfolding random_u32 xorshift
random_u32_lem state h small =
    let s1 = bit_xor state (state >>> 12) in
    let s2 = bit_xor s1 (u64 (s1 <<< 25)) in
    let small1 : s1 < 2 ^ 64 = bit_xor-lt 64 state (state >>> 12) small (omega arith) in
    let small2 : s2 < 2 ^ 64 = bit_xor-lt 64 s1 (u64 (s1 <<< 25)) small1 (omega arith) in
    let small3 : bit_xor s2 (s2 >>> 27) < 2 ^ 64 =
      bit_xor-lt 64 s2 (s2 >>> 27) small2 (omega arith) in
    let nz1 : s1 ≢ 0 = λ e. h (omega (arith, eq_of_bit_xor state (state >>> 12) e)) in
    let nz2 : s2 ≢ 0 = λ e. nz1 (omega (arith, eq_of_bit_xor s1 (u64 (s1 <<< 25)) e)) in
    let nz3 : bit_xor s2 (s2 >>> 27) ≢ 0 =
      λ e. nz2 (omega (arith, eq_of_bit_xor s2 (s2 >>> 27) e)) in
    (nz3, small3, omega arith)
