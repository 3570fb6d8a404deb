-- ===== src/Libc/Kmalloc/Words.antt =====
-- The roundings of the allocators as arithmetic.
use native.Mathlib.Nat.{mod-eq_of_lt, div-lt_iff_lt-mul}
use pi3_distributed_llm_infe.Base.{
  ℕ, zero, suc, ◌+◌, ◌-◌, ◌*◌, ◌/◌, ◌^◌, ◌≤◌, ◌<◌, ◌≡◌, sym, ◌∙◌, ap, arith, u32, not32,
}
use pi3_distributed_llm_infe.Base.Bits.{bit_and-high, pow-add, one-le-two_pow}
use pi3_distributed_llm_infe.Libc.Kmalloc.{round4, round_up}

-- The next multiple of 4, where the addition does not wrap.
pub round4_lem : (n : ℕ) → n + 3 < 2 ^ 32 → round4 n ≡ (n + 3) / 4 * 4
unfolding round4
round4_lem n h = omega (arith, bit_and-high 2 30 (u32 (n + 3)))

-- Within 3 of the top of the range the addition wraps, and the rounded size is 0.
pub round4_wraps : (n : ℕ) → 2 ^ 32 ≤ n + 3 → n < 2 ^ 32 → round4 n ≡ 0
unfolding round4
round4_wraps n h k = omega (arith, bit_and-high 2 30 (u32 (n + 3)))

-- `~(p - 1)` on 32 bits, for a divisor `p` of 2 ^ 32.
mask_lem : (p q : ℕ) → 1 ≤ p → p * q ≡ 2 ^ 32 → not32 (u32 (p + 2 ^ 32 - 1)) ≡ (q - 1) * p
mask_lem p zero h e = absurd (omega arith)
mask_lem p (suc m) h e =
    let d : suc m - 1 ≡ m = omega arith in
    rw d (let e' : p * m + p ≡ 2 ^ 32 = omega arith in omega arith)

-- The next multiple of a power of two, where the addition does not wrap.
pub round_up_lem :
    (x k w : ℕ)
    → k + w ≡ 32
    → x + 2 ^ k < 2 ^ 32 + 1
    → round_up x (2 ^ k) ≡ (x + 2 ^ k - 1) / 2 ^ k * 2 ^ k
unfolding round_up
round_up_lem x k w e h = rw (sum, mask, bit_and-high k w (x + 2 ^ k - 1), mod-eq_of_lt few)
  where
    whole : 2 ^ k * 2 ^ w ≡ 2 ^ 32
    whole = sym (pow-add 2 k w) ∙ ap (λ (t : ℕ). 2 ^ t) e

    sum : u32 (x + 2 ^ k + 2 ^ 32 - 1) ≡ x + 2 ^ k - 1
    sum = omega (arith, one-le-two_pow k)

    mask : not32 (u32 (2 ^ k + 2 ^ 32 - 1)) ≡ (2 ^ w - 1) * 2 ^ k
    mask = mask_lem (2 ^ k) (2 ^ w) (one-le-two_pow k) whole

    few : (x + 2 ^ k - 1) / 2 ^ k < 2 ^ w
    few =
        (div-lt_iff_lt-mul {k = 2 ^ k} {x = x + 2 ^ k - 1} {y = 2 ^ w} (one-le-two_pow k)).1
          (omega (arith, whole, one-le-two_pow k))
