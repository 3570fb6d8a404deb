-- ===== src/Base/Or.antt =====
-- The bits of `|`.
use pi3_distributed_llm_infe.Base.{
  ℕ, zero, suc, ◌/◌, ◌%◌, ◌^◌, ◌<◌, ◌≡◌, sym, ap, ◌∙◌, arith, bit_or, ◌≤◌, refl, Bool-cases, inl,
  inr, ◌==◌,
}
use pi3_distributed_llm_infe.Base.Bits.{or_digit}
use native.Mathlib.Nat.{pow-succ', div-one, div-div-eq-div-mul}

halves : (j x : ℕ) → x / 2 ^ suc j ≡ x / 2 / 2 ^ j
halves j x = ap (λ p. x / p) (pow-succ' 2 j) ∙ sym (div-div-eq-div-mul x 2 (2 ^ j))

bit_or-div : (j a b : ℕ) → bit_or a b / 2 ^ j ≡ bit_or (a / 2 ^ j) (b / 2 ^ j)
bit_or-div zero a b = simp div-one
bit_or-div (suc j) a b =
    let half : bit_or a b / 2 ≡ bit_or (a / 2) (b / 2) = omega (arith, or_digit a b) in
    rw (halves j (bit_or a b), halves j a, halves j b, half) (bit_or-div j (a / 2) (b / 2))

-- A bit of the result is one of the operands'.
pub bit_or_bit_left : (j a b : ℕ) → a / 2 ^ j % 2 ≡ 1 → bit_or a b / 2 ^ j % 2 ≡ 1
bit_or_bit_left j a b h = rw (bit_or-div j a b) (omega (arith, or_digit (a / 2 ^ j) (b / 2 ^ j)))

pub bit_or_bit_right : (j a b : ℕ) → b / 2 ^ j % 2 ≡ 1 → bit_or a b / 2 ^ j % 2 ≡ 1
bit_or_bit_right j a b h = rw (bit_or-div j a b) (omega (arith, or_digit (a / 2 ^ j) (b / 2 ^ j)))

pub bit_or-lt : (k a b : ℕ) → a < 2 ^ k → b < 2 ^ k → bit_or a b < 2 ^ k
bit_or-lt zero a b ha hb =
    let e : a ≡ 0 = omega arith in let e' : b ≡ 0 = omega arith in rw (e, e') (omega arith)
bit_or-lt (suc k) a b ha hb = omega (
  arith,
  pow-succ' 2 k,
  or_digit a b,
  bit_or-lt k (a / 2) (b / 2) (omega (arith, pow-succ' 2 k)) (omega (arith, pow-succ' 2 k)),
)

self_upto : (n a : ℕ) → a ≤ n → bit_or a a ≡ a
self_upto zero a h = let e : a ≡ 0 = omega arith in rw e refl
self_upto (suc n) a h = elim (Bool-cases (a == 0)) [
  | inl none_set ↦ let e : a ≡ 0 = ground arith in rw e refl
  | inr some_set ↦
      let rest = self_upto n (a / 2) (ground arith) in omega (arith, or_digit a a, rest)
]

pub bit_or_self : (a : ℕ) → bit_or a a ≡ a
bit_or_self a = self_upto a a (omega arith)
