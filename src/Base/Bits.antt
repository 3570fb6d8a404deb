-- ===== src/Base/Bits.antt =====
-- `&`, `|` and `^` as arithmetic: masks of low and of high bits, fields side by side, and the
-- involution of `^`. All come from one equation for the lowest binary digit.
mod Digit
pub use Digit.{and_digit, or_digit, xor_digit}
use native.Mathlib.Nat.{
  pow-succ', pow-suc, pow-zero, add-zero, add-suc, one-le-pow, div-add-mod, div-div-eq-div-mul,
  mul-one, div-one,
}
use pi3_distributed_llm_infe.Base.{
  ℕ, zero, suc, ◌+◌, ◌-◌, ◌*◌, ◌/◌, ◌%◌, ◌^◌, ◌≤◌, ◌<◌, bit_and, bit_or, bit_xor, ◌≡◌, refl, sym,
  ap, arith,
}

-- Induction on a bound, since each law goes from `a / 2` to `a`.
and_zero_upto : (n a : ℕ) → a ≤ n → bit_and a 0 ≡ 0
and_zero_upto n zero h = refl
and_zero_upto zero (suc a) h = absurd (omega arith)
and_zero_upto (suc n) (suc a) h =
    omega (arith, and_digit (suc a) 0, and_zero_upto n (suc a / 2) (omega arith))

pub bit_and-zero : (a : ℕ) → bit_and a 0 ≡ 0
bit_and-zero a = and_zero_upto a a (omega arith)

or_zero_upto : (n a : ℕ) → a ≤ n → bit_or a 0 ≡ a
or_zero_upto n zero h = refl
or_zero_upto zero (suc a) h = absurd (omega arith)
or_zero_upto (suc n) (suc a) h =
    omega (arith, or_digit (suc a) 0, or_zero_upto n (suc a / 2) (omega arith))

pub bit_or-zero : (a : ℕ) → bit_or a 0 ≡ a
bit_or-zero a = or_zero_upto a a (omega arith)

pub pow-add : (b m n : ℕ) → b ^ (m + n) ≡ b ^ m * b ^ n
pow-add b m zero = rw (add-zero, pow-zero, mul-one)
pow-add b m (suc n) =
    rw (add-suc, pow-suc, pow-suc) (omega (arith, ap (λ (t : ℕ). t * b) (pow-add b m n)))

pub one-le-two_pow : (k : ℕ) → 1 ≤ 2 ^ k
one-le-two_pow k = one-le-pow k 2 (omega arith)

div_double : (a p : ℕ) → a / (2 * p) ≡ a / 2 / p
div_double a p = sym (div-div-eq-div-mul a 2 p)

mod_double : (a p : ℕ) → a % (2 * p) ≡ a / 2 % p * 2 + a % 2
mod_double a p =
    omega
      (arith, div-add-mod (a / 2) p, div-add-mod a (2 * p), ap (λ (t : ℕ). p * t) (div_double a p))

-- `x & ((1 << k) - 1)` keeps the low `k` bits.
pub bit_and-low : (k a : ℕ) → bit_and a (2 ^ k - 1) ≡ a % 2 ^ k
bit_and-low zero a = omega (arith, bit_and-zero a)
bit_and-low (suc k) a =
    rw (pow-succ' 2 k) (low (2 ^ k) (one-le-pow k 2 (omega arith)) (bit_and-low k (a / 2)))
  where
    low :
        (p : ℕ) → 1 ≤ p → bit_and (a / 2) (p - 1) ≡ a / 2 % p → bit_and a (2 * p - 1) ≡ a % (2 * p)
    low p h ih =
        let e : (2 * p - 1) / 2 ≡ p - 1 = omega arith in
        let step = and_digit a (2 * p - 1) in omega (arith, rw e at step, mod_double a p, ih)

-- `x & ~((1 << k) - 1)` on `w + k` bits clears the low `k` bits.
pub bit_and-high : (k w a : ℕ) → bit_and a ((2 ^ w - 1) * 2 ^ k) ≡ a / 2 ^ k % 2 ^ w * 2 ^ k
bit_and-high zero w a = simp (mul-one, div-one) (bit_and-low w a)
bit_and-high (suc k) w a =
    rw (pow-succ' 2 k) (high (2 ^ w - 1) (2 ^ k) (2 ^ w) (bit_and-high k w (a / 2)))
  where
    high :
        (m p q : ℕ)
        → bit_and (a / 2) (m * p) ≡ a / 2 / p % q * p
        → bit_and a (m * (2 * p)) ≡ a / (2 * p) % q * (2 * p)
    high m p q ih =
        let e : m * (2 * p) / 2 ≡ m * p = omega arith in
        let step = and_digit a (m * (2 * p)) in
        rw (div_double a p) (omega (arith, rw e at step, ih))

-- Fields side by side: `(q << k) | r` is a sum where `r` has `k` bits.
pub bit_or-fields : (k q r : ℕ) → r < 2 ^ k → bit_or (q * 2 ^ k) r ≡ q * 2 ^ k + r
bit_or-fields zero q r h =
    let e : r ≡ 0 = omega arith in rw (e, mul-one) (omega (arith, bit_or-zero q))
bit_or-fields (suc k) q r h =
    rw (pow-succ' 2 k) (side (2 ^ k) (bit_or-fields k q (r / 2) (omega (arith, pow-succ' 2 k))))
  where
    side :
        (p : ℕ) → bit_or (q * p) (r / 2) ≡ q * p + r / 2 → bit_or (q * (2 * p)) r ≡ q * (2 * p) + r
    side p ih =
        let e : q * (2 * p) / 2 ≡ q * p = omega arith in
        let step = or_digit (q * (2 * p)) r in omega (arith, rw e at step, ih)

-- `(x ^ y) ^ y` is `x`.
xor_zero_upto : (n a : ℕ) → a ≤ n → bit_xor a 0 ≡ a
xor_zero_upto n zero h = refl
xor_zero_upto zero (suc a) h = absurd (omega arith)
xor_zero_upto (suc n) (suc a) h =
    omega (arith, xor_digit (suc a) 0, xor_zero_upto n (suc a / 2) (omega arith))

pub bit_xor-zero : (a : ℕ) → bit_xor a 0 ≡ a
bit_xor-zero a = xor_zero_upto a a (omega arith)

xor_undo_upto : (n a b : ℕ) → a + b ≤ n → bit_xor (bit_xor a b) b ≡ a
xor_undo_upto n a zero h = simp bit_xor-zero
xor_undo_upto zero a (suc b) h = absurd (omega arith)
xor_undo_upto (suc n) a (suc b) h =
    let once = xor_digit a (suc b) in
    let twice = xor_digit (bit_xor a (suc b)) (suc b) in
    let half : bit_xor a (suc b) / 2 ≡ bit_xor (a / 2) (suc b / 2) = omega (arith, once) in
    omega (arith, once, rw half at twice, xor_undo_upto n (a / 2) (suc b / 2) (omega arith))

pub bit_xor_undo : (a b : ℕ) → bit_xor (bit_xor a b) b ≡ a
bit_xor_undo a b = xor_undo_upto (a + b) a b (omega arith)

-- `^` stays within the width of its operands.
pub bit_xor-lt : (k a b : ℕ) → a < 2 ^ k → b < 2 ^ k → bit_xor a b < 2 ^ k
bit_xor-lt zero a b ha hb =
    let e : a ≡ 0 = omega arith in let e' : b ≡ 0 = omega arith in rw (e, e') (omega arith)
bit_xor-lt (suc k) a b ha hb = omega (
  arith,
  pow-succ' 2 k,
  xor_digit a b,
  bit_xor-lt k (a / 2) (b / 2) (omega (arith, pow-succ' 2 k)) (omega (arith, pow-succ' 2 k)),
)
