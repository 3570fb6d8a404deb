-- ===== src/Gpio/Word.antt =====
-- The change of three bits of a word.
use pi3_distributed_llm_infe.Base.{
  ℕ, zero, suc, ◌+◌, ◌-◌, ◌*◌, ◌/◌, ◌%◌, ◌^◌, ◌≤◌, ◌<◌, ◌≡◌, refl, sym, ap, ◌∙◌, arith, bit_and,
  bit_or, not32,
}
use native.Mathlib.Nat.{
  pow-succ', div-div-eq-div-mul, div-add-mod', mod-lt, mul-le-mul_left, mul-add-div_right,
  div-eq_of_lt,
}
use pi3_distributed_llm_infe.Base.Bits.{
  and_digit, or_digit, bit_and-high, bit_or-fields, pow-add, one-le-two_pow,
}

-- `x & ~m` and `x & m` together are `x`.
and_not : (n v m : ℕ) → v < 2 ^ n → m < 2 ^ n → bit_and v (2 ^ n - 1 - m) + bit_and v m ≡ v
and_not zero v m hv hm =
    let a : v ≡ 0 = omega arith in let b : m ≡ 0 = omega arith in rw (a, b) refl
and_not (suc n) v m hv hm =
    let p = pow-succ' 2 n in
    let half : (2 ^ suc n - 1 - m) / 2 ≡ 2 ^ n - 1 - m / 2 = omega (arith, p) in
    let bit : (2 ^ suc n - 1 - m) % 2 ≡ 1 - m % 2 = omega (arith, p) in
    let left = and_digit v (2 ^ suc n - 1 - m) in
    let right = and_digit v m in
    let ih = and_not n (v / 2) (m / 2) (omega (arith, p)) (omega (arith, p)) in
    omega (arith, rw (half, bit) at left, right, ih)

-- `(q << k | r) | (s << k)`
or_above : (k q s r : ℕ) → r < 2 ^ k → bit_or (q * 2 ^ k + r) (s * 2 ^ k) ≡ bit_or q s * 2 ^ k + r
or_above zero q s r h =
    let z : r ≡ 0 = omega arith in
    let a : q * 1 + 0 ≡ q = omega arith in
    let b : s * 1 ≡ s = omega arith in rw (z, a, b) (omega arith)
or_above (suc k) q s r h =
    rw (pow-succ' 2 k) (side (2 ^ k) (or_above k q s (r / 2) (omega (arith, pow-succ' 2 k))))
  where
    side :
        (p : ℕ)
        → bit_or (q * p + r / 2) (s * p) ≡ bit_or q s * p + r / 2
        → bit_or (q * (2 * p) + r) (s * (2 * p)) ≡ bit_or q s * (2 * p) + r
    side p ih =
        let a : (q * (2 * p) + r) / 2 ≡ q * p + r / 2 = omega arith in
        let b : s * (2 * p) / 2 ≡ s * p = omega arith in
        let step = or_digit (q * (2 * p) + r) (s * (2 * p)) in omega (arith, rw (a, b) at step, ih)

-- The word with `f` in the three bits from bit `k` on.
abbrev pub put_field : ℕ → ℕ → ℕ → ℕ
put_field k f v = (v / 2 ^ k / 8 * 8 + f) * 2 ^ k + v % 2 ^ k

pub put_field_lem :
    (k f v : ℕ)
    → v < 2 ^ 32
    → k ≤ 29
    → f < 8
    → bit_or (bit_and v (not32 (7 * 2 ^ k))) (f * 2 ^ k) ≡ put_field k f v
put_field_lem k f v hv hk hf =
    let p = 2 ^ k in
    let fits : 7 * p < 2 ^ 32 = small k hk in
    let mask : bit_and v (7 * p) ≡ v / p % 8 * p = bit_and-high k 3 v in
    let all = and_not 32 v (7 * p) hv fits in
    let whole = div-add-mod' v p in
    let parts : v / p * p ≡ (v / p / 8 * 8 + v / p % 8) * p = ap (λ d. d * p) (omega arith) in
    let rest : bit_and v (not32 (7 * p)) ≡ v / p / 8 * 8 * p + v % p =
      omega (arith, mask, all, whole, parts) in
    ap (λ x. bit_or x (f * p)) rest
    ∙ or_above k (v / p / 8 * 8) f (v % p) (mod-lt v (one-le-two_pow k))
    ∙ ap (λ x. x * p + v % p) (bit_or-fields 3 (v / p / 8) f hf)
  where
    small : (k : ℕ) → k ≤ 29 → 7 * 2 ^ k < 2 ^ 32
    small k h =
        let e : k + (29 - k) ≡ 29 = omega arith in
        let top : 2 ^ (k + (29 - k)) ≡ 2 ^ 29 = ap (λ n. 2 ^ n) e in
        let split : 2 ^ (k + (29 - k)) ≡ 2 ^ k * 2 ^ (29 - k) = pow-add 2 k (29 - k) in
        let more = mul-le-mul_left (2 ^ k) (one-le-two_pow (29 - k)) in
        omega (arith, top, split, more)

put_field-div : (k f v : ℕ) → put_field k f v / 2 ^ k ≡ v / 2 ^ k / 8 * 8 + f
put_field-div k f v =
    let p = 2 ^ k in
    let none_left : v % p / p ≡ 0 = div-eq_of_lt (mod-lt v (one-le-two_pow k)) in
    mul-add-div_right (one-le-two_pow k) (v / p / 8 * 8 + f) (v % p) ∙ omega (arith, none_left)

-- The field itself, the bits above it, and any three bits below it.
pub put_field_self : (k f v : ℕ) → f < 8 → put_field k f v / 2 ^ k % 8 ≡ f
put_field_self k f v h = ap (λ x. x % 8) (put_field-div k f v) ∙ omega arith

pub put_field_above :
    (k e f v : ℕ) → f < 8 → put_field k f v / 2 ^ (k + 3 + e) ≡ v / 2 ^ (k + 3 + e)
put_field_above k e f v h =
    let x = put_field k f v in
    let same : x / 2 ^ k / 8 ≡ v / 2 ^ k / 8 =
      ap (λ x. x / 8) (put_field-div k f v) ∙ omega arith in
    down x ∙ ap (λ y. y / 2 ^ e) same ∙ sym (down v)
  where
    down : (x : ℕ) → x / 2 ^ (k + 3 + e) ≡ x / 2 ^ k / 8 / 2 ^ e
    down x =
        ap (λ y. x / y) (pow-add 2 (k + 3) e)
        ∙ sym (div-div-eq-div-mul x (2 ^ (k + 3)) (2 ^ e))
        ∙ ap (λ y. x / y / 2 ^ e) (pow-add 2 k 3)
        ∙ ap (λ y. y / 2 ^ e) (sym (div-div-eq-div-mul x (2 ^ k) (2 ^ 3)))

below : (k e m l : ℕ) → (m * 2 ^ (k + 3 + e) + l) / 2 ^ k % 8 ≡ l / 2 ^ k % 8
below k e m l =
    let p = 2 ^ k in
    let q = 2 ^ e in
    let power : 2 ^ (k + 3 + e) ≡ p * 8 * q =
      pow-add 2 (k + 3) e ∙ ap (λ y. y * q) (pow-add 2 k 3) in
    let turned : m * 2 ^ (k + 3 + e) ≡ m * q * 8 * p = ap (λ y. m * y) power ∙ omega arith in
    ap (λ y. (y + l) / p % 8) turned
    ∙ ap (λ y. y % 8) (mul-add-div_right (one-le-two_pow k) (m * q * 8) l)
    ∙ omega arith

pub put_field_below : (k e f v : ℕ) → put_field (k + 3 + e) f v / 2 ^ k % 8 ≡ v / 2 ^ k % 8
put_field_below k e f v =
    let p = 2 ^ (k + 3 + e) in
    below k e (v / p / 8 * 8 + f) (v % p)
    ∙ sym (below k e (v / p) (v % p))
    ∙ ap (λ x. x / 2 ^ k % 8) (div-add-mod' v p)
