-- ===== src/Base/Bits/Digit.antt =====
-- The native bit operations recur on a count of digits. Any count that is large enough gives the
-- same number, so each operation obeys one equation for the lowest digit.
use Prim.Native.Nat.{digits, differ, bit_and-bitwise, bit_or-bitwise, bit_xor-bitwise}
use pi3_distributed_llm_infe.Base.{
  ℕ, zero, suc, ◌+◌, ◌*◌, ◌/◌, ◌%◌, ◌≤◌, ◌<◌, min, max, bit_and, bit_or, bit_xor, ◌≡◌, refl, arith,
}

module _ (last : ℕ → ℕ) (op : ℕ → ℕ → ℕ) where
  count_free : (c d x y : ℕ) → x ≤ c → x ≤ d → digits last op c x y ≡ digits last op d x y
  count_free zero zero zero y hc hd = refl
  count_free zero (suc d) zero y hc hd = refl
  count_free (suc c) zero zero y hc hd = refl
  count_free (suc c) (suc d) zero y hc hd = refl
  count_free zero d (suc x) y hc hd = absurd (omega arith)
  count_free (suc c) zero (suc x) y hc hd = absurd (omega arith)
  count_free (suc c) (suc d) (suc x) y hc hd =
      omega (arith, count_free c d (suc x / 2) (y / 2) (omega arith) (omega arith))

  -- `last` is what is left when the first number has no more digits.
  lowest_digit :
      ((y : ℕ) → last y ≡ last (y / 2) * 2 + op 0 (y % 2))
      → (x y : ℕ)
      → digits last op x x y ≡ digits last op (x / 2) (x / 2) (y / 2) * 2 + op (x % 2) (y % 2)
  lowest_digit h zero y = h y
  lowest_digit h (suc x) y =
      omega (arith, count_free x (suc x / 2) (suc x / 2) (y / 2) (omega arith) (omega arith))

pub and_digit : (x y : ℕ) → bit_and x y ≡ bit_and (x / 2) (y / 2) * 2 + min (x % 2) (y % 2)
and_digit x y = simp bit_and-bitwise (lowest_digit (λ b. 0) min (λ b. omega arith) x y)

pub or_digit : (x y : ℕ) → bit_or x y ≡ bit_or (x / 2) (y / 2) * 2 + max (x % 2) (y % 2)
or_digit x y = simp bit_or-bitwise (lowest_digit (λ b. b) max (λ b. omega arith) x y)

-- The digit of `^` is the parity of the sum.
xor_of_bits : (x y : ℕ) → x < 2 → y < 2 → differ x y ≡ (x + y) % 2
xor_of_bits zero zero hx hy = refl
xor_of_bits zero (suc zero) hx hy = refl
xor_of_bits (suc zero) zero hx hy = refl
xor_of_bits (suc zero) (suc zero) hx hy = refl
xor_of_bits zero (suc (suc y)) hx hy = absurd (omega arith)
xor_of_bits (suc zero) (suc (suc y)) hx hy = absurd (omega arith)
xor_of_bits (suc (suc x)) y hx hy = absurd (omega arith)

pub xor_digit : (x y : ℕ) → bit_xor x y ≡ bit_xor (x / 2) (y / 2) * 2 + (x + y) % 2
xor_digit x y =
    let e = xor_of_bits (x % 2) (y % 2) (omega arith) (omega arith) in
    let step : bit_xor x y ≡ bit_xor (x / 2) (y / 2) * 2 + differ (x % 2) (y % 2) =
      simp bit_xor-bitwise (
        lowest_digit (λ b. b) differ
          (λ b. omega (arith, xor_of_bits 0 (b % 2) (omega arith) (omega arith))) x y) in
    omega (arith, step, e)
