-- ===== src/Base/Xor.antt =====
-- `^` is commutative and associative, and its digits are those of the sum without carries.
use pi3_distributed_llm_infe.Base.{
  ℕ, zero, suc, ◌+◌, ◌*◌, ◌/◌, ◌%◌, ◌^◌, ◌≤◌, ◌<◌, ◌≡◌, refl, ◌∙◌, arith, bit_xor, bit_or,
}
use pi3_distributed_llm_infe.Base.Bits.{xor_digit, or_digit, bit_xor-zero, bit_or-fields}
use native.Mathlib.Nat.{pow-succ', mul-one, div-one, div-div-eq-div-mul}

pub bit_xor-half : (a b : ℕ) → bit_xor a b / 2 ≡ bit_xor (a / 2) (b / 2)
bit_xor-half a b = omega (arith, xor_digit a b)

pub bit_xor-parity : (a b : ℕ) → bit_xor a b % 2 ≡ (a + b) % 2
bit_xor-parity a b = omega (arith, xor_digit a b)

comm_upto : (n a b : ℕ) → a + b ≤ n → bit_xor a b ≡ bit_xor b a
comm_upto n zero zero h = refl
comm_upto zero (suc a) b h = absurd (omega arith)
comm_upto zero zero (suc b) h = absurd (omega arith)
comm_upto (suc n) a b h =
    omega (arith, xor_digit a b, xor_digit b a, comm_upto n (a / 2) (b / 2) (omega arith))

pub bit_xor_comm : (a b : ℕ) → bit_xor a b ≡ bit_xor b a
bit_xor_comm a b = comm_upto (a + b) a b (omega arith)

assoc_upto : (n a b c : ℕ) → a + b + c ≤ n → bit_xor (bit_xor a b) c ≡ bit_xor a (bit_xor b c)
assoc_upto n zero zero zero h = refl
assoc_upto zero (suc a) b c h = absurd (omega arith)
assoc_upto zero zero (suc b) c h = absurd (omega arith)
assoc_upto zero zero zero (suc c) h = absurd (omega arith)
assoc_upto (suc n) a b c h =
    let ih = assoc_upto n (a / 2) (b / 2) (c / 2) (omega arith) in
    let left = xor_digit (bit_xor a b) c in
    let right = xor_digit a (bit_xor b c) in
    omega (
      arith,
      bit_xor-parity a b,
      bit_xor-parity b c,
      rw (bit_xor-half a b) at left,
      rw (bit_xor-half b c) at right,
      ih,
    )

pub bit_xor_assoc : (a b c : ℕ) → bit_xor (bit_xor a b) c ≡ bit_xor a (bit_xor b c)
bit_xor_assoc a b c = assoc_upto (a + b + c) a b c (omega arith)

-- Fields side by side: `(q << k) ^ r` is a sum where `r` has `k` bits.
pub bit_xor-fields : (k q r : ℕ) → r < 2 ^ k → bit_xor (q * 2 ^ k) r ≡ q * 2 ^ k + r
bit_xor-fields zero q r h =
    let e : r ≡ 0 = omega arith in rw (e, mul-one) (omega (arith, bit_xor-zero q))
bit_xor-fields (suc k) q r h =
    rw (pow-succ' 2 k) (side (2 ^ k) (bit_xor-fields k q (r / 2) (omega (arith, pow-succ' 2 k))))
  where
    side :
        (p : ℕ)
        → bit_xor (q * p) (r / 2) ≡ q * p + r / 2
        → bit_xor (q * (2 * p)) r ≡ q * (2 * p) + r
    side p ih =
        let e : q * (2 * p) / 2 ≡ q * p = omega arith in
        let step = xor_digit (q * (2 * p)) r in omega (arith, rw e at step, ih)

or_comm_upto : (n a b : ℕ) → a + b ≤ n → bit_or a b ≡ bit_or b a
or_comm_upto n zero zero h = refl
or_comm_upto zero (suc a) b h = absurd (omega arith)
or_comm_upto zero zero (suc b) h = absurd (omega arith)
or_comm_upto (suc n) a b h =
    omega (arith, or_digit a b, or_digit b a, or_comm_upto n (a / 2) (b / 2) (omega arith))

pub bit_or_comm : (a b : ℕ) → bit_or a b ≡ bit_or b a
bit_or_comm a b = or_comm_upto (a + b) a b (omega arith)

-- The high digits of `^` are those of the operands' high digits.
pub bit_xor-div : (k a b : ℕ) → bit_xor a b / 2 ^ k ≡ bit_xor (a / 2 ^ k) (b / 2 ^ k)
bit_xor-div zero a b = simp div-one
bit_xor-div (suc k) a b =
    rw
      (
        pow-succ' 2 k,
        ← div-div-eq-div-mul (bit_xor a b) 2 (2 ^ k),
        ← div-div-eq-div-mul a 2 (2 ^ k),
        ← div-div-eq-div-mul b 2 (2 ^ k),
        bit_xor-half a b,
      )
      (bit_xor-div k (a / 2) (b / 2))

-- A field put above what a word has so far.
pub bit_or-add_field : (k x b : ℕ) → x < 2 ^ k → bit_or x (b * 2 ^ k) ≡ b * 2 ^ k + x
bit_or-add_field k x b h = bit_or_comm x (b * 2 ^ k) ∙ bit_or-fields k b x h
