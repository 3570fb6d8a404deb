-- ===== src/Base/Int.antt =====
-- The `int` results of C comparisons and status codes, as signed integers.
use pi3_distributed_llm_infe.Base.{
  ℕ, suc, ◌-◌, ◌≡◌, Bool, true, false, ltb, leb, if◌then◌else◌, arith,
}

-- `negsuc n` is -(n + 1).
pub data ℤ : Type 0 where
  pos : ℕ → ℤ
  negsuc : ℕ → ℤ

-- a - b, as an integer.
abbrev pub sub_ℕ : ℕ → ℕ → ℤ
sub_ℕ a b = if leb b a then pos (a - b) else negsuc (b - a - 1)

-- `z < 0` and `z > 0`
abbrev pub is_neg : ℤ → Bool
is_neg (pos n) = false
is_neg (negsuc n) = true

abbrev pub is_pos : ℤ → Bool
is_pos (pos ℕ.zero) = false
is_pos (pos (suc n)) = true
is_pos (negsuc n) = false

pub is_pos-sub_ℕ : (a b : ℕ) → is_pos (sub_ℕ a b) ≡ ltb b a
is_pos-sub_ℕ a b = ground arith

pub is_neg-sub_ℕ : (a b : ℕ) → is_neg (sub_ℕ a b) ≡ ltb a b
is_neg-sub_ℕ a b = ground arith
