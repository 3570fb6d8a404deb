-- ===== src/Libc/Printk/Number.antt =====
-- `emit_val` writes every number in its base, and the number can be read back.
use native.Mathlib.Nat.{pow-succ'}
use pi3_distributed_llm_infe.Base.{
  ℕ, zero, suc, ◌+◌, ◌-◌, ◌*◌, ◌/◌, ◌%◌, ◌^◌, ◌≡◌, ◌<◌, ◌≤◌, refl, sym, ◌∙◌, arith, List, [], ◌∷◌,
  some, ◌==◌, ltb, if◌then◌else◌, ◌⊎◌, inl, inr, Bool-cases, u32, ap,
}
use pi3_distributed_llm_infe.Libc.Printk.{digit, emit_loop, emit_val, emit_int}

-- The value of a digit, and of a text of digits after a text of value `acc`.
unfoldable pub digit_value : ℕ → ℕ
digit_value c = if ltb c 58 then c - 48 else c - 87

unfoldable pub value_from : ℕ → ℕ → List ℕ → ℕ
unfolding digit_value
value_from base acc [] = acc
value_from base acc (c ∷ cs) = value_from base (acc * base + digit_value c) cs

digit_value-digit : (d : ℕ) → d < 16 → digit_value (digit d) ≡ d
unfolding digit_value digit
digit_value-digit d h = ground arith

module _ (base : ℕ) (whole : (u : ℕ) → u / base * base + u % base ≡ u)
    (half : (u : ℕ) → u / base ≤ u / 2) (small : (u : ℕ) → u % base < 16) where
  -- One round takes the last digit off the number and puts it in front of the text.
  value_step :
      (u : ℕ) (num : List ℕ)
      → value_from base (u / base) (digit (u % base) ∷ num) ≡ value_from base u num
  unfolding value_from
  value_step u num =
      ap (λ x. value_from base x num)
        (ap (λ x. u / base * base + x) (digit_value-digit (u % base) (small u)) ∙ whole u)

  loop_lem :
      (fuel u : ℕ) (num : List ℕ)
      → u < 2 ^ fuel
      → 0 < fuel
      → (text : List ℕ) × (emit_loop fuel base u num ≡ some text)
        × (value_from base 0 text ≡ value_from base u num)
  unfolding emit_loop
  loop_lem zero u num s f = absurd (omega arith)
  loop_lem (suc fuel) u num s f = elim (Bool-cases (u / base == 0)) [
    | inl last ↦
        let none_left : u / base ≡ 0 = ground arith in
        (
          digit (u % base) ∷ num,
          rw last refl,
          ap (λ x. value_from base x (digit (u % base) ∷ num)) (sym none_left) ∙ value_step u num,
        )
    | inr more ↦
        let half_u = half u in
        let pow = pow-succ' 2 fuel in
        let nonzero : 0 < u / base = ground arith in
        let low : u / base < 2 ^ fuel = omega arith in
        let some_left : 0 < fuel = positive fuel (u / base) nonzero low in
        let (text, e, v) = loop_lem fuel (u / base) (digit (u % base) ∷ num) low some_left in
        (text, rw more e, v ∙ value_step u num)
  ]
    where
      positive : (k n : ℕ) → 0 < n → n < 2 ^ k → 0 < k
      positive zero n h l = absurd (omega arith)
      positive (suc k) n h l = omega arith

-- In each of the three bases, a number of 32 bits fits in the 33 cells of the buffer, and what
-- `emit_val` writes for it reads back as that number.
pub emit_val_lem :
    (base u : ℕ)
    → (base ≡ 2) ⊎ ((base ≡ 10) ⊎ (base ≡ 16))
    → u < 2 ^ 32
    → (text : List ℕ) × (emit_val base u ≡ some text) × (value_from base 0 text ≡ u)
unfolding emit_val value_from
emit_val_lem base u (inl e) h = rw e (
    loop_lem 2 (λ v. omega arith) (λ v. omega arith) (λ v. omega arith) 33 u [] (omega arith)
      (omega arith))
emit_val_lem base u (inr (inl e)) h = rw e (
    loop_lem 10 (λ v. omega arith) (λ v. omega arith) (λ v. omega arith) 33 u [] (omega arith)
      (omega arith))
emit_val_lem base u (inr (inr e)) h = rw e (
    loop_lem 16 (λ v. omega arith) (λ v. omega arith) (λ v. omega arith) 33 u [] (omega arith)
      (omega arith))

-- The text that `%d` writes is that of the number with the sign taken off, behind a '-' for the
-- negative ones, for every `int`: the least one, whose negation wraps, is written right too.
emit_int_lem :
    (v : ℕ)
    → v < 2 ^ 32
    → ((v < 2 ^ 31) × ((text : List ℕ) × (emit_int v ≡ some text) × (value_from 10 0 text ≡ v)))
      ⊎ ((2 ^ 31 ≤ v)
          × ((text : List ℕ) × (emit_int v ≡ some (45 ∷ text))
              × (value_from 10 0 text + v ≡ 2 ^ 32)))
unfolding emit_int
emit_int_lem v h = elim (Bool-cases (ltb v (2 ^ 31))) [
  | inl low ↦
      let (text, e, r) = emit_val_lem 10 v (inr (inl refl)) h in
      inl (ground arith, (text, rw low e, r))
  | inr high ↦
      let up : 2 ^ 31 ≤ v = ground arith in
      let (text, e, r) = emit_val_lem 10 (u32 (2 ^ 32 - v)) (inr (inl refl)) (omega arith) in
      inr (up, (text, rw (high, e) refl, omega (arith, r)))
]
