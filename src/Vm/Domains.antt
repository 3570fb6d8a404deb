-- ===== src/Vm/Domains.antt =====
-- The domain register that `dom_perm` computes, two bits to a domain.
use native.Mathlib.Nat.{
  div-div-eq-div-mul, mul-le-mul_left, mul-le-mul_right, pow-suc, pow-succ', mul_comm,
}
use pi3_distributed_llm_infe.Base.{
  ℕ, zero, suc, ◌+◌, ◌-◌, ◌*◌, ◌/◌, ◌%◌, ◌^◌, ◌≤◌, ◌<◌, ◌≡◌, ◌≢◌, sym, ap, ◌∙◌, arith, true, false,
  not, some, bit_and, bit_or, u32, ◌<<<◌, leb, ◌==◌, if◌then◌else◌, Bool-cases, inl, inr,
}
use pi3_distributed_llm_infe.Base.Bits.{bit_and-high, pow-add, one-le-two_pow}
use pi3_distributed_llm_infe.Base.Xor.{bit_or-add_field}
use pi3_distributed_llm_infe.Vm.Procmap.{dom_perm_loop, dom_perm}

-- `1 << 2 * i`
abbrev place : ℕ → ℕ
place i = 2 ^ (i * 2)

place-suc : (i : ℕ) → place (suc i) ≡ place i * 4
place-suc i = let e : suc i * 2 ≡ i * 2 + 2 = omega arith in ap (λ n. 2 ^ n) e ∙ pow-add 2 (i * 2) 2

-- What the register has for a domain.
abbrev pub domain_field : ℕ → ℕ → ℕ
domain_field register i = register / 2 ^ (i * 2) % 4

-- The register of the domains `d` from a given one on.
fields : ℕ → ℕ → ℕ → ℕ
fields zero d perm = 0
fields (suc left) d perm = d % 2 * perm + fields left (d / 2) perm * 4

place_fits : (i : ℕ) → i < 16 → place i * 4 ≤ 2 ^ 32
place_fits i h =
    let e : suc i * 2 + (30 - i * 2) ≡ 32 = omega arith in
    let top : 2 ^ (suc i * 2 + (30 - i * 2)) ≡ 2 ^ 32 = ap (λ n. 2 ^ n) e in
    let more = mul-le-mul_left (place (suc i)) (one-le-two_pow (30 - i * 2)) in
    omega (arith, top, place-suc i, more, pow-add 2 (suc i * 2) (30 - i * 2))

-- One round.
put_domain :
    (i doms perm mask : ℕ)
    → perm < 4
    → i < 16
    → mask < place i
    → (if not (bit_and doms (1 <<< i) == 0) then bit_or mask (u32 (perm <<< (i * 2))) else mask)
      ≡ mask + doms / 2 ^ i % 2 * perm * place i
put_domain i doms perm mask hp hi hm =
    let low : perm * place i ≤ 3 * place i = mul-le-mul_right (place i) (omega arith) in
    let uncut : u32 (perm * place i) ≡ perm * place i = omega (arith, low, place_fits i hi) in
    let bit : bit_and doms (1 * 2 ^ i) ≡ doms / 2 ^ i % 2 * 2 ^ i = bit_and-high i 1 doms in
    let join : bit_or mask (perm * place i) ≡ perm * place i + mask =
      bit_or-add_field (i * 2) mask perm hm in
    elim (Bool-cases (doms / 2 ^ i % 2 == 0)) [
      | inl off ↦
          let z : doms / 2 ^ i % 2 ≡ 0 = ground arith in
          let still : (0 * 2 ^ i == 0) ≡ true = ground arith in rw (bit, z, still) (omega arith)
      | inr on ↦
          let o : doms / 2 ^ i % 2 ≡ 1 = ground arith in
          let some_bit : (1 * 2 ^ i == 0) ≡ false = ground (arith, one-le-two_pow i) in
          rw (bit, o, some_bit, uncut, join) (omega arith)
    ]

at_most_perm : (d perm : ℕ) → d < 2 → perm < 4 → d * perm ≤ 3
at_most_perm zero perm h hp = omega arith
at_most_perm (suc zero) perm h hp = omega arith
at_most_perm (suc (suc d)) perm h hp = absurd (omega arith)

dom_perm_loop-fields :
    (left i doms perm mask : ℕ)
    → perm < 4
    → left + i ≡ 16
    → mask < place i
    → dom_perm_loop left i doms perm mask ≡ mask + fields left (doms / 2 ^ i) perm * place i
unfolding dom_perm_loop fields
dom_perm_loop-fields zero i doms perm mask hp hi hm = omega arith
dom_perm_loop-fields (suc left) i doms perm mask hp hi hm =
    let d = doms / 2 ^ i % 2 in
    let small : d * perm ≤ 3 = at_most_perm d perm (omega arith) hp in
    let low : d * perm * place i ≤ 3 * place i = mul-le-mul_right (place i) small in
    let half : doms / 2 ^ suc i ≡ doms / 2 ^ i / 2 =
      ap (λ p. doms / p) (pow-suc 2 i) ∙ sym (div-div-eq-div-mul doms (2 ^ i) 2) in
    let now = mask + d * perm * place i in
    rw (put_domain i doms perm mask hp (omega arith) hm) (
      dom_perm_loop-fields left (suc i) doms perm (mask + d * perm * place i) hp (omega arith)
        (omega (arith, low, place-suc i))
      ∙ ap (λ x. now + fields left x perm * place (suc i)) half
      ∙ ap (λ p. now + fields left (doms / 2 ^ i / 2) perm * p) (place-suc i)
      ∙ omega arith)

fields-domain_field :
    (left j d perm : ℕ)
    → perm < 4
    → j < left
    → domain_field (fields left d perm) j ≡ d / 2 ^ j % 2 * perm
unfolding fields
fields-domain_field zero j d perm hp h = absurd (omega arith)
fields-domain_field (suc left) zero d perm hp h =
    let small : d % 2 * perm ≤ 3 = at_most_perm (d % 2) perm (omega arith) hp in
    let whole : d / 1 ≡ d = omega arith in rw whole (omega (arith, small))
fields-domain_field (suc left) (suc j) d perm hp h =
    let small : d % 2 * perm ≤ 3 = at_most_perm (d % 2) perm (omega arith) hp in
    let rest = fields left (d / 2) perm in
    let tail : (d % 2 * perm + rest * 4) / 4 ≡ rest = omega (arith, small) in
    ap (λ p. (d % 2 * perm + rest * 4) / p % 4) (place-suc j ∙ mul_comm (place j) 4)
    ∙ ap (λ x. x % 4) (sym (div-div-eq-div-mul (d % 2 * perm + rest * 4) 4 (place j)))
    ∙ ap (λ x. x / place j % 4) tail
    ∙ fields-domain_field left j (d / 2) perm hp (omega arith)
    ∙ ap (λ x. x % 2 * perm)
        (div-div-eq-div-mul d 2 (2 ^ j) ∙ ap (λ p. d / p) (sym (pow-succ' 2 j)))

-- All fields of the register at once.
pub dom_perm_every :
    (doms perm : ℕ)
    → doms ≢ 0
    → doms < 2 ^ 16
    → perm ≤ 3
    → (r : ℕ) × (dom_perm doms perm ≡ some r)
      × ((j : ℕ) → j < 16 → domain_field r j ≡ (if doms / 2 ^ j % 2 == 1 then perm else 0))
unfolding dom_perm
dom_perm_every doms perm used small legal =
    let any : (doms == 0) ≡ false = ground arith in
    let high : (doms / 2 ^ 16 == 0) ≡ true = ground arith in
    let perm_legal : leb perm 3 ≡ true = ground arith in
    let loop = dom_perm_loop-fields 16 0 doms perm 0 (omega arith) (omega arith) (omega arith) in
    let whole : doms / 2 ^ 0 ≡ doms = omega arith in
    let r : dom_perm_loop 16 0 doms perm 0 ≡ fields 16 doms perm = loop ∙ rw whole (omega arith) in
    (
      fields 16 doms perm,
      rw (any, high, perm_legal) (ap some r),
      λ j hj.
          fields-domain_field 16 j doms perm (omega arith) hj
          ∙ chosen (doms / 2 ^ j % 2) (omega arith),
    )
  where
    chosen : (d : ℕ) → d < 2 → d * perm ≡ (if d == 1 then perm else 0)
    chosen zero h = omega arith
    chosen (suc zero) h = omega arith
    chosen (suc (suc d)) h = absurd (omega arith)

-- The register of a legal set of domains has the permission for each domain of the set, and no access
-- for any other.
pub dom_perm_lem :
    (doms perm j : ℕ)
    → doms ≢ 0
    → doms < 2 ^ 16
    → perm ≤ 3
    → j < 16
    → (r : ℕ) × (dom_perm doms perm ≡ some r)
      × (domain_field r j ≡ (if doms / 2 ^ j % 2 == 1 then perm else 0))
dom_perm_lem doms perm j used small legal hj =
    let (r, e, all) = dom_perm_every doms perm used small legal in (r, e, all j hj)
