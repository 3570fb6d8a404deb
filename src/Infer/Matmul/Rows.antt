-- ===== src/Infer/Matmul/Rows.antt =====
-- The split of the rows over the cores covers every row.
use pi3_distributed_llm_infe.Base.{
  ℕ, zero, suc, ◌+◌, ◌-◌, ◌≤◌, ◌<◌, ◌≡◌, true, arith, ltb, ◌⊎◌, inl, inr, ◌*◌, ◌/◌, ◌↔◌, Bool-cases,
  ltb→lt,
}
use pi3_distributed_llm_infe.Multicore.Script.{elem}
use pi3_distributed_llm_infe.Infer.Matmul.{matmul_args, rows, rows_of}

rows-elem : (left i j : ℕ) → i ≤ j → j < i + left → elem j (rows left i) ≡ true
unfolding rows
rows-elem zero i j h k = absurd (omega arith)
rows-elem (suc left) i j h k = ground (arith, rows-elem left (i + 1) j)

elem-rows : (left i j : ℕ) → elem j (rows left i) ≡ true → (i ≤ j) × (j < i + left)
unfolding rows
elem-rows zero i j h = cc
elem-rows (suc left) i j h = ground (arith, elem-rows left (i + 1) j)

-- Row `i` belongs to core `c`.
abbrev pub Owns : ℕ → ℕ → ℕ → Type 0
Owns d c i = elem i (rows_of (matmul_args d c)) ≡ true

abbrev chunk_of : ℕ → ℕ
chunk_of d = (d + 4 - 1) / 4

in_chunk : (d c i : ℕ) → i < d → c * chunk_of d ≤ i → i < c * chunk_of d + chunk_of d → Owns d c i
unfolding rows_of matmul_args
in_chunk d c i h low high =
    rows-elem ((matmul_args d c).d_end - (matmul_args d c).d_start) (matmul_args d c).d_start i
      (ground arith) (ground arith)

of_chunk :
    (d c i : ℕ) → Owns d c i → (i < d) × (c * chunk_of d ≤ i) × (i < c * chunk_of d + chunk_of d)
unfolding rows_of matmul_args
of_chunk d c i h =
    let r =
      elem-rows ((matmul_args d c).d_end - (matmul_args d c).d_start) (matmul_args d c).d_start i
        h in
    (ground (arith, r), ground (arith, r), ground (arith, r))

chunk_before : (q b c : ℕ) → b < c → b * q + q ≤ c * q
chunk_before q b c h = grind arith

-- Every one of the `d` rows, and no other, belongs to one of the four cores.
pub matmul_args_cover :
    (d i : ℕ) → (i < d) ↔ (Owns d 0 i ⊎ (Owns d 1 i ⊎ (Owns d 2 i ⊎ Owns d 3 i)))
matmul_args_cover d i = (
  cover,
  λ o. elim o [
    | inl p ↦ (of_chunk d 0 i p).0
    | inr (inl p) ↦ (of_chunk d 1 i p).0
    | inr (inr (inl p)) ↦ (of_chunk d 2 i p).0
    | inr (inr (inr p)) ↦ (of_chunk d 3 i p).0
  ],
)
  where
    cover : i < d → Owns d 0 i ⊎ (Owns d 1 i ⊎ (Owns d 2 i ⊎ Owns d 3 i))
    cover h = elim (Bool-cases (ltb i (chunk_of d))) [
      | inl p ↦ inl (in_chunk d 0 i h (omega arith) (ground arith))
      | inr n0 ↦ elim (Bool-cases (ltb i (2 * chunk_of d))) [
        | inl p ↦ inr (inl (in_chunk d 1 i h (ground arith) (ground arith)))
        | inr n1 ↦ elim (Bool-cases (ltb i (3 * chunk_of d))) [
          | inl p ↦ inr (inr (inl (in_chunk d 2 i h (ground arith) (ground arith))))
          | inr n2 ↦ inr (inr (inr (in_chunk d 3 i h (ground arith) (ground arith))))
        ]
      ]
    ]

-- No row belongs to two cores.
matmul_args_disjoint : (d b c i : ℕ) → Owns d b i → Owns d c i → b ≡ c
matmul_args_disjoint d b c i p q =
    let pb = of_chunk d b i p in
    let pc = of_chunk d c i q in
    elim (Bool-cases (ltb b c)) [
      | inl h ↦ absurd (omega (arith, pb, pc, chunk_before (chunk_of d) b c (ltb→lt b c h)))
      | inr h ↦ elim (Bool-cases (ltb c b)) [
        | inl k ↦ absurd (omega (arith, pb, pc, chunk_before (chunk_of d) c b (ltb→lt c b k)))
        | inr k ↦ ground arith
      ]
    ]
