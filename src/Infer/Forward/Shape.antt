-- ===== src/Infer/Forward/Shape.antt =====
-- The sizes of a model that `forward` can run, and what follows for the places it reads and writes.
use native.Mathlib.Nat.{mul-le-mul_right, mul-div_cancel_left, div-lt_iff_lt-mul}
use pi3_distributed_llm_infe.Base.{ℕ, ◌+◌, ◌*◌, ◌/◌, ◌≤◌, ◌<◌, ◌≡◌, ap, ◌∙◌, arith, List, length}
use pi3_distributed_llm_infe.Infer.Float.{Floats}
use pi3_distributed_llm_infe.Infer.Checkpoint.{Config, kv_dim}
use pi3_distributed_llm_infe.Infer.Checkpoint.Tables.{IsConfig, layer_fits, part_fits, kv_dim_lem}
use pi3_distributed_llm_infe.Infer.Forward.Norm.{Maths}
use pi3_distributed_llm_infe.Infer.Forward.Attention.{head_size, kv_mul}
use pi3_distributed_llm_infe.Infer.Forward.Heads.{HasRows}

-- The heads divide the dimension into parts of an even size, and the heads of the caches divide the
-- heads.
pub record IsModel (p : Config) (half mul : ℕ) : Type 0 where
  pub some_layer : 0 < p.n_layers
  pub some_head : 0 < p.n_heads
  pub some_kv_head : 0 < p.n_kv_heads
  pub split : p.dim ≡ p.n_heads * (2 * half)
  pub shared : p.n_heads ≡ p.n_kv_heads * mul

-- The scores of a head up to a position are in their buffer.
pub score_inside :
    (p : Config) (h at : ℕ)
    → h < p.n_heads
    → at < p.seq_len
    → h * p.seq_len + (at + 1) ≤ p.n_heads * p.seq_len
score_inside p h at hh ha = omega (arith, layer_fits h p.n_heads p.seq_len hh)

module _ (p : Config) (half mul : ℕ) (m : IsModel p half mul) where
  pub model-IsConfig : IsConfig p (2 * half)
  model-IsConfig = record { heads = m.some_head; split = m.split }

  pub head_size_lem : head_size p ≡ 2 * half
  head_size_lem = ap (λ d. d / p.n_heads) m.split ∙ mul-div_cancel_left (2 * half) m.some_head

  pub kv_size : kv_dim p ≡ p.n_kv_heads * (2 * half)
  kv_size = kv_dim_lem p (2 * half) model-IsConfig

  kv_mul_lem : kv_mul p ≡ mul
  kv_mul_lem = ap (λ n. n / p.n_kv_heads) m.shared ∙ mul-div_cancel_left mul m.some_kv_head

  pub dim_even : p.dim ≡ 2 * (p.n_heads * half)
  dim_even = omega (arith, m.split)

  pub kv_even : kv_dim p ≡ 2 * (p.n_kv_heads * half)
  kv_even = omega (arith, kv_size)

  some_mul : 0 < mul
  some_mul = grind (arith, m.some_head, m.shared)

  pub kv_dim-le : kv_dim p ≤ p.dim
  kv_dim-le =
      let fewer : p.n_kv_heads ≤ p.n_heads = grind (arith, m.shared, some_mul) in
      let scaled : p.n_kv_heads * (2 * half) ≤ p.n_heads * (2 * half) =
        mul-le-mul_right (2 * half) fewer in
      omega (arith, scaled, kv_size, m.split)

  pub head_inside : (h : ℕ) → h < p.n_heads → h * head_size p + head_size p ≤ p.dim
  head_inside h hh = rw (head_size_lem, m.split) (layer_fits h p.n_heads (2 * half) hh)

  -- The head of the caches that a head reads.
  kv_head : (h : ℕ) → h < p.n_heads → h / kv_mul p < p.n_kv_heads
  kv_head h hh = rw kv_mul_lem ((div-lt_iff_lt-mul some_mul).1 (omega (arith, hh, m.shared)))

  -- A head's part of the row of a position is in that row.
  pub head_in_row : (h : ℕ) → h < p.n_heads → h / kv_mul p * head_size p + head_size p ≤ kv_dim p
  head_in_row h hh =
      rw (head_size_lem, kv_size) (layer_fits (h / kv_mul p) p.n_kv_heads (2 * half) (kv_head h hh))

  pub row_inside :
      (l at : ℕ)
      → l < p.n_layers
      → at < p.seq_len
      → l * p.seq_len * kv_dim p + at * kv_dim p + kv_dim p ≤ p.n_layers * p.seq_len * kv_dim p
  row_inside l at hl ha =
      let row = layer_fits at p.seq_len (kv_dim p) ha in
      let layer = part_fits l p.n_layers p.seq_len (kv_dim p) hl in omega (arith, row, layer)

  pub cache-HasRows :
      {floats : Floats} (maths : Maths floats) (l at : ℕ) (cache : List floats.Float)
      → l < p.n_layers
      → at < p.seq_len
      → length cache ≡ p.n_layers * p.seq_len * kv_dim p
      → HasRows floats maths p (l * p.seq_len * kv_dim p) at cache
  cache-HasRows maths l at cache hl ha len h t hh ht =
      let row = row_inside l t hl (omega arith) in
      let head = head_in_row h hh in omega (arith, row, head, len)
