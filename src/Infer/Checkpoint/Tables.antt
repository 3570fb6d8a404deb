-- ===== src/Infer/Checkpoint/Tables.antt =====
-- Where `forward` reads: each layer's part of a table lies inside of the table.
use pi3_distributed_llm_infe.Base.{ℕ, suc, ◌+◌, ◌*◌, ◌/◌, ◌≤◌, ◌<◌, ◌≡◌, sym, ap, ◌∙◌, arith, Bool}
use native.Mathlib.Nat.{
  mul_comm, mul_assoc, mul_right_comm, suc-mul, mul-le-mul_right, mul-div_cancel_left,
}
use pi3_distributed_llm_infe.Infer.Checkpoint.{
  Config, TransformerWeights, memory_map_weights, kv_dim, malloc_run_state,
}

-- The heads divide the dimension.
pub record IsConfig (p : Config) (head_size : ℕ) : Type 0 where
  pub heads : 0 < p.n_heads
  pub split : p.dim ≡ p.n_heads * head_size

pub layer_fits : (l n a : ℕ) → l < n → l * a + a ≤ n * a
layer_fits l n a h =
    let next : suc l * a ≤ n * a = mul-le-mul_right a (omega arith) in
    omega (arith, next, suc-mul l a)

pub part_fits : (l n a b : ℕ) → l < n → l * a * b + a * b ≤ n * a * b
part_fits l n a b h = rw (mul_assoc l a b, mul_assoc n a b) (layer_fits l n (a * b) h)

pub kv_dim_lem : (p : Config) (h : ℕ) → IsConfig p h → kv_dim p ≡ p.n_kv_heads * h
kv_dim_lem p h v =
    let product : p.dim * p.n_kv_heads ≡ p.n_heads * (p.n_kv_heads * h) =
      ap (λ d. d * p.n_kv_heads) v.split
      ∙ mul_assoc p.n_heads h p.n_kv_heads
      ∙ ap (λ x. p.n_heads * x) (mul_comm h p.n_kv_heads) in
    ap (λ x. x / p.n_heads) product ∙ mul-div_cancel_left (p.n_kv_heads * h) v.heads

-- What `forward` reads of layer `l`, and of the row of a token, up to the start of the next table.
abbrev pub Reads : Config → TransformerWeights → ℕ → ℕ → Type 0
Reads p w l token =
    (w.token_embedding_table + token * p.dim + p.dim ≤ w.rms_att_weight)
    × (w.rms_att_weight + l * p.dim + p.dim ≤ w.wq)
    × (w.wq + l * p.dim * p.dim + p.dim * p.dim ≤ w.wk)
    × (w.wk + l * p.dim * kv_dim p + p.dim * kv_dim p ≤ w.wv)
    × (w.wv + l * p.dim * kv_dim p + p.dim * kv_dim p ≤ w.wo)
    × (w.wo + l * p.dim * p.dim + p.dim * p.dim ≤ w.rms_ffn_weight)
    × (w.rms_ffn_weight + l * p.dim + p.dim ≤ w.w1)
    × (w.w1 + l * p.dim * p.hidden_dim + p.dim * p.hidden_dim ≤ w.w2)
    × (w.w2 + l * p.dim * p.hidden_dim + p.dim * p.hidden_dim ≤ w.w3)
    × (w.w3 + l * p.dim * p.hidden_dim + p.dim * p.hidden_dim ≤ w.rms_final_weight)

-- With heads that divide the dimension, a layer of the model, and a token of the vocabulary: every
-- table that `forward` reads of that layer, and the token's row, end before the next table starts.
pub memory_map_weights-Reads :
    (p : Config) (head_size ptr : ℕ) (shared_weights : Bool) (l token : ℕ)
    → IsConfig p head_size
    → l < p.n_layers
    → token < p.vocab_size
    → Reads p (memory_map_weights p ptr shared_weights) l token
unfolding memory_map_weights
memory_map_weights-Reads p h ptr shared l token v hl ht =
    let d = p.dim in
    let size : p.dim / p.n_heads ≡ h =
      ap (λ x. x / p.n_heads) v.split ∙ mul-div_cancel_left h v.heads in
    let heads : p.n_heads * (p.dim / p.n_heads) ≡ d = ap (λ x. p.n_heads * x) size ∙ sym v.split in
    let kv : p.n_kv_heads * (p.dim / p.n_heads) ≡ kv_dim p =
      ap (λ x. p.n_kv_heads * x) size ∙ sym (kv_dim_lem p h v) in
    let square = part_fits l p.n_layers d d hl in
    let out : p.n_layers * (p.n_heads * (p.dim / p.n_heads)) * d ≡ p.n_layers * d * d =
      ap (λ x. p.n_layers * x * d) heads in
    let inn : p.n_layers * d * (p.n_heads * (p.dim / p.n_heads)) ≡ p.n_layers * d * d =
      ap (λ x. p.n_layers * d * x) heads in
    let kvs : p.n_layers * d * (p.n_kv_heads * (p.dim / p.n_heads)) ≡ p.n_layers * d * kv_dim p =
      ap (λ x. p.n_layers * d * x) kv in
    let keys = part_fits l p.n_layers d (kv_dim p) hl in
    let hidden = part_fits l p.n_layers d p.hidden_dim hl in
    let turned = mul_right_comm p.n_layers p.hidden_dim d in
    let row = layer_fits token p.vocab_size d ht in
    let norm = layer_fits l p.n_layers d hl in
    (
      omega (arith, row),
      omega (arith, norm),
      omega (arith, square, inn),
      omega (arith, keys, kvs),
      omega (arith, keys, kvs),
      omega (arith, square, out),
      omega (arith, norm),
      omega (arith, hidden),
      omega (arith, hidden, turned),
      omega (arith, hidden),
    )

-- The cells of the caches that `forward` writes for layer `l` at position `at`, and all those of a head's
-- scores up to it, are in the buffers of `malloc_run_state`.
malloc_run_state_fits :
    (p : Config) (l at h : ℕ)
    → l < p.n_layers
    → at < p.seq_len
    → h < p.n_heads
    → (l * p.seq_len * kv_dim p + at * kv_dim p + kv_dim p ≤ (malloc_run_state p).key_cache)
      × (l * p.seq_len * kv_dim p + at * kv_dim p + kv_dim p ≤ (malloc_run_state p).value_cache)
      × (h * p.seq_len + (at + 1) ≤ (malloc_run_state p).att)
unfolding malloc_run_state
malloc_run_state_fits p l at h hl ha hh =
    let row = layer_fits at p.seq_len (kv_dim p) ha in
    let layer = part_fits l p.n_layers p.seq_len (kv_dim p) hl in
    let head = layer_fits h p.n_heads p.seq_len hh in
    (omega (arith, row, layer), omega (arith, row, layer), omega (arith, head))
