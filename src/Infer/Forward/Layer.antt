-- ===== src/Infer/Forward/Layer.antt =====
-- A layer of the transformer, and `forward`.
use pi3_distributed_llm_infe.Base.{
  ℕ, zero, suc, ◌+◌, ◌-◌, ◌*◌, ◌/◌, true, false, List, Option, none, some, ◌>>=◌, if◌then◌else◌,
  leb, check, length, get_elem?, drop,
}
use pi3_distributed_llm_infe.Infer.Float.{Floats}
use pi3_distributed_llm_infe.Infer.Matmul.{worker_rows}
use pi3_distributed_llm_infe.Infer.Checkpoint.{Config, TransformerWeights, kv_dim}
use pi3_distributed_llm_infe.Infer.Forward.Loops.{cell_loop, each_cell, on_part, part_of}
use pi3_distributed_llm_infe.Infer.Forward.Norm.{Maths, rmsnorm}
use pi3_distributed_llm_infe.Infer.Forward.Attention.{
  head_size, rope_table, rope_q, rope_qk, attend_loop,
}

-- The buffers of `RunState`. `k` and `v` are parts of the caches.
pub record Buffers (F : Type 0) : Type 0 where
  pub x : List F
  pub xb : List F
  pub xb2 : List F
  pub hb : List F
  pub hb2 : List F
  pub q : List F
  pub key_cache : List F
  pub value_cache : List F
  pub att : List F
  pub logits : List F

module _ (floats : Floats) (maths : Maths floats) where
  open floats use {Float, add, mul}
  open maths use {one, divide, neg, expf}

  -- `matmul` on one core; on four it has the same result (Matmul.Interleaved).
  unfoldable pub matmul : List Float → List Float → List Float → ℕ → ℕ → Option (List Float)
  unfolding worker_rows
  matmul xout x w n d = if leb d (length xout) then worker_rows floats x w n d 0 xout else none

  -- The value for `x[i]` where another array is added to it.
  unfoldable pub added : List Float → List Float → ℕ → Option Float
  added y x i = do a ← get_elem? x i; b ← get_elem? y i; some (add a b)

  -- The value for `hb[i]`.
  unfoldable pub gated : List Float → List Float → ℕ → Option Float
  gated hb2 hb i = do
    val ← get_elem? hb i
    gate ← get_elem? hb2 i
    some (mul (mul val (divide one (add one (expf (neg val))))) gate)

  module _ (p : Config) (w : TransformerWeights) (weights rope_cos rope_sin : List Float)
      (at : ℕ) where
    -- The products for this position, and the rotation.
    unfoldable pub project : ℕ → Buffers Float → Option (Buffers Float)
    unfolding matmul rmsnorm on_part part_of rope_qk rope_q
    project l s = do
      let loff = l * p.seq_len * kv_dim p
      xb ← rmsnorm floats maths false s.xb s.x (drop (w.rms_att_weight + l * p.dim) weights) p.dim
      q ← matmul s.q xb (drop (w.wq + l * p.dim * p.dim) weights) p.dim p.dim
      keys ←
          on_part (loff + at * kv_dim p) (kv_dim p)
            (λ k. matmul k xb (drop (w.wk + l * p.dim * kv_dim p) weights) p.dim (kv_dim p))
            s.key_cache
      values ←
          on_part (loff + at * kv_dim p) (kv_dim p)
            (λ v. matmul v xb (drop (w.wv + l * p.dim * kv_dim p) weights) p.dim (kv_dim p))
            s.value_cache
      k ← part_of (loff + at * kv_dim p) (kv_dim p) keys
      (q', k') ← rope_qk floats maths rope_cos rope_sin ((kv_dim p + 1) / 2) 0 q k
      keys' ← on_part (loff + at * kv_dim p) (kv_dim p) (λ k. some k') keys
      q'' ← rope_q floats maths rope_cos rope_sin ((p.dim - kv_dim p + 1) / 2) (kv_dim p) q'
      some (record s { xb = xb; q = q''; key_cache = keys'; value_cache = values })

    -- The heads, and what they add to `x`.
    unfoldable pub attention : ℕ → Buffers Float → Option (Buffers Float)
    unfolding attend_loop matmul each_cell added
    attention l s = do
      (att, xb) ←
          attend_loop floats maths p (l * p.seq_len * kv_dim p) at s.q s.key_cache s.value_cache
            p.n_heads 0 s.att s.xb
      xb2 ← matmul s.xb2 xb (drop (w.wo + l * p.dim * p.dim) weights) p.dim p.dim
      x ← each_cell (added xb2) (added xb2) p.dim s.x
      some (record s { x = x; xb = xb; xb2 = xb2; att = att })

    unfoldable pub feed_forward : ℕ → Buffers Float → Option (Buffers Float)
    unfolding rmsnorm matmul cell_loop gated each_cell added
    feed_forward l s = do
      xb ← rmsnorm floats maths false s.xb s.x (drop (w.rms_ffn_weight + l * p.dim) weights) p.dim
      hb ← matmul s.hb xb (drop (w.w1 + l * p.dim * p.hidden_dim) weights) p.dim p.hidden_dim
      hb2 ← matmul s.hb2 xb (drop (w.w3 + l * p.dim * p.hidden_dim) weights) p.dim p.hidden_dim
      hb' ← cell_loop (gated hb2) p.hidden_dim 0 hb
      xb' ← matmul xb hb' (drop (w.w2 + l * p.dim * p.hidden_dim) weights) p.hidden_dim p.dim
      x ← each_cell (added xb') (added xb') p.dim s.x
      some (record s { x = x; xb = xb'; hb = hb'; hb2 = hb2 })

    unfoldable pub layer : ℕ → Buffers Float → Option (Buffers Float)
    unfolding project attention feed_forward
    layer l s = do s1 ← project l s; s2 ← attention l s1; feed_forward l s2

    -- The layers from `l` on, with `left` of them to go.
    unfoldable pub layers : ℕ → ℕ → Buffers Float → Option (Buffers Float)
    unfolding layer
    layers zero l s = some s
    layers (suc left) l s = layer l s >>= layers left (l + 1)

  unfoldable pub forward :
      Config → TransformerWeights → List Float → ℕ → ℕ → Buffers Float → Option (Buffers Float)
  unfolding part_of on_part rope_table layers rmsnorm matmul
  forward p w weights token at s = do
    -- The arrays of `dim / 2` cells have room for each round of their loop.
    _ ← check (leb ((p.dim + 1) / 2) (p.dim / 2))
    let rope_cos = rope_table floats maths maths.cosf (head_size p) at ((p.dim + 1) / 2) 0
    let rope_sin = rope_table floats maths maths.sinf (head_size p) at ((p.dim + 1) / 2) 0
    content_row ← part_of (w.token_embedding_table + token * p.dim) p.dim weights
    x ← on_part 0 p.dim (λ part. some content_row) s.x
    s1 ← layers p w weights rope_cos rope_sin at p.n_layers 0 (record s { x = x })
    x' ← rmsnorm floats maths true s1.x s1.x (drop w.rms_final_weight weights) p.dim
    logits ← matmul s1.logits x' (drop w.wcls weights) p.dim p.vocab_size
    some (record s1 { x = x'; logits = logits })
