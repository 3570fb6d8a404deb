-- ===== src/Infer/Forward/Room.antt =====
-- The buffers and the tables of the weights have room for what a layer reads and writes.
use pi3_distributed_llm_infe.Base.{
  ℕ, ◌+◌, ◌-◌, ◌*◌, ◌/◌, ◌≤◌, ◌<◌, ◌≡◌, ◌⊎◌, refl, ap, ◌∙◌, arith, Bool, List, some, length,
  get_elem?, drop, get_elem?-in_range,
}
use pi3_distributed_llm_infe.Infer.Float.{Floats}
use pi3_distributed_llm_infe.Infer.Checkpoint.{
  Config, TransformerWeights, kv_dim, RunState, malloc_run_state,
}
use pi3_distributed_llm_infe.Infer.Checkpoint.Tables.{Reads}
use pi3_distributed_llm_infe.Infer.Forward.Loops.{cell_loop, on_part}
use pi3_distributed_llm_infe.Infer.Forward.Cells.{IsTotal, cell_loop-Written}
use pi3_distributed_llm_infe.Infer.Forward.Norm.{Maths, rmsnorm}
use pi3_distributed_llm_infe.Infer.Forward.Attention.{rope_q, rope_qk}
use pi3_distributed_llm_infe.Infer.Forward.Layer.{Buffers, matmul, gated}
use pi3_distributed_llm_infe.Infer.Forward.Kept.{Fills, on_part-Fills}
use pi3_distributed_llm_infe.Infer.Forward.Returns.{
  Makes, drop_fits, bound, matmul-Makes, rmsnorm-Makes,
}
use pi3_distributed_llm_infe.Infer.Forward.Heads.{rope_q-Makes, rope_qk_returns}

-- The lengths of the buffers.
abbrev pub sizes : {F : Type 0} → Buffers F → RunState
sizes s = record {
  x = length s.x;
  xb = length s.xb;
  xb2 = length s.xb2;
  hb = length s.hb;
  hb2 = length s.hb2;
  q = length s.q;
  key_cache = length s.key_cache;
  value_cache = length s.value_cache;
  att = length s.att;
  logits = length s.logits;
}

-- The buffers have the sizes of `malloc_run_state`.
pub record Fits {F : Type 0} (p : Config) (s : Buffers F) : Type 0 where
  pub x : length s.x ≡ p.dim
  pub xb : length s.xb ≡ p.dim
  pub xb2 : length s.xb2 ≡ p.dim
  pub hb : length s.hb ≡ p.hidden_dim
  pub hb2 : length s.hb2 ≡ p.hidden_dim
  pub q : length s.q ≡ p.dim
  pub key_cache : length s.key_cache ≡ p.n_layers * p.seq_len * kv_dim p
  pub value_cache : length s.value_cache ≡ p.n_layers * p.seq_len * kv_dim p
  pub att : length s.att ≡ p.n_heads * p.seq_len
  pub logits : length s.logits ≡ p.vocab_size

-- A cell of a cache that is in no layer's row of position `at`.
abbrev pub Outside : Config → ℕ → ℕ → Type 0
Outside p at j =
    (l : ℕ)
    → l < p.n_layers
    → (j < l * p.seq_len * kv_dim p + at * kv_dim p)
      ⊎ (l * p.seq_len * kv_dim p + at * kv_dim p + kv_dim p ≤ j)

-- The caches of `s'` are those of `s` in all other rows than those of position `at`.
pub record Kept {F : Type 0} (p : Config) (at : ℕ) (s s' : Buffers F) : Type 0 where
  pub keys : (j : ℕ) → Outside p at j → get_elem? s'.key_cache j ≡ get_elem? s.key_cache j
  pub values : (j : ℕ) → Outside p at j → get_elem? s'.value_cache j ≡ get_elem? s.value_cache j

pub sizes-Fits : {F : Type 0} (p : Config) (s : Buffers F) → sizes s ≡ malloc_run_state p → Fits p s
unfolding malloc_run_state
sizes-Fits p s e = record {
  x = ap (λ r. r.x) e;
  xb = ap (λ r. r.xb) e;
  xb2 = ap (λ r. r.xb2) e;
  hb = ap (λ r. r.hb) e;
  hb2 = ap (λ r. r.hb2) e;
  q = ap (λ r. r.q) e;
  key_cache = ap (λ r. r.key_cache) e;
  value_cache = ap (λ r. r.value_cache) e;
  att = ap (λ r. r.att) e;
  logits = ap (λ r. r.logits) e;
}

pub Fits-sizes : {F : Type 0} (p : Config) (s : Buffers F) → Fits p s → sizes s ≡ malloc_run_state p
unfolding malloc_run_state
Fits-sizes p s f =
    rw (f.x, f.xb, f.xb2, f.hb, f.hb2, f.q, f.key_cache, f.value_cache, f.att, f.logits) refl

pub full : {F : Type 0} (xs : List F) (n : ℕ) → length xs ≡ n → n ≤ length xs
full xs n e = omega (arith, e)

-- What a layer reads of the weights, and the last table, are in the file.
pub record InFile (p : Config) (w : TransformerWeights) (l size : ℕ) : Type 0 where
  pub att : w.rms_att_weight + l * p.dim + p.dim ≤ size
  pub wq : w.wq + l * p.dim * p.dim + p.dim * p.dim ≤ size
  pub wk : w.wk + l * p.dim * kv_dim p + p.dim * kv_dim p ≤ size
  pub wv : w.wv + l * p.dim * kv_dim p + p.dim * kv_dim p ≤ size
  pub wo : w.wo + l * p.dim * p.dim + p.dim * p.dim ≤ size
  pub ffn : w.rms_ffn_weight + l * p.dim + p.dim ≤ size
  pub w1 : w.w1 + l * p.dim * p.hidden_dim + p.dim * p.hidden_dim ≤ size
  pub w2 : w.w2 + l * p.dim * p.hidden_dim + p.hidden_dim * p.dim ≤ size
  pub w3 : w.w3 + l * p.dim * p.hidden_dim + p.dim * p.hidden_dim ≤ size

pub Reads-InFile :
    (p : Config) (w : TransformerWeights) (l token size : ℕ)
    → Reads p w l token
    → w.rms_final_weight ≤ size
    → InFile p w l size
Reads-InFile p w l token size (_, att, wq, wk, wv, wo, ffn, w1, w2, w3) h =
    let w3' : w.w3 ≤ size = omega (arith, w3, h) in
    let w2' : w.w2 ≤ size = omega (arith, w2, w3') in
    let w1' : w.w1 ≤ size = omega (arith, w1, w2') in
    let ffn' : w.rms_ffn_weight ≤ size = omega (arith, ffn, w1') in
    let wo' : w.wo ≤ size = omega (arith, wo, ffn') in
    let wv' : w.wv ≤ size = omega (arith, wv, wo') in
    let wk' : w.wk ≤ size = omega (arith, wk, wv') in
    let wq' : w.wq ≤ size = omega (arith, wq, wk') in
    record {
      att = omega (arith, att, wq');
      wq = omega (arith, wq, wk');
      wk = omega (arith, wk, wv');
      wv = omega (arith, wv, wo');
      wo = omega (arith, wo, ffn');
      ffn = omega (arith, ffn, w1');
      w1 = omega (arith, w1, w2');
      w2 = omega (arith, w2, w3');
      w3 = omega (arith, w3, h);
    }

module _ (floats : Floats) (maths : Maths floats) where
  open floats use {Float}

  -- `matmul` with a part of the weights.
  pub table_matmul :
      (xout x weights : List Float) (from n d : ℕ)
      → length x ≡ n
      → length xout ≡ d
      → from + n * d ≤ length weights
      → Makes d (matmul floats maths xout x (drop from weights) n d)
  table_matmul xout x weights from n d len room fits =
      let part = drop_fits weights from (d * n) (omega (arith, fits)) in
      let (r, e, l) =
        matmul-Makes floats maths xout x (drop from weights) n d (full x n len) part
          (full xout d room) in
      (r, e, l ∙ room)

  -- `matmul` into a part of a cache.
  pub part_matmul :
      (cache x weights : List Float) (offset from n d : ℕ)
      → length x ≡ n
      → offset + d ≤ length cache
      → from + n * d ≤ length weights
      → Fills offset d cache
          (on_part offset d (λ k. matmul floats maths k x (drop from weights) n d) cache)
  part_matmul cache x weights offset from n d len room fits =
      on_part-Fills offset d (λ k. matmul floats maths k x (drop from weights) n d) cache room
        (λ k l. table_matmul k x weights from n d len l fits)

  -- `rmsnorm` with a part of the weights.
  pub table_norm :
      (in_place : Bool) (o x weights : List Float) (from n : ℕ)
      → length o ≡ n
      → length x ≡ n
      → from + n ≤ length weights
      → Makes n (rmsnorm floats maths in_place o x (drop from weights) n)
  table_norm in_place o x weights from n lo lx fits =
      rmsnorm-Makes floats maths in_place o x (drop from weights) n lo (full x n lx)
        (drop_fits weights from n fits)

  -- The rotation of a query and of the keys of a position.
  pub rotated :
      (rope_cos rope_sin q k : List Float) (dim kv a b : ℕ)
      → length rope_cos ≡ a
      → length rope_sin ≡ a
      → dim ≡ 2 * a
      → kv ≡ 2 * b
      → kv ≤ dim
      → length q ≡ dim
      → length k ≡ kv
      → (q' : List Float) × (k' : List Float) × (q2 : List Float) × (rope_qk floats maths rope_cos
            rope_sin
            ((kv + 1) / 2)
            0
            q
            k
          ≡ some (q', k'))
        × (rope_q floats maths rope_cos rope_sin ((dim - kv + 1) / 2) kv q' ≡ some q2)
        × (length k' ≡ kv)
        × (length q2 ≡ dim)
  rotated rope_cos rope_sin q k dim kv a b lc ls ed ek le lq lk =
      let (q', k', e, lq', lk') =
        rope_qk_returns floats maths rope_cos rope_sin ((kv + 1) / 2) 0 q k
          (omega (arith, ed, ek, le, lc)) (omega (arith, ed, ek, le, ls))
          (omega (arith, ed, ek, le, lq)) (omega (arith, ek, lk)) in
      let (q2, e2, l2) =
        rope_q-Makes floats maths rope_cos rope_sin ((dim - kv + 1) / 2) kv q'
          (omega (arith, ed, ek, le, lc)) (omega (arith, ed, ek, le, ls))
          (omega (arith, ed, ek, le, lq, lq')) in
      (q', k', q2, e, e2, lk' ∙ lk, l2 ∙ lq' ∙ lq)

  -- The loop over the gate.
  pub gate-Makes :
      (hb2 hb : List Float) (n : ℕ)
      → length hb ≡ n
      → length hb2 ≡ n
      → Makes n (cell_loop (gated floats maths hb2) n 0 hb)
  unfolding gated
  gate-Makes hb2 hb n len len2 =
      let total : IsTotal (gated floats maths hb2) n n = λ buf j l lt.
        let (v, ev) = get_elem?-in_range buf j (omega arith) in
        let (g, eg) = get_elem?-in_range hb2 j (omega arith) in bound _ ev (bound _ eg (_, refl)) in
      let (r, runs, w) =
        cell_loop-Written (gated floats maths hb2) n n n 0 hb (λ a b j e. rw e refl) total len
          (omega arith) (omega arith) in
      (r, runs, w.size ∙ len)
