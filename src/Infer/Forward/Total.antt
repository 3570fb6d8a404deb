-- ===== src/Infer/Forward/Total.antt =====
-- `forward` returns, and never leaves its buffers, the caches, or the tables of the weights.
use pi3_distributed_llm_infe.Base.{
  ℕ, ◌+◌, ◌*◌, ◌/◌, ◌≤◌, ◌<◌, ◌≡◌, ◌≢◌, ◌⊎◌, inl, inr, ltb, Bool-cases, refl, ◌∙◌, arith, Bool,
  true, List, some, le→leb, length, get_elem?,
}
use pi3_distributed_llm_infe.Infer.Float.{Floats}
use pi3_distributed_llm_infe.Infer.Checkpoint.{
  Config, TransformerWeights, memory_map_weights, kv_dim, malloc_run_state,
}
use pi3_distributed_llm_infe.Infer.Checkpoint.Tables.{
  Reads, memory_map_weights-Reads, layer_fits, part_fits,
}
use pi3_distributed_llm_infe.Infer.Forward.Norm.{Maths}
use pi3_distributed_llm_infe.Infer.Forward.Attention.{head_size, rope_table}
use pi3_distributed_llm_infe.Infer.Forward.Layer.{Buffers, forward}
use pi3_distributed_llm_infe.Infer.Forward.Returns.{part_of-Makes}
use pi3_distributed_llm_infe.Infer.Forward.Heads.{length-rope_table}
use pi3_distributed_llm_infe.Infer.Forward.Shape.{IsModel, model-IsConfig, dim_even}
use pi3_distributed_llm_infe.Infer.Forward.Kept.{on_part-Fills}
use pi3_distributed_llm_infe.Infer.Forward.Room.{
  Outside, Fits, Kept, InFile, sizes, sizes-Fits, Fits-sizes, Reads-InFile, table_matmul,
  table_norm,
}
use pi3_distributed_llm_infe.Infer.Forward.Pass.{layers_returns}

apart_rows :
    (kv base t i at : ℕ)
    → t ≢ at
    → i < kv
    → (base + t * kv + i < base + at * kv) ⊎ (base + at * kv + kv ≤ base + t * kv + i)
apart_rows kv base t i at ne hi = elim (Bool-cases (ltb t at)) [
  | inl less ↦ let apart = layer_fits t at kv (ground arith) in inl (omega (arith, apart, hi))
  | inr more ↦ let apart = layer_fits at t kv (ground arith) in inr (omega (arith, apart))
]

-- The row of another position is in no row of `at`.
other_row-Outside :
    (p : Config) (l t i at : ℕ)
    → t ≢ at
    → t < p.seq_len
    → at < p.seq_len
    → i < kv_dim p
    → Outside p at (l * p.seq_len * kv_dim p + t * kv_dim p + i)
other_row-Outside p l t i at ne ht ha hi l' hl' =
    let row = layer_fits t p.seq_len (kv_dim p) ht in
    let row' = layer_fits at p.seq_len (kv_dim p) ha in
    elim (Bool-cases (ltb l l')) [
      | inl less ↦
          let apart = part_fits l l' p.seq_len (kv_dim p) (ground arith) in
          inl (omega (arith, row, hi, apart))
      | inr no_less ↦ elim (Bool-cases (ltb l' l)) [
        | inl more ↦
            let apart = part_fits l' l p.seq_len (kv_dim p) (ground arith) in
            inr (omega (arith, row', apart))
        | inr no_more ↦
            let same : l ≡ l' = ground arith in
            rw same (apart_rows (kv_dim p) (l' * p.seq_len * kv_dim p) t i at ne hi)
      ]
    ]

token_row :
    (p : Config) (w : TransformerWeights) (token size : ℕ)
    → Reads p w 0 token
    → InFile p w 0 size
    → w.token_embedding_table + token * p.dim + p.dim ≤ size
token_row p w token size reads t =
    let row = reads.0 in
    let start : w.rms_att_weight ≤ size = omega (arith, t.att) in omega (arith, row, start)

module _ (floats : Floats) (maths : Maths floats) where
  open floats use {Float}

  forward_result :
      (p : Config) (half mul : ℕ) (w : TransformerWeights) (weights : List Float) (token at : ℕ)
      (s : Buffers Float)
      → IsModel p half mul
      → ((l : ℕ) → l < p.n_layers → InFile p w l (length weights))
      → w.token_embedding_table + token * p.dim + p.dim ≤ length weights
      → w.rms_final_weight + p.dim ≤ length weights
      → w.wcls + p.dim * p.vocab_size ≤ length weights
      → at < p.seq_len
      → Fits p s
      → (s' : Buffers Float) × (forward floats maths p w weights token at s ≡ some s')
        × Fits p s'
        × Kept p at s s'
  unfolding forward
  forward_result p half mul w weights token at s m in_file row final wcls at_fits f =
      let size = head_size p in
      let n = (p.dim + 1) / 2 in
      let even : n ≤ p.dim / 2 = omega (arith, dim_even p half mul m) in
      let rounds : n ≡ p.n_heads * half = omega (arith, dim_even p half mul m) in
      let rope_cos : List Float = rope_table floats maths maths.cosf size at n 0 in
      let rope_sin : List Float = rope_table floats maths maths.sinf size at n 0 in
      let (c, e_c, l_c) =
        part_of-Makes (w.token_embedding_table + token * p.dim) p.dim weights row in
      let (x, e_x, l_x, _) =
        on_part-Fills 0 p.dim (λ part. some c) s.x (omega (arith, f.x))
          (λ part len. (c, refl, l_c)) in
      let start : Fits p (record s { x = x }) = record {
        x = l_x ∙ f.x;
        xb = f.xb;
        xb2 = f.xb2;
        hb = f.hb;
        hb2 = f.hb2;
        q = f.q;
        key_cache = f.key_cache;
        value_cache = f.value_cache;
        att = f.att;
        logits = f.logits;
      } in
      let (s1, e1, f1, k1) =
        layers_returns floats maths p half mul m w weights rope_cos rope_sin at in_file
          (length-rope_table floats maths maths.cosf size at n 0 ∙ rounds)
          (length-rope_table floats maths maths.sinf size at n 0 ∙ rounds) at_fits p.n_layers 0
          (record s { x = x }) (omega arith) start in
      let (x', e_x', l_x') =
        table_norm floats maths true s1.x s1.x weights w.rms_final_weight p.dim f1.x f1.x final in
      let (logits, e_l, l_l) =
        table_matmul floats maths s1.logits x' weights w.wcls p.dim p.vocab_size l_x' f1.logits
          wcls in
      (
        record s1 { x = x'; logits = logits },
        rw (le→leb _ _ even, e_c, e_x, e1, e_x', e_l) refl,
        record {
          x = l_x';
          xb = f1.xb;
          xb2 = f1.xb2;
          hb = f1.hb;
          hb2 = f1.hb2;
          q = f1.q;
          key_cache = f1.key_cache;
          value_cache = f1.value_cache;
          att = f1.att;
          logits = l_l;
        },
        record { keys = k1.keys; values = k1.values },
      )

  -- On a model whose heads divide the dimension into parts of an even size and whose key and value heads
  -- divide the heads, with the weights laid out by `memory_map_weights` in an array that holds the last
  -- norm and the classifier, the buffers of `malloc_run_state`, a token of the vocabulary and a position
  -- below `seq_len`: `forward` returns, so no read or write is out of range, the buffers keep their
  -- sizes, and the caches keep the rows of every layer at every other position.
  pub forward_returns :
      (p : Config) (half mul ptr : ℕ) (shared_weights : Bool) (weights : List Float) (token at : ℕ)
      (s : Buffers Float)
      → IsModel p half mul
      → (memory_map_weights p ptr shared_weights).rms_final_weight + p.dim ≤ length weights
      → (memory_map_weights p ptr shared_weights).wcls + p.dim * p.vocab_size ≤ length weights
      → token < p.vocab_size
      → at < p.seq_len
      → sizes s ≡ malloc_run_state p
      → (s' : Buffers Float) × (forward floats maths p
            (memory_map_weights p ptr shared_weights)
            weights
            token
            at
            s
          ≡ some s')
        × (sizes s' ≡ malloc_run_state p)
        × ((l t i : ℕ)
            → t ≢ at
            → t < p.seq_len
            → i < kv_dim p
            → (get_elem? s'.key_cache (l * p.seq_len * kv_dim p + t * kv_dim p + i)
                ≡ get_elem? s.key_cache (l * p.seq_len * kv_dim p + t * kv_dim p + i))
              × (get_elem? s'.value_cache (l * p.seq_len * kv_dim p + t * kv_dim p + i)
                  ≡ get_elem? s.value_cache (l * p.seq_len * kv_dim p + t * kv_dim p + i)))
  forward_returns p half mul ptr shared_weights weights token at s m final wcls ht ha sized =
      let w = memory_map_weights p ptr shared_weights in
      let reads : (l : ℕ) → l < p.n_layers → Reads p w l token = λ l hl.
        memory_map_weights-Reads p (2 * half) ptr shared_weights l token
          (model-IsConfig p half mul m) hl ht in
      let all : (l : ℕ) → l < p.n_layers → InFile p w l (length weights) =
        λ l hl. Reads-InFile p w l token (length weights) (reads l hl) (omega (arith, final)) in
      let row = token_row p w token (length weights) (reads 0 m.some_layer) (all 0 m.some_layer) in
      let (s', runs, fits, kept) =
        forward_result p half mul w weights token at s m all row final wcls ha
          (sizes-Fits p s sized) in
      (
        s',
        runs,
        Fits-sizes p s' fits,
        λ l t i ne lt hi.
            let out = other_row-Outside p l t i at ne lt ha hi in
            (kept.keys _ out, kept.values _ out),
      )
