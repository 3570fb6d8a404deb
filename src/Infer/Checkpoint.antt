-- ===== src/Infer/Checkpoint.antt =====
-- The model's file, in libpi/src/run.c: `read_checkpoint`, `memory_map_weights` and
-- `malloc_run_state`. A pointer into the weights is its index in floats from the start of the file.
pub mod Tables
use pi3_distributed_llm_infe.Base.{
  ℕ, zero, suc, ◌+◌, ◌-◌, ◌*◌, ◌/◌, ◌^◌, Bool, true, false, List, [], ◌∷◌, Option, none, some,
  ◌>>=◌, ltb, leb, ◌==◌, not, ◌&&◌, if◌then◌else◌, length,
}
use pi3_distributed_llm_infe.Base.Bytes.{of_le_bytes, read_bytes}

-- `Config`, whose fields are not negative.
pub record Config : Type 0 where
  pub dim : ℕ
  pub hidden_dim : ℕ
  pub n_layers : ℕ
  pub n_heads : ℕ
  pub n_kv_heads : ℕ
  pub vocab_size : ℕ
  pub seq_len : ℕ

pub record TransformerWeights : Type 0 where
  pub token_embedding_table : ℕ
  pub rms_att_weight : ℕ
  pub rms_ffn_weight : ℕ
  pub wq : ℕ
  pub wk : ℕ
  pub wv : ℕ
  pub wo : ℕ
  pub w1 : ℕ
  pub w2 : ℕ
  pub w3 : ℕ
  pub rms_final_weight : ℕ
  pub wcls : ℕ

-- The products are those of the source, without a wrap.
unfoldable pub memory_map_weights : Config → ℕ → Bool → TransformerWeights
memory_map_weights p ptr shared_weights =
    let head_size = p.dim / p.n_heads in
    let att = ptr + p.vocab_size * p.dim in
    let wq = att + p.n_layers * p.dim in
    let wk = wq + p.n_layers * p.dim * (p.n_heads * head_size) in
    let wv = wk + p.n_layers * p.dim * (p.n_kv_heads * head_size) in
    let wo = wv + p.n_layers * p.dim * (p.n_kv_heads * head_size) in
    let ffn = wo + p.n_layers * (p.n_heads * head_size) * p.dim in
    let w1 = ffn + p.n_layers * p.dim in
    let w2 = w1 + p.n_layers * p.dim * p.hidden_dim in
    let w3 = w2 + p.n_layers * p.hidden_dim * p.dim in
    let final = w3 + p.n_layers * p.dim * p.hidden_dim in
    let freqs = final + p.dim in
    let last = freqs + p.seq_len * head_size / 2 + p.seq_len * head_size / 2 in
    record {
      token_embedding_table = ptr;
      rms_att_weight = att;
      rms_ffn_weight = ffn;
      wq = wq;
      wk = wk;
      wv = wv;
      wo = wo;
      w1 = w1;
      w2 = w2;
      w3 = w3;
      rms_final_weight = final;
      wcls = if shared_weights then ptr else last;
    }

-- A field of the file that is read as an `int`; the size of the vocabulary is negative when the
-- classifier's weights are its own.
abbrev pub read_field : List ℕ → Option (ℕ × List ℕ)
read_field s = read_bytes 4 s >>= (λ r. some (of_le_bytes r.0, r.1))

-- The sizes, and whether the weights are shared; `none` is the panic on a short file. Sizes other than
-- that of the vocabulary are taken as they stand.
unfoldable pub read_config : List ℕ → Option (Config × Bool)
read_config file = do
  (dim, s1) ← read_field file
  (hidden_dim, s2) ← read_field s1
  (n_layers, s3) ← read_field s2
  (n_heads, s4) ← read_field s3
  (n_kv_heads, s5) ← read_field s4
  (vocab, s6) ← read_field s5
  (seq_len, s7) ← read_field s6
  some (
    record {
      dim = dim;
      hidden_dim = hidden_dim;
      n_layers = n_layers;
      n_heads = n_heads;
      n_kv_heads = n_kv_heads;
      vocab_size = if leb (2 ^ 31) vocab then 2 ^ 32 - vocab else vocab;
      seq_len = seq_len;
    },
    ltb 0 vocab && ltb vocab (2 ^ 31),
  )

-- `read_checkpoint`: the weights stand behind the 7 fields.
unfoldable pub read_checkpoint : List ℕ → Option (Config × TransformerWeights)
read_checkpoint file = do
  (p, shared_weights) ← read_config file
  some (p, memory_map_weights p 7 shared_weights)

-- `kv_dim` in `forward` and `malloc_run_state`.
abbrev pub kv_dim : Config → ℕ
kv_dim p = p.dim * p.n_kv_heads / p.n_heads

-- The buffers of the run, with the number of floats that each has room for.
pub record RunState : Type 0 where
  pub x : ℕ
  pub xb : ℕ
  pub xb2 : ℕ
  pub hb : ℕ
  pub hb2 : ℕ
  pub q : ℕ
  pub key_cache : ℕ
  pub value_cache : ℕ
  pub att : ℕ
  pub logits : ℕ

-- None of the allocations fails, or the source panics.
unfoldable pub malloc_run_state : Config → RunState
malloc_run_state p = record {
  x = p.dim;
  xb = p.dim;
  xb2 = p.dim;
  hb = p.hidden_dim;
  hb2 = p.hidden_dim;
  q = p.dim;
  key_cache = p.n_layers * p.seq_len * kv_dim p;
  value_cache = p.n_layers * p.seq_len * kv_dim p;
  att = p.n_heads * p.seq_len;
  logits = p.vocab_size;
}
