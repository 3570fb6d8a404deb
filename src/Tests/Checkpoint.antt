-- ===== src/Tests/Checkpoint.antt =====
-- The tables of a small model.
use pi3_distributed_llm_infe.Base.{refl, arith}
use pi3_distributed_llm_infe.Infer.Checkpoint.{Config}
use pi3_distributed_llm_infe.Infer.Checkpoint.Tables.{IsConfig}

abbrev config : Config
config = record {
  dim = 8;
  hidden_dim = 16;
  n_layers = 2;
  n_heads = 4;
  n_kv_heads = 2;
  vocab_size = 10;
  seq_len = 6;
}

config-IsConfig : IsConfig config 2
config-IsConfig = record { heads = omega arith; split = refl }
