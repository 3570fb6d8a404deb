-- ===== src/Infer.antt =====
-- libpi/src/run.c: inference for the Llama-2 transformer.
pub mod Checkpoint
pub mod Encode
pub mod Float
pub mod Forward
pub mod Generate
pub mod Matmul
pub mod Sampler
pub mod Tokenizer
pub mod Vocab
