-- ===== src/Infer/Generate/Model.antt =====
-- The generation loop over the model: `generate` with `forward` and `sample` on the buffers.
use pi3_distributed_llm_infe.Base.{
  ℕ, ◌+◌, ◌*◌, ◌≤◌, ◌<◌, ◌≡◌, refl, ap, ◌∙◌, arith, Bool, List, Option, none, some, ◌>>=◌, length,
  get_elem?, take,
}
use pi3_distributed_llm_infe.Base.Int.{ℤ, pos, negsuc}
use pi3_distributed_llm_infe.Infer.Float.{Floats}
use pi3_distributed_llm_infe.Infer.Checkpoint.{
  Config, TransformerWeights, memory_map_weights, malloc_run_state,
}
use pi3_distributed_llm_infe.Infer.Forward.Norm.{Maths}
use pi3_distributed_llm_infe.Infer.Forward.Layer.{Buffers, forward}
use pi3_distributed_llm_infe.Infer.Forward.Shape.{IsModel}
use pi3_distributed_llm_infe.Infer.Forward.Room.{sizes}
use pi3_distributed_llm_infe.Infer.Forward.Total.{forward_returns}
use pi3_distributed_llm_infe.Infer.Generate.{Sampler, SampleOps, Run, sample, generate_tokens}
use pi3_distributed_llm_infe.Infer.Generate.Loop.{IsToken, generate_tokens-prompt}
use pi3_distributed_llm_infe.Infer.Generate.Sample.{IsOrder, SomeKept, Chosen-topp, sample-Sampled}

module _ (floats : Floats) (maths : Maths floats) where
  open floats use {Float}

  -- `forward(transformer, token, pos)`, and the logits it returns; a negative token is out of range.
  unfoldable pub pass :
      Config
      → TransformerWeights
      → List Float
      → Buffers Float × Sampler Float
      → ℤ
      → ℕ
      → Option ((Buffers Float × Sampler Float) × List Float)
  pass p w weights (s, sampler) (pos token) at = do
    s' ← forward floats maths p w weights token at s
    some ((s', sampler), s'.logits)
  pass p w weights (s, sampler) (negsuc n) at = none

  -- `next = sample(sampler, logits)`. What it writes to the logits, the next pass overwrites.
  unfoldable pub draw :
      SampleOps Float
      → Buffers Float × Sampler Float
      → List Float
      → Option ((Buffers Float × Sampler Float) × ℤ)
  unfolding sample
  draw ops (s, sampler) logits = do
    (after, next) ← sample floats maths ops sampler logits
    some ((s, after), next)

  module _ (ops : SampleOps Float) (p : Config) (half mul ptr : ℕ) (shared_weights : Bool)
      (weights : List Float) (topp : Float) (vocab : List (List ℕ)) (m : IsModel p half mul)
      (final : (memory_map_weights p ptr shared_weights).rms_final_weight + p.dim ≤ length weights)
      (wcls : (memory_map_weights p ptr shared_weights).wcls + p.dim * p.vocab_size
        ≤ length weights)
      (some_token : 0 < p.vocab_size) (entries : length vocab ≡ p.vocab_size)
      (order : IsOrder floats maths ops)
      (some_kept : SomeKept floats maths ops topp p.vocab_size) where
    -- The buffers have their sizes, and the sampler its setting.
    abbrev pub IsReady : Buffers Float × Sampler Float → Type 0
    IsReady (s, sampler) = (sizes s ≡ malloc_run_state p) × (sampler.topp ≡ topp)

    logits_size :
        (s : Buffers Float) → sizes s ≡ malloc_run_state p → length s.logits ≡ p.vocab_size
    unfolding malloc_run_state
    logits_size s e = ap (λ r. r.logits) e

    pass_returns :
        (s : Buffers Float × Sampler Float) (token : ℤ) (at : ℕ)
        → IsReady s
        → IsToken vocab token
        → at < p.seq_len
        → (r : (Buffers Float × Sampler Float) × List Float) × (pass p
              (memory_map_weights p ptr shared_weights)
              weights
              s
              token
              at
            ≡ some r)
          × IsReady r.0
          × (length r.1 ≡ p.vocab_size)
    unfolding pass
    pass_returns (s, sampler) (pos token) at (sized, set) known h =
        let (s', runs, sized', _) =
          forward_returns floats maths p half mul ptr shared_weights weights token at s m final wcls
            (omega (arith, known, entries)) h sized in
        (((s', sampler), s'.logits), rw runs refl, (sized', set), logits_size s' sized')
    pass_returns (s, sampler) (negsuc n) at good known h = absurd known

    draw_returns :
        (s : Buffers Float × Sampler Float) (logits : List Float)
        → IsReady s
        → length logits ≡ p.vocab_size
        → (r : (Buffers Float × Sampler Float) × ℤ) × (draw ops s logits ≡ some r)
          × IsReady r.0
          × IsToken vocab r.1
    unfolding draw
    draw_returns (s, sampler) logits (sized, set) len =
        let likely : SomeKept floats maths ops sampler.topp (length logits) =
          rw (set, len) some_kept in
        let (after, next, runs, lt, chosen) =
          sample-Sampled floats maths ops sampler logits order likely
            (omega (arith, len, some_token)) in
        (
          ((s, after), pos next),
          rw runs refl,
          (sized, Chosen-topp floats maths ops chosen ∙ set),
          omega (arith, lt, len, entries),
        )

    -- On a model and weights as `forward` needs them, with one entry of the vocabulary for each token,
    -- comparisons that are an order, some probability at least the cutoff, the buffers of
    -- `malloc_run_state`, a prompt of known tokens and at most `seq_len` steps: the generation loop over
    -- `forward` and `sample` returns, with no access out of range, after at most `steps` passes, of
    -- which the first are those of the prompt.
    pub generate_tokens-forward :
        (prompt_tokens : List ℤ) (steps : ℕ) (s : Buffers Float × Sampler Float)
        → ((i : ℕ) (token : ℤ) → get_elem? prompt_tokens i ≡ some token → IsToken vocab token)
        → 0 < length prompt_tokens
        → IsReady s
        → steps ≤ p.seq_len
        → (r : Run (Buffers Float × Sampler Float)) × (generate_tokens
              (pass p (memory_map_weights p ptr shared_weights) weights)
              (draw ops)
              vocab
              prompt_tokens
              steps
              s
            ≡ some r)
          × (take (length r.fed) prompt_tokens ≡ take (length prompt_tokens) r.fed)
          × (length r.fed ≤ steps)
          × IsReady r.state
    generate_tokens-forward prompt_tokens steps s valid h ready few =
        generate_tokens-prompt (pass p (memory_map_weights p ptr shared_weights) weights) (draw ops)
          vocab prompt_tokens IsReady (λ logits. length logits ≡ p.vocab_size) p.seq_len
          pass_returns draw_returns valid steps s h ready few
