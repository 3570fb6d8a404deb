-- ===== src/Infer/Forward/Attention.antt =====
-- The attention of one layer: the rotation of queries and keys, and the loop over the heads.
use pi3_distributed_llm_infe.Base.{
  ℕ, zero, suc, ◌+◌, ◌*◌, ◌/◌, ◌%◌, List, [], ◌∷◌, Option, some, ◌>>=◌, get_elem?, drop, replicate,
}
use pi3_distributed_llm_infe.Infer.Float.{Floats}
use pi3_distributed_llm_infe.Infer.Matmul.{row_value}
use pi3_distributed_llm_infe.Infer.Checkpoint.{Config, kv_dim}
use pi3_distributed_llm_infe.Infer.Forward.Loops.{store, cell_loop, each_cell, on_part}
use pi3_distributed_llm_infe.Infer.Forward.Norm.{Maths, softmax}

abbrev pub head_size : Config → ℕ
head_size p = p.dim / p.n_heads

abbrev pub kv_mul : Config → ℕ
kv_mul p = p.n_heads / p.n_kv_heads

module _ (floats : Floats) (maths : Maths floats) where
  open floats use {Float, add, mul, vmla}
  open maths use {one, theta, sub, divide, of_int, sqrtf, powf, cosf, sinf}

  -- The angle of the pair of cells at `i`.
  unfoldable pub rope_angle : ℕ → ℕ → ℕ → Float
  rope_angle size at i =
      let freq = divide one (powf theta (divide (of_int (i % size)) (of_int size))) in
      mul (of_int at) freq

  -- `rope_cos` or `rope_sin`, from `i` on, with `left` rounds to go.
  unfoldable pub rope_table : (Float → Float) → ℕ → ℕ → ℕ → ℕ → List Float
  unfolding rope_angle
  rope_table f size at zero i = []
  rope_table f size at (suc left) i = f (rope_angle size at i) ∷ rope_table f size at left (i + 2)

  unfoldable pub rotate : List Float → List Float → ℕ → List Float → Option (List Float)
  unfolding store
  rotate rope_cos rope_sin i buf = do
    fcr ← get_elem? rope_cos (i / 2)
    fci ← get_elem? rope_sin (i / 2)
    v0 ← get_elem? buf i
    v1 ← get_elem? buf (i + 1)
    buf' ← store buf i (sub (mul v0 fcr) (mul v1 fci))
    store buf' (i + 1) (add (mul v0 fci) (mul v1 fcr))

  -- `for (; i < n; i += 2)` over `q` alone, and over `q` and `k`, with `left` rounds to go.
  unfoldable pub rope_q : List Float → List Float → ℕ → ℕ → List Float → Option (List Float)
  unfolding rotate
  rope_q rope_cos rope_sin zero i q = some q
  rope_q rope_cos rope_sin (suc left) i q = do
    q' ← rotate rope_cos rope_sin i q
    rope_q rope_cos rope_sin left (i + 2) q'

  unfoldable pub rope_qk :
      List Float → List Float → ℕ → ℕ → List Float → List Float → Option (List Float × List Float)
  unfolding rotate
  rope_qk rope_cos rope_sin zero i q k = some (q, k)
  rope_qk rope_cos rope_sin (suc left) i q k = do
    q' ← rotate rope_cos rope_sin i q
    k' ← rotate rope_cos rope_sin i k
    rope_qk rope_cos rope_sin left (i + 2) q' k'

  module _ (p : Config) (loff at : ℕ) where
    -- Where the head's part of the row of position `t` starts in a cache.
    abbrev pub row_of : ℕ → ℕ → ℕ
    row_of h t = loff + t * kv_dim p + h / kv_mul p * head_size p

    -- The value for `att[t]`: the loops are those of a row of `matmul`.
    unfoldable pub score : List Float → List Float → ℕ → List Float → ℕ → Option Float
    unfolding row_value
    score q key_cache h att t = do
      s ← row_value floats (drop (row_of h t) key_cache) (drop (h * head_size p) q) (head_size p) 0
      some (mul s (divide one (sqrtf (of_int (head_size p)))))

    -- The values for `xb[i]`, by vectors and alone.
    unfoldable pub mixed_lane : Float → List Float → List Float → ℕ → Option Float
    mixed_lane a v xb i = do s ← get_elem? xb i; c ← get_elem? v i; some (vmla s a c)

    unfoldable pub mixed : Float → List Float → List Float → ℕ → Option Float
    mixed a v xb i = do s ← get_elem? xb i; c ← get_elem? v i; some (add s (mul a c))

    -- The loop over the values of the positions, from `t` on.
    unfoldable pub mix_loop : List Float → List Float → ℕ → ℕ → ℕ → List Float → Option (List Float)
    unfolding mixed_lane mixed each_cell
    mix_loop att value_cache h zero t xb = some xb
    mix_loop att value_cache h (suc left) t xb = do
      a ← get_elem? att (h * p.seq_len + t)
      xb' ←
          each_cell (mixed_lane a (drop (row_of h t) value_cache))
            (mixed a (drop (row_of h t) value_cache)) (head_size p) xb
      mix_loop att value_cache h left (t + 1) xb'

    -- The scores of a head.
    unfoldable pub score_part : List Float → List Float → ℕ → List Float → Option (List Float)
    unfolding score cell_loop softmax
    score_part q key_cache h part = do
      part' ← cell_loop (score q key_cache h) (at + 1) 0 part
      softmax floats maths part' (at + 1)

    -- One round of the loop over the heads: `att` and `xb`.
    unfoldable pub attend :
        List Float
        → List Float
        → List Float
        → ℕ
        → List Float
        → List Float
        → Option (List Float × List Float)
    unfolding on_part score_part mix_loop
    attend q key_cache value_cache h att xb = do
      att' ← on_part (h * p.seq_len) (at + 1) (score_part q key_cache h) att
      xb' ←
          on_part (h * head_size p) (head_size p)
            (λ part. mix_loop att' value_cache h (at + 1) 0 (replicate (head_size p) floats.zero))
            xb
      some (att', xb')

    unfoldable pub attend_loop :
        List Float
        → List Float
        → List Float
        → ℕ
        → ℕ
        → List Float
        → List Float
        → Option (List Float × List Float)
    unfolding attend
    attend_loop q key_cache value_cache zero h att xb = some (att, xb)
    attend_loop q key_cache value_cache (suc left) h att xb = do
      (att', xb') ← attend q key_cache value_cache h att xb
      attend_loop q key_cache value_cache left (h + 1) att' xb'
