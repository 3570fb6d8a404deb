-- ===== src/Infer/Forward/Heads.antt =====
-- The rotation and the loop over the heads return on buffers that are long enough, and keep their
-- lengths.
use pi3_distributed_llm_infe.Base.{
  ℕ, zero, suc, ◌+◌, ◌*◌, ◌/◌, ◌≤◌, ◌<◌, ◌≡◌, refl, ap, ◌∙◌, arith, List, some, lt→ltb, length, set,
  drop, replicate, length-replicate, length-set, get_elem?-in_range,
}
use pi3_distributed_llm_infe.Infer.Float.{Floats}
use pi3_distributed_llm_infe.Infer.Matmul.Parallel.{row_value_total}
use pi3_distributed_llm_infe.Infer.Checkpoint.{Config}
use pi3_distributed_llm_infe.Infer.Forward.Loops.{store, each_cell}
use pi3_distributed_llm_infe.Infer.Forward.Cells.{IsTotal, cell_loop-Written, each_cell-Written}
use pi3_distributed_llm_infe.Infer.Forward.Norm.{Maths}
use pi3_distributed_llm_infe.Infer.Forward.Attention.{
  head_size, rope_table, rotate, rope_q, rope_qk, row_of, score, mixed_lane, mixed, mix_loop,
  score_part, attend, attend_loop,
}
use pi3_distributed_llm_infe.Infer.Forward.Kept.{on_part-Fills}
use pi3_distributed_llm_infe.Infer.Forward.Returns.{Makes, bound, drop_fits, softmax-Makes}

module _ (floats : Floats) (maths : Maths floats) where
  open floats use {Float}

  pub length-rope_table :
      (f : Float → Float) (size at left i : ℕ)
      → length (rope_table floats maths f size at left i) ≡ left
  unfolding rope_table
  length-rope_table f size at zero i = refl
  length-rope_table f size at (suc left) i = ap suc (length-rope_table f size at left (i + 2))

  rotate-Makes :
      (rope_cos rope_sin : List Float) (i : ℕ) (buf : List Float)
      → i / 2 < length rope_cos
      → i / 2 < length rope_sin
      → i + 1 < length buf
      → Makes (length buf) (rotate floats maths rope_cos rope_sin i buf)
  unfolding rotate store
  rotate-Makes rope_cos rope_sin i buf hc hs h =
      let (c, ec) = get_elem?-in_range rope_cos (i / 2) hc in
      let (s, es) = get_elem?-in_range rope_sin (i / 2) hs in
      let (a, ea) = get_elem?-in_range buf i (omega arith) in
      let (b, eb) = get_elem?-in_range buf (i + 1) h in
      let va = maths.sub (floats.mul a c) (floats.mul b s) in
      let vb = floats.add (floats.mul a s) (floats.mul b c) in
      let len = length-set buf i va in
      (
        set (set buf i va) (i + 1) vb,
        rw
            (
              ec,
              es,
              ea,
              eb,
              lt→ltb i (length buf) (omega arith),
              lt→ltb (i + 1) (length (set buf i va)) (omega (arith, h, len)),
            )
            refl,
        length-set (set buf i va) (i + 1) vb ∙ len,
      )

  pub rope_q-Makes :
      (rope_cos rope_sin : List Float) (left i : ℕ) (q : List Float)
      → i + left * 2 ≤ length rope_cos * 2
      → i + left * 2 ≤ length rope_sin * 2
      → i + left * 2 ≤ length q
      → Makes (length q) (rope_q floats maths rope_cos rope_sin left i q)
  unfolding rope_q
  rope_q-Makes rope_cos rope_sin zero i q hc hs h = (q, refl, refl)
  rope_q-Makes rope_cos rope_sin (suc left) i q hc hs h =
      let (q', e, len) =
        rotate-Makes rope_cos rope_sin i q (omega arith) (omega arith) (omega arith) in
      let (r, runs, len') =
        rope_q-Makes rope_cos rope_sin left (i + 2) q' (omega arith) (omega arith)
          (omega (arith, h, len)) in
      (r, rw e runs, len' ∙ len)

  pub rope_qk_returns :
      (rope_cos rope_sin : List Float) (left i : ℕ) (q k : List Float)
      → i + left * 2 ≤ length rope_cos * 2
      → i + left * 2 ≤ length rope_sin * 2
      → i + left * 2 ≤ length q
      → i + left * 2 ≤ length k
      → (q' : List Float) × (k' : List Float) × (rope_qk floats maths rope_cos rope_sin left i q k
          ≡ some (q', k'))
        × (length q' ≡ length q)
        × (length k' ≡ length k)
  unfolding rope_qk
  rope_qk_returns rope_cos rope_sin zero i q k hc hs hq hk = (q, k, refl, refl, refl)
  rope_qk_returns rope_cos rope_sin (suc left) i q k hc hs hq hk =
      let (q', eq, lq) =
        rotate-Makes rope_cos rope_sin i q (omega arith) (omega arith) (omega arith) in
      let (k', ek, lk) =
        rotate-Makes rope_cos rope_sin i k (omega arith) (omega arith) (omega arith) in
      let (q2, k2, runs, lq', lk') =
        rope_qk_returns rope_cos rope_sin left (i + 2) q' k' (omega arith) (omega arith)
          (omega (arith, hq, lq)) (omega (arith, hk, lk)) in
      (q2, k2, rw (eq, ek) runs, lq' ∙ lq, lk' ∙ lk)

  module _ (p : Config) (loff at : ℕ) where
    -- The rows of the positions up to `at` are in a cache.
    abbrev pub HasRows : List Float → Type 0
    HasRows cache =
        (h t : ℕ)
        → h < p.n_heads
        → t ≤ at
        → row_of floats maths p loff at h t + head_size p ≤ length cache

    score-IsTotal :
        (q key_cache : List Float) (h : ℕ)
        → HasRows key_cache
        → h < p.n_heads
        → h * head_size p + head_size p ≤ length q
        → IsTotal (score floats maths p loff at q key_cache h) (at + 1) (at + 1)
    unfolding score
    score-IsTotal q key_cache h rows hh hq att t len ht =
        let n = head_size p in
        let (v, e) =
          row_value_total floats (drop (row_of floats maths p loff at h t) key_cache)
            (drop (h * n) q) n 1 (drop_fits key_cache _ n (rows h t hh (omega arith)))
            (omega (arith, drop_fits q (h * n) n hq)) 0 (omega arith) in
        bound _ e (_, refl)

    score_part-Makes :
        (q key_cache : List Float) (h : ℕ) (part : List Float)
        → HasRows key_cache
        → h < p.n_heads
        → h * head_size p + head_size p ≤ length q
        → length part ≡ at + 1
        → Makes (at + 1) (score_part floats maths p loff at q key_cache h part)
    unfolding score_part score
    score_part-Makes q key_cache h part rows hh hq len =
        let (r, runs, w) =
          cell_loop-Written (score floats maths p loff at q key_cache h) (at + 1) (at + 1) (at + 1)
            0 part (λ a b j e. refl) (score-IsTotal q key_cache h rows hh hq) len (omega arith)
            (omega arith) in
        let (r', runs', size) =
          softmax-Makes floats maths r (at + 1) (omega arith) (w.size ∙ len) in
        (r', rw runs runs', size)

    -- A round of the loop over the values.
    mix-Makes :
        (a : Float) (v xb : List Float)
        → head_size p ≤ length v
        → length xb ≡ head_size p
        → Makes (head_size p) (
            each_cell
              (mixed_lane floats maths p loff at a v)
              (mixed floats maths p loff at a v)
              (head_size p)
              xb)
    unfolding mixed_lane mixed
    mix-Makes a v xb hv len =
        let n = head_size p in
        let (r, runs, w) =
          each_cell-Written (mixed_lane floats maths p loff at a v)
            (mixed floats maths p loff at a v) n n xb (λ x y j e. rw e refl) (λ x y j e. rw e refl)
            (λ buf j l lt.
              let (s, es) = get_elem?-in_range buf j (omega arith) in
              let (c, ec) = get_elem?-in_range v j (omega arith) in
              (floats.vmla s a c, rw (es, ec) refl))
            (λ buf j l lt.
              let (s, es) = get_elem?-in_range buf j (omega arith) in
              let (c, ec) = get_elem?-in_range v j (omega arith) in
              (floats.add s (floats.mul a c), rw (es, ec) refl))
            len (omega arith) in
        (r, runs, w.size ∙ len)

    mix_loop-Makes :
        (att value_cache : List Float) (h left t : ℕ) (xb : List Float)
        → HasRows value_cache
        → h < p.n_heads
        → h * p.seq_len + (at + 1) ≤ length att
        → t + left ≤ at + 1
        → length xb ≡ head_size p
        → Makes (head_size p) (mix_loop floats maths p loff at att value_cache h left t xb)
    unfolding mix_loop
    mix_loop-Makes att value_cache h zero t xb rows hh ha ht len = (xb, refl, len)
    mix_loop-Makes att value_cache h (suc left) t xb rows hh ha ht len =
        let (a, ea) = get_elem?-in_range att (h * p.seq_len + t) (omega arith) in
        let v : List Float = drop (row_of floats maths p loff at h t) value_cache in
        let (xb', e, len') =
          mix-Makes a v xb (drop_fits value_cache _ (head_size p) (rows h t hh (omega arith)))
            len in
        let (r, runs, size) =
          mix_loop-Makes att value_cache h left (t + 1) xb' rows hh ha (omega arith) len' in
        (r, rw (ea, e) runs, size)

    module _ (q key_cache value_cache : List Float) (rows_k : HasRows key_cache)
        (rows_v : HasRows value_cache)
        (inside : (h : ℕ) → h < p.n_heads → h * head_size p + head_size p ≤ p.dim)
        (scores : (h : ℕ) → h < p.n_heads → h * p.seq_len + (at + 1) ≤ p.n_heads * p.seq_len)
        (fits_q : length q ≡ p.dim) where
      attend_returns :
          (h : ℕ) (att xb : List Float)
          → h < p.n_heads
          → length att ≡ p.n_heads * p.seq_len
          → length xb ≡ p.dim
          → (att' : List Float) × (xb' : List Float) × (attend floats maths p loff at q key_cache
                value_cache h att xb
              ≡ some (att', xb'))
            × (length att' ≡ p.n_heads * p.seq_len)
            × (length xb' ≡ p.dim)
      unfolding attend
      attend_returns h att xb hh la lx =
          let n = head_size p in
          let part = inside h hh in
          let rows = scores h hh in
          let (att', e, l, _) =
            on_part-Fills (h * p.seq_len) (at + 1) (score_part floats maths p loff at q key_cache h)
              att (omega arith)
              (λ part len.
                score_part-Makes q key_cache h part rows_k hh (omega (arith, part)) len) in
          let (xb', e', l', _) =
            on_part-Fills (h * n) n
              (λ part.
                mix_loop floats maths p loff at att' value_cache h (at + 1) 0
                  (replicate n floats.zero))
              xb (omega arith)
              (λ part len.
                mix_loop-Makes att' value_cache h (at + 1) 0 (replicate n floats.zero) rows_v hh
                  (omega arith) (omega arith) (length-replicate n floats.zero)) in
          (att', xb', rw (e, e') refl, l ∙ la, l' ∙ lx)

      pub attend_loop_returns :
          (left h : ℕ) (att xb : List Float)
          → h + left ≤ p.n_heads
          → length att ≡ p.n_heads * p.seq_len
          → length xb ≡ p.dim
          → (att' : List Float) × (xb' : List Float) × (attend_loop floats maths p loff at q
                key_cache value_cache left h att xb
              ≡ some (att', xb'))
            × (length att' ≡ p.n_heads * p.seq_len)
            × (length xb' ≡ p.dim)
      unfolding attend_loop
      attend_loop_returns zero h att xb hh la lx = (att, xb, refl, la, lx)
      attend_loop_returns (suc left) h att xb hh la lx =
          let (att1, xb1, e, la', lx') = attend_returns h att xb (omega arith) la lx in
          let (att', xb', runs, la2, lx2) =
            attend_loop_returns left (h + 1) att1 xb1 (omega arith) la' lx' in
          (att', xb', rw e runs, la2, lx2)
