-- ===== src/Infer/Forward/Pass.antt =====
-- A layer returns, and the caches keep the rows of the other positions.
use pi3_distributed_llm_infe.Base.{
  ℕ, zero, suc, ◌+◌, ◌*◌, ◌≤◌, ◌<◌, ◌≡◌, refl, sym, subst, ◌∙◌, arith, false, List, some, length,
}
use pi3_distributed_llm_infe.Infer.Float.{Floats}
use pi3_distributed_llm_infe.Infer.Checkpoint.{Config, TransformerWeights, kv_dim}
use pi3_distributed_llm_infe.Infer.Forward.Norm.{Maths}
use pi3_distributed_llm_infe.Infer.Forward.Layer.{
  Buffers, project, attention, feed_forward, layer, layers,
}
use pi3_distributed_llm_infe.Infer.Forward.Returns.{part_of-Makes, add-Makes}
use pi3_distributed_llm_infe.Infer.Forward.Heads.{attend_loop_returns}
use pi3_distributed_llm_infe.Infer.Forward.Shape.{
  IsModel, dim_even, kv_even, kv_dim-le, head_inside, row_inside, cache-HasRows, score_inside,
}
use pi3_distributed_llm_infe.Infer.Forward.Kept.{on_part-Fills}
use pi3_distributed_llm_infe.Infer.Forward.Room.{
  Fits, Kept, InFile, full, table_matmul, part_matmul, table_norm, rotated, gate-Makes,
}

module _ (floats : Floats) (maths : Maths floats) where
  open floats use {Float}

  module _ (p : Config) (half mul : ℕ) (m : IsModel p half mul) (w : TransformerWeights)
      (weights rope_cos rope_sin : List Float) (at : ℕ)
      (in_file : (l : ℕ) → l < p.n_layers → InFile p w l (length weights))
      (cos_fits : length rope_cos ≡ p.n_heads * half)
      (sin_fits : length rope_sin ≡ p.n_heads * half) (at_fits : at < p.seq_len) where
    project_returns :
        (l : ℕ) (s : Buffers Float)
        → l < p.n_layers
        → Fits p s
        → (s' : Buffers Float) × (project floats maths p w weights rope_cos rope_sin at l s
            ≡ some s')
          × Fits p s'
          × Kept p at s s'
    unfolding project
    project_returns l s hl f =
        let kv = kv_dim p in
        let place = l * p.seq_len * kv + at * kv in
        let t = in_file l hl in
        let row = row_inside p half mul m l at hl at_fits in
        let row_in : (cache : List Float)
            → length cache ≡ p.n_layers * p.seq_len * kv
            → place + kv ≤ length cache =
          λ cache len. subst (λ n. place + kv ≤ n) (sym len) row in
        let (xb, e_xb, l_xb) =
          table_norm floats maths false s.xb s.x weights (w.rms_att_weight + l * p.dim) p.dim f.xb
            f.x t.att in
        let (q, e_q, l_q) =
          table_matmul floats maths s.q xb weights (w.wq + l * p.dim * p.dim) p.dim p.dim l_xb f.q
            t.wq in
        let (keys, e_keys, l_keys, same_keys) =
          part_matmul floats maths s.key_cache xb weights place (w.wk + l * p.dim * kv) p.dim kv
            l_xb (row_in s.key_cache f.key_cache) t.wk in
        let (values, e_values, l_values, same_values) =
          part_matmul floats maths s.value_cache xb weights place (w.wv + l * p.dim * kv) p.dim kv
            l_xb (row_in s.value_cache f.value_cache) t.wv in
        let keys_fit = row_in keys (l_keys ∙ f.key_cache) in
        let (k, e_k, l_k) = part_of-Makes place kv keys keys_fit in
        let (q', k', q2, e_qk, e_q2, l_k', l_q2) =
          rotated floats maths rope_cos rope_sin q k p.dim kv (p.n_heads * half)
            (p.n_kv_heads * half) cos_fits sin_fits (dim_even p half mul m) (kv_even p half mul m)
            (kv_dim-le p half mul m) l_q l_k in
        let (keys', e_keys', l_keys', same_keys') =
          on_part-Fills place kv (λ k. some k') keys keys_fit (λ k len. (k', refl, l_k')) in
        (
          record s { xb = xb; q = q2; key_cache = keys'; value_cache = values },
          rw (e_xb, e_q, e_keys, e_values, e_k, e_qk, e_keys', e_q2) refl,
          record {
            x = f.x;
            xb = l_xb;
            xb2 = f.xb2;
            hb = f.hb;
            hb2 = f.hb2;
            q = l_q2;
            key_cache = l_keys' ∙ l_keys ∙ f.key_cache;
            value_cache = l_values ∙ f.value_cache;
            att = f.att;
            logits = f.logits;
          },
          record {
            keys = λ j o. same_keys' j (o l hl) ∙ same_keys j (o l hl);
            values = λ j o. same_values j (o l hl);
          },
        )

    attention_returns :
        (l : ℕ) (s : Buffers Float)
        → l < p.n_layers
        → Fits p s
        → (s' : Buffers Float) × (attention floats maths p w weights rope_cos rope_sin at l s
            ≡ some s')
          × Fits p s'
          × Kept p at s s'
    unfolding attention
    attention_returns l s hl f =
        let t = in_file l hl in
        let (att, xb, e, l_att, l_xb) =
          attend_loop_returns floats maths p (l * p.seq_len * kv_dim p) at s.q s.key_cache
            s.value_cache (cache-HasRows p half mul m maths l at s.key_cache hl at_fits f.key_cache)
            (cache-HasRows p half mul m maths l at s.value_cache hl at_fits f.value_cache)
            (head_inside p half mul m) (λ h hh. score_inside p h at hh at_fits) f.q p.n_heads 0
            s.att s.xb (omega arith) f.att f.xb in
        let (xb2, e_xb2, l_xb2) =
          table_matmul floats maths s.xb2 xb weights (w.wo + l * p.dim * p.dim) p.dim p.dim l_xb
            f.xb2 t.wo in
        let (x, e_x, l_x) = add-Makes floats maths xb2 s.x p.dim f.x (full xb2 p.dim l_xb2) in
        (
          record s { x = x; xb = xb; xb2 = xb2; att = att },
          rw (e, e_xb2, e_x) refl,
          record {
            x = l_x;
            xb = l_xb;
            xb2 = l_xb2;
            hb = f.hb;
            hb2 = f.hb2;
            q = f.q;
            key_cache = f.key_cache;
            value_cache = f.value_cache;
            att = l_att;
            logits = f.logits;
          },
          record { keys = λ j o. refl; values = λ j o. refl },
        )

    feed_forward_returns :
        (l : ℕ) (s : Buffers Float)
        → l < p.n_layers
        → Fits p s
        → (s' : Buffers Float) × (feed_forward floats maths p w weights rope_cos rope_sin at l s
            ≡ some s')
          × Fits p s'
          × Kept p at s s'
    unfolding feed_forward
    feed_forward_returns l s hl f =
        let t = in_file l hl in
        let (xb, e_xb, l_xb) =
          table_norm floats maths false s.xb s.x weights (w.rms_ffn_weight + l * p.dim) p.dim f.xb
            f.x t.ffn in
        let (hb, e_hb, l_hb) =
          table_matmul floats maths s.hb xb weights (w.w1 + l * p.dim * p.hidden_dim) p.dim
            p.hidden_dim l_xb f.hb t.w1 in
        let (hb2, e_hb2, l_hb2) =
          table_matmul floats maths s.hb2 xb weights (w.w3 + l * p.dim * p.hidden_dim) p.dim
            p.hidden_dim l_xb f.hb2 t.w3 in
        let (hb', e_hb', l_hb') = gate-Makes floats maths hb2 hb p.hidden_dim l_hb l_hb2 in
        let (xb', e_xb', l_xb') =
          table_matmul floats maths xb hb' weights (w.w2 + l * p.dim * p.hidden_dim) p.hidden_dim
            p.dim l_hb' l_xb t.w2 in
        let (x, e_x, l_x) = add-Makes floats maths xb' s.x p.dim f.x (full xb' p.dim l_xb') in
        (
          record s { x = x; xb = xb'; hb = hb'; hb2 = hb2 },
          rw (e_xb, e_hb, e_hb2, e_hb', e_xb', e_x) refl,
          record {
            x = l_x;
            xb = l_xb';
            xb2 = f.xb2;
            hb = l_hb';
            hb2 = l_hb2;
            q = f.q;
            key_cache = f.key_cache;
            value_cache = f.value_cache;
            att = f.att;
            logits = f.logits;
          },
          record { keys = λ j o. refl; values = λ j o. refl },
        )

    pub layers_returns :
        (left l : ℕ) (s : Buffers Float)
        → l + left ≤ p.n_layers
        → Fits p s
        → (s' : Buffers Float) × (layers floats maths p w weights rope_cos rope_sin at left l s
            ≡ some s')
          × Fits p s'
          × Kept p at s s'
    unfolding layers layer
    layers_returns zero l s h f = (s, refl, f, record { keys = λ j o. refl; values = λ j o. refl })
    layers_returns (suc left) l s h f =
        let (s1, e1, f1, k1) = project_returns l s (omega arith) f in
        let (s2, e2, f2, k2) = attention_returns l s1 (omega arith) f1 in
        let (s3, e3, f3, k3) = feed_forward_returns l s2 (omega arith) f2 in
        let (s', runs, f', k') = layers_returns left (l + 1) s3 (omega arith) f3 in
        (
          s',
          rw (e1, e2, e3) runs,
          f',
          record {
            keys = λ j o. k'.keys j o ∙ k3.keys j o ∙ k2.keys j o ∙ k1.keys j o;
            values = λ j o. k'.values j o ∙ k3.values j o ∙ k2.values j o ∙ k1.values j o;
          },
        )
