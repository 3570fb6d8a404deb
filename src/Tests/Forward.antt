-- ===== src/Tests/Forward.antt =====
-- The pass through the transformer at a small model, with natural numbers in the place of floats.
use pi3_distributed_llm_infe.Base.{
  ℕ, zero, suc, take, subst, ap, leb, ◌==◌, ◌+◌, ◌-◌, ◌*◌, ◌/◌, ◌≤◌, ◌<◌, ◌≡◌, ◌≢◌, refl, ◌∙◌,
  arith, true, false, if◌then◌else◌, ltb, List, [], ◌∷◌, some, length, get_elem?, replicate,
  length-replicate,
}
use pi3_distributed_llm_infe.Infer.Float.{Floats}
use pi3_distributed_llm_infe.Infer.Checkpoint.{Config, kv_dim, memory_map_weights, malloc_run_state}
use pi3_distributed_llm_infe.Infer.Forward.Loops.{each_cell}
use pi3_distributed_llm_infe.Infer.Forward.Cells.{IsTotal, Written, pick, each_cell-Written}
use pi3_distributed_llm_infe.Infer.Forward.Norm.{Maths, rmsnorm}
use pi3_distributed_llm_infe.Infer.Forward.Layer.{Buffers, added, forward}
use pi3_distributed_llm_infe.Infer.Forward.Returns.{added-IsLocal, added-IsTotal, softmax_result}
use pi3_distributed_llm_infe.Infer.Forward.InPlace.{rmsnorm_in_place}
use pi3_distributed_llm_infe.Infer.Generate.{Run, Sampler, SampleOps, generate_tokens}
use pi3_distributed_llm_infe.Infer.Generate.Loop.{IsToken}
use pi3_distributed_llm_infe.Infer.Generate.Sample.{IsOrder, SomeKept, Sampled, sample-Sampled}
use pi3_distributed_llm_infe.Infer.Generate.Model.{pass, draw, generate_tokens-forward}
use pi3_distributed_llm_infe.Base.Int.{ℤ, pos}
use pi3_distributed_llm_infe.Infer.Forward.Shape.{IsModel}
use pi3_distributed_llm_infe.Infer.Forward.Room.{sizes}
use pi3_distributed_llm_infe.Infer.Forward.Total.{forward_returns}

abbrev floats : Floats
floats = record {
  Float = ℕ;
  zero = 0;
  add = ◌+◌;
  mul = λ a b. a * b + 1;
  vmla = λ acc p q. acc + p * q;
}

abbrev maths : Maths floats
maths = record {
  one = 1;
  epsilon = 1;
  theta = 10000;
  sub = ◌-◌;
  divide = ◌/◌;
  neg = λ a. a;
  vmax = λ a b. if ltb a b then b else a;
  gt = λ a b. ltb b a;
  of_int = λ n. n;
  sqrtf = λ a. a;
  expf = λ a. a + 1;
  powf = λ a b. a;
  cosf = λ a. a + 1;
  sinf = λ a. a;
}

-- Two heads of two cells, which share their keys and values.
abbrev config : Config
config = record {
  dim = 4;
  hidden_dim = 6;
  n_layers = 2;
  n_heads = 2;
  n_kv_heads = 1;
  vocab_size = 5;
  seq_len = 3;
}

config-IsModel : IsModel config 1 2
config-IsModel = record {
  some_layer = omega arith;
  some_head = omega arith;
  some_kv_head = omega arith;
  split = refl;
  shared = refl;
}

abbrev weights : List ℕ
weights = replicate 600 3

abbrev zeros : ℕ → List ℕ
zeros n = replicate n 0

abbrev state : Buffers ℕ
state = record {
  x = zeros 4;
  xb = zeros 4;
  xb2 = zeros 4;
  hb = zeros 6;
  hb2 = zeros 6;
  q = zeros 4;
  key_cache = zeros 12;
  value_cache = zeros 12;
  att = zeros 6;
  logits = zeros 5;
}

state_sizes : sizes state ≡ malloc_run_state config
unfolding malloc_run_state
state_sizes = refl

final_fits : (memory_map_weights config 7 true).rms_final_weight + 4 ≤ length weights
unfolding memory_map_weights
final_fits = omega (arith, length-replicate {A = ℕ} 600 3)

wcls_fits : (memory_map_weights config 7 true).wcls + 4 * 5 ≤ length weights
unfolding memory_map_weights
wcls_fits = omega (arith, length-replicate {A = ℕ} 600 3)

forward_returns_example :
    (s' : Buffers ℕ) × (forward floats maths config
        (memory_map_weights config 7 true)
        weights
        4
        1
        state
      ≡ some s')
    × (sizes s' ≡ malloc_run_state config)
    × ((l t i : ℕ)
        → t ≢ 1
        → t < 3
        → i < kv_dim config
        → (get_elem? s'.key_cache (l * 3 * kv_dim config + t * kv_dim config + i)
            ≡ get_elem? state.key_cache (l * 3 * kv_dim config + t * kv_dim config + i))
          × (get_elem? s'.value_cache (l * 3 * kv_dim config + t * kv_dim config + i)
              ≡ get_elem? state.value_cache (l * 3 * kv_dim config + t * kv_dim config + i)))
forward_returns_example =
    forward_returns floats maths config 1 2 7 true weights 4 1 state config-IsModel final_fits
      wcls_fits (omega arith) (omega arith) state_sizes

abbrev five : List ℕ
five = 5 ∷ 6 ∷ 7 ∷ 8 ∷ 9 ∷ []

abbrev ones : List ℕ
ones = 1 ∷ 1 ∷ 1 ∷ 1 ∷ 1 ∷ []

ones-IsTotal : IsTotal (added floats maths ones) 5 5
ones-IsTotal = added-IsTotal floats maths ones 5 5 (omega arith) (omega arith)

each_cell_example :
    (r : List ℕ) × (each_cell (added floats maths ones) (added floats maths ones) 5 five ≡ some r)
    × Written (pick (added floats maths ones) (added floats maths ones) 5 five) 5 0 five r
each_cell_example =
    each_cell-Written (added floats maths ones) (added floats maths ones) 5 5 five
      (added-IsLocal floats maths ones) (added-IsLocal floats maths ones) ones-IsTotal ones-IsTotal
      refl (omega arith)

rmsnorm_in_place_example :
    rmsnorm floats maths true five five ones 5 ≡ rmsnorm floats maths false ones five ones 5
rmsnorm_in_place_example = rmsnorm_in_place floats maths ones five ones 5 refl refl (omega arith)

abbrev ops : SampleOps ℕ
ops = record {
  equal = ◌==◌;
  ge = λ a b. leb b a;
  lt = ltb;
  le = leb;
  cutoff = λ topp n. 1;
  unit_of = λ n. n;
}

abbrev sampler : Sampler ℕ
sampler = record { temperature = 2; topp = 3; rng_state = 1 }

ops-IsOrder : IsOrder floats maths ops
ops-IsOrder = record {
  asymmetric = λ a b h. ground arith;
  cotransitive = λ a b c h k. ground arith;
  converse = λ a b. refl;
}

ops-SomeKept : SomeKept floats maths ops 3 5
ops-SomeKept x ps len e =
    let (r, e', size, cells) = softmax_result floats maths x 5 (omega arith) len in
    let same : ps ≡ r = cc in
    let (v, f, cell) = cells 0 (omega arith) in
    (0, v * f + 1, ap (λ l. get_elem? l 0) same ∙ cell, ground arith)

sample_example : Sampled floats maths ops sampler five
sample_example = sample-Sampled floats maths ops sampler five ops-IsOrder ops-SomeKept (omega arith)

abbrev vocab : List (List ℕ)
vocab = replicate 5 (97 ∷ [])

abbrev prompt : List ℤ
prompt = pos 1 ∷ pos 4 ∷ []

prompt-IsToken : (i : ℕ) (token : ℤ) → get_elem? prompt i ≡ some token → IsToken vocab token
prompt-IsToken zero token e =
    let same : pos 1 ≡ token = cc in subst (IsToken vocab) same (omega arith)
prompt-IsToken (suc zero) token e =
    let same : pos 4 ≡ token = cc in subst (IsToken vocab) same (omega arith)
prompt-IsToken (suc (suc i)) token e = cc

generate_forward_example :
    (r : Run (Buffers ℕ × Sampler ℕ)) × (generate_tokens
        (pass floats maths config (memory_map_weights config 7 true) weights)
        (draw floats maths ops)
        vocab
        prompt
        3
        (state, sampler)
      ≡ some r)
    × (take (length r.fed) prompt ≡ take 2 r.fed)
    × (length r.fed ≤ 3)
    × ((sizes r.state.0 ≡ malloc_run_state config) × (r.state.1.topp ≡ 3))
generate_forward_example =
    generate_tokens-forward floats maths ops config 1 2 7 true weights 3 vocab config-IsModel
      final_fits wcls_fits (omega arith) refl ops-IsOrder ops-SomeKept prompt 3 (state, sampler)
      prompt-IsToken (omega arith) (state_sizes, refl) (omega arith)
