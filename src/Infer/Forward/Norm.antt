-- ===== src/Infer/Forward/Norm.antt =====
-- `rmsnorm` and `softmax`.
use pi3_distributed_llm_infe.Base.{
  ℕ, zero, suc, ◌+◌, ◌-◌, ◌*◌, ◌/◌, Bool, List, Option, some, ◌>>=◌, if◌then◌else◌, leb, get_elem?,
}
use pi3_distributed_llm_infe.Infer.Float.{Floats}
use pi3_distributed_llm_infe.Infer.Matmul.{Lanes, vld1q, row_value}
use pi3_distributed_llm_infe.Infer.Forward.Loops.{store, each_cell}

-- The rest of the arithmetic that the pass uses, of which nothing is assumed. `vmax` is one lane of
-- `vmaxq_f32` and of `vpmax_f32`, `of_int` the conversion of an `int`.
pub record Maths (floats : Floats) : Type 0 where
  pub one : floats.Float
  pub epsilon : floats.Float
  pub theta : floats.Float
  pub sub : floats.Float → floats.Float → floats.Float
  pub divide : floats.Float → floats.Float → floats.Float
  pub neg : floats.Float → floats.Float
  pub vmax : floats.Float → floats.Float → floats.Float
  pub gt : floats.Float → floats.Float → Bool
  pub of_int : ℕ → floats.Float
  pub sqrtf : floats.Float → floats.Float
  pub expf : floats.Float → floats.Float
  pub powf : floats.Float → floats.Float → floats.Float
  pub cosf : floats.Float → floats.Float
  pub sinf : floats.Float → floats.Float

module _ (floats : Floats) (maths : Maths floats) where
  open floats use {Float, add, mul}
  open maths use {one, epsilon, sub, divide, vmax, gt, of_int, sqrtf, expf}

  -- The first loops of `rmsnorm` are those of a row of `matmul`, on `x` and itself.
  unfoldable pub rms_scale : List Float → ℕ → Option Float
  unfolding row_value
  rms_scale x size = do
    ss ← row_value floats x x size 0
    some (divide one (sqrtf (add (divide ss (of_int size)) epsilon)))

  -- The value for `o[j]`. With `in_place`, `o` is `x`.
  unfoldable pub normed : Bool → List Float → List Float → Float → List Float → ℕ → Option Float
  normed in_place x weight ss o j = do
    g ← get_elem? weight j
    v ← get_elem? (if in_place then o else x) j
    some (mul g (mul ss v))

  unfoldable pub rmsnorm : Bool → List Float → List Float → List Float → ℕ → Option (List Float)
  unfolding rms_scale each_cell normed
  rmsnorm in_place o x weight size = do
    ss ← rms_scale x size
    each_cell (normed in_place x weight ss) (normed in_place x weight ss) size o

  -- `max_vec`, with `quads` vectors to go from cell `i` on.
  unfoldable pub max_quads : List Float → ℕ → ℕ → Lanes floats → Option (Lanes floats)
  unfolding vld1q
  max_quads x zero i m = some m
  max_quads x (suc quads) i m = do
    v ← vld1q floats x i
    max_quads x quads (i + 4) (vmax m.0 v.0, vmax m.1 v.1, vmax m.2 v.2, vmax m.3 v.3)

  -- `for (; i < size; i++) if (x[i] > max_val) max_val = x[i]`
  unfoldable pub max_rest : List Float → ℕ → ℕ → Float → Option Float
  max_rest x zero i max_val = some max_val
  max_rest x (suc left) i max_val = do
    v ← get_elem? x i
    max_rest x left (i + 1) (if gt v max_val then v else max_val)

  unfoldable pub max_of : List Float → ℕ → Option Float
  unfolding max_quads max_rest vld1q
  max_of x size =
      if leb 4 size
      then (do
        first ← vld1q floats x 0
        m ← max_quads x (size / 4 - 1) 4 first
        max_rest x (size - size / 4 * 4) (size / 4 * 4) (vmax (vmax m.2 m.3) (vmax m.0 m.1)))
      else (do first ← get_elem? x 0; max_rest x (size - 1) 1 first)

  -- The loop over `expf`, which also adds up.
  unfoldable pub exp_loop : ℕ → ℕ → Float → Float → List Float → Option (List Float × Float)
  unfolding store
  exp_loop zero i max_val sum x = some (x, sum)
  exp_loop (suc left) i max_val sum x = do
    v ← get_elem? x i
    x' ← store x i (expf (sub v max_val))
    exp_loop left (i + 1) max_val (add sum (expf (sub v max_val))) x'

  unfoldable pub scaled : Float → List Float → ℕ → Option Float
  scaled factor x j = get_elem? x j >>= λ v. some (mul v factor)

  unfoldable pub softmax : List Float → ℕ → Option (List Float)
  unfolding max_of exp_loop scaled each_cell
  softmax x size = do
    max_val ← max_of x size
    (x', sum) ← exp_loop size 0 max_val floats.zero x
    each_cell (scaled (divide one sum)) (scaled (divide one sum)) size x'
