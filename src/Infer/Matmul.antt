-- ===== src/Infer/Matmul.antt =====
-- `matmul` and `matmul_worker` of run.c. The arrays are lists of floats; `none` is a read out of
-- range. `xout` overlaps neither `x` nor `w`.
pub mod Rows
pub mod Parallel
pub mod OneCore
pub mod Interleaved
use pi3_distributed_llm_infe.Base.{
  ℕ, zero, suc, ◌+◌, ◌-◌, ◌*◌, ◌/◌, ◌≤◌, ltb, leb, List, [], ◌∷◌, Option, none, some, ◌>>=◌,
  if◌then◌else◌, get_elem?, set,
}
use pi3_distributed_llm_infe.Infer.Float.{Floats}
use pi3_distributed_llm_infe.Multicore.{num_cores, Command, call, work, wait}

module _ (floats : Floats) where
  open floats use {Float, add, mul, vmla}

  -- The four lanes of a NEON register.
  abbrev pub Lanes : Type 0
  Lanes = Float × Float × Float × Float

  unfoldable pub vld1q : List Float → ℕ → Option Lanes
  vld1q xs i = do
    a ← get_elem? xs i
    b ← get_elem? xs (i + 1)
    c ← get_elem? xs (i + 2)
    d ← get_elem? xs (i + 3)
    some (a, b, c, d)

  unfoldable pub vmlaq : Lanes → Lanes → Lanes → Lanes
  vmlaq acc p q = (vmla acc.0 p.0 q.0, vmla acc.1 p.1 q.1, vmla acc.2 p.2 q.2, vmla acc.3 p.3 q.3)

  -- `vadd_f32` of the two halves, then `vpadd_f32`.
  unfoldable pub sum_lanes : Lanes → Float
  sum_lanes acc = add (add acc.2 acc.0) (add acc.3 acc.1)

  -- `for (; j <= n - 4; j += 4)`, `quads` rounds of it, on the row that starts at `row`.
  unfoldable pub dot_quads : List Float → ℕ → List Float → ℕ → ℕ → Lanes → Option Lanes
  dot_quads w row x zero j acc = some acc
  dot_quads w row x (suc quads) j acc = do
    p ← vld1q w (row + j)
    q ← vld1q x j
    dot_quads w row x quads (j + 4) (vmlaq acc p q)

  -- `for (; j < n; j++)`, with `left` rounds to go.
  unfoldable pub dot_rest : List Float → ℕ → List Float → ℕ → ℕ → Float → Option Float
  dot_rest w row x zero j val = some val
  dot_rest w row x (suc left) j val = do
    p ← get_elem? w (row + j)
    q ← get_elem? x j
    dot_rest w row x left (j + 1) (add val (mul p q))

  -- The body of the worker's loop: the value for `xout[i]`.
  unfoldable pub row_value : List Float → List Float → ℕ → ℕ → Option Float
  row_value x w n i = do
    acc ← dot_quads w (i * n) x (n / 4) 0 (floats.zero, floats.zero, floats.zero, floats.zero)
    dot_rest w (i * n) x (n - n / 4 * 4) (n / 4 * 4) (sum_lanes acc)

  -- `matmul_worker`, with `left` rows to go from row `i` on.
  unfoldable pub worker_rows :
      List Float → List Float → ℕ → ℕ → ℕ → List Float → Option (List Float)
  worker_rows x w n zero i xout = some xout
  worker_rows x w n (suc left) i xout = do
    val ← row_value x w n i
    worker_rows x w n left (i + 1) (set xout i val)

-- `MatmulArgs`, less the pointers that all cores share.
pub record MatmulArgs : Type 0 where
  pub d_start : ℕ
  pub d_end : ℕ

-- The split of the `d` output rows over the cores.
unfoldable pub matmul_args : ℕ → ℕ → MatmulArgs
matmul_args d c =
    let chunk = (d + num_cores - 1) / num_cores in
    let ds = c * chunk in
    let de = ds + chunk in
    record { d_start = if ltb d ds then d else ds; d_end = if ltb d de then d else de }

-- The rows `[d_start, d_end)`, in the order of the worker's loop.
unfoldable pub rows : ℕ → ℕ → List ℕ
rows zero i = []
rows (suc left) i = i ∷ rows left (i + 1)

unfoldable pub rows_of : MatmulArgs → List ℕ
unfolding rows
rows_of a = rows (a.d_end - a.d_start) a.d_start

abbrev pub works : List ℕ → List Command → List Command
works [] r = r
works (i ∷ is) r = work i ∷ works is r

-- `matmul` on core 0: `worker` is the address of `matmul_worker`, and the argument for core `c`
-- stands for `&matmul_args[c]`. `multicore_wait_all` waits for the cores 1 to 3 in order.
unfoldable pub matmul_script : ℕ → ℕ → List Command
unfolding rows_of matmul_args
matmul_script worker d =
    call 1 worker 1
    ∷ call 2 worker 2
    ∷ call 3 worker 3
    ∷ works (rows_of (matmul_args d 0)) (wait 1 ∷ wait 2 ∷ wait 3 ∷ [])
