-- ===== src/Infer/Forward/Loops.antt =====
-- Loops over the cells of an array, four at a time and then one by one, and parts of an array.
use pi3_distributed_llm_infe.Base.{
  ℕ, zero, suc, ◌+◌, ◌-◌, ◌*◌, ◌/◌, List, ◌++◌, Option, none, some, ◌>>=◌, if◌then◌else◌, leb, ltb,
  length, set, take, drop,
}

module _ {F : Type 0} where
  unfoldable pub store : List F → ℕ → F → Option (List F)
  store xs i v = if ltb i (length xs) then some (set xs i v) else none

  -- `f buf j` is the value for cell `j`, with what the array holds when it is computed.
  -- `vst1q_f32(x + j, ...)`: four values are computed, and then stored.
  unfoldable pub quad_round : (List F → ℕ → Option F) → ℕ → List F → Option (List F)
  unfolding store
  quad_round f j buf = do
    a ← f buf j
    b ← f buf (j + 1)
    c ← f buf (j + 2)
    d ← f buf (j + 3)
    buf1 ← store buf j a
    buf2 ← store buf1 (j + 1) b
    buf3 ← store buf2 (j + 2) c
    store buf3 (j + 3) d

  -- `for (; j <= n - 4; j += 4)`, `quads` rounds of it.
  unfoldable pub quad_loop : (List F → ℕ → Option F) → ℕ → ℕ → List F → Option (List F)
  unfolding quad_round
  quad_loop f zero j buf = some buf
  quad_loop f (suc quads) j buf = quad_round f j buf >>= quad_loop f quads (j + 4)

  -- `for (; j < n; j++)`, with `left` rounds to go.
  unfoldable pub cell_loop : (List F → ℕ → Option F) → ℕ → ℕ → List F → Option (List F)
  unfolding store
  cell_loop f zero j buf = some buf
  cell_loop f (suc left) j buf = do v ← f buf j; buf' ← store buf j v; cell_loop f left (j + 1) buf'

  -- The two loops over the first `n` cells.
  unfoldable pub each_cell :
      (List F → ℕ → Option F) → (List F → ℕ → Option F) → ℕ → List F → Option (List F)
  unfolding quad_loop cell_loop
  each_cell lane f n buf = quad_loop lane (n / 4) 0 buf >>= cell_loop f (n - n / 4 * 4) (n / 4 * 4)

  -- A call that works on the `n` cells of `buf` from `offset` on.
  unfoldable pub on_part : ℕ → ℕ → (List F → Option (List F)) → List F → Option (List F)
  on_part offset n body buf =
      if leb (offset + n) (length buf)
      then (do
        part ← body (take n (drop offset buf))
        some (take offset buf ++ (part ++ drop (offset + n) buf)))
      else none

  -- The `n` cells of `buf` from `offset` on.
  unfoldable pub part_of : ℕ → ℕ → List F → Option (List F)
  part_of offset n buf =
      if leb (offset + n) (length buf) then some (take n (drop offset buf)) else none
