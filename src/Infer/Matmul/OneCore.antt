-- ===== src/Infer/Matmul/OneCore.antt =====
-- The loop of `matmul_worker` over a range of rows: which cells it writes, and with what.
use pi3_distributed_llm_infe.Base.{
  ℕ, zero, suc, ◌+◌, ◌*◌, ◌≤◌, ◌<◌, ◌≡◌, refl, sym, ◌∙◌, List, [], ◌∷◌, some, arith, ◌==◌, length,
  get_elem?, set, length-set, ap, inl, inr, Bool-cases, ==_iff,
}
use pi3_distributed_llm_infe.Base.Swap.{get_elem?-set}
use pi3_distributed_llm_infe.Infer.Float.{Floats}
use pi3_distributed_llm_infe.Infer.Matmul.{row_value, worker_rows}
use pi3_distributed_llm_infe.Infer.Matmul.Parallel.{row_value_total}

pub list_ext :
    {A : Type 0} (xs ys : List A)
    → length xs ≡ length ys
    → ((i : ℕ) → i < length xs → get_elem? xs i ≡ get_elem? ys i)
    → xs ≡ ys
list_ext [] [] e h = refl
list_ext [] (y ∷ ys) e h = absurd (omega arith)
list_ext (x ∷ xs) [] e h = absurd (omega arith)
list_ext (x ∷ xs) (y ∷ ys) e h =
    let first : some x ≡ some y = h 0 (omega arith) in
    let rest = list_ext xs ys (omega arith) (λ i k. h (suc i) (omega arith)) in cc

module _ (floats : Floats) (x w : List floats.Float) (n d : ℕ) (fits_x : n ≤ length x)
    (fits_w : d * n ≤ length w) where
  -- The cells that `left` rounds from row `i` on make of `xout`.
  pub record Rounds (xout : List floats.Float) (left i : ℕ) (r : List floats.Float) : Type 0 where
    pub runs : worker_rows floats x w n left i xout ≡ some r
    pub size : length r ≡ length xout
    pub written : (j : ℕ) → i ≤ j → j < i + left → get_elem? r j ≡ row_value floats x w n j
    pub before : (j : ℕ) → j < i → get_elem? r j ≡ get_elem? xout j

  pub worker_rows-Rounds :
      (xout : List floats.Float) (left i : ℕ)
      → i + left ≤ d
      → i + left ≤ length xout
      → (r : List floats.Float) × Rounds xout left i r
  unfolding worker_rows
  worker_rows-Rounds xout zero i h k = (
    xout,
    record {
      runs = refl;
      size = refl;
      written = λ j a b. absurd (omega arith);
      before = λ j a. refl;
    },
  )
  worker_rows-Rounds xout (suc left) i h k =
      let (v, ev) = row_value_total floats x w n d fits_x fits_w i (omega arith) in
      let (r, o) =
        worker_rows-Rounds (set xout i v) left (i + 1) (omega arith)
          (omega (arith, length-set xout i v)) in
      (
        r,
        record {
          runs = rw ev o.runs;
          size = o.size ∙ length-set xout i v;
          written = λ j a b. at r v j a b o.written o.before ev;
          before = λ j a.
              ground (arith, o.before j (omega arith), get_elem?-set xout i j v (omega arith));
        },
      )
    where
      at :
          (r : List floats.Float) (v : floats.Float) (j : ℕ)
          → i ≤ j
          → j < i + suc left
          → ((j : ℕ) → i + 1 ≤ j → j < i + 1 + left → get_elem? r j ≡ row_value floats x w n j)
          → ((j : ℕ) → j < i + 1 → get_elem? r j ≡ get_elem? (set xout i v) j)
          → row_value floats x w n i ≡ some v
          → get_elem? r j ≡ row_value floats x w n j
      at r v j a b later early ev = elim (Bool-cases (i == j)) [
        | inl same ↦
            let e : i ≡ j = (==_iff i j).0 same in
            let put : get_elem? (set xout i v) j ≡ some v =
              ground (arith, get_elem?-set xout i j v (omega arith)) in
            early j (omega arith) ∙ put ∙ sym ev ∙ ap (row_value floats x w n) e
        | inr other ↦ later j (ground arith) (omega arith)
      ]
