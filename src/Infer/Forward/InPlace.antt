-- ===== src/Infer/Forward/InPlace.antt =====
-- `rmsnorm` of an array into itself, as `forward` calls it at its end.
use pi3_distributed_llm_infe.Base.{
  ℕ, ◌+◌, ◌≤◌, ◌<◌, ◌≡◌, refl, sym, ◌∙◌, arith, true, false, List, length,
}
use pi3_distributed_llm_infe.Infer.Float.{Floats}
use pi3_distributed_llm_infe.Infer.Matmul.OneCore.{list_ext}
use pi3_distributed_llm_infe.Infer.Forward.Cells.{pick_same, each_cell-Written}
use pi3_distributed_llm_infe.Infer.Forward.Norm.{Maths, normed, rmsnorm}
use pi3_distributed_llm_infe.Infer.Forward.Returns.{normed-IsLocal, normed-IsTotal, rms_scale_total}

module _ (floats : Floats) (maths : Maths floats) where
  open floats use {Float}

  -- On arrays of `size` cells, and weights of at least as many: `rmsnorm` into the array that it reads
  -- has the result that it has into another array.
  pub rmsnorm_in_place :
      (o x weight : List Float) (size : ℕ)
      → length o ≡ size
      → length x ≡ size
      → size ≤ length weight
      → rmsnorm floats maths true x x weight size ≡ rmsnorm floats maths false o x weight size
  unfolding rmsnorm normed
  rmsnorm_in_place o x weight size lo lx hw =
      let (ss, e) = rms_scale_total floats maths x size (omega (arith, lx)) in
      let f = normed floats maths true x weight ss in
      let g = normed floats maths false x weight ss in
      let tf =
        normed-IsTotal floats maths true x weight ss size size (omega (arith, lx)) hw
          (omega arith) in
      let tg =
        normed-IsTotal floats maths false x weight ss size size (omega (arith, lx)) hw
          (omega arith) in
      let lf = normed-IsLocal floats maths true x weight ss in
      let lg = normed-IsLocal floats maths false x weight ss in
      let (r, runs, w) = each_cell-Written f f size size x lf lf tf tf lx (omega arith) in
      let (r', runs', w') = each_cell-Written g g size size o lg lg tg tg lo (omega arith) in
      let same : r ≡ r' = list_ext r r' (w.size ∙ lx ∙ sym lo ∙ sym w'.size) (λ j lt.
        let h : j < 0 + size = omega (arith, w.size, lx, lt) in
        w.written j (omega arith) h
        ∙ pick_same f size x j
        ∙ sym (pick_same g size o j)
        ∙ sym (w'.written j (omega arith) h)) in
      rw (e, runs, runs', same) refl
