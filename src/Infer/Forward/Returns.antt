-- ===== src/Infer/Forward/Returns.antt =====
-- `rmsnorm`, `softmax` and `matmul` return on arrays that are long enough, and keep their lengths.
use pi3_distributed_llm_infe.Base.{
  ℕ, zero, suc, ◌+◌, ◌-◌, ◌*◌, ◌/◌, ◌≤◌, ◌<◌, ◌≡◌, refl, ap, ◌∙◌, arith, Bool, true, false, List,
  Option, some, ◌>>=◌, get_elem?, inl, inr, leb, le→leb, lt→ltb, Bool-cases, leb→le, length, set,
  take, drop, length-take, length-drop, length-set, get_elem?-in_range,
}
use pi3_distributed_llm_infe.Infer.Float.{Floats}
use pi3_distributed_llm_infe.Infer.Matmul.{Lanes, vld1q}
use pi3_distributed_llm_infe.Infer.Matmul.Parallel.{row_value_total}
use pi3_distributed_llm_infe.Infer.Matmul.OneCore.{worker_rows-Rounds}
use pi3_distributed_llm_infe.Infer.Forward.Loops.{store, each_cell, part_of}
use pi3_distributed_llm_infe.Infer.Forward.Cells.{IsLocal, IsTotal, pick_same, each_cell-Written}
use pi3_distributed_llm_infe.Infer.Forward.Norm.{
  Maths, rms_scale, normed, rmsnorm, max_quads, max_rest, max_of, exp_loop, scaled, softmax,
}
use pi3_distributed_llm_infe.Infer.Forward.Layer.{matmul, added}

-- A chain that returns, since its first call and the rest of it do.
pub bound :
    {A B : Type 0} {o : Option A} {a : A}
    → (f : A → Option B) → o ≡ some a
    → (b : B) × (f a ≡ some b)
    → (b : B) × ((o >>= f) ≡ some b)
bound f e (b, runs) = (b, ap (λ x. x >>= f) e ∙ runs)

-- A call that returns an array of `n` cells.
abbrev pub Makes : {F : Type 0} → ℕ → Option (List F) → Type 0
Makes {F} n o = (r : List F) × (o ≡ some r) × (length r ≡ n)

pub drop_fits :
    {F : Type 0} (xs : List F) (offset n : ℕ) → offset + n ≤ length xs → n ≤ length (drop offset xs)
drop_fits xs offset n h = omega (arith, length-drop offset xs)

pub part_of-Makes :
    {F : Type 0} (offset n : ℕ) (buf : List F)
    → offset + n ≤ length buf
    → Makes n (part_of offset n buf)
unfolding part_of
part_of-Makes offset n buf h = (
  take n (drop offset buf),
  rw (le→leb _ _ h) refl,
  length-take n (drop offset buf) ∙ omega (arith, h, length-drop offset buf),
)

module _ (floats : Floats) (maths : Maths floats) where
  open floats use {Float}

  pub matmul-Makes :
      (xout x w : List Float) (n d : ℕ)
      → n ≤ length x
      → d * n ≤ length w
      → d ≤ length xout
      → Makes (length xout) (matmul floats maths xout x w n d)
  unfolding matmul
  matmul-Makes xout x w n d fits_x fits_w room =
      let (r, o) =
        worker_rows-Rounds floats x w n d fits_x fits_w xout d 0 (omega arith) (omega arith) in
      (r, rw (le→leb _ _ room) o.runs, o.size)

  -- One value of a loop over cells, from two arrays.
  pub added-IsLocal : (y : List Float) → IsLocal (added floats maths y)
  unfolding added
  added-IsLocal y a b j e = rw e refl

  pub added-IsTotal :
      (y : List Float) (n size : ℕ)
      → n ≤ size
      → n ≤ length y
      → IsTotal (added floats maths y) n size
  unfolding added
  added-IsTotal y n size h k buf j len lt =
      let (v, ev) = get_elem?-in_range buf j (omega arith) in
      let (u, eu) = get_elem?-in_range y j (omega arith) in (floats.add v u, rw (ev, eu) refl)

  pub add-Makes :
      (y x : List Float) (n : ℕ)
      → length x ≡ n
      → n ≤ length y
      → Makes n (each_cell (added floats maths y) (added floats maths y) n x)
  add-Makes y x n len h =
      let total = added-IsTotal y n n (omega arith) h in
      let (r, runs, w) =
        each_cell-Written (added floats maths y) (added floats maths y) n n x (added-IsLocal y)
          (added-IsLocal y) total total len (omega arith) in
      (r, runs, w.size ∙ len)

  pub rms_scale_total :
      (x : List Float) (size : ℕ)
      → size ≤ length x
      → (v : Float) × (rms_scale floats maths x size ≡ some v)
  unfolding rms_scale
  rms_scale_total x size h =
      let (ss, e) = row_value_total floats x x size 1 h (omega (arith, h)) 0 (omega arith) in
      bound _ e (_, refl)

  -- Of `normed`, when `o` is written and `x` is another array, or is `o`.
  pub normed-IsLocal :
      (in_place : Bool) (x weight : List Float) (ss : Float)
      → IsLocal (normed floats maths in_place x weight ss)
  unfolding normed
  normed-IsLocal true x weight ss a b j e = rw e refl
  normed-IsLocal false x weight ss a b j e = refl

  pub normed-IsTotal :
      (in_place : Bool) (x weight : List Float) (ss : Float) (n size : ℕ)
      → n ≤ length x
      → n ≤ length weight
      → n ≤ size
      → IsTotal (normed floats maths in_place x weight ss) n size
  unfolding normed
  normed-IsTotal true x weight ss n size hx hw hs buf j len lt =
      let (g, eg) = get_elem?-in_range weight j (omega arith) in
      let (v, ev) = get_elem?-in_range buf j (omega arith) in bound _ eg (bound _ ev (_, refl))
  normed-IsTotal false x weight ss n size hx hw hs buf j len lt =
      let (g, eg) = get_elem?-in_range weight j (omega arith) in
      let (v, ev) = get_elem?-in_range x j (omega arith) in bound _ eg (bound _ ev (_, refl))

  pub rmsnorm-Makes :
      (in_place : Bool) (o x weight : List Float) (size : ℕ)
      → length o ≡ size
      → size ≤ length x
      → size ≤ length weight
      → Makes size (rmsnorm floats maths in_place o x weight size)
  unfolding rmsnorm
  rmsnorm-Makes in_place o x weight size len hx hw =
      let (ss, e) = rms_scale_total x size hx in
      let total = normed-IsTotal in_place x weight ss size size hx hw (omega arith) in
      let local = normed-IsLocal in_place x weight ss in
      let f = normed floats maths in_place x weight ss in
      let (r, runs, w) =
        each_cell-Written f f size size o local local total total len (omega arith) in
      (r, rw e runs, w.size ∙ len)

  vld1q_total :
      (x : List Float) (i : ℕ) → i + 4 ≤ length x → (v : Lanes floats) × (vld1q floats x i ≡ some v)
  unfolding vld1q
  vld1q_total x i h =
      let (a, ea) = get_elem?-in_range x i (omega arith) in
      let (b, eb) = get_elem?-in_range x (i + 1) (omega arith) in
      let (c, ec) = get_elem?-in_range x (i + 2) (omega arith) in
      let (d, ed) = get_elem?-in_range x (i + 3) (omega arith) in
      ((a, b, c, d), rw (ea, eb, ec, ed) refl)

  max_quads_total :
      (x : List Float) (quads i : ℕ) (m : Lanes floats)
      → i + quads * 4 ≤ length x
      → (v : Lanes floats) × (max_quads floats maths x quads i m ≡ some v)
  unfolding max_quads
  max_quads_total x zero i m h = (m, refl)
  max_quads_total x (suc quads) i m h =
      let (v, e) = vld1q_total x i (omega arith) in
      bound _ e (max_quads_total x quads (i + 4) _ (omega arith))

  max_rest_total :
      (x : List Float) (left i : ℕ) (m : Float)
      → i + left ≤ length x
      → (v : Float) × (max_rest floats maths x left i m ≡ some v)
  unfolding max_rest
  max_rest_total x zero i m h = (m, refl)
  max_rest_total x (suc left) i m h =
      let (v, e) = get_elem?-in_range x i (omega arith) in
      bound _ e (max_rest_total x left (i + 1) _ (omega arith))

  max_of_total :
      (x : List Float) (size : ℕ)
      → 0 < size
      → size ≤ length x
      → (v : Float) × (max_of floats maths x size ≡ some v)
  unfolding max_of
  max_of_total x size pos h = elim (Bool-cases (leb 4 size)) [
    | inl big ↦
        let long = leb→le _ _ big in
        let (first, e) = vld1q_total x 0 (omega arith) in
        let (m, em) = max_quads_total x (size / 4 - 1) 4 first (omega arith) in
        rw big (
          bound _ e
            (bound _ em (max_rest_total x (size - size / 4 * 4) (size / 4 * 4) _ (omega arith))))
    | inr few ↦
        let (first, e) = get_elem?-in_range x 0 (omega arith) in
        rw few (bound _ e (max_rest_total x (size - 1) 1 first (omega arith)))
  ]

  exp_loop_total :
      (left i : ℕ) (m sum : Float) (x : List Float)
      → i + left ≤ length x
      → (y : List Float) × (s : Float) × (exp_loop floats maths left i m sum x ≡ some (y, s))
        × (length y ≡ length x)
  unfolding exp_loop store
  exp_loop_total zero i m sum x h = (x, sum, refl, refl)
  exp_loop_total (suc left) i m sum x h =
      let (v, e) = get_elem?-in_range x i (omega arith) in
      let v' = maths.expf (maths.sub v m) in
      let (y, s, runs, len) =
        exp_loop_total left (i + 1) m (floats.add sum v') (set x i v')
          (omega (arith, h, length-set x i v')) in
      (y, s, rw (e, lt→ltb i (length x) (omega arith)) runs, len ∙ length-set x i v')

  -- `softmax` returns, and each cell that it leaves is a product.
  pub softmax_result :
      (x : List Float) (size : ℕ)
      → 0 < size
      → length x ≡ size
      → (r : List Float) × (softmax floats maths x size ≡ some r)
        × (length r ≡ size)
        × ((j : ℕ) → j < size → (v f : Float) × (get_elem? r j ≡ some (floats.mul v f)))
  unfolding softmax scaled
  softmax_result x size pos len =
      let (m, em) = max_of_total x size pos (omega arith) in
      let (y, s, ey, leny) = exp_loop_total size 0 m floats.zero x (omega arith) in
      let factor = maths.divide maths.one s in
      let f = scaled floats maths factor in
      let total : IsTotal f size size =
        λ buf j l lt. let (v, e) = get_elem?-in_range buf j (omega arith) in bound _ e (_, refl) in
      let (r, runs, w) =
        each_cell-Written f f size size y (λ a b j e. rw e refl) (λ a b j e. rw e refl) total total
          (leny ∙ len) (omega arith) in
      (
        r,
        rw (em, ey) runs,
        w.size ∙ leny ∙ len,
        λ j lt.
            let inside : j < length y = omega (arith, lt, leny, len) in
            let (v, cell) = get_elem?-in_range y j inside in
            (
              v,
              factor,
              w.written j (omega arith) (omega (arith, lt)) ∙ pick_same f size y j ∙ rw cell refl,
            ),
      )

  pub softmax-Makes :
      (x : List Float) (size : ℕ)
      → 0 < size
      → length x ≡ size
      → Makes size (softmax floats maths x size)
  softmax-Makes x size pos len =
      let (r, runs, size', cells) = softmax_result x size pos len in (r, runs, size')
