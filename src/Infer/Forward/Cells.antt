-- ===== src/Infer/Forward/Cells.antt =====
-- What the loops over the cells of an array write: the vector loop is the loop over single cells.
use pi3_distributed_llm_infe.Base.{
  ℕ, zero, suc, ◌+◌, ◌-◌, ◌*◌, ◌/◌, ◌≤◌, ◌<◌, ◌≡◌, ◌≢◌, refl, sym, ap, ◌∙◌, arith, List, Option,
  some, subst, le→ltb_false, ◌⊎◌, inl, inr, if◌then◌else◌, ltb, lt→ltb, ◌==◌, ==_iff, Bool-cases,
  length, get_elem?, set, length-set, get_elem?-set_self, get_elem?-set_ne,
}
use pi3_distributed_llm_infe.Infer.Forward.Loops.{
  store, quad_round, quad_loop, cell_loop, each_cell,
}

module _ {F : Type 0} where
  -- What a value is computed from: of the array that is written, its own cell alone.
  abbrev pub IsLocal : (List F → ℕ → Option F) → Type 0
  IsLocal f = (a b : List F) (j : ℕ) → get_elem? a j ≡ get_elem? b j → f a j ≡ f b j

  -- Each of the first `n` cells of an array of `size` gets a value.
  abbrev pub IsTotal : (List F → ℕ → Option F) → ℕ → ℕ → Type 0
  IsTotal f n size =
      (buf : List F) (j : ℕ) → length buf ≡ size → j < n → (v : F) × (f buf j ≡ some v)

  -- The array `r` that a loop makes of `buf`: `value` in its `left` cells from `i` on.
  pub record Written (value : ℕ → Option F) (left i : ℕ) (buf r : List F) : Type 0 where
    pub size : length r ≡ length buf
    pub written : (j : ℕ) → i ≤ j → j < i + left → get_elem? r j ≡ value j
    pub others : (j : ℕ) → (j < i) ⊎ (i + left ≤ j) → get_elem? r j ≡ get_elem? buf j

  store-some : (buf : List F) (i : ℕ) (v : F) → i < length buf → store buf i v ≡ some (set buf i v)
  unfolding store
  store-some buf i v h = rw (lt→ltb _ _ h) refl

  -- One cell written, and then the cells behind it.
  one_more :
      (f : List F → ℕ → Option F) (left i : ℕ) (buf r : List F) (v : F)
      → IsLocal f
      → i < length buf
      → f buf i ≡ some v
      → Written (f (set buf i v)) left (i + 1) (set buf i v) r
      → Written (f buf) (suc left) i buf r
  one_more f left i buf r v local h e w = record {
    size = w.size ∙ length-set buf i v;
    written = λ j a b. elim (Bool-cases (i == j)) [
      | inl same ↦
          let at : i ≡ j = (==_iff i j).0 same in
          w.others j (inl (omega (arith, at)))
          ∙ ap (get_elem? (set buf i v)) (sym at)
          ∙ get_elem?-set_self buf i v h
          ∙ sym e
          ∙ ap (f buf) at
      | inr other ↦
          let ne : i ≢ j = ground arith in
          w.written j (ground arith) (omega (arith, b))
          ∙ local (set buf i v) buf j (get_elem?-set_ne buf v ne)
    ];
    others =
        λ j o. let ne : i ≢ j = apart j o in w.others j (further j o) ∙ get_elem?-set_ne buf v ne;
  }
    where
      apart : (j : ℕ) → (j < i) ⊎ (i + suc left ≤ j) → i ≢ j
      apart j (inl h) e = absurd (omega arith)
      apart j (inr h) e = absurd (omega arith)

      further : (j : ℕ) → (j < i) ⊎ (i + suc left ≤ j) → (j < i + 1) ⊎ (i + 1 + left ≤ j)
      further j (inl h) = inl (omega arith)
      further j (inr h) = inr (omega arith)

  pub cell_loop-Written :
      (f : List F → ℕ → Option F) (n size left i : ℕ) (buf : List F)
      → IsLocal f
      → IsTotal f n size
      → length buf ≡ size
      → i + left ≤ n
      → n ≤ size
      → (r : List F) × (cell_loop f left i buf ≡ some r) × Written (f buf) left i buf r
  unfolding cell_loop
  cell_loop-Written f n size zero i buf local total len h k = (
    buf,
    refl,
    record { size = refl; written = λ j a b. absurd (omega arith); others = λ j o. refl },
  )
  cell_loop-Written f n size (suc left) i buf local total len h k =
      let (v, e) = total buf i len (omega arith) in
      let buf' : List F = set buf i v in
      let put = store-some buf i v (omega arith) in
      let (r, runs, w) =
        cell_loop-Written f n size left (i + 1) buf' local total (length-set buf i v ∙ len)
          (omega arith) k in
      (r, rw (e, put) runs, one_more f left i buf r v local (omega arith) e w)

  -- A store of four values is four stores of one.
  quad_round-cells :
      (f : List F → ℕ → Option F) (n size j : ℕ) (buf : List F)
      → IsLocal f
      → IsTotal f n size
      → length buf ≡ size
      → j + 4 ≤ n
      → n ≤ size
      → quad_round f j buf ≡ cell_loop f 4 j buf
  unfolding quad_round cell_loop
  quad_round-cells f n size j buf local total len h k =
      let (a, ea) = total buf j len (omega arith) in
      let (b, eb) = total buf (j + 1) len (omega arith) in
      let (c, ec) = total buf (j + 2) len (omega arith) in
      let (d, ed) = total buf (j + 3) len (omega arith) in
      let buf1 : List F = set buf j a in
      let buf2 : List F = set buf1 (j + 1) b in
      let buf3 : List F = set buf2 (j + 2) c in
      let len1 = length-set buf j a in
      let len2 = length-set buf1 (j + 1) b in
      let len3 = length-set buf2 (j + 2) c in
      let next1 : j + 1 + 1 ≡ j + 2 = omega arith in
      let next2 : j + 2 + 1 ≡ j + 3 = omega arith in
      let sb : f buf1 (j + 1) ≡ some b =
        local buf1 buf (j + 1) (get_elem?-set_ne buf a (λ e. absurd (omega arith))) ∙ eb in
      let sc : f buf2 (j + 2) ≡ some c =
        local buf2 buf (j + 2) (
          get_elem?-set_ne buf1 b (λ e. absurd (omega arith))
          ∙ get_elem?-set_ne buf a (λ e. absurd (omega arith)))
        ∙ ec in
      let sd : f buf3 (j + 3) ≡ some d =
        local buf3 buf (j + 3) (
          get_elem?-set_ne buf2 c (λ e. absurd (omega arith))
          ∙ get_elem?-set_ne buf1 b (λ e. absurd (omega arith))
          ∙ get_elem?-set_ne buf a (λ e. absurd (omega arith)))
        ∙ ed in
      let pa = store-some buf j a (omega arith) in
      let pb = store-some buf1 (j + 1) b (omega (arith, len1)) in
      let pc = store-some buf2 (j + 2) c (omega (arith, len1, len2)) in
      let pd = store-some buf3 (j + 3) d (omega (arith, len1, len2, len3)) in
      rw (ea, eb, ec, ed, pa, pb, pc, pd, sb, pb, next1, sc, pc, next2, sd, pd) refl

  -- Two loops, one behind the other.
  joined :
      (g h value : ℕ → Option F) (a b i : ℕ) (buf mid r : List F)
      → Written g a i buf mid
      → Written h b (i + a) mid r
      → ((j : ℕ) → j < i + a → g j ≡ value j)
      → ((j : ℕ) → i + a ≤ j → h j ≡ value j)
      → Written value (a + b) i buf r
  joined g h value a b i buf mid r one two low high = record {
    size = two.size ∙ one.size;
    written = λ j x y. elim (Bool-cases (ltb j (i + a))) [
      | inl first ↦
          two.others j (inl (ground arith)) ∙ one.written j x (ground arith) ∙ low j (ground arith)
      | inr second ↦ two.written j (ground arith) (omega (arith, y)) ∙ high j (ground arith)
    ];
    others = λ j o. two.others j (past j o) ∙ one.others j (outside j o);
  }
    where
      past : (j : ℕ) → (j < i) ⊎ (i + (a + b) ≤ j) → (j < i + a) ⊎ (i + a + b ≤ j)
      past j (inl h) = inl (omega arith)
      past j (inr h) = inr (omega arith)

      outside : (j : ℕ) → (j < i) ⊎ (i + (a + b) ≤ j) → (j < i) ⊎ (i + a ≤ j)
      outside j (inl h) = inl h
      outside j (inr h) = inr (omega arith)

  quad_loop-Written :
      (f : List F → ℕ → Option F) (n size quads j : ℕ) (buf : List F)
      → IsLocal f
      → IsTotal f n size
      → length buf ≡ size
      → j + quads * 4 ≤ n
      → n ≤ size
      → (r : List F) × (quad_loop f quads j buf ≡ some r) × Written (f buf) (quads * 4) j buf r
  unfolding quad_loop
  quad_loop-Written f n size zero j buf local total len h k = (
    buf,
    refl,
    record { size = refl; written = λ i a b. absurd (omega arith); others = λ i o. refl },
  )
  quad_loop-Written f n size (suc quads) j buf local total len h k =
      let (mid, one, w) = cell_loop-Written f n size 4 j buf local total len (omega arith) k in
      let (r, runs, w') =
        quad_loop-Written f n size quads (j + 4) mid local total (w.size ∙ len) (omega arith) k in
      let sum : 4 + quads * 4 ≡ suc quads * 4 = omega arith in
      (
        r,
        rw (quad_round-cells f n size j buf local total len (omega arith) k, one) runs,
        subst (λ m. Written (f buf) m j buf r) sum
            (joined (f buf) (f mid) (f buf) 4 (quads * 4) j buf mid r w w' (λ i x. refl)
              (λ i x. local mid buf i (w.others i (inr x)))),
      )

  -- The value that the two loops give to a cell: by vectors below the last multiple of four.
  abbrev pub pick : (List F → ℕ → Option F) → (List F → ℕ → Option F) → ℕ → List F → ℕ → Option F
  pick lane f n buf j = if ltb j (n / 4 * 4) then lane buf j else f buf j

  -- Where each cell has a value, which depends on no other cell of the array: the two loops return,
  -- with that value in each of the first `n` cells, and no other cell changed.
  pub each_cell-Written :
      (lane f : List F → ℕ → Option F) (n size : ℕ) (buf : List F)
      → IsLocal lane
      → IsLocal f
      → IsTotal lane n size
      → IsTotal f n size
      → length buf ≡ size
      → n ≤ size
      → (r : List F) × (each_cell lane f n buf ≡ some r) × Written (pick lane f n buf) n 0 buf r
  unfolding each_cell
  each_cell-Written lane f n size buf ll lf tl tf len k =
      let q = n / 4 * 4 in
      let (mid, vectors, w) =
        quad_loop-Written lane n size (n / 4) 0 buf ll tl len (omega arith) k in
      let (r, runs, w') =
        cell_loop-Written f n size (n - q) q mid lf tf (w.size ∙ len) (omega arith) k in
      let sum : q + (n - q) ≡ n = omega arith in
      let start : 0 + q ≡ q = omega arith in
      (
        r,
        rw vectors runs,
        subst (λ m. Written (pick lane f n buf) m 0 buf r) sum
            (joined (lane buf) (f mid) (pick lane f n buf) q (n - q) 0 buf mid r w
              (subst (λ m. Written (f mid) (n - q) m mid r) (sym start) w')
              (λ j x. low j (omega (arith, x)))
              (λ j x. lf mid buf j (w.others j (inr x)) ∙ high j (omega (arith, x)))),
      )
    where
      low : (j : ℕ) → j < n / 4 * 4 → lane buf j ≡ pick lane f n buf j
      low j h = rw (lt→ltb _ _ h) refl

      high : (j : ℕ) → n / 4 * 4 ≤ j → f buf j ≡ pick lane f n buf j
      high j h = rw (le→ltb_false _ _ h) refl

pub pick_same :
    {F : Type 0} (f : List F → ℕ → Option F) (n : ℕ) (buf : List F) (j : ℕ)
    → pick f f n buf j ≡ f buf j
pick_same f n buf j = elim (Bool-cases (ltb j (n / 4 * 4))) [
  | inl low ↦ rw low refl
  | inr high ↦ rw high refl
]
