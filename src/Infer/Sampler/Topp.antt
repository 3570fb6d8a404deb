-- ===== src/Infer/Sampler/Topp.antt =====
-- `sample_topp` draws one of the tokens that pass the cutoff.
use mathlib.Core.List.{Perm, not-mem-nil}
use mathlib.Core.List.Perm
use pi3_distributed_llm_infe.Base.{
  ℕ, zero, suc, ◌+◌, ◌<◌, ◌≡◌, refl, sym, ◌∙◌, arith, Bool, true, false, List, [], ◌∷◌, Option,
  none, some, inl, inr, length, Bool-cases, ap, get_elem?, get_elem?-in_range, get_elem?-mem,
  all_of_get_elem?,
}
use pi3_distributed_llm_infe.Base.Int.{is_neg, is_pos}
use pi3_distributed_llm_infe.Libc.Compare.{le, IsComparison}
use pi3_distributed_llm_infe.Libc.Qsort.Sorts.{qsort-Sorts}
use pi3_distributed_llm_infe.Infer.Sampler.{
  ProbIndex, compare_prob, crop, truncate, draw_loop, index_or_last, sample_topp,
}

module _ {Float : Type 0} (add mul : Float → Float → Float) (gt ge lt : Float → Float → Bool)
    (cutoff : Float → ℕ → Float) where
  abbrev Cell : Type 0
  Cell = ProbIndex Float

  passes : Float → Option Float → Bool
  passes least none = false
  passes least (some p) = ge p least

  -- `index` is that of a probability of at least the cutoff.
  pub kept : Float → List Float → ℕ → Bool
  unfolding passes
  kept topp ps index = passes (cutoff topp (length ps)) (get_elem? ps index)

  passes_in_range :
      (least : Float) (ps : List Float) (i : ℕ)
      → passes least (get_elem? ps i) ≡ true
      → i < length ps
  unfolding passes
  passes_in_range least [] i h = cc
  passes_in_range least (p ∷ ps) zero h = omega arith
  passes_in_range least (p ∷ ps) (suc i) h = omega (arith, passes_in_range least ps i h)

  pub kept_in_range :
      (topp : Float) (ps : List Float) (index : ℕ) → kept topp ps index ≡ true → index < length ps
  unfolding kept
  kept_in_range topp ps index h = passes_in_range (cutoff topp (length ps)) ps index h

  -- The last index of the truncated list is in range.
  truncate_in_range :
      (topp : Float) (cells : List Cell) (i : ℕ) (cum : Float)
      → 0 < i + length cells
      → (truncate add mul gt ge lt cutoff topp cells i cum).1 < i + length cells
  unfolding truncate
  truncate_in_range topp [] i cum h = omega arith
  truncate_in_range topp (c ∷ rest) i cum h =
      ground (arith, truncate_in_range topp rest (i + 1) (add cum c.prob) (omega arith))

  -- What holds of the index of every cell holds of the one drawn.
  draw_of :
      (good : ℕ → Bool) (left : ℕ) (cells : List Cell) (cdf r : Float) (index : ℕ)
      → ((j : ℕ) (c : Cell) → get_elem? cells j ≡ some c → good c.index ≡ true)
      → draw_loop add mul gt ge lt cutoff left cells cdf r ≡ some index
      → good index ≡ true
  unfolding draw_loop
  draw_of good zero cells cdf r index h e = cc
  draw_of good (suc left) [] cdf r index h e = cc
  draw_of good (suc left) (c ∷ rest) cdf r index h e = elim (Bool-cases (lt r (add cdf c.prob))) [
    | inl now ↦
        let first : some c.index ≡ some index = rw now at e in
        let same : c.index ≡ index = cc in ap good (sym same) ∙ h 0 c refl
    | inr later ↦ draw_of good left rest (add cdf c.prob) r index (λ j. h (suc j)) (rw later at e)
  ]

  crop-kept :
      (topp : Float) (ps rest : List Float) (i : ℕ)
      → ((j : ℕ) → get_elem? ps (i + j) ≡ get_elem? rest j)
      → (j : ℕ) (c : Cell)
      → get_elem? (crop add mul gt ge lt cutoff (cutoff topp (length ps)) rest i) j ≡ some c
      → kept topp ps c.index ≡ true
  unfolding crop kept passes
  crop-kept topp ps [] i at j c e = cc
  crop-kept topp ps (p ∷ rest) i at j c e = elim (Bool-cases (ge p (cutoff topp (length ps)))) [
    | inl above ↦ taken above (λ k. crop-kept topp ps rest (i + 1) next k c) j (rw above at e)
    | inr below ↦ crop-kept topp ps rest (i + 1) next j c (rw below at e)
  ]
    where
      next : (j : ℕ) → get_elem? ps (i + 1 + j) ≡ get_elem? rest j
      next j = ap (get_elem? ps) (omega arith) ∙ at (suc j)

      here : get_elem? ps i ≡ some p
      here = ap (get_elem? ps) (omega arith) ∙ at 0

      taken :
          ge p (cutoff topp (length ps)) ≡ true
          → ((k : ℕ)
              → get_elem? (crop add mul gt ge lt cutoff (cutoff topp (length ps)) rest (i + 1)) k
                ≡ some c
              → kept topp ps c.index ≡ true)
          → (j : ℕ)
          → get_elem?
              (record { prob = p; index = i }
                ∷ crop add mul gt ge lt cutoff (cutoff topp (length ps)) rest (i + 1))
              j
            ≡ some c
          → kept topp ps c.index ≡ true
      taken above later zero e =
          let same : record { prob = p; index = i } ≡ c = cc in
          ap (λ (d : Cell). kept topp ps d.index) (sym same) ∙ (rw here above)
      taken above later (suc j) e = later j e

  candidate_left :
      (least : Float) (rest : List Float) (i j : ℕ) (p : Float)
      → get_elem? rest j ≡ some p
      → ge p least ≡ true
      → 0 < length (crop add mul gt ge lt cutoff least rest i)
  unfolding crop
  candidate_left least [] i j p e h = cc
  candidate_left least (q ∷ rest) i j p e h = elim (Bool-cases (ge q least)) [
    | inl above ↦ rw above (omega arith)
    | inr below ↦ rw below (go below (λ k f. candidate_left least rest (i + 1) k p f h) j e)
  ]
    where
      go :
          ge q least ≡ false
          → ((k : ℕ)
              → get_elem? rest k ≡ some p
              → 0 < length (crop add mul gt ge lt cutoff least rest (i + 1)))
          → (j : ℕ) → get_elem? (q ∷ rest) j ≡ some p
          → 0 < length (crop add mul gt ge lt cutoff least rest (i + 1))
      go below later zero e =
          let same : q ≡ p = cc in absurd (cc (below, h, ap (λ x. ge x least) same))
      go below later (suc j) e = later j e

  module _ (asymmetric : (a b : Float) → gt a b ≡ true → gt b a ≡ false)
      (cotransitive : (a b c : Float) → gt b a ≡ false → gt c b ≡ false → gt c a ≡ false)
      (converse : (a b : Float) → lt a b ≡ gt b a) where
    compare_prob-IsComparison : IsComparison (compare_prob add mul gt ge lt cutoff)
    unfolding compare_prob
    compare_prob-IsComparison = record { flip = flips; trans = chains }
      where
        flips :
            (a b : Cell)
            → is_pos (compare_prob add mul gt ge lt cutoff a b)
              ≡ is_neg (compare_prob add mul gt ge lt cutoff b a)
        flips a b = ground (
          arith,
          asymmetric a.prob b.prob,
          asymmetric b.prob a.prob,
          converse a.prob b.prob,
          converse b.prob a.prob,
        )

        chains :
            (a b c : Cell)
            → le (compare_prob add mul gt ge lt cutoff) a b
            → le (compare_prob add mul gt ge lt cutoff) b c
            → le (compare_prob add mul gt ge lt cutoff) a c
        chains a b c p q = ground (
          arith,
          asymmetric a.prob b.prob,
          asymmetric b.prob c.prob,
          asymmetric a.prob c.prob,
          cotransitive a.prob b.prob c.prob,
          converse a.prob b.prob,
          converse b.prob c.prob,
          converse a.prob c.prob,
        )

    -- Whatever was drawn or fallen back to, it is the index of a candidate.
    picked :
        (good : ℕ → Bool) (cells : List Cell) (last_idx : ℕ) (drawn : Option ℕ)
        → ((j : ℕ) (c : Cell) → get_elem? cells j ≡ some c → good c.index ≡ true)
        → last_idx < length cells
        → ((index : ℕ) → drawn ≡ some index → good index ≡ true)
        → (index : ℕ) × (index_or_last add mul gt ge lt cutoff cells last_idx drawn ≡ some index)
          × (good index ≡ true)
    unfolding index_or_last
    picked good cells last_idx none h k d =
        let (c, e) = get_elem?-in_range cells last_idx k in (c.index, rw e refl, h last_idx c e)
    picked good cells last_idx (some index) h k d = (index, refl, d index refl)

    -- If `>` is a strict weak order and `<` its converse, and some probability is at least the
    -- cutoff: `sample_topp` returns, with no read out of range, the index of such a probability.
    pub sample_topp-kept :
        (zero_f topp coin : Float) (ps : List Float) (j : ℕ) (p : Float)
        → get_elem? ps j ≡ some p
        → ge p (cutoff topp (length ps)) ≡ true
        → (index : ℕ) × (sample_topp add mul gt ge lt cutoff zero_f ps topp coin ≡ some index)
          × (kept topp ps index ≡ true)
    unfolding sample_topp
    sample_topp-kept zero_f topp coin ps j p e h =
        let cells = crop add mul gt ge lt cutoff (cutoff topp (length ps)) ps 0 in
        let (sorted, f, perm, s) =
          qsort-Sorts (compare_prob add mul gt ge lt cutoff) compare_prob-IsComparison cells in
        let good : (i : ℕ) (c : Cell) → get_elem? sorted i ≡ some c → kept topp ps c.index ≡ true =
          λ i c g.
            all_of_get_elem? (λ (d : Cell). kept topp ps d.index) true cells
              (crop-kept topp ps ps 0 (λ k. ap (get_elem? ps) (omega arith))) c
              ((Perm.mem_iff perm).0 (get_elem?-mem sorted i g)) in
        let some_left : 0 < length sorted =
          many sorted perm (candidate_left (cutoff topp (length ps)) ps 0 j p e h) in
        let t = truncate add mul gt ge lt cutoff topp sorted 0 zero_f in
        let range : t.1 < length sorted =
          omega (arith, truncate_in_range topp sorted 0 zero_f (omega arith)) in
        let (index, r, k) =
          picked (kept topp ps) sorted t.1
            (draw_loop add mul gt ge lt cutoff (t.1 + 1) sorted zero_f (mul coin t.0)) good range
            (λ i d. draw_of (kept topp ps) (t.1 + 1) sorted zero_f (mul coin t.0) i good d) in
        (index, rw f r, k)
      where
        many : (xs : List Cell) {ys : List Cell} → Perm xs ys → 0 < length ys → 0 < length xs
        many [] {ys} perm k =
            let (y, f) = get_elem?-in_range ys 0 k in
            absurd (not-mem-nil ((Perm.mem_iff perm).1 (get_elem?-mem ys 0 f)))
        many (x ∷ xs) perm k = omega arith
