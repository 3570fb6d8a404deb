-- ===== src/Infer/Sampler/Argmax.antt =====
-- `sample_argmax` returns the index of a probability that no other exceeds.
use pi3_distributed_llm_infe.Base.{
  ℕ, zero, suc, ◌+◌, ◌-◌, ◌<◌, ◌≤◌, ◌≡◌, ◌≢◌, refl, ◌∙◌, arith, Bool, true, false, List, [], ◌∷◌,
  some, inl, inr, get_elem?, Bool-cases, ltb, ap,
}
use pi3_distributed_llm_infe.Infer.Sampler.{argmax_loop, sample_argmax}

module _ {Float : Type 0} (gt : Float → Float → Bool) where
  pub record IsGreatest (ps : List Float) (i : ℕ) : Type 0 where
    pub best : Float
    pub found : get_elem? ps i ≡ some best
    pub greatest : (j : ℕ) (q : Float) → get_elem? ps j ≡ some q → gt q best ≡ false

  module _ (irreflexive : (a : Float) → gt a a ≡ false)
      (transitive : (a b c : Float) → gt a b ≡ true → gt b c ≡ true → gt a c ≡ true) where
    -- With the best so far at `max_i`, and `rest` what stands in the array from `i` on.
    loop_lem :
        (ps rest : List Float) (i max_i : ℕ) (max_p : Float)
        → ((j : ℕ) → get_elem? ps (i + j) ≡ get_elem? rest j)
        → get_elem? ps max_i ≡ some max_p
        → ((j : ℕ) (q : Float) → j < i → get_elem? ps j ≡ some q → gt q max_p ≡ false)
        → IsGreatest ps (argmax_loop gt rest i max_i max_p)
    unfolding argmax_loop
    loop_lem ps [] i max_i max_p at found before = record {
      best = max_p;
      found = found;
      greatest = λ j q e. elim (Bool-cases (ltb j i)) [
        | inl h ↦ before j q (ground arith) e
        | inr h ↦ absurd (cc (at (j - i), past j (ground arith), e))
      ];
    }
      where
        past : (j : ℕ) → i ≤ j → get_elem? ps (i + (j - i)) ≡ get_elem? ps j
        past j h = ap (get_elem? ps) (omega arith)
    loop_lem ps (p ∷ rest) i max_i max_p at found before = elim (Bool-cases (gt p max_p)) [
      | inl h ↦ rw h (loop_lem ps rest (i + 1) i p next here (beaten h))
      | inr h ↦ rw h (loop_lem ps rest (i + 1) max_i max_p next found (kept h))
    ]
      where
        here : get_elem? ps i ≡ some p
        here = ap (get_elem? ps) (omega arith) ∙ at 0

        next : (j : ℕ) → get_elem? ps (i + 1 + j) ≡ get_elem? rest j
        next j = ap (get_elem? ps) (omega arith) ∙ at (suc j)

        at_i : (j : ℕ) (q : Float) → j < i + 1 → ltb j i ≡ false → get_elem? ps j ≡ some q → q ≡ p
        at_i j q k n e = let same : j ≡ i = ground arith in cc (ap (get_elem? ps) same, e, here)

        kept :
            gt p max_p ≡ false
            → (j : ℕ) (q : Float) → j < i + 1
            → get_elem? ps j ≡ some q
            → gt q max_p ≡ false
        kept h j q k e = elim (Bool-cases (ltb j i)) [
          | inl l ↦ before j q (ground arith) e
          | inr n ↦ ap (λ x. gt x max_p) (at_i j q k n e) ∙ h
        ]

        beaten :
            gt p max_p ≡ true
            → (j : ℕ) (q : Float) → j < i + 1
            → get_elem? ps j ≡ some q
            → gt q p ≡ false
        beaten h j q k e = elim (Bool-cases (ltb j i)) [
          | inl l ↦ elim (Bool-cases (gt q p)) [
            | inl more ↦ absurd (cc (transitive q p max_p more h, before j q (ground arith) e))
            | inr less ↦ less
          ]
          | inr n ↦ ap (λ x. gt x p) (at_i j q k n e) ∙ irreflexive p
        ]

    -- If `>` is irreflexive and transitive: of an array that is not empty, `sample_argmax` returns an
    -- index in range, and no probability in the array is greater than the one there.
    pub sample_argmax-IsGreatest :
        (ps : List Float) → ps ≢ [] → (i : ℕ) × (sample_argmax gt ps ≡ some i) × IsGreatest ps i
    unfolding sample_argmax
    sample_argmax-IsGreatest [] h = absurd (h refl)
    sample_argmax-IsGreatest (p ∷ rest) h = (
      argmax_loop gt rest 1 0 p,
      refl,
      loop_lem (p ∷ rest) rest 1 0 p tail refl (λ j q k e. first j q k e),
    )
      where
        tail : (j : ℕ) → get_elem? (p ∷ rest) (1 + j) ≡ get_elem? rest j
        tail j = let e : 1 + j ≡ suc j = omega arith in ap (get_elem? (p ∷ rest)) e

        first : (j : ℕ) (q : Float) → j < 1 → get_elem? (p ∷ rest) j ≡ some q → gt q p ≡ false
        first zero q k e = cc (irreflexive p)
        first (suc j) q k e = absurd (omega arith)
