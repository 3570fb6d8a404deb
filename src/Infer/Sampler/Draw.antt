-- ===== src/Infer/Sampler/Draw.antt =====
-- `sample_mult` draws the first index at which the running sum passes the coin.
use pi3_distributed_llm_infe.Base.{
  ℕ, zero, suc, ◌+◌, ◌<◌, ◌≡◌, ◌≢◌, refl, ◌∙◌, arith, Bool, true, false, List, [], ◌∷◌, none, some,
  ◌⊎◌, inl, inr, length, Bool-cases, ap,
}
use pi3_distributed_llm_infe.Base.Int.{pos}
use pi3_distributed_llm_infe.Infer.Sampler.{mult_loop, sample_mult}

module _ {Float : Type 0} (add : Float → Float → Float) (lt : Float → Float → Bool) where
  -- The sum of `acc` and the first `k` numbers, added from the left.
  unfoldable pub sum_from : Float → List Float → ℕ → Float
  sum_from acc ps zero = acc
  sum_from acc [] (suc k) = acc
  sum_from acc (p ∷ ps) (suc k) = sum_from (add acc p) ps k

  -- The coin falls on index `i`: the sum up to it is the first that the coin is below.
  pub record IsDrawn (acc : Float) (ps : List Float) (coin : Float) (i : ℕ) : Type 0 where
    pub in_range : i < length ps
    pub passes : lt coin (sum_from acc ps (suc i)) ≡ true
    pub first : (j : ℕ) → j < i → lt coin (sum_from acc ps (suc j)) ≡ false

  -- The coin is below none of the sums.
  abbrev pub IsMissed : Float → List Float → Float → Type 0
  IsMissed acc ps coin = (j : ℕ) → j < length ps → lt coin (sum_from acc ps (suc j)) ≡ false

  loop_lem :
      (ps : List Float) (i : ℕ) (acc coin : Float)
      → ((k : ℕ) × (mult_loop add lt ps i acc coin ≡ some (i + k)) × IsDrawn acc ps coin k)
        ⊎ ((mult_loop add lt ps i acc coin ≡ none) × IsMissed acc ps coin)
  unfolding mult_loop sum_from
  loop_lem [] i acc coin = inr (refl, λ j h. absurd (omega arith))
  loop_lem (p ∷ ps) i acc coin = elim (Bool-cases (lt coin (add acc p))) [
    | inl h ↦ inl (
      0,
      rw h (ap some (omega arith)),
      record { in_range = omega arith; passes = h; first = λ j k. absurd (omega arith) },
    )
    | inr h ↦ elim (loop_lem ps (i + 1) (add acc p) coin) [
      | inl (k, e, d) ↦ inl (
        suc k,
        rw h (e ∙ ap some (omega arith)),
        record {
          in_range = omega (arith, d.in_range);
          passes = d.passes;
          first = λ j l. later h k d j l;
        },
      )
      | inr (e, m) ↦ inr (rw h e, λ j l. missed h m j l)
    ]
  ]
    where
      later :
          lt coin (add acc p) ≡ false
          → (k : ℕ) → IsDrawn (add acc p) ps coin k
          → (j : ℕ) → j < suc k
          → lt coin (sum_from acc (p ∷ ps) (suc j)) ≡ false
      later h k d zero l = h
      later h k d (suc j) l = d.first j (omega arith)

      missed :
          lt coin (add acc p) ≡ false
          → IsMissed (add acc p) ps coin
          → (j : ℕ) → j < suc (length ps)
          → lt coin (sum_from acc (p ∷ ps) (suc j)) ≡ false
      missed h m zero l = h
      missed h m (suc j) l = m j (omega arith)

  -- Of an array that is not empty, `sample_mult` returns an index in range: the one that the coin
  -- falls on, or, when rounding leaves every sum at or below the coin, the last.
  pub sample_mult-IsDrawn :
      (zero_f coin : Float) (ps : List Float)
      → ps ≢ []
      → (i : ℕ) × (sample_mult add lt zero_f ps coin ≡ pos i)
        × (i < length ps)
        × (IsDrawn zero_f ps coin i ⊎ (IsMissed zero_f ps coin × (i + 1 ≡ length ps)))
  unfolding sample_mult
  sample_mult-IsDrawn zero_f coin [] h = absurd (h refl)
  sample_mult-IsDrawn zero_f coin (p ∷ ps) h = elim (loop_lem (p ∷ ps) 0 zero_f coin) [
    | inl (k, e, d) ↦ (k, rw (sample_mult, e) (ap pos (omega arith)), d.in_range, inl d)
    | inr (e, m) ↦
        (length ps, rw (sample_mult, e) (ground arith), omega arith, inr (m, omega arith))
  ]
