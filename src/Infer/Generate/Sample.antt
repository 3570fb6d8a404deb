-- ===== src/Infer/Generate/Sample.antt =====
-- `sample` returns a token of the vocabulary, in each of its three ways.
use pi3_distributed_llm_infe.Base.{
  ℕ, ◌+◌, ◌<◌, ◌≡◌, ◌≢◌, refl, ap, arith, true, false, ◌||◌, List, [], some, inl, inr, length,
  length-map, map, Bool-cases, get_elem?, get_elem?-lt-length, ◌⊎◌,
}
use pi3_distributed_llm_infe.Base.Int.{pos}
use pi3_distributed_llm_infe.Infer.Float.{Floats}
use pi3_distributed_llm_infe.Infer.Forward.Norm.{Maths, softmax}
use pi3_distributed_llm_infe.Infer.Forward.Returns.{softmax-Makes}
use pi3_distributed_llm_infe.Infer.Sampler.Argmax.{IsGreatest, sample_argmax-IsGreatest}
use pi3_distributed_llm_infe.Infer.Sampler.Draw.{IsDrawn, IsMissed, sample_mult-IsDrawn}
use pi3_distributed_llm_infe.Infer.Sampler.Topp.{kept, kept_in_range, sample_topp-kept}
use pi3_distributed_llm_infe.Infer.Generate.{Sampler, SampleOps, random_f32, sample}

module _ (floats : Floats) (maths : Maths floats) (ops : SampleOps floats.Float) where
  open floats use {Float}

  -- What `sample_topp` asks of the comparisons.
  pub record IsOrder : Type 0 where
    pub asymmetric : (a b : Float) → maths.gt a b ≡ true → maths.gt b a ≡ false
    pub cotransitive :
        (a b c : Float) → maths.gt b a ≡ false → maths.gt c b ≡ false → maths.gt c a ≡ false
    pub converse : (a b : Float) → ops.lt a b ≡ maths.gt b a

  -- Of the probabilities that `softmax` makes, some one is at least the cutoff. With exact arithmetic
  -- that is so where `topp` is at least `1 / size`.
  abbrev pub SomeKept : Float → ℕ → Type 0
  SomeKept topp size =
      (x ps : List Float)
      → length x ≡ size
      → softmax floats maths x size ≡ some ps
      → (j : ℕ) × (p : Float) × (get_elem? ps j ≡ some p)
        × (ops.ge p (ops.cutoff topp (length ps)) ≡ true)

  -- The probabilities that a token is drawn from.
  abbrev pub Soft : Sampler Float → List Float → List Float → Type 0
  Soft sampler logits ps =
      softmax floats maths (map (λ q. maths.divide q sampler.temperature) logits) (length logits)
      ≡ some ps

  -- The way in which `sample` chooses a token: greedily at temperature 0, from all the probabilities
  -- where `topp` is not between 0 and 1, and else from those of at least the cutoff.
  pub data Chosen (sampler : Sampler Float) (logits : List Float) : Sampler Float → ℕ → Type 0 where
    greedy :
        {next : ℕ}
        → ops.equal sampler.temperature floats.zero ≡ true
        → IsGreatest maths.gt logits next
        → Chosen sampler logits sampler next
    plain :
        {next : ℕ} {ps : List Float}
        → ops.equal sampler.temperature floats.zero ≡ false
        → (ops.le sampler.topp floats.zero || ops.ge sampler.topp maths.one) ≡ true
        → Soft sampler logits ps
        → (IsDrawn floats.add ops.lt floats.zero ps (random_f32 ops sampler.rng_state).1 next
            ⊎ (IsMissed floats.add ops.lt floats.zero ps (random_f32 ops sampler.rng_state).1
                × (next + 1 ≡ length ps)))
        → Chosen sampler logits
            (record sampler { rng_state = (random_f32 ops sampler.rng_state).0 })
            next
    nucleus :
        {next : ℕ} {ps : List Float}
        → ops.equal sampler.temperature floats.zero ≡ false
        → (ops.le sampler.topp floats.zero || ops.ge sampler.topp maths.one) ≡ false
        → Soft sampler logits ps
        → kept floats.add floats.mul maths.gt ops.ge ops.lt ops.cutoff sampler.topp ps next ≡ true
        → Chosen sampler logits
            (record sampler { rng_state = (random_f32 ops sampler.rng_state).0 })
            next

  abbrev pub Sampled : Sampler Float → List Float → Type 0
  Sampled sampler logits =
      (after : Sampler Float) × (next : ℕ) × (sample floats maths ops sampler logits
        ≡ some (after, pos next))
      × (next < length logits)
      × Chosen sampler logits after next

  pub Chosen-topp :
      {sampler after : Sampler Float} {logits : List Float} {next : ℕ}
      → Chosen sampler logits after next
      → after.topp ≡ sampler.topp
  Chosen-topp (greedy e g) = refl
  Chosen-topp (plain e o s d) = refl
  Chosen-topp (nucleus e o s k) = refl

  irreflexive : IsOrder → (a : Float) → maths.gt a a ≡ false
  irreflexive order a = elim (Bool-cases (maths.gt a a)) [
    | inl more ↦ order.asymmetric a a more
    | inr less ↦ less
  ]

  transitive :
      IsOrder → (a b c : Float) → maths.gt a b ≡ true → maths.gt b c ≡ true → maths.gt a c ≡ true
  transitive order a b c ab bc = elim (Bool-cases (maths.gt a c)) [
    | inl more ↦ more
    | inr less ↦ absurd (cc (ab, order.cotransitive b c a (order.asymmetric b c bc) less))
  ]

  -- On logits that are not empty, where the comparisons are an order and some probability is at least
  -- the cutoff, `sample` returns a token of the vocabulary, and changes no more of the sampler than the
  -- random state. At temperature 0 no logit is greater than the token's. Else the coin is drawn from
  -- the new random state: with `topp` not between 0 and 1 the token is the first whose running sum of the
  -- probabilities passes the coin, or the last; and otherwise its probability is at least the cutoff.
  pub sample-Sampled :
      (sampler : Sampler Float) (logits : List Float)
      → IsOrder
      → SomeKept sampler.topp (length logits)
      → 0 < length logits
      → Sampled sampler logits
  unfolding sample
  sample-Sampled sampler logits order some_kept h =
      elim (Bool-cases (ops.equal sampler.temperature floats.zero)) [
        | inl cold ↦
            let nonempty : logits ≢ [] = λ e. absurd (omega (arith, h, ap length e)) in
            let (i, e, best) =
              sample_argmax-IsGreatest maths.gt (irreflexive order) (transitive order) logits
                nonempty in
            let lt = get_elem?-lt-length logits i best.found in
            (sampler, i, rw (cold, e) refl, lt, greedy cold best)
        | inr warm ↦
            let cooled : List Float = map (λ q. maths.divide q sampler.temperature) logits in
            let len : length cooled ≡ length logits = length-map logits _ in
            let (ps, soft, len') = softmax-Makes floats maths cooled (length logits) h len in
            let coin = random_f32 ops sampler.rng_state in
            let after = record sampler { rng_state = coin.0 } in
            elim (Bool-cases (ops.le sampler.topp floats.zero || ops.ge sampler.topp maths.one)) [
              | inl all ↦
                  let nonempty : ps ≢ [] = λ e. absurd (omega (arith, h, len', ap length e)) in
                  let (i, e, lt, drawn) =
                    sample_mult-IsDrawn floats.add ops.lt floats.zero coin.1 ps nonempty in
                  (
                    after,
                    i,
                    rw (warm, soft, all, e) refl,
                    omega (arith, lt, len'),
                    plain warm all soft drawn,
                  )
              | inr few ↦
                  let (j, p, at, above) = some_kept cooled ps len soft in
                  let (i, e, good) =
                    sample_topp-kept floats.add floats.mul maths.gt ops.ge ops.lt ops.cutoff
                      order.asymmetric order.cotransitive order.converse floats.zero sampler.topp
                      coin.1 ps j p at above in
                  (
                    after,
                    i,
                    rw (warm, soft, few, e) refl,
                    omega (
                      arith,
                      kept_in_range floats.add floats.mul maths.gt ops.ge ops.lt ops.cutoff
                          sampler.topp ps i good,
                      len',
                    ),
                    nucleus warm few soft good,
                  )
            ]
      ]
