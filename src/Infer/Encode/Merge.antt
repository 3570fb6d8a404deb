-- ===== src/Infer/Encode/Merge.antt =====
-- The merges of `encode`: they come to an end, and what they make of the tokens.
use pi3_distributed_llm_infe.Base.{
  ℕ, zero, suc, ◌+◌, ◌-◌, ◌≤◌, ◌<◌, ◌≡◌, refl, ap, ◌∙◌, subst, arith, Bool, true, false, List, [],
  ◌∷◌, Option, none, some, if◌then◌else◌, length, get_elem?, get_elem?-in_range, set, length-set,
  Bool-cases, Option-cases, inl, inr,
}
use pi3_distributed_llm_infe.Base.Int.{ℤ, pos, negsuc}
use pi3_distributed_llm_infe.Infer.Encode.{Best, best_pair, delete_after, merge_loop}

length-delete_after :
    (ts : List ℤ) (idx : ℕ) → idx + 1 < length ts → length (delete_after ts idx) + 1 ≡ length ts
unfolding delete_after
length-delete_after [] idx h = absurd (omega arith)
length-delete_after (t ∷ []) idx h = absurd (omega arith)
length-delete_after (t ∷ u ∷ ts) zero h = omega arith
length-delete_after (t ∷ u ∷ ts) (suc idx) h =
    omega (arith, length-delete_after (u ∷ ts) idx (omega arith))

module _ (lookup : List ℕ → Option ℤ) {Score : Type 0} (gt : Score → Score → Bool) (lowest : Score)
    (vocab_scores : List Score) where
  -- `best_idx` is the index of a pair below `n`, or -1.
  abbrev pub IsPair : ℕ → Option (ℕ × ℕ) → Type 0
  IsPair n none = Unit
  IsPair n (some m) = m.1 < n

  IsPair-mono : (m n : ℕ) (o : Option (ℕ × ℕ)) → m ≤ n → IsPair m o → IsPair n o
  IsPair-mono m n none h k = tt
  IsPair-mono m n (some x) h k = omega arith

  -- Every id that the table of the scores answers for.
  abbrev pub IsScored : ℤ → Type 0
  IsScored (pos id) = id < length vocab_scores
  IsScored (negsuc n) = Unit

  -- The best pair behind a round.
  abbrev pub better : ℕ → ℕ → Score → Best Score → Best Score
  better id i score best =
      if gt score best.score then record { score = score; merge = some (id, i) } else best

  better-IsPair :
      (id i : ℕ) (score : Score) (best : Best Score)
      → IsPair i best.merge
      → IsPair (i + 1) (better id i score best).merge
  better-IsPair id i score best p = elim (Bool-cases (gt score best.score)) [
    | inl y ↦ rw y (omega arith)
    | inr n ↦ rw n (IsPair-mono i (i + 1) best.merge (omega arith) p)
  ]

  best_pair-IsPair :
      (held : List ℕ) (found : ℤ) (left i : ℕ) (best : Best Score)
      → lookup held ≡ some found
      → IsScored found
      → IsPair i best.merge
      → (r : Best Score) × (best_pair lookup gt lowest vocab_scores held left i best ≡ some r)
        × IsPair (i + left) r.merge
  unfolding best_pair
  best_pair-IsPair held found zero i best e v p =
      (best, refl, IsPair-mono i (i + 0) best.merge (omega arith) p)
  best_pair-IsPair held (negsuc n) (suc left) i best e v p =
      let (r, run, q) =
        best_pair-IsPair held (negsuc n) left (i + 1) best e v
          (IsPair-mono i (i + 1) best.merge (omega arith) p) in
      (r, rw e run, IsPair-mono (i + 1 + left) (i + suc left) r.merge (omega arith) q)
  best_pair-IsPair held (pos id) (suc left) i best e v p =
      let (score, cell) = get_elem?-in_range vocab_scores id v in
      let next = better id i score best in
      let (r, run, q') =
        best_pair-IsPair held (pos id) left (i + 1) next e v (better-IsPair id i score best p) in
      (r, rw (e, cell) run, IsPair-mono (i + 1 + left) (i + suc left) r.merge (omega arith) q')

  -- What the inner loop finds.
  abbrev pub best_of : List ℕ → List ℤ → Option (Best Score)
  best_of held tokens =
      best_pair lookup gt lowest vocab_scores held (length tokens - 1) 0
        (record { score = lowest; merge = none })

  merge_loop-ends :
      (fuel : ℕ) (held : List ℕ) (tokens : List ℤ) (best : Best Score)
      → best_of held tokens ≡ some best
      → best.merge ≡ none
      → merge_loop lookup gt lowest vocab_scores (suc fuel) held tokens ≡ some tokens
  unfolding merge_loop
  merge_loop-ends fuel held tokens best run e = rw (merge_loop, run, e) refl

  pub merge_loop-merges :
      (fuel : ℕ) (held : List ℕ) (tokens : List ℤ) (best : Best Score) (id i : ℕ)
      → best_of held tokens ≡ some best
      → best.merge ≡ some (id, i)
      → merge_loop lookup gt lowest vocab_scores (suc fuel) held tokens
        ≡ merge_loop lookup gt lowest vocab_scores fuel held
            (delete_after (set tokens i (pos id)) i)
  unfolding merge_loop
  merge_loop-merges fuel held tokens best id i run e = rw (merge_loop, run, e) refl

  best_pair-some :
      (held : List ℕ) (found : ℤ) (n : ℕ)
      → lookup held ≡ some found
      → IsScored found
      → (r : Best Score) × (best_pair lookup gt lowest vocab_scores held n 0
            (record { score = lowest; merge = none })
          ≡ some r)
        × IsPair n r.merge
  best_pair-some held found n e v =
      let (r, run, p) =
        best_pair-IsPair held found n 0 (record { score = lowest; merge = none }) e v tt in
      (r, run, IsPair-mono (0 + n) n r.merge (omega arith) p)

  -- The merges end, with no access out of range, and do not make the tokens more.
  pub merge_loop-some :
      (fuel : ℕ) (held : List ℕ) (found : ℤ) (tokens : List ℤ)
      → length tokens < fuel
      → lookup held ≡ some found
      → IsScored found
      → (r : List ℤ) × (merge_loop lookup gt lowest vocab_scores fuel held tokens ≡ some r)
        × (length r ≤ length tokens)
  merge_loop-some zero held found tokens f e v = absurd (omega arith)
  merge_loop-some (suc fuel) held found tokens f e v =
      let (best, run, p) = best_pair-some held found (length tokens - 1) e v in
      elim (Option-cases best.merge) [
        | inl none_left ↦ (tokens, merge_loop-ends fuel held tokens best run none_left, omega arith)
        | inr (m, merge) ↦
            let pair : m.1 < length tokens - 1 = subst (IsPair (length tokens - 1)) merge p in
            let put = set tokens m.1 (pos m.0) in
            let same : length put ≡ length tokens = length-set tokens m.1 (pos m.0) in
            let fewer : length (delete_after put m.1) + 1 ≡ length put =
              length-delete_after put m.1 (omega (arith, same, pair)) in
            let (r, rest, bound) =
              merge_loop-some fuel held found (delete_after put m.1) (omega (arith, same, fewer)) e
                v in
            (
              r,
              merge_loop-merges fuel held tokens best m.0 m.1 run merge ∙ rest,
              omega (arith, same, fewer, bound),
            )
      ]

  -- Once a pair has been found its score is not beaten by itself.
  best_pair-stays :
      (held : List ℕ) (id left i : ℕ) (score : Score) (best : Best Score)
      → lookup held ≡ some (pos id)
      → get_elem? vocab_scores id ≡ some score
      → gt score best.score ≡ false
      → best_pair lookup gt lowest vocab_scores held left i best ≡ some best
  unfolding best_pair
  best_pair-stays held id zero i score best e c g = refl
  best_pair-stays held id (suc left) i score best e c g =
      rw (e, c, g) (best_pair-stays held id left (i + 1) score best e c g)

  best_pair-first :
      (held : List ℕ) (id left : ℕ) (score : Score)
      → lookup held ≡ some (pos id)
      → get_elem? vocab_scores id ≡ some score
      → gt score lowest ≡ true
      → gt score score ≡ false
      → best_pair lookup gt lowest vocab_scores held
          (suc left)
          0
          (record { score = lowest; merge = none })
        ≡ some (record { score = score; merge = some (id, 0) })
  unfolding best_pair
  best_pair-first held id left score e c g irr =
      rw (e, c, g)
        (best_pair-stays held id left 1 score (record { score = score; merge = some (id, 0) }) e c
          irr)

  -- The first pair is merged.
  merge_first :
      (fuel : ℕ) (held : List ℕ) (id : ℕ) (score : Score) (t u : ℤ) (ts : List ℤ)
      → lookup held ≡ some (pos id)
      → get_elem? vocab_scores id ≡ some score
      → gt score lowest ≡ true
      → gt score score ≡ false
      → merge_loop lookup gt lowest vocab_scores (suc fuel) held (t ∷ u ∷ ts)
        ≡ merge_loop lookup gt lowest vocab_scores fuel held (pos id ∷ ts)
  unfolding delete_after
  merge_first fuel held id score t u ts e c g irr =
      let pairs : length (t ∷ u ∷ ts) - 1 ≡ suc (length ts) = omega arith in
      let found : best_of held (t ∷ u ∷ ts)
          ≡ some (record { score = score; merge = some (id, 0) }) =
        ap
          (λ n.
            best_pair lookup gt lowest vocab_scores held n 0
              (record { score = lowest; merge = none }))
          pairs
        ∙ best_pair-first held id (length ts) score e c g irr in
      merge_loop-merges fuel held (t ∷ u ∷ ts) (record { score = score; merge = some (id, 0) }) id 0
        found refl

  -- A single token has no pair.
  merge_one :
      (fuel : ℕ) (held : List ℕ) (t : ℤ)
      → merge_loop lookup gt lowest vocab_scores (suc fuel) held (t ∷ []) ≡ some (t ∷ [])
  unfolding best_pair
  merge_one fuel held t =
      merge_loop-ends fuel held (t ∷ []) (record { score = lowest; merge = none }) refl refl

  -- When the text that the buffer still holds is a token whose score counts, the merges take the
  -- tokens two by two from the front until a single one is left, which is that token.
  pub merge_loop-collapses :
      (fuel : ℕ) (held : List ℕ) (id : ℕ) (score : Score) (t u : ℤ) (ts : List ℤ)
      → length ts + 2 < fuel
      → lookup held ≡ some (pos id)
      → get_elem? vocab_scores id ≡ some score
      → gt score lowest ≡ true
      → gt score score ≡ false
      → merge_loop lookup gt lowest vocab_scores fuel held (t ∷ u ∷ ts) ≡ some (pos id ∷ [])
  merge_loop-collapses zero held id score t u ts f e c g irr = absurd (omega arith)
  merge_loop-collapses (suc zero) held id score t u ts f e c g irr = absurd (omega arith)
  merge_loop-collapses (suc (suc fuel)) held id score t u [] f e c g irr =
      merge_first (suc fuel) held id score t u [] e c g irr ∙ merge_one fuel held (pos id)
  merge_loop-collapses (suc (suc fuel)) held id score t u (v ∷ ts) f e c g irr =
      merge_first (suc fuel) held id score t u (v ∷ ts) e c g irr
      ∙ merge_loop-collapses (suc fuel) held id score (pos id) v ts (omega arith) e c g irr
