-- ===== src/Infer/Generate/Loop.antt =====
-- The generation loop returns, and feeds the prompt first.
use pi3_distributed_llm_infe.Base.Slices.{take-nil, drop-behind, drop-at}
use pi3_distributed_llm_infe.Base.{
  ℕ, zero, suc, ◌+◌, ◌-◌, ◌≤◌, ◌<◌, ◌≡◌, refl, sym, ap, ◌∙◌, arith, List, [], ◌∷◌, ◌++◌, Option,
  some, ltb, get_elem?, get_elem?-in_range, length, take, drop, Bool-cases, inl, inr,
}
use pi3_distributed_llm_infe.Base.Int.{ℤ, pos, negsuc}
use pi3_distributed_llm_infe.Infer.Tokenizer.{decode, strip_space, piece_bytes, parse_byte_token}
use pi3_distributed_llm_infe.Infer.Generate.{
  Run, decode_int, is_bos, next_token, generate_loop, generate_tokens, safe_printf,
}

-- A token of the vocabulary.
abbrev pub IsToken : List (List ℕ) → ℤ → Type 0
IsToken vocab (pos n) = n < length vocab
IsToken vocab (negsuc n) = ⊥

abbrev piece_of : ℕ → List ℕ → List ℕ
piece_of p entry = piece_bytes (strip_space p entry) (parse_byte_token (strip_space p entry))

decode_int-some :
    (vocab : List (List ℕ)) (prev_token token : ℤ)
    → IsToken vocab token
    → (piece : List ℕ) × (decode_int vocab prev_token token ≡ some piece)
unfolding decode_int decode
decode_int-some vocab (pos p) (pos t) h =
    let (entry, e) = get_elem?-in_range vocab t h in (piece_of p entry, rw e refl)
decode_int-some vocab (negsuc p) (pos t) h =
    let (entry, e) = get_elem?-in_range vocab t h in (piece_of 0 entry, rw e refl)
decode_int-some vocab p (negsuc t) h = absurd h

-- The token that stands at a position of the prompt is the one fed there.
abbrev Agrees : List ℤ → ℕ → ℤ → Type 0
Agrees prompt at token = at < length prompt → get_elem? prompt at ≡ some token

feed_one :
    (prompt : List ℤ) (at : ℕ) (token : ℤ) (fed : List ℤ)
    → Agrees prompt at token
    → take (length fed) (drop (at + 1) prompt) ≡ take (length prompt - (at + 1)) fed
    → take (suc (length fed)) (drop at prompt) ≡ take (length prompt - at) (token ∷ fed)
feed_one prompt at token fed here e = elim (Bool-cases (ltb at (length prompt))) [
  | inl inside ↦
      let split = drop-at prompt at token (here (ground arith)) in
      let left : length prompt - at ≡ suc (length prompt - (at + 1)) = ground arith in
      let next : at + 1 ≡ suc at = omega arith in
      let e' : take (length fed) (drop (suc at) prompt) ≡ take (length prompt - (at + 1)) fed =
        ap (λ n. take (length fed) (drop n prompt)) (sym next) ∙ e in
      rw (split, left) (ap (◌∷◌ token) e')
  | inr behind ↦
      let none_left : length prompt - at ≡ 0 = ground arith in
      rw (drop-behind prompt at (ground arith), none_left) refl
]

module _ {S Logits : Type 0} (forward : S → ℤ → ℕ → Option (S × Logits))
    (choose : S → Logits → Option (S × ℤ)) (vocab : List (List ℕ)) (prompt_tokens : List ℤ)
    (IsGood : S → Type 0) (IsFine : Logits → Type 0) (limit : ℕ)
    (passes : (s : S) (token : ℤ) (at : ℕ)
      → IsGood s
      → IsToken vocab token
      → at < limit
      → (r : S × Logits) × (forward s token at ≡ some r) × IsGood r.0 × IsFine r.1)
    (chooses : (s : S) (logits : Logits)
      → IsGood s
      → IsFine logits
      → (r : S × ℤ) × (choose s logits ≡ some r) × IsGood r.0 × IsToken vocab r.1)
    (valid : (i : ℕ) (token : ℤ)
      → get_elem? prompt_tokens i ≡ some token
      → IsToken vocab token) where
  next_token-Agrees :
      (at : ℕ) (s : S) (logits : Logits)
      → IsGood s
      → IsFine logits
      → (r : S × ℤ) × (next_token forward choose vocab prompt_tokens at s logits ≡ some r)
        × IsGood r.0
        × IsToken vocab r.1
        × Agrees prompt_tokens (at + 1) r.1
  unfolding next_token
  next_token-Agrees at s logits good fine = elim (Bool-cases (ltb at (length prompt_tokens - 1))) [
    | inl inside ↦
        let (next, e) = get_elem?-in_range prompt_tokens (at + 1) (ground arith) in
        ((s, next), rw (inside, e) refl, good, valid (at + 1) next e, (λ h. e))
    | inr behind ↦
        let (r, e, good', token) = chooses s logits good fine in
        (r, rw behind e, good', token, (λ h. absurd (ground arith)))
  ]

  -- A run that the loop makes of the steps that are left.
  abbrev Looped : ℕ → ℕ → ℤ → S → Type 0
  Looped left at token s =
      (r : Run S) × (generate_loop forward choose vocab prompt_tokens left at token s ≡ some r)
      × (take (length r.fed) (drop at prompt_tokens) ≡ take (length prompt_tokens - at) r.fed)
      × (length r.fed ≤ left)
      × IsGood r.state

  generate_loop-Looped :
      (left at : ℕ) (token : ℤ) (s : S)
      → Agrees prompt_tokens at token
      → IsToken vocab token
      → IsGood s
      → at + left ≤ limit
      → Looped left at token s
  unfolding generate_loop
  generate_loop-Looped zero at token s here known good few = (
    record { fed = []; out = []; state = s },
    refl,
    sym (take-nil (length prompt_tokens - at)),
    omega arith,
    good,
  )
  generate_loop-Looped (suc left) at token s here known good few =
      let (f, forwards, good1, fine) = passes s token at good known (omega arith) in
      let (n, nexts, good2, is_token, there) = next_token-Agrees at f.0 f.1 good1 fine in
      elim (Bool-cases (is_bos n.1)) [
        | inl bos ↦ (
          record { fed = token ∷ []; out = []; state = n.0 },
          rw (forwards, nexts, bos) refl,
          feed_one prompt_tokens at token [] here
              (sym (take-nil (length prompt_tokens - (at + 1)))),
          omega arith,
          good2,
        )
        | inr more ↦
            let (piece, decodes) = decode_int-some vocab token n.1 is_token in
            let (r, run, fed, short, good3) =
              generate_loop-Looped left (at + 1) n.1 n.0 there is_token good2 (omega arith) in
            (
              record { fed = token ∷ r.fed; out = safe_printf piece ++ r.out; state = r.state },
              rw (forwards, nexts, more, decodes, run) refl,
              feed_one prompt_tokens at token r.fed here fed,
              omega (arith, short),
              good3,
            )
      ]

  -- With a prompt whose tokens are in the vocabulary, and a condition on the state that the
  -- transformer's pass on such a token at a position below a limit, and the sampler on the pass's logits,
  -- keep as they return: up to that many steps, the loop returns after at most `steps` rounds; as far as
  -- they go, it feeds the transformer the tokens of the prompt, in their order.
  pub generate_tokens-prompt :
      (steps : ℕ) (s : S)
      → 0 < length prompt_tokens
      → IsGood s
      → steps ≤ limit
      → (r : Run S) × (generate_tokens forward choose vocab prompt_tokens steps s ≡ some r)
        × (take (length r.fed) prompt_tokens ≡ take (length prompt_tokens) r.fed)
        × (length r.fed ≤ steps)
        × IsGood r.state
  unfolding generate_tokens
  generate_tokens-prompt steps s h good enough =
      let (token, e) = get_elem?-in_range prompt_tokens 0 h in
      let whole : length prompt_tokens - 0 ≡ length prompt_tokens = omega arith in
      let (r, run, fed, few, good') =
        generate_loop-Looped steps 0 token s (λ i. e) (valid 0 token e) good
          (omega (arith, enough)) in
      (
        record r { out = r.out ++ (10 ∷ []) },
        rw (e, run) refl,
        fed ∙ ap (λ n. take n r.fed) whole,
        few,
        good',
      )
