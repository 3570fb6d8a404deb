-- ===== src/Infer/Encode/Tokens.antt =====
-- `encode` with any search that answers for the vocabulary.
use pi3_distributed_llm_infe.Base.{
  ℕ, suc, ◌+◌, ◌≤◌, ◌<◌, ◌≡◌, refl, sym, ap, ◌∙◌, subst, arith, Bool, true, false, List, [], ◌∷◌,
  ◌++◌, Option, some, if◌then◌else◌, length, length-append, append_assoc, append-nil, get_elem?,
  get_elem?-lt-length, get_elem?-in_range, inr,
}
use pi3_distributed_llm_infe.Base.Int.{ℤ, pos, negsuc}
use pi3_distributed_llm_infe.Libc.Str.Compare.{IsText}
use pi3_distributed_llm_infe.Infer.Tokenizer.Lookup.{LookedUp}
use pi3_distributed_llm_infe.Infer.Encode.{
  is_continuation, code_points, first_tokens, merge_loop, encode_sorted, bos_tokens, eos_tokens,
}
use pi3_distributed_llm_infe.Infer.Encode.Spell.{
  Spells, length-Spells, code_points-from, code_points-last,
}
use pi3_distributed_llm_infe.Infer.Encode.Merge.{IsScored, merge_loop-some, merge_loop-collapses}

not_empty : (front : List ℕ) (c : ℕ) → ¬ ([] ≡ front ++ (c ∷ []))
not_empty [] c e = cc
not_empty (x ∷ front) c e = cc

-- The tokens in front of those of the text: BOS, and that of a space where the text is not empty.
abbrev pub IsPrefix : List (List ℕ) → Bool → List ℕ → List ℤ → Type 0
IsPrefix vocab bos [] prefix = prefix ≡ (if bos then pos 1 ∷ [] else [])
IsPrefix vocab bos (c ∷ rest) prefix =
    (dummy : ℤ) × LookedUp vocab (32 ∷ []) dummy
    × (prefix ≡ (if bos then pos 1 ∷ [] else []) ++ (dummy ∷ []))

module _ {Score : Type 0} (gt : Score → Score → Bool) (lowest : Score) (vocab : List (List ℕ))
    (scores : List Score) (lookup : List ℕ → Option ℤ)
    (answers : (s : List ℕ) → IsText s → (id : ℤ) × (lookup s ≡ some id) × LookedUp vocab s id)
    (same : length scores ≡ length vocab) (size : ℕ) (roomy : 5 ≤ size) where
  LookedUp-IsScored :
      (s : List ℕ) (id : ℤ) → LookedUp vocab s id → IsScored lookup gt lowest scores id
  LookedUp-IsScored s (pos id) e = omega (arith, get_elem?-lt-length vocab id e)
  LookedUp-IsScored s (negsuc n) e = tt

  length-bos_tokens : (bos : Bool) → length (bos_tokens bos) ≤ 1
  length-bos_tokens true = omega arith
  length-bos_tokens false = omega arith

  length-eos_tokens : (eos : Bool) → length (eos_tokens eos) ≤ 1
  length-eos_tokens true = omega arith
  length-eos_tokens false = omega arith

  bos_tokens_lem : (bos : Bool) → bos_tokens bos ≡ (if bos then pos 1 ∷ [] else [])
  bos_tokens_lem true = refl
  bos_tokens_lem false = refl

  -- What the merges start with: at most two tokens, and behind them those that spell the text.
  abbrev pub FirstTokens : Bool → List ℕ → Type 0
  FirstTokens bos text =
      (prefix : List ℤ) × ((tokens : List ℤ) × ((held : List ℕ) × (first_tokens lookup gt lowest
              scores size bos text
            ≡ some (prefix ++ tokens, held))
          × Spells vocab tokens text
          × (length prefix ≤ 2)
          × (length tokens ≤ length text)
          × IsText held
          × (0 < length text → 0 < length prefix)
          × ((front : List ℕ) (c : ℕ)
              → text ≡ front ++ (c ∷ [])
              → is_continuation c ≡ false
              → held ≡ c ∷ [])
          × IsPrefix vocab bos text prefix))

  pub first_tokens_lem : (bos : Bool) (text : List ℕ) → IsText text → FirstTokens bos text
  unfolding first_tokens
  first_tokens_lem bos [] h =
      let one = length-bos_tokens bos in
      (
        bos_tokens bos,
        (
          [],
          (
            [],
            ap (λ x. some (x, [])) (sym (append-nil (bos_tokens bos))),
            Spells.done,
            omega (arith, one),
            omega arith,
            tt,
            (λ z. absurd (omega arith)),
            (λ front c e. absurd (not_empty front c e)),
            bos_tokens_lem bos,
          ),
        ),
      )
  first_tokens_lem bos (c ∷ rest) h =
      let (dummy, found, looked) = answers (32 ∷ []) (omega arith, tt) in
      let (r, run, spelled, kept, bound) =
        code_points-from vocab lookup answers size roomy (c ∷ rest) [] [] h tt tt (omega arith)
          (inr refl) in
      let one = length-bos_tokens bos in
      let count = length-append (bos_tokens bos) (dummy ∷ []) in
      let shape = append_assoc (bos_tokens bos) (dummy ∷ []) r.0 in
      (
        bos_tokens bos ++ (dummy ∷ []),
        (
          r.0,
          (
            r.1,
            rw (found, run) (ap (λ x. some (x, r.1)) (sym shape)),
            spelled,
            omega (arith, one, count),
            omega (arith, bound),
            kept tt,
            (λ z. omega (arith, count)),
            (λ front d e nc.
                code_points-last lookup size front d [] [] r nc
                  (subst (λ x. code_points lookup size x [] [] ≡ some r) e run)),
            (dummy, looked, ap (λ x. x ++ (dummy ∷ [])) (bos_tokens_lem bos)),
          ),
        ),
      )

  pub encode_sorted-some :
      (bos eos : Bool) (text : List ℕ)
      → IsText text
      → (tokens : List ℤ) × (encode_sorted lookup gt lowest scores size bos eos text ≡ some tokens)
        × (length tokens ≤ length text + 3)
  unfolding encode_sorted
  encode_sorted-some bos eos text h =
      let (prefix, (ts, (held, run, spelled, few, bound, kept, starts, last, prefixed))) =
        first_tokens_lem bos text h in
      let (found, looks, looked) = answers held kept in
      let scored = LookedUp-IsScored held found looked in
      let (merged, merges, fewer) =
        merge_loop-some lookup gt lowest scores (suc (length (prefix ++ ts))) held found
          (prefix ++ ts) (omega arith) looks scored in
      let one = length-eos_tokens eos in
      (
        merged ++ eos_tokens eos,
        rw (run, merges) refl,
        omega (
          arith,
          length-append merged (eos_tokens eos),
          length-append prefix ts,
          one,
          few,
          bound,
          fewer,
        ),
      )

  collapse_any :
      (fuel : ℕ) (held : List ℕ) (id : ℕ) (score : Score) (tokens : List ℤ)
      → length tokens < fuel
      → 1 < length tokens
      → lookup held ≡ some (pos id)
      → get_elem? scores id ≡ some score
      → gt score lowest ≡ true
      → gt score score ≡ false
      → merge_loop lookup gt lowest scores fuel held tokens ≡ some (pos id ∷ [])
  collapse_any fuel held id score [] f more e c g irr = absurd (omega arith)
  collapse_any fuel held id score (t ∷ []) f more e c g irr = absurd (omega arith)
  collapse_any fuel held id score (t ∷ u ∷ ts) f more e c g irr =
      merge_loop-collapses lookup gt lowest scores fuel held id score t u ts (omega arith) e c g irr

  -- A text whose last byte is a token of the vocabulary.
  pub encode_sorted-collapses :
      (bos eos : Bool) (front : List ℕ) (c i : ℕ)
      → IsText (front ++ (c ∷ []))
      → is_continuation c ≡ false
      → get_elem? vocab i ≡ some (c ∷ [])
      → ((s : Score) → gt s s ≡ false)
      → ((id : ℕ) (s : Score) → get_elem? scores id ≡ some s → gt s lowest ≡ true)
      → (id : ℕ) × (get_elem? vocab id ≡ some (c ∷ []))
        × (encode_sorted lookup gt lowest scores size bos eos (front ++ (c ∷ []))
            ≡ some (pos id ∷ eos_tokens eos))
  unfolding encode_sorted
  encode_sorted-collapses bos eos front c i h nc has irr counts =
      let text = front ++ (c ∷ []) in
      let (prefix, (ts, (held, run, spelled, few, bound, kept, starts, last, prefixed))) =
        first_tokens_lem bos text h in
      let is_c : held ≡ c ∷ [] = last front c refl nc in
      let size = length-append front (c ∷ []) in
      let (id, looks, there) = known c i (answers (c ∷ []) (text_of held c is_c kept)) has in
      let (score, cell) =
        get_elem?-in_range scores id (omega (arith, get_elem?-lt-length vocab id there)) in
      let long : 1 < length (prefix ++ ts) = omega (
        arith,
        length-append prefix ts,
        length-Spells spelled,
        starts (omega (arith, size)),
        size,
      ) in
      let merges =
        collapse_any (suc (length (prefix ++ ts))) held id score (prefix ++ ts) (omega arith) long
          (ap lookup is_c ∙ looks) cell (counts id score cell) (irr score) in
      (id, there, rw (run, merges) refl)
    where
      text_of : (held : List ℕ) (c : ℕ) → held ≡ c ∷ [] → IsText held → IsText (c ∷ [])
      text_of held c e t = subst IsText e t

      known :
          (c i : ℕ)
          → (id : ℤ) × (lookup (c ∷ []) ≡ some id) × LookedUp vocab (c ∷ []) id
          → get_elem? vocab i ≡ some (c ∷ [])
          → (id : ℕ) × (lookup (c ∷ []) ≡ some (pos id)) × (get_elem? vocab id ≡ some (c ∷ []))
      known c i (pos id, e, l) has = (id, e, l)
      known c i (negsuc n, e, l) has = absurd (l.1 i has)
