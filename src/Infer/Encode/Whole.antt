-- ===== src/Infer/Encode/Whole.antt =====
-- `encode` as a whole, with the sorted vocabulary that it makes.
use pi3_distributed_llm_infe.Base.{
  ℕ, ◌+◌, ◌≤◌, ◌≡◌, refl, sym, ap, ◌∙◌, Bool, true, false, List, [], ◌∷◌, ◌++◌, some, length,
  get_elem?,
}
use pi3_distributed_llm_infe.Base.Int.{ℤ, pos}
use pi3_distributed_llm_infe.Libc.Str.Compare.{IsText}
use pi3_distributed_llm_infe.Infer.Tokenizer.{TokenIndex, sort_vocab, str_lookup}
use pi3_distributed_llm_infe.Infer.Tokenizer.Lookup.{LookedUp, str_lookup-LookedUp}
use pi3_distributed_llm_infe.Infer.Encode.{
  is_continuation, first_tokens, encode_sorted, eos_tokens, Tokenizer, sorted_of, encode,
  str_buffer_size,
}
use pi3_distributed_llm_infe.Infer.Encode.Spell.{Spells}
use pi3_distributed_llm_infe.Infer.Encode.Tokens.{
  IsPrefix, first_tokens_lem, encode_sorted-some, encode_sorted-collapses,
}

-- A tokenizer whose tables fit together and whose buffer has room for a code point, as it has when
-- `max_token_length` is from 1 to 2 ^ 31 - 2; the sorted vocabulary is that of the vocabulary, or NULL.
pub record IsTokenizer {Score : Type 0} (t : Tokenizer Score) : Type 0 where
  pub texts : (i : ℕ) (s : List ℕ) → get_elem? t.vocab i ≡ some s → IsText s
  pub scored : length t.vocab_scores ≡ length t.vocab
  pub roomy : 5 ≤ str_buffer_size t
  pub ready : sorted_of t ≡ sort_vocab t.vocab

-- The answers of `str_lookup` on the sorted vocabulary.
sorted_answers :
    {Score : Type 0} (t : Tokenizer Score)
    → IsTokenizer t
    → (sorted : List TokenIndex) × (sorted_of t ≡ some sorted)
      × ((s : List ℕ)
          → IsText s
          → (id : ℤ) × (str_lookup s sorted ≡ some id) × LookedUp t.vocab s id)
sorted_answers t v =
    let (sorted, e, _) = str_lookup-LookedUp t.vocab [] v.texts tt in
    (
      sorted,
      v.ready ∙ e,
      λ s h.
          let (other, e', (id, looks, there)) = str_lookup-LookedUp t.vocab s v.texts h in
          let same : other ≡ sorted = one_sorted other sorted (sym e' ∙ e) in
          (id, ap (str_lookup s) (sym same) ∙ looks, there),
    )
  where
    one_sorted : (x y : List TokenIndex) → some x ≡ some y → x ≡ y
    one_sorted x y e = cc

encode-run :
    {Score : Type 0} (gt : Score → Score → Bool) (lowest : Score) (t : Tokenizer Score)
    (bos eos : Bool) (text : List ℕ) (sorted : List TokenIndex) (tokens : List ℤ)
    → sorted_of t ≡ some sorted
    → encode_sorted
        (λ s. str_lookup s sorted)
        gt
        lowest
        t.vocab_scores
        (str_buffer_size t)
        bos
        eos
        text
      ≡ some tokens
    → encode gt lowest t bos eos text ≡ some (record t { sorted_vocab = some sorted }, tokens)
unfolding encode
encode-run gt lowest t bos eos text sorted tokens e run = rw (e, run) refl

-- With a tokenizer whose `str_buffer` has room for a code point of four bytes and its NUL: `encode`
-- returns for every text: with no access out of range, with tokens that fit the array of
-- `strlen(text) + 3` that `generate` gives it, and with a tokenizer that is good for the next call.
pub encode-IsTokenizer :
    {Score : Type 0} (gt : Score → Score → Bool) (lowest : Score) (t : Tokenizer Score)
    (bos eos : Bool) (text : List ℕ)
    → IsTokenizer t
    → IsText text
    → (r : Tokenizer Score × List ℤ) × (encode gt lowest t bos eos text ≡ some r)
      × IsTokenizer r.0
      × (r.0.vocab ≡ t.vocab)
      × (length r.1 ≤ length text + 3)
unfolding sorted_of
encode-IsTokenizer gt lowest t bos eos text v h =
    let (sorted, e, answers) = sorted_answers t v in
    let (tokens, run, fits) =
      encode_sorted-some gt lowest t.vocab t.vocab_scores (λ s. str_lookup s sorted) answers
        v.scored (str_buffer_size t) v.roomy bos eos text h in
    (
      (record t { sorted_vocab = some sorted }, tokens),
      encode-run gt lowest t bos eos text sorted tokens e run,
      record { texts = v.texts; scored = v.scored; roomy = v.roomy; ready = sym e ∙ v.ready },
      refl,
      fits,
    )

-- With a tokenizer whose `str_buffer` has room for a code point of four bytes and its NUL: before the merges, the tokens are BOS when it is asked for, that of a space where
-- the text is not empty, and behind them those that spell the text: for each code point, which is a byte and the
-- continuation bytes behind it, of at most four bytes, its entry in the vocabulary, or, only where it
-- has none, one token for each of its bytes. There are no more of them than bytes.
pub encode-Spells :
    {Score : Type 0} (gt : Score → Score → Bool) (lowest : Score) (t : Tokenizer Score) (bos : Bool)
    (text : List ℕ)
    → IsTokenizer t
    → IsText text
    → (sorted : List TokenIndex) × (sorted_of t ≡ some sorted)
      × ((prefix : List ℤ) × ((tokens : List ℤ) × ((held : List ℕ) × (first_tokens
                  (λ s. str_lookup s sorted)
                  gt
                  lowest
                  t.vocab_scores
                  (str_buffer_size t)
                  bos
                  text
                ≡ some (prefix ++ tokens, held))
              × Spells t.vocab tokens text
              × IsPrefix t.vocab bos text prefix
              × (length tokens ≤ length text))))
encode-Spells gt lowest t bos text v h =
    let (sorted, e, answers) = sorted_answers t v in
    let (prefix, (ts, (held, run, spelled, few, bound, kept, starts, last, prefixed))) =
      first_tokens_lem gt lowest t.vocab t.vocab_scores (λ s. str_lookup s sorted) answers v.scored
        (str_buffer_size t) v.roomy bos text h in
    (sorted, e, (prefix, (ts, (held, run, spelled, prefixed, bound))))

-- A text that ends in a code point of one byte, when that byte is a token and every score counts, is
-- encoded as that one token, whatever stands in front of it: every merge looks up the text that the
-- last code point has left in the buffer.
pub encode-collapses :
    {Score : Type 0} (gt : Score → Score → Bool) (lowest : Score) (t : Tokenizer Score)
    (bos eos : Bool) (front : List ℕ) (c i : ℕ)
    → IsTokenizer t
    → IsText (front ++ (c ∷ []))
    → is_continuation c ≡ false
    → get_elem? t.vocab i ≡ some (c ∷ [])
    → ((s : Score) → gt s s ≡ false)
    → ((id : ℕ) (s : Score) → get_elem? t.vocab_scores id ≡ some s → gt s lowest ≡ true)
    → (sorted : List TokenIndex) × ((id : ℕ) × (get_elem? t.vocab id ≡ some (c ∷ []))
        × (encode gt lowest t bos eos (front ++ (c ∷ []))
            ≡ some (record t { sorted_vocab = some sorted }, pos id ∷ eos_tokens eos)))
encode-collapses gt lowest t bos eos front c i v h nc has irr counts =
    let (sorted, e, answers) = sorted_answers t v in
    let (id, there, run) =
      encode_sorted-collapses gt lowest t.vocab t.vocab_scores (λ s. str_lookup s sorted) answers
        v.scored (str_buffer_size t) v.roomy bos eos front c i h nc has irr counts in
    (
      sorted,
      (
        id,
        there,
        encode-run gt lowest t bos eos (front ++ (c ∷ [])) sorted (pos id ∷ eos_tokens eos) e run,
      ),
    )
