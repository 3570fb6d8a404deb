-- ===== src/Tests/Encode.antt =====
-- The encoder, the vocabulary file and the generation loop at small inputs.
use pi3_distributed_llm_infe.Base.{
  ℕ, ◌+◌, ◌≤◌, ◌<◌, ◌≡◌, refl, arith, Bool, true, false, List, [], ◌∷◌, ◌++◌, none, some, ltb,
  length, get_elem?, take, zero, suc,
}
use pi3_distributed_llm_infe.Base.Bytes.{le_bytes}
use pi3_distributed_llm_infe.Base.Int.{ℤ, pos}
use pi3_distributed_llm_infe.Libc.Str.Compare.{IsText}
use pi3_distributed_llm_infe.Infer.Tokenizer.{TokenIndex, str_lookup}
use pi3_distributed_llm_infe.Infer.Encode.{
  is_continuation, eos_tokens, first_tokens, Tokenizer, sorted_of, encode, str_buffer_size,
}
use pi3_distributed_llm_infe.Infer.Encode.Spell.{Spells}
use pi3_distributed_llm_infe.Infer.Encode.Tokens.{IsPrefix}
use pi3_distributed_llm_infe.Infer.Encode.Whole.{
  IsTokenizer, encode-IsTokenizer, encode-Spells, encode-collapses,
}
use pi3_distributed_llm_infe.Infer.Vocab.{loaded, failed, build_tokenizer}
use pi3_distributed_llm_infe.Infer.Vocab.File.{
  entries_bytes, AreEntries, build_tokenizer-entries_bytes,
}
use pi3_distributed_llm_infe.Infer.Vocab.Cut.{build_tokenizer-take}
use pi3_distributed_llm_infe.Infer.Vocab.Any.{build_tokenizer-IsTokenizer}

-- The tokens " ", "a", "b", with scores in tenths.
abbrev entries : List (ℕ × List ℕ)
entries = (5, 32 ∷ []) ∷ (6, 97 ∷ []) ∷ (7, 98 ∷ []) ∷ []

entries-AreEntries : AreEntries entries
entries-AreEntries = (
  (omega arith, omega arith, (omega arith, tt)),
  (
    (omega arith, omega arith, (omega arith, tt)),
    ((omega arith, omega arith, (omega arith, tt)), tt),
  ),
)

abbrev score : ℕ → ℕ
score bits = bits

abbrev more : ℕ → ℕ → Bool
more a b = ltb b a

abbrev tokenizer : Tokenizer ℕ
tokenizer = record {
  vocab = (32 ∷ []) ∷ (97 ∷ []) ∷ (98 ∷ []) ∷ [];
  vocab_scores = 5 ∷ 6 ∷ 7 ∷ [];
  sorted_vocab = none;
  max_token_length = 1;
}

abbrev file : List ℕ
file = le_bytes 4 1 ++ (entries_bytes entries ++ [])

build_tokenizer_example : build_tokenizer score 3 file ≡ loaded tokenizer
build_tokenizer_example =
    build_tokenizer-entries_bytes score 1 entries [] (omega arith) entries-AreEntries

build_tokenizer-take_example :
    build_tokenizer score 3 (take 11 (le_bytes 4 1 ++ entries_bytes entries)) ≡ failed
build_tokenizer-take_example =
    build_tokenizer-take score 1 entries 11 (omega arith) entries-AreEntries (omega arith)

file_loads : build_tokenizer score 3 file ≡ loaded tokenizer
file_loads = build_tokenizer-entries_bytes score 1 entries [] (omega arith) entries-AreEntries

tokenizer-IsTokenizer : IsTokenizer tokenizer
tokenizer-IsTokenizer =
    (build_tokenizer-IsTokenizer score 3 file tokenizer file_loads (omega arith)).0

-- The text "aab".
abbrev text : List ℕ
text = 97 ∷ 97 ∷ 98 ∷ []

text-IsText : IsText text
text-IsText = (omega arith, (omega arith, (omega arith, tt)))

encode-IsTokenizer_example :
    (r : Tokenizer ℕ × List ℤ) × (encode more 0 tokenizer true false text ≡ some r)
    × IsTokenizer r.0
    × (r.0.vocab ≡ tokenizer.vocab)
    × (length r.1 ≤ 3 + 3)
encode-IsTokenizer_example =
    encode-IsTokenizer more 0 tokenizer true false text tokenizer-IsTokenizer text-IsText

encode-Spells_example :
    (sorted : List TokenIndex) × (sorted_of tokenizer ≡ some sorted)
    × ((prefix : List ℤ) × ((tokens : List ℤ) × ((held : List ℕ) × (first_tokens
                (λ s. str_lookup s sorted)
                more
                0
                tokenizer.vocab_scores
                (str_buffer_size tokenizer)
                true
                text
              ≡ some (prefix ++ tokens, held))
            × Spells tokenizer.vocab tokens text
            × IsPrefix tokenizer.vocab true text prefix
            × (length tokens ≤ 3))))
encode-Spells_example = encode-Spells more 0 tokenizer true text tokenizer-IsTokenizer text-IsText

counts : (a s : ℕ) → 0 < a → some a ≡ some s → more s 0 ≡ true
counts a s h e = let same : a ≡ s = cc in ground arith

scores_count : (id s : ℕ) → get_elem? tokenizer.vocab_scores id ≡ some s → more s 0 ≡ true
scores_count zero s e = counts 5 s (omega arith) e
scores_count (suc zero) s e = counts 6 s (omega arith) e
scores_count (suc (suc zero)) s e = counts 7 s (omega arith) e
scores_count (suc (suc (suc id))) s e = cc

b_starts : is_continuation 98 ≡ false
unfolding is_continuation
b_starts = refl

encode-collapses_example :
    (sorted : List TokenIndex) × ((id : ℕ) × (get_elem? tokenizer.vocab id ≡ some (98 ∷ []))
      × (encode more 0 tokenizer true false ((97 ∷ 97 ∷ []) ++ (98 ∷ []))
          ≡ some (record tokenizer { sorted_vocab = some sorted }, pos id ∷ eos_tokens false)))
encode-collapses_example =
    encode-collapses more 0 tokenizer true false (97 ∷ 97 ∷ []) 98 2 tokenizer-IsTokenizer
      text-IsText b_starts refl (λ s. ground arith) scores_count
