-- ===== src/Infer/Encode.antt =====
-- `encode` of libpi/src/run.c: a text into tokens. A string is the list of its bytes before the NUL,
-- the array of tokens the list of its first `*n_tokens` cells. Scores are floats, a parameter with `gt`
-- for `>` and `lowest` for `-1e10`. `none` is an access out of range, writes to `str_buffer` included.
pub mod Merge
pub mod Spell
pub mod Tokens
pub mod Whole
use pi3_distributed_llm_infe.Base.{
  ℕ, zero, suc, ◌+◌, ◌-◌, Bool, true, false, List, [], ◌∷◌, ◌++◌, Option, none, some, ◌>>=◌, ◌==◌,
  ◌&&◌, leb, ltb, u32, ◌*◌, map, if◌then◌else◌, bit_and, length, get_elem?, set,
}
use pi3_distributed_llm_infe.Base.Int.{ℤ, pos, negsuc}
use pi3_distributed_llm_infe.Infer.Tokenizer.{TokenIndex, sort_vocab, str_lookup}

-- `(b & 0xC0) == 0x80`
unfoldable pub is_continuation : ℕ → Bool
is_continuation b = bit_and b 192 == 128

-- The test on `*(c+1)`, which is the NUL at the end of the text.
unfoldable pub continues : List ℕ → Bool
continues [] = false
continues (b ∷ rest) = is_continuation b

-- `str_buffer` with the byte at `c` appended, behind the reset of `str_len`.
unfoldable pub append_byte : List ℕ → ℕ → List ℕ
append_byte str c = (if is_continuation c then str else []) ++ (c ∷ [])

-- The tokens of a code point: its id, or each byte as a token, from 3 on.
unfoldable pub code_point_tokens : ℤ → List ℕ → List ℤ
code_point_tokens (pos id) str = pos id ∷ []
code_point_tokens (negsuc n) str = map (λ b. pos (b + 3)) str

-- `best_score`, `best_id` and `best_idx`; the pair is `none` as long as `best_idx` is -1.
pub record Best (Score : Type 0) : Type 0 where
  pub score : Score
  pub merge : Option (ℕ × ℕ)

-- The tokens behind `idx + 1` moved back by one, over that at `idx + 1`.
unfoldable pub delete_after : List ℤ → ℕ → List ℤ
delete_after [] idx = []
delete_after (t ∷ []) idx = t ∷ []
delete_after (t ∷ u ∷ ts) zero = t ∷ ts
delete_after (t ∷ u ∷ ts) (suc idx) = t ∷ delete_after (u ∷ ts) idx

-- The optional BOS token, and the optional EOS token.
abbrev pub bos_tokens : Bool → List ℤ
bos_tokens true = pos 1 ∷ []
bos_tokens false = []

abbrev pub eos_tokens : Bool → List ℤ
eos_tokens true = pos 2 ∷ []
eos_tokens false = []

module _ (lookup : List ℕ → Option ℤ) where
  -- The loop over the text, with `str` in the buffer up to `str_len` and `held` up to its NUL: the
  -- tokens that it appends, and what the buffer holds at the end.
  -- `size` is the number of bytes of the buffer, of which a piece takes one more than it has, for the NUL.
  unfoldable pub code_points : ℕ → List ℕ → List ℕ → List ℕ → Option (List ℤ × List ℕ)
  code_points size [] str held = some ([], held)
  code_points size (c ∷ rest) str held =
      let piece = append_byte str c in
      elim (leb (length piece + 1) size) [
        | false ↦ none
        | true ↦ elim (continues rest && ltb (length piece) 4) [
          | true ↦ code_points size rest piece piece
          | false ↦ lookup piece >>= (λ id.
              code_points size rest [] piece
              >>= (λ r. some (code_point_tokens id piece ++ r.0, r.1)))
        ]
      ]

  module _ {Score : Type 0} (gt : Score → Score → Bool) (lowest : Score)
      (vocab_scores : List Score) where
    -- The rounds of the inner loop from pair `i` on, `left` of them to go.
    unfoldable pub best_pair : List ℕ → ℕ → ℕ → Best Score → Option (Best Score)
    best_pair held zero i best = some best
    best_pair held (suc left) i best = lookup held >>= (λ found. elim found [
      | negsuc n ↦ best_pair held left (i + 1) best
      | pos id ↦ get_elem? vocab_scores id >>= (λ score.
          best_pair held left (i + 1)
            (if gt score best.score then record { score = score; merge = some (id, i) } else best))
    ])

    -- `while (1)`; `none` is a read out of range, or more rounds than the fuel.
    unfoldable pub merge_loop : ℕ → List ℕ → List ℤ → Option (List ℤ)
    merge_loop zero held tokens = none
    merge_loop (suc fuel) held tokens =
        best_pair held (length tokens - 1) 0 (record { score = lowest; merge = none }) >>= (λ best.
          elim best.merge [
            | none ↦ some tokens
            | some m ↦ merge_loop fuel held (delete_after (set tokens m.1 (pos m.0)) m.1)
          ])

    -- The tokens before the merges, and the text that the buffer holds then.
    unfoldable pub first_tokens : ℕ → Bool → List ℕ → Option (List ℤ × List ℕ)
    first_tokens size bos text = elim text [
      | [] ↦ some (bos_tokens bos, [])
      | c ∷ rest ↦ lookup (32 ∷ []) >>= (λ dummy_prefix.
          code_points size (c ∷ rest) [] []
          >>= (λ r. some (bos_tokens bos ++ (dummy_prefix ∷ r.0), r.1)))
    ]

    -- `encode` with the vocabulary sorted. A merge takes a token away, so one round more than tokens is
    -- fuel enough.
    unfoldable pub encode_sorted : ℕ → Bool → Bool → List ℕ → Option (List ℤ)
    encode_sorted size bos eos text = do
      (tokens, held) ← first_tokens size bos text
      merged ← merge_loop (suc (length tokens)) held tokens
      some (merged ++ eos_tokens eos)

-- The tokenizer that `build_tokenizer` makes; `sorted_vocab` is `none` for NULL.
pub record Tokenizer (Score : Type 0) : Type 0 where
  pub vocab : List (List ℕ)
  pub vocab_scores : List Score
  pub sorted_vocab : Option (List TokenIndex)
  pub max_token_length : ℕ

-- `t->sorted_vocab`, sorted on the first call.
unfoldable pub sorted_of : {Score : Type 0} → Tokenizer Score → Option (List TokenIndex)
sorted_of t = elim t.sorted_vocab [ none ↦ sort_vocab t.vocab | some sorted ↦ some sorted ]

-- `str_buffer_size`, a sum of `unsigned int`s.
abbrev pub str_buffer_size : {Score : Type 0} → Tokenizer Score → ℕ
str_buffer_size t = u32 (t.max_token_length * 2 + 1 + 2)

-- `encode`: the tokenizer that it leaves, and the tokens.
unfoldable pub encode :
    {Score : Type 0}
    → (Score → Score → Bool)
    → Score
    → Tokenizer Score
    → Bool
    → Bool
    → List ℕ
    → Option (Tokenizer Score × List ℤ)
encode gt lowest t bos eos text = do
  sorted ← sorted_of t
  tokens ←
      encode_sorted (λ s. str_lookup s sorted) gt lowest t.vocab_scores (str_buffer_size t) bos eos
        text
  some (record t { sorted_vocab = some sorted }, tokens)
