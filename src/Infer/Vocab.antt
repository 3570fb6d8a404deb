-- ===== src/Infer/Vocab.antt =====
-- `build_tokenizer` of libpi/src/run.c: the tokenizer's tables out of the bytes of its file. A score is
-- `float_of` the four bytes that stand for it.
pub mod Any
pub mod Cut
pub mod File
use pi3_distributed_llm_infe.Base.{
  ℕ, zero, suc, ◌+◌, ◌^◌, List, [], ◌∷◌, ◌++◌, Option, none, ◌==◌, leb, ltb, map, if◌then◌else◌,
  length, take, drop,
}
use pi3_distributed_llm_infe.Base.Bytes.{of_le_bytes}
use pi3_distributed_llm_infe.Infer.Encode.{Tokenizer}

-- `failed` is the panic "failed read"; `wild` is a length below 0, with which the source goes back in the
-- file and writes in front of the string.
pub data Load {ℓ} (A : Type ℓ) : Type ℓ where
  loaded : A → Load A
  failed : Load A
  wild : Load A

infixl 5 ◌>>=◌
abbrev pub ◌>>=◌ {ℓ κ} : {A : Type ℓ} {B : Type κ} → Load A → (A → Load B) → Load B
loaded a >>= f = f a
failed >>= f = failed
wild >>= f = wild

-- The string at the front of a buffer with a NUL behind it.
unfoldable pub c_string : List ℕ → List ℕ
c_string [] = []
c_string (b ∷ bs) = if b == 0 then [] else b ∷ c_string bs

-- `memcpy` of 4 bytes at the cursor, behind the test that they are in the file.
unfoldable pub read_word : List ℕ → Load (ℕ × List ℕ)
read_word s = if ltb (length s) 4 then failed else loaded (of_le_bytes (take 4 s), drop 4 s)

-- The bytes of a token.
unfoldable pub read_string : ℕ → List ℕ → Load (List ℕ × List ℕ)
read_string len s =
    if leb (2 ^ 31) len
    then wild
    else if ltb (length s) len
    then failed
    else loaded (c_string (take len s), drop len s)

-- The loop over the vocabulary, `left` entries to go: each score's word, and each token.
unfoldable pub read_entries : ℕ → List ℕ → Load (List (ℕ × List ℕ))
read_entries zero s = loaded []
read_entries (suc left) s = do
  (score, s1) ← read_word s
  (len, s2) ← read_word s1
  (str, s3) ← read_string len s2
  rest ← read_entries left s3
  loaded ((score, str) ∷ rest)

unfoldable pub build_tokenizer :
    {Score : Type 0} → (ℕ → Score) → ℕ → List ℕ → Load (Tokenizer Score)
build_tokenizer float_of vocab_size file = do
  (max_token_length, s) ← read_word file
  entries ← read_entries vocab_size s
  loaded (record {
    vocab = map (λ e. e.1) entries;
    vocab_scores = map (λ e. float_of e.0) entries;
    sorted_vocab = none;
    max_token_length = max_token_length;
  })
