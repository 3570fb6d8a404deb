-- ===== src/Infer/Vocab/File.antt =====
-- The tokenizer that a file gives.
use pi3_distributed_llm_infe.Base.Slices.{take-append, drop-append}
use pi3_distributed_llm_infe.Base.{
  ℕ, ◌^◌, ◌<◌, ◌≡◌, refl, ap, arith, false, List, [], ◌∷◌, ◌++◌, none, ◌==◌, leb, ltb, map, length,
  length-append, append_assoc,
}
use pi3_distributed_llm_infe.Base.Bytes.{le_bytes, of_le_bytes-le_bytes}
use pi3_distributed_llm_infe.Libc.Str.Compare.{IsText}
use pi3_distributed_llm_infe.Infer.Vocab.{
  loaded, c_string, read_word, read_string, read_entries, build_tokenizer,
}

-- The entry of the file for a token.
abbrev pub entry_bytes : ℕ × List ℕ → List ℕ
entry_bytes e = le_bytes 4 e.0 ++ (le_bytes 4 (length e.1) ++ e.1)

abbrev pub entries_bytes : List (ℕ × List ℕ) → List ℕ
entries_bytes [] = []
entries_bytes (e ∷ es) = entry_bytes e ++ entries_bytes es

-- The scores fit a word, and the tokens are strings as long as an `int` can say.
abbrev pub AreEntries : List (ℕ × List ℕ) → Type 0
AreEntries [] = Unit
AreEntries (e ∷ es) = ((e.0 < 2 ^ 32) × (length e.1 < 2 ^ 31) × IsText e.1) × AreEntries es

pub c_string-IsText : (s : List ℕ) → IsText s → c_string s ≡ s
unfolding c_string
c_string-IsText [] h = refl
c_string-IsText (b ∷ bs) h =
    let more : (b == 0) ≡ false = ground (arith, h.0) in
    rw more (ap (◌∷◌ b) (c_string-IsText bs h.1))

pub read_word-le_bytes :
    (u : ℕ) (rest : List ℕ) → u < 2 ^ 32 → read_word (le_bytes 4 u ++ rest) ≡ loaded (u, rest)
unfolding read_word
read_word-le_bytes u rest h =
    let enough : ltb (length (le_bytes 4 u ++ rest)) 4 ≡ false = ground arith in
    rw (enough, of_le_bytes-le_bytes 4 u h) refl

pub read_string-append :
    (s rest : List ℕ)
    → length s < 2 ^ 31
    → IsText s
    → read_string (length s) (s ++ rest) ≡ loaded (s, rest)
unfolding read_string
read_string-append s rest h t =
    let short : leb (2 ^ 31) (length s) ≡ false = ground arith in
    let size = length-append s rest in
    let enough : ltb (length (s ++ rest)) (length s) ≡ false = ground (arith, size) in
    rw (short, enough, take-append s rest, drop-append s rest, c_string-IsText s t) refl

read_entries-entries_bytes :
    (es : List (ℕ × List ℕ)) (rest : List ℕ)
    → AreEntries es
    → read_entries (length es) (entries_bytes es ++ rest) ≡ loaded es
unfolding read_entries
read_entries-entries_bytes [] rest h = refl
read_entries-entries_bytes (e ∷ es) rest ((hs, hl, ht), h) =
    let tail = entries_bytes es ++ rest in
    let shape : e.1 ++ entries_bytes es ++ rest ≡ e.1 ++ tail =
      append_assoc e.1 (entries_bytes es) rest in
    rw
      (
        read_word-le_bytes e.0 (le_bytes 4 (length e.1) ++ (e.1 ++ entries_bytes es ++ rest)) hs,
        read_word-le_bytes (length e.1) (e.1 ++ entries_bytes es ++ rest) (omega arith),
        shape,
        read_string-append e.1 tail hl ht,
        read_entries-entries_bytes es rest h,
      )
      refl

-- A file of a vocabulary is read back as it was written: the tokens, their scores, and the length.
pub build_tokenizer-entries_bytes :
    {Score : Type 0} (float_of : ℕ → Score) (max_length : ℕ) (es : List (ℕ × List ℕ))
    (rest : List ℕ)
    → max_length < 2 ^ 32
    → AreEntries es
    → build_tokenizer float_of (length es) (le_bytes 4 max_length ++ (entries_bytes es ++ rest))
      ≡ loaded (record {
        vocab = map (λ e. e.1) es;
        vocab_scores = map (λ e. float_of e.0) es;
        sorted_vocab = none;
        max_token_length = max_length;
      })
unfolding build_tokenizer
build_tokenizer-entries_bytes float_of max_length es rest hm h =
    rw
      (
        read_word-le_bytes max_length (entries_bytes es ++ rest) hm,
        read_entries-entries_bytes es rest h,
      )
      refl
