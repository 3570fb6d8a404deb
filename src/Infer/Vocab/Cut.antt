-- ===== src/Infer/Vocab/Cut.antt =====
-- A file that is cut short.
use pi3_distributed_llm_infe.Base.Slices.{take-past}
use pi3_distributed_llm_infe.Base.{
  ℕ, suc, ◌+◌, ◌-◌, ◌^◌, ◌≤◌, ◌<◌, ◌≡◌, refl, ap, ◌∙◌, arith, true, false, List, [], ◌∷◌, ◌++◌, leb,
  ltb, length, length-append, length-take, take, Bool-cases, inl, inr,
}
use pi3_distributed_llm_infe.Base.Bytes.{le_bytes}
use pi3_distributed_llm_infe.Infer.Vocab.{
  failed, read_word, read_string, read_entries, build_tokenizer,
}
use pi3_distributed_llm_infe.Infer.Vocab.File.{
  entries_bytes, AreEntries, read_word-le_bytes, read_string-append,
}

length-take-short : (k : ℕ) (xs : List ℕ) → length (take k xs) ≤ k
length-take-short k xs = omega (arith, length-take k xs)

read_word-short : (k : ℕ) (s : List ℕ) → k < 4 → read_word (take k s) ≡ failed
unfolding read_word
read_word-short k s h =
    let few = length-take-short k s in
    let short : ltb (length (take k s)) 4 ≡ true = ground arith in rw short refl

read_string-short :
    (len k : ℕ) (s : List ℕ) → len < 2 ^ 31 → k < len → read_string len (take k s) ≡ failed
unfolding read_string
read_string-short len k s w h =
    let few = length-take-short k s in
    let small : leb (2 ^ 31) len ≡ false = ground arith in
    let short : ltb (length (take k s)) len ≡ true = ground arith in rw (small, short) refl

-- The second word of an entry, and its string.
entry_short :
    (score n k : ℕ) (str rest : List ℕ)
    → score < 2 ^ 32
    → length str < 2 ^ 31
    → k < 8 + length str
    → read_entries (suc n) (take k (le_bytes 4 score ++ (le_bytes 4 (length str) ++ (str ++ rest))))
      ≡ failed
unfolding read_entries
entry_short score n k str rest hs hl short =
    let s1 = le_bytes 4 (length str) ++ (str ++ rest) in
    elim (Bool-cases (ltb k 4)) [
      | inl no_score ↦ rw (read_word-short k (le_bytes 4 score ++ s1) (ground arith)) refl
      | inr score_there ↦
          let past = take-past k (le_bytes 4 score) s1 (ground arith) in
          let first = ap read_word past ∙ read_word-le_bytes score (take (k - 4) s1) hs in
          elim (Bool-cases (ltb k 8)) [
            | inl no_len ↦ rw (first, read_word-short (k - 4) s1 (ground arith)) refl
            | inr len_there ↦
                let past' =
                  take-past (k - 4) (le_bytes 4 (length str)) (str ++ rest) (ground arith) in
                let second =
                  ap read_word past'
                  ∙ read_word-le_bytes (length str) (take (k - 4 - 4) (str ++ rest))
                      (omega arith) in
                rw
                  (
                    first,
                    second,
                    read_string-short (length str) (k - 4 - 4) (str ++ rest) hl (ground arith),
                  )
                  refl
          ]
    ]

entries_cut :
    (es : List (ℕ × List ℕ)) (k : ℕ)
    → AreEntries es
    → k < length (entries_bytes es)
    → read_entries (length es) (take k (entries_bytes es)) ≡ failed
unfolding read_entries
entries_cut [] k h short = absurd (omega arith)
entries_cut (e ∷ es) k ((hs, hl, ht), h) short =
    let rest = entries_bytes es in
    let s1 = le_bytes 4 (length e.1) ++ (e.1 ++ rest) in
    elim (Bool-cases (ltb k (8 + length e.1))) [
      | inl inside ↦ entry_short e.0 (length es) k e.1 rest hs hl (ground arith)
      | inr behind ↦
          let past = take-past k (le_bytes 4 e.0) s1 (ground arith) in
          let past' = take-past (k - 4) (le_bytes 4 (length e.1)) (e.1 ++ rest) (ground arith) in
          let past'' = take-past (k - 4 - 4) e.1 rest (ground arith) in
          let k' = k - 4 - 4 - length e.1 in
          let first = ap read_word past ∙ read_word-le_bytes e.0 (take (k - 4) s1) hs in
          let second =
            ap read_word past'
            ∙ read_word-le_bytes (length e.1) (take (k - 4 - 4) (e.1 ++ rest)) (omega arith) in
          let third =
            ap (read_string (length e.1)) past'' ∙ read_string-append e.1 (take k' rest) hl ht in
          let tail = entries_cut es k' h (ground (arith, length-append e.1 rest)) in
          rw (first, second, third, tail) refl
    ]

-- A file that is cut short anywhere makes `build_tokenizer` panic: it reads nothing behind the end.
pub build_tokenizer-take :
    {Score : Type 0} (float_of : ℕ → Score) (max_length : ℕ) (es : List (ℕ × List ℕ)) (k : ℕ)
    → max_length < 2 ^ 32
    → AreEntries es
    → k < 4 + length (entries_bytes es)
    → build_tokenizer float_of (length es) (take k (le_bytes 4 max_length ++ entries_bytes es))
      ≡ failed
unfolding build_tokenizer
build_tokenizer-take float_of max_length es k hm h short = elim (Bool-cases (ltb k 4)) [
  | inl none_there ↦
      rw (read_word-short k (le_bytes 4 max_length ++ entries_bytes es) (ground arith)) refl
  | inr there ↦
      let past = take-past k (le_bytes 4 max_length) (entries_bytes es) (ground arith) in
      let first =
        ap read_word past ∙ read_word-le_bytes max_length (take (k - 4) (entries_bytes es)) hm in
      rw (first, entries_cut es (k - 4) h (ground arith)) refl
]
