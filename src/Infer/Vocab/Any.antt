-- ===== src/Infer/Vocab/Any.antt =====
-- What any file gives: a tokenizer whose tables fit together, or the panic; a file cut short the panic.
use pi3_distributed_llm_infe.Base.{
  ℕ, zero, suc, ◌^◌, ◌≤◌, ◌≡◌, refl, sym, ◌∙◌, subst, arith, List, [], ◌∷◌, none, some, ◌==◌, leb,
  ltb, map, length, length-map, take, drop, get_elem?, Bool-cases, inl, inr,
}
use pi3_distributed_llm_infe.Libc.Str.Compare.{IsText}
use pi3_distributed_llm_infe.Infer.Encode.{Tokenizer, sorted_of, str_buffer_size}
use pi3_distributed_llm_infe.Infer.Encode.Whole.{IsTokenizer}
use pi3_distributed_llm_infe.Infer.Vocab.{
  Load, loaded, failed, wild, ◌>>=◌, c_string, read_word, read_string, read_entries,
  build_tokenizer,
}

-- A bind that loads has loaded its first part.
>>=-eq-loaded {ℓ κ} :
    {A : Type ℓ} {B : Type κ} (r : Load A) (f : A → Load B) {b : B}
    → (r >>= f) ≡ loaded b
    → (a : A) × (r ≡ loaded a) × (f a ≡ loaded b)
>>=-eq-loaded (loaded a) f e = (a, refl, e)
>>=-eq-loaded failed f e = absurd (cc)
>>=-eq-loaded wild f e = absurd (cc)

loaded_inj {ℓ} : {A : Type ℓ} (x y : A) → loaded x ≡ loaded y → x ≡ y
loaded_inj x y e = cc

IsText-c_string : (s : List ℕ) → IsText (c_string s)
unfolding c_string
IsText-c_string [] = tt
IsText-c_string (b ∷ bs) = elim (Bool-cases (b == 0)) [
  | inl stop ↦ rw stop tt
  | inr more ↦ rw more (ground arith, IsText-c_string bs)
]

read_string-IsText :
    (len : ℕ) (s : List ℕ) (r : List ℕ × List ℕ) → read_string len s ≡ loaded r → IsText r.0
unfolding read_string
read_string-IsText len s r e = elim (Bool-cases (leb (2 ^ 31) len)) [
  | inl big ↦ absurd (wild_not r (rw big at e))
  | inr small ↦ elim (Bool-cases (ltb (length s) len)) [
    | inl short ↦ absurd (failed_not r (rw (small, short) at e))
    | inr enough ↦
        subst (λ (x : List ℕ × List ℕ). IsText x.0)
          (loaded_inj (c_string (take len s), drop len s) r (rw (small, enough) at e))
          (IsText-c_string (take len s))
  ]
]
  where
    wild_not : (r : List ℕ × List ℕ) → ¬ (wild ≡ loaded r)
    wild_not r e = cc

    failed_not : (r : List ℕ × List ℕ) → ¬ (failed ≡ loaded r)
    failed_not r e = cc

-- All the tokens are texts.
abbrev AreTexts : List (ℕ × List ℕ) → Type 0
AreTexts [] = Unit
AreTexts (e ∷ es) = IsText e.1 × AreTexts es

read_entries-AreTexts :
    (n : ℕ) (s : List ℕ) (es : List (ℕ × List ℕ))
    → read_entries n s ≡ loaded es
    → AreTexts es × (length es ≡ n)
unfolding read_entries
read_entries-AreTexts zero s es e =
    let same : [] ≡ es = loaded_inj [] es e in
    subst (λ x. AreTexts x × (length x ≡ 0)) same (tt, refl)
read_entries-AreTexts (suc n) s es e =
    let (w, _, k1) = >>=-eq-loaded (read_word s) _ e in
    let (l, _, k2) = >>=-eq-loaded (read_word w.1) _ k1 in
    let (t, text, k3) = >>=-eq-loaded (read_string l.0 l.1) _ k2 in
    let (rest, more, k4) = >>=-eq-loaded (read_entries n t.1) _ k3 in
    let (texts, count) = read_entries-AreTexts n t.1 rest more in
    let same = loaded_inj ((w.0, t.0) ∷ rest) es k4 in
    subst (λ x. AreTexts x × (length x ≡ suc n)) same
      ((read_string-IsText l.0 l.1 t text, texts), omega (arith, count))

texts_of :
    (es : List (ℕ × List ℕ))
    → AreTexts es
    → (i : ℕ) (s : List ℕ) → get_elem? (map (λ e. e.1) es) i ≡ some s
    → IsText s
texts_of [] h i s e = cc
texts_of (x ∷ es) h zero s e = subst IsText (head_of x.1 s e) h.0
  where
    head_of : (a b : List ℕ) → some a ≡ some b → a ≡ b
    head_of a b e = cc
texts_of (x ∷ es) h (suc i) s e = texts_of es h.1 i s e

-- A tokenizer from a file is one for `encode`, when its `str_buffer` has room for a code point.
pub build_tokenizer-IsTokenizer :
    {Score : Type 0} (float_of : ℕ → Score) (vocab_size : ℕ) (file : List ℕ) (t : Tokenizer Score)
    → build_tokenizer float_of vocab_size file ≡ loaded t
    → 5 ≤ str_buffer_size t
    → IsTokenizer t × (length t.vocab ≡ vocab_size)
unfolding build_tokenizer sorted_of
build_tokenizer-IsTokenizer {Score} float_of vocab_size file t e roomy =
    let (w, _, k1) = >>=-eq-loaded (read_word file) _ e in
    let (es, run, k2) = >>=-eq-loaded (read_entries vocab_size w.1) _ k1 in
    let (texts, count) = read_entries-AreTexts vocab_size w.1 es run in
    let made : Tokenizer Score = record {
      vocab = map (λ e. e.1) es;
      vocab_scores = map (λ e. float_of e.0) es;
      sorted_vocab = none;
      max_token_length = w.0;
    } in
    let size = length-map es (λ (e : ℕ × List ℕ). e.1) in
    let size' = length-map es (λ (e : ℕ × List ℕ). float_of e.0) in
    subst (λ (x : Tokenizer Score). IsTokenizer x × (length x.vocab ≡ vocab_size))
      (loaded_inj made t k2)
      (
        record {
          texts = texts_of es texts;
          scored = size' ∙ sym size;
          roomy =
              subst (λ (x : Tokenizer Score). 5 ≤ str_buffer_size x) (sym (loaded_inj made t k2))
                roomy;
          ready = refl;
        },
        size ∙ count,
      )
