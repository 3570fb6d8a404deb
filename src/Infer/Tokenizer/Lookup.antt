-- ===== src/Infer/Tokenizer/Lookup.antt =====
-- `encode` sorts the vocabulary with `qsort`, and `str_lookup` searches it with `bsearch`.
use mathlib.Core.List.{Mem, Perm, mem-cons, not-mem-nil}
use mathlib.Core.List.Perm
use mathlib.Core.Logic.Or
use pi3_distributed_llm_infe.Base.{
  ℕ, zero, suc, ◌+◌, ◌≡◌, ◌≢◌, refl, sym, ◌∙◌, ap, arith, Bool, true, List, [], ◌∷◌, Option, none,
  some, ◌||◌, get_elem?, all_of_get_elem?, get_elem?-mem, subst,
}
use pi3_distributed_llm_infe.Base.Int.{ℤ, pos, negsuc, is_neg, is_pos}
use pi3_distributed_llm_infe.Libc.Compare.{IsComparison}
use pi3_distributed_llm_infe.Libc.Str.{strcmp}
use pi3_distributed_llm_infe.Libc.Str.Compare.{
  IsText, strcmp-IsComparison, eq_of_strcmp, strcmp_self,
}
use pi3_distributed_llm_infe.Libc.Qsort.Sorts.{qsort-Sorts}
use pi3_distributed_llm_infe.Libc.Bsearch.Finds.{Finds, bsearch-Finds}
use pi3_distributed_llm_infe.Infer.Tokenizer.{
  TokenIndex, compare_tokens, token_indices, sort_vocab, found_id, str_lookup,
}

compare_tokens-IsComparison : IsComparison compare_tokens
unfolding compare_tokens
compare_tokens-IsComparison = record {
  flip = λ a b. strcmp-IsComparison.flip a.str b.str;
  trans = λ a b c. strcmp-IsComparison.trans a.str b.str c.str;
}

of_indices :
    (i : ℕ) (vocab : List (List ℕ)) (j : ℕ) (x : TokenIndex)
    → get_elem? (token_indices i vocab) j ≡ some x
    → (get_elem? vocab j ≡ some x.str) × (x.id ≡ i + j)
unfolding token_indices
of_indices i [] j x e = cc
of_indices i (s ∷ vocab) zero x e =
    let same : record { str = s; id = i } ≡ x = cc in
    (ap (λ t. some t.str) same, omega (arith, ap (λ (t : TokenIndex). t.id) same))
of_indices i (s ∷ vocab) (suc j) x e =
    let (f, g) = of_indices (i + 1) vocab j x e in (f, omega arith)

to_indices :
    (i : ℕ) (vocab : List (List ℕ)) (j : ℕ) (s : List ℕ)
    → get_elem? vocab j ≡ some s
    → get_elem? (token_indices i vocab) j ≡ some (record { str = s; id = i + j })
unfolding token_indices
to_indices i [] j s e = cc
to_indices i (t ∷ vocab) zero s e = let same : t ≡ s = cc in let z : i ≡ i + 0 = omega arith in cc
to_indices i (t ∷ vocab) (suc j) s e =
    let z : i + 1 + j ≡ i + suc j = omega arith in cc (to_indices (i + 1) vocab j s e)

-- What holds of each cell of an array holds of each member.
all_of_cells :
    {A : Type 0} (P : A → Type 0) (prop : (x : A) → IsProp (P x)) (xs : List A)
    → ((i : ℕ) (x : A) → get_elem? xs i ≡ some x → P x)
    → (x : A) → Mem x xs
    → P x
all_of_cells P prop [] h x m = absurd (not-mem-nil m)
all_of_cells P prop (y ∷ xs) h x m =
    Or.elim (prop x) (mem-cons.0 m) (λ e. subst P (sym e) (h 0 y refl))
      (all_of_cells P prop xs (λ i. h (suc i)) x)

-- The answer for `str`: an id under which the vocabulary has it, or -1, and it has it nowhere.
abbrev pub LookedUp : List (List ℕ) → List ℕ → ℤ → Type 0
LookedUp vocab str (pos id) = get_elem? vocab id ≡ some str
LookedUp vocab str (negsuc n) = (n ≡ 0) × ((i : ℕ) → get_elem? vocab i ≢ some str)

module _ (vocab : List (List ℕ)) (str : List ℕ)
    (texts : (i : ℕ) (s : List ℕ) → get_elem? vocab i ≡ some s → IsText s) (text : IsText str) where
  indexed_prop : (x : TokenIndex) → IsProp (get_elem? vocab x.id ≡ some x.str)
  indexed_prop x = hlevel

  -- Every entry of the sorted vocabulary stands for one of the vocabulary.
  of_sorted :
      (sorted : List TokenIndex)
      → Perm sorted (token_indices 0 vocab)
      → (i : ℕ) (x : TokenIndex) → get_elem? sorted i ≡ some x
      → get_elem? vocab x.id ≡ some x.str
  of_sorted sorted p i x e =
      all_of_cells (λ y. get_elem? vocab y.id ≡ some y.str) indexed_prop (token_indices 0 vocab)
        (λ j y f. indexed j y (of_indices 0 vocab j y f)) x
        ((Perm.mem_iff p).0 (get_elem?-mem sorted i e))
    where
      indexed :
          (j : ℕ) (y : TokenIndex)
          → (get_elem? vocab j ≡ some y.str) × (y.id ≡ 0 + j)
          → get_elem? vocab y.id ≡ some y.str
      indexed j y (f, g) = ap (get_elem? vocab) (g ∙ omega arith) ∙ f

  -- The search in the sorted vocabulary, whatever way the entries are arranged in it.
  found :
      (sorted : List TokenIndex)
      → Perm sorted (token_indices 0 vocab)
      → (r : Option ℕ) → Finds compare_tokens (record { str = str; id = 0 }) sorted r
      → (id : ℤ) × (found_id sorted r ≡ some id) × LookedUp vocab str id
  unfolding found_id compare_tokens
  found sorted p (some i) (x, e, n, q) =
      let at = of_sorted sorted p i x e in
      let same : str ≡ x.str = eq_of_strcmp str x.str text (texts x.id x.str at) n q in
      (pos x.id, rw e refl, at ∙ ap some (sym same))
  found sorted p none missing = (negsuc 0, refl, (refl, nowhere))
    where
      differs : TokenIndex → Bool
      differs x = is_neg (strcmp str x.str) || is_pos (strcmp str x.str)

      nowhere : (j : ℕ) → get_elem? vocab j ≢ some str
      nowhere j e =
          let m = get_elem?-mem (token_indices 0 vocab) j (to_indices 0 vocab j str e) in
          let d =
            all_of_get_elem? differs true sorted (λ i x f. ground (arith, missing i x f))
              (record { str = str; id = 0 + j }) ((Perm.mem_iff p).1 m) in
          let (n, q) = strcmp_self str in cc (rw (n, q) at d)

  -- For strings without a NUL inside: `encode` sorts the vocabulary, and then `str_lookup` returns,
  -- with no access out of range, an id under which the vocabulary has the string, or -1, and then
  -- the vocabulary does not have it.
  pub str_lookup-LookedUp :
      (sorted : List TokenIndex) × (sort_vocab vocab ≡ some sorted)
      × ((id : ℤ) × (str_lookup str sorted ≡ some id) × LookedUp vocab str id)
  unfolding sort_vocab str_lookup
  str_lookup-LookedUp =
      let (sorted, e, p, s) =
        qsort-Sorts compare_tokens compare_tokens-IsComparison (token_indices 0 vocab) in
      let (r, f, g) = bsearch-Finds compare_tokens-IsComparison (record { str = str; id = 0 }) s in
      (sorted, e, rw f (found sorted p r g))
