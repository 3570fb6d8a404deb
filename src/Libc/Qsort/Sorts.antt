-- ===== src/Libc/Qsort/Sorts.antt =====
-- `qsort` returns, within its array, a sorted rearrangement of it.
use mathlib.Core.List.{Pairwise, Pairwise-append, Mem, mem-cons, not-mem-nil}
use mathlib.Core.List.Perm
use mathlib.Core.Bool.{Bool-set}
use mathlib.Core.Logic.Or
use pi3_distributed_llm_infe.Base.{
  ℕ, zero, suc, ◌+◌, ◌-◌, ◌≤◌, ◌≡◌, refl, sym, ◌∙◌, true, false, List, [], ◌∷◌, ◌++◌, Option, some,
  arith, length, take, drop, length-take, length-drop, get_elem?-take, get_elem?-drop,
  split_at_cell, take-one-drop, lt→leb_false, leb→le, all_of_get_elem?, Perm, Bool-cases, inl, inr,
  ltb, leb, ltb→lt, if◌then◌else◌,
}
use pi3_distributed_llm_infe.Base.Int.{ℤ, is_neg}
use pi3_distributed_llm_infe.Libc.Compare.{le, IsSorted, IsComparison, le_of_neg}
use pi3_distributed_llm_infe.Libc.Qsort.{qsort_impl, qsort}
use pi3_distributed_llm_infe.Libc.Qsort.Partition.{IsSplit, partition-IsSplit}

abbrev pub Sorts {ℓ} : {A : Type ℓ} → (A → A → ℤ) → List A → Option (List A) → Type ℓ
Sorts {A = A} compar xs result =
    (ys : List A) × (result ≡ some ys) × Perm ys xs × IsSorted compar ys

module _ {ℓ} {A : Type ℓ} (compar : A → A → ℤ) where
  short-IsSorted : (xs : List A) → length xs ≤ 1 → IsSorted compar xs
  short-IsSorted [] h = Pairwise.nil
  short-IsSorted (x ∷ []) h = Pairwise.cons (λ a m. absurd (not-mem-nil m)) Pairwise.nil
  short-IsSorted (x ∷ y ∷ xs) h = absurd (omega arith)

  -- One side of the pivot: sorted by the recursive call, or too short to need it.
  side-Sorts :
      (n : ℕ) (xs : List A) (rec : Option (List A))
      → length xs ≡ n
      → (2 ≤ length xs → Sorts compar xs rec)
      → Sorts compar xs (if ltb 1 n then rec else some xs)
  side-Sorts n xs rec e h = elim (Bool-cases (ltb 1 n)) [
    | inl more ↦ rw more (h (omega (arith, ltb→lt 1 n more)))
    | inr few ↦ rw few (xs, refl, Perm.refl xs, short-IsSorted xs (ground arith))
  ]

module _ {ℓ} {A : Type ℓ} (compar : A → A → ℤ) (order : IsComparison compar) where
  -- Sorted sides about the pivot make a sorted array.
  join-IsSorted :
      {xs c : List A} {pivot : A} {store : ℕ} (l r : List A)
      → IsSplit compar xs pivot store c
      → Perm l (take store c)
      → IsSorted compar l
      → Perm r (drop (store + 1) c)
      → IsSorted compar r
      → IsSorted compar (l ++ pivot ∷ r)
  join-IsSorted {c} {pivot} {store} l r s pl sl pr sr =
      (Pairwise-append {R = le compar} (λ a b. Bool-set _ _)).1
        (sl, Pairwise.cons from_pivot sr, across)
    where
      below : (x : A) → Mem x l → is_neg (compar x pivot) ≡ true
      below x m =
          all_of_get_elem? (λ x. is_neg (compar x pivot)) true (take store c)
            (λ i x e. let t = get_elem?-take store c i e in s.below i x t.0 t.1) x
            ((Perm.mem_iff pl).0 m)

      above : (x : A) → Mem x r → is_neg (compar x pivot) ≡ false
      above x m =
          all_of_get_elem? (λ x. is_neg (compar x pivot)) false (drop (store + 1) c)
            (λ i x e.
              s.above (store + 1 + i) x (omega arith) (sym (get_elem?-drop (store + 1) c i) ∙ e))
            x ((Perm.mem_iff pr).0 m)

      from_pivot : (x : A) → Mem x r → le compar pivot x
      from_pivot x m = order.flip pivot x ∙ above x m

      to_pivot : (x : A) → Mem x l → le compar x pivot
      to_pivot x m = le_of_neg (compar x pivot) (below x m)

      across : (a : A) → Mem a l → (b : A) → Mem b (pivot ∷ r) → le compar a b
      across a ma b mb =
          Or.elim (Bool-set _ _) (mem-cons.0 mb) (λ e. rw e (to_pivot a ma))
            (λ mr. order.trans a pivot b (to_pivot a ma) (from_pivot b mr))

  -- Sorting both sides of a split sorts the array.
  join-Sorts :
      {xs c : List A} {pivot : A} {store : ℕ} (l r : List A)
      → IsSplit compar xs pivot store c
      → Perm l (take store c)
      → Perm r (drop (store + 1) c)
      → Perm (l ++ pivot ∷ r) xs
  join-Sorts {xs} {c} {pivot} {store} l r s pl pr =
      Perm.trans (Perm.append pl (Perm.cons pivot pr))
        (Perm.trans (rw (← whole) (Perm.refl c)) s.perm)
    where
      whole : c ≡ take store c ++ pivot ∷ drop (store + 1) c
      whole = let e : store + 1 ≡ suc store = omega arith in rw e (split_at_cell store c s.pivot_at)

  qsort_impl-Sorts :
      (fuel : ℕ) (xs : List A)
      → length xs ≤ fuel
      → 2 ≤ length xs
      → Sorts compar xs (qsort_impl compar fuel xs)
  unfolding qsort_impl
  qsort_impl-Sorts zero xs fits two = absurd (omega arith)
  qsort_impl-Sorts (suc fuel) xs fits two =
      let (pivot, r, ec, s) = partition-IsSplit compar xs two in
      let store = r.0 in
      let c = r.1 in
      let short : length (take store c) ≡ store =
        omega (arith, length-take store c, s.inside, s.same_length) in
      let rest : length (drop (store + 1) c) ≡ length xs - store - 1 =
        omega (arith, length-drop (store + 1) c, s.same_length) in
      let ih = λ (ys : List A). λ (h : length ys ≤ fuel). qsort_impl-Sorts fuel ys h in
      let (left, el, pl, sl) =
        side-Sorts compar store (take store c) (qsort_impl compar fuel (take store c)) short
          (ih (take store c) (omega (arith, s.inside))) in
      let (right, er, pr, sr) =
        side-Sorts compar (length xs - store - 1) (drop (store + 1) c)
          (qsort_impl compar fuel (drop (store + 1) c)) rest
          (ih (drop (store + 1) c) (omega arith)) in
      (
        left ++ pivot ∷ right,
        rw (lt→leb_false (length xs) 1 two, ec, el, er, take-one-drop store c s.pivot_at),
        join-Sorts left right s pl pr,
        join-IsSorted left right s pl sl pr sr,
      )

  -- `qsort` returns, with no access outside its array, the same elements in order: each at most
  -- every later one. The comparison has to be that of a total preorder.
  pub qsort-Sorts : (xs : List A) → Sorts compar xs (qsort compar xs)
  unfolding qsort
  qsort-Sorts xs = elim (Bool-cases (leb (length xs) 1)) [
    | inl short ↦
        rw short (xs, refl, Perm.refl xs, short-IsSorted compar xs (leb→le (length xs) 1 short))
    | inr long ↦ rw long (qsort_impl-Sorts (length xs) xs (omega arith) (ground arith))
  ]
