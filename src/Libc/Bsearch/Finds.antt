-- ===== src/Libc/Bsearch/Finds.antt =====
-- `bsearch` on a sorted array returns, and finds the key exactly when it is there.
use pi3_distributed_llm_infe.Base.{
  ℕ, zero, suc, ◌+◌, ◌-◌, ◌/◌, ◌≤◌, ◌<◌, ◌≡◌, refl, true, false, List, Option, none, some, arith,
  ltb, ltb→lt, length, get_elem?, get_elem?-in_range, get_elem?-lt-length, Bool-cases, inl, inr,
  ◌⊎◌, ◌==◌,
}
use pi3_distributed_llm_infe.Base.Int.{ℤ, is_neg, is_pos}
use pi3_distributed_llm_infe.Libc.Compare.{
  IsSorted, IsComparison, get_elem?-le, neg_of_neg_of_le, pos_of_pos_of_le,
}
use pi3_distributed_llm_infe.Libc.Bsearch.{bsearch_loop, bsearch}

-- The index of an element that compares equal to the key, or no element does.
abbrev pub Finds {ℓ} : {A : Type ℓ} → (A → A → ℤ) → A → List A → Option ℕ → Type ℓ
Finds {A = A} compar key xs (some i) =
    (x : A) × (get_elem? xs i ≡ some x)
    × (is_neg (compar key x) ≡ false)
    × (is_pos (compar key x) ≡ false)
Finds {A = A} compar key xs none =
    (i : ℕ) (x : A)
    → get_elem? xs i ≡ some x
    → (is_neg (compar key x) ≡ true) ⊎ (is_pos (compar key x) ≡ true)

module _ {ℓ} {A : Type ℓ} {compar : A → A → ℤ} (order : IsComparison compar) (key : A) {xs : List A}
    (sorted : IsSorted compar xs) where
  -- The key is above every element before `lo`, and below every one from `past` on.
  record Between (lo past : ℕ) : Type ℓ where
    ordered : lo ≤ past
    in_range : past ≤ length xs
    above : (i : ℕ) (x : A) → i < lo → get_elem? xs i ≡ some x → is_pos (compar key x) ≡ true
    below : (i : ℕ) (x : A) → past ≤ i → get_elem? xs i ≡ some x → is_neg (compar key x) ≡ true

  go_below :
      {lo past : ℕ} (mid : ℕ) {m : A}
      → Between lo past
      → lo ≤ mid
      → mid < past
      → get_elem? xs mid ≡ some m
      → is_neg (compar key m) ≡ true
      → Between lo mid
  go_below mid {m} v low h em neg = record {
    ordered = low;
    in_range = omega (arith, v.in_range);
    above = v.above;
    below = λ i x le ex. elim (Bool-cases (ltb mid i)) [
      | inl later ↦
          neg_of_neg_of_le order key m x neg
            (get_elem?-le compar mid i sorted (ltb→lt mid i later) em ex)
      | inr here ↦ let e : mid ≡ i = ground arith in let e' : m ≡ x = cc in rw (← e') neg
    ];
  }

  go_above :
      {lo past : ℕ} (mid : ℕ) {m : A}
      → Between lo past
      → mid < past
      → get_elem? xs mid ≡ some m
      → is_pos (compar key m) ≡ true
      → Between (mid + 1) past
  go_above mid {m} v h em pos = record {
    ordered = omega arith;
    in_range = v.in_range;
    above = λ i x lt ex. elim (Bool-cases (ltb i mid)) [
      | inl earlier ↦
          pos_of_pos_of_le order key m x pos
            (get_elem?-le compar i mid sorted (ltb→lt i mid earlier) ex em)
      | inr here ↦ let e : mid ≡ i = ground arith in let e' : m ≡ x = cc in rw (← e') pos
    ];
    below = v.below;
  }

  loop-Finds :
      (fuel lo past : ℕ)
      → past < fuel + lo
      → Between lo past
      → (r : Option ℕ) × (bsearch_loop compar key xs fuel lo past ≡ some r) × Finds compar key xs r
  unfolding bsearch_loop
  loop-Finds zero lo past h v = absurd (omega (arith, v.ordered))
  loop-Finds (suc fuel) lo past h v = elim (Bool-cases (ltb lo past)) [
    | inr over ↦ rw over (
      none,
      refl,
      λ i x ex. elim (Bool-cases (ltb i lo)) [
        | inl before ↦ inr (v.above i x (ltb→lt i lo before) ex)
        | inr behind ↦ inl (v.below i x (ground arith) ex)
      ],
    )
    | inl more ↦
        let lt : lo < past = ltb→lt lo past more in
        let mid : ℕ = lo + (past - 1 - lo) / 2 in
        let inside : mid < past = omega arith in
        let (m, em) = get_elem?-in_range xs mid (omega (arith, v.in_range)) in
        elim (Bool-cases (is_neg (compar key m))) [
          | inl neg ↦
              rw (more, em, neg)
                (loop-Finds fuel lo mid (omega arith) (go_below mid v (omega arith) inside em neg))
          | inr not_neg ↦ elim (Bool-cases (is_pos (compar key m))) [
            | inl pos ↦
                rw (more, em, not_neg, pos)
                  (loop-Finds fuel (mid + 1) past (omega arith) (go_above mid v inside em pos))
            | inr not_pos ↦
                rw (more, em, not_neg, not_pos) (some mid, refl, (m, em, not_neg, not_pos))
          ]
        ]
  ]

  -- On a sorted array, under the comparison of a total preorder, `bsearch` returns with no access
  -- out of range: the index of an element that compares equal to the key, or NULL, and then no
  -- element compares equal.
  pub bsearch-Finds : (r : Option ℕ) × (bsearch compar key xs ≡ some r) × Finds compar key xs r
  unfolding bsearch
  bsearch-Finds = elim (Bool-cases (length xs == 0)) [
    | inl empty ↦
        rw empty (none, refl, λ i x ex. absurd (ground (arith, get_elem?-lt-length xs i ex)))
    | inr some_left ↦ rw some_left (
        loop-Finds (length xs + 1) 0 (length xs) (omega arith) (record {
          ordered = omega arith;
          in_range = omega arith;
          above = λ i x lt ex. absurd (omega arith);
          below = λ i x le ex. absurd (omega (arith, get_elem?-lt-length xs i ex));
        }))
  ]
