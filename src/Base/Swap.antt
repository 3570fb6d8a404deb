-- ===== src/Base/Swap.antt =====
-- Exchanging two cells of an array: `none` is an index out of range. The result is a permutation.
use mathlib.Core.List.Perm
use pi3_distributed_llm_infe.Base.{
  ℕ, zero, suc, ◌<◌, ◌≡◌, refl, List, [], ◌∷◌, Option, some, ◌>>=◌, arith, ◌==◌, if◌then◌else◌,
  length, get_elem?, set, length-set, get_elem?-in_range, Perm,
}

module _ {ℓ} {A : Type ℓ} where
  unfoldable pub swap : List A → ℕ → ℕ → Option (List A)
  swap xs i j = do x ← get_elem? xs i; y ← get_elem? xs j; some (set (set xs i y) j x)

  -- What `ys` is when the cells `i` and `j` of `xs` have been exchanged.
  pub record IsSwapped (xs : List A) (i j : ℕ) (ys : List A) : Type ℓ where
    pub same_length : length ys ≡ length xs
    pub perm : Perm ys xs
    pub cells :
        (c : ℕ)
        → get_elem? ys c
          ≡ (if j == c then get_elem? xs i else if i == c then get_elem? xs j else get_elem? xs c)

  pub get_elem?-set :
      (xs : List A) (i j : ℕ) (v : A)
      → i < length xs
      → get_elem? (set xs i v) j ≡ (if i == j then some v else get_elem? xs j)
  get_elem?-set [] i j v h = absurd (omega arith)
  get_elem?-set (x ∷ xs) zero zero v h = refl
  get_elem?-set (x ∷ xs) (suc i) (suc j) v h = ground (arith, get_elem?-set xs i j v)
  get_elem?-set (x ∷ xs) i j v h = ground arith

  -- A write takes the old value out of the array and puts the new one in.
  set-perm :
      (xs : List A) (i : ℕ) (v : A) {x : A}
      → get_elem? xs i ≡ some x
      → Perm (x ∷ set xs i v) (v ∷ xs)
  set-perm [] i v e = cc
  set-perm (y ∷ xs) zero v {x} e = let e' : x ≡ y = cc in rw e' (Perm.swap v y xs)
  set-perm (y ∷ xs) (suc i) v {x} e =
      Perm.trans (Perm.swap y x _) (Perm.trans (Perm.cons y (set-perm xs i v e)) (Perm.swap v y xs))

  -- In range the exchange succeeds.
  pub swap_lem :
      (xs : List A) (i j : ℕ)
      → i < length xs
      → j < length xs
      → (ys : List A) × (swap xs i j ≡ some ys) × IsSwapped xs i j ys
  unfolding swap
  swap_lem xs i j hi hj =
      let (x, ex) = get_elem?-in_range xs i hi in
      let (y, ey) = get_elem?-in_range xs j hj in
      let hj' : j < length (set xs i y) = rw length-set hj in
      let mid : get_elem? (set xs i y) j ≡ some y = ground (arith, get_elem?-set xs i j y) in
      (
        set (set xs i y) j x,
        rw (ex, ey),
        record {
          same_length = rw (length-set, length-set);
          perm = Perm.cons_inv (Perm.trans (set-perm (set xs i y) j x mid) (set-perm xs i y ex));
          cells = λ c. ground (arith, get_elem?-set (set xs i y) j c x hj', get_elem?-set xs i c y);
        },
      )
