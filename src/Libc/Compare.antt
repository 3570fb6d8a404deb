-- ===== src/Libc/Compare.antt =====
-- The comparison functions that `qsort` and `bsearch` are given, as C documents them: the sign of
-- the result orders two elements, and the order is a total preorder.
use mathlib.Core.List.{Pairwise}
use pi3_distributed_llm_infe.Base.{
  ℕ, zero, suc, ◌<◌, ◌≡◌, ◌∙◌, true, false, List, some, arith, get_elem?, Bool-cases, inl, inr,
  get_elem?-mem,
}
use pi3_distributed_llm_infe.Base.Int.{ℤ, is_neg, is_pos}

-- `compar(a, b) <= 0`
abbrev pub le {ℓ} : {A : Type ℓ} → (A → A → ℤ) → A → A → Type 0
le compar a b = is_pos (compar a b) ≡ false

-- Each element is at most every later one.
abbrev pub IsSorted {ℓ} : {A : Type ℓ} → (A → A → ℤ) → List A → Type ℓ
IsSorted compar xs = Pairwise (le compar) xs

pub record IsComparison {ℓ} {A : Type ℓ} (compar : A → A → ℤ) : Type ℓ where
  pub flip : (a b : A) → is_pos (compar a b) ≡ is_neg (compar b a)
  pub trans : (a b c : A) → le compar a b → le compar b c → le compar a c

pub le_of_neg : (z : ℤ) → is_neg z ≡ true → is_pos z ≡ false
le_of_neg (ℤ.pos n) h = cc
le_of_neg (ℤ.negsuc n) h = cc

-- Two cells of a sorted array, in their order.
pub get_elem?-le {ℓ} :
    {A : Type ℓ} (compar : A → A → ℤ) {xs : List A} (i j : ℕ) {x y : A}
    → IsSorted compar xs
    → i < j
    → get_elem? xs i ≡ some x
    → get_elem? xs j ≡ some y
    → le compar x y
get_elem?-le compar i j Pairwise.nil h ex ey = cc
get_elem?-le compar zero zero (Pairwise.cons f p) h ex ey = absurd (omega arith)
get_elem?-le compar zero (suc j) {x} {y} (Pairwise.cons {a = a} {l = l} f p) h ex ey =
    let e : a ≡ x = cc in rw (← e) (f y (get_elem?-mem l j ey))
get_elem?-le compar (suc i) zero (Pairwise.cons f p) h ex ey = absurd (omega arith)
get_elem?-le compar (suc i) (suc j) (Pairwise.cons f p) h ex ey =
    get_elem?-le compar i j p (omega arith) ex ey

module _ {ℓ} {A : Type ℓ} {compar : A → A → ℤ} (order : IsComparison compar) where
  -- A key below an element is below all that are not less than that element, and the other way round.
  pub neg_of_neg_of_le :
      (key m x : A) → is_neg (compar key m) ≡ true → le compar m x → is_neg (compar key x) ≡ true
  neg_of_neg_of_le key m x less h = elim (Bool-cases (is_neg (compar key x))) [
    | inl yes' ↦ yes'
    | inr no' ↦ cc (order.trans m x key h (order.flip x key ∙ no'), order.flip m key)
  ]

  pub pos_of_pos_of_le :
      (key m x : A) → is_pos (compar key m) ≡ true → le compar x m → is_pos (compar key x) ≡ true
  pos_of_pos_of_le key m x more h = elim (Bool-cases (is_pos (compar key x))) [
    | inl yes' ↦ yes'
    | inr no' ↦ cc (order.trans key x m no' h)
  ]
