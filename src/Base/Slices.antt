-- ===== src/Base/Slices.antt =====
-- What `take`, `drop` and `get_elem?` are of two lists put together, and behind the end of one.
use Prim.Native.Nat.{ℕ, zero, suc, ◌+◌, ◌-◌, ◌≤◌, ◌<◌}
use mathlib.Core.Path.{◌≡◌, refl, ap}
use mathlib.Core.Option.{some}
use mathlib.Core.List.{List, [], ◌∷◌, ◌++◌}
use native.Mathlib.Omega.{arith}
use pi3_distributed_llm_infe.Base.Lists.{length, get_elem?, take, drop, replicate}

module _ {ℓ} {A : Type ℓ} where
  pub take-append : (xs ys : List A) → take (length xs) (xs ++ ys) ≡ xs
  take-append [] ys = refl
  take-append (x ∷ xs) ys = ap (◌∷◌ x) (take-append xs ys)

  pub drop-append : (xs ys : List A) → drop (length xs) (xs ++ ys) ≡ ys
  drop-append [] ys = refl
  drop-append (x ∷ xs) ys = drop-append xs ys

  pub get_elem?-append :
      (xs ys : List A) (i : ℕ) → get_elem? (xs ++ ys) (length xs + i) ≡ get_elem? ys i
  get_elem?-append [] ys i = ap (get_elem? ys) (omega arith)
  get_elem?-append (x ∷ xs) ys i =
      let e : suc (length xs) + i ≡ suc (length xs + i) = omega arith in
      rw e (get_elem?-append xs ys i)

  pub get_elem?-left :
      (xs ys : List A) (i : ℕ) (x : A) → get_elem? xs i ≡ some x → get_elem? (xs ++ ys) i ≡ some x
  get_elem?-left [] ys i x e = cc
  get_elem?-left (y ∷ xs) ys zero x e = e
  get_elem?-left (y ∷ xs) ys (suc i) x e = get_elem?-left xs ys i x e

  pub take-past :
      (k : ℕ) (xs ys : List A) → length xs ≤ k → take k (xs ++ ys) ≡ xs ++ take (k - length xs) ys
  take-past k [] ys h = ap (λ n. take n ys) (omega arith)
  take-past zero (x ∷ xs) ys h = absurd (omega arith)
  take-past (suc k) (x ∷ xs) ys h =
      let left : suc k - suc (length xs) ≡ k - length xs = omega arith in
      rw left (ap (◌∷◌ x) (take-past k xs ys (omega arith)))

  pub drop-past :
      (k : ℕ) (xs ys : List A) → length xs ≤ k → drop k (xs ++ ys) ≡ drop (k - length xs) ys
  drop-past k [] ys h = ap (λ n. drop n ys) (omega arith)
  drop-past zero (x ∷ xs) ys h = absurd (omega arith)
  drop-past (suc k) (x ∷ xs) ys h =
      let left : suc k - suc (length xs) ≡ k - length xs = omega arith in
      rw left (drop-past k xs ys (omega arith))

  pub take-nil : (n : ℕ) → take {A = A} n [] ≡ []
  take-nil zero = refl
  take-nil (suc n) = refl

  pub take-behind : (xs : List A) (n : ℕ) → length xs ≤ n → take n xs ≡ xs
  take-behind [] n h = take-nil n
  take-behind (x ∷ xs) zero h = absurd (omega arith)
  take-behind (x ∷ xs) (suc n) h = ap (◌∷◌ x) (take-behind xs n (omega arith))

  pub drop-behind : (xs : List A) (n : ℕ) → length xs ≤ n → drop n xs ≡ []
  drop-behind [] zero h = refl
  drop-behind [] (suc n) h = refl
  drop-behind (x ∷ xs) zero h = absurd (omega arith)
  drop-behind (x ∷ xs) (suc n) h = drop-behind xs n (omega arith)

  pub drop-at :
      (xs : List A) (n : ℕ) (x : A) → get_elem? xs n ≡ some x → drop n xs ≡ x ∷ drop (suc n) xs
  drop-at [] n x e = cc
  drop-at (y ∷ xs) zero x e = cc
  drop-at (y ∷ xs) (suc n) x e = drop-at xs n x e

  pub take-replicate : (n k : ℕ) (a : A) → k ≤ n → take k (replicate n a) ≡ replicate k a
  take-replicate n zero a h = refl
  take-replicate zero (suc k) a h = absurd (omega arith)
  take-replicate (suc n) (suc k) a h = ap (◌∷◌ a) (take-replicate n k a (omega arith))

  pub drop-replicate : (n k : ℕ) (a : A) → drop k (replicate n a) ≡ replicate (n - k) a
  drop-replicate n zero a = ap (λ m. replicate m a) (omega arith)
  drop-replicate zero (suc k) a = let e : 0 ≡ 0 - suc k = omega arith in ap (λ m. replicate m a) e
  drop-replicate (suc n) (suc k) a =
      let e : suc n - suc k ≡ n - k = omega arith in rw e (drop-replicate n k a)

  pub get_elem?-replicate : (n i : ℕ) (a : A) → i < n → get_elem? (replicate n a) i ≡ some a
  get_elem?-replicate zero i a h = absurd (omega arith)
  get_elem?-replicate (suc n) zero a h = refl
  get_elem?-replicate (suc n) (suc i) a h = get_elem?-replicate n i a (omega arith)
