-- ===== src/Libc/Str/Buffers.antt =====
-- `strlen`, `strcpy`, `strcat` and the `mem` comparisons do on NUL-terminated buffers what C
-- documents, and run out of the destination exactly when it is too small.
use pi3_distributed_llm_infe.Base.{
  ℕ, zero, suc, ◌+◌, ◌≤◌, ◌<◌, ◌≡◌, refl, ◌↔◌, true, List, [], ◌∷◌, ◌++◌, none, some, arith, length,
  take, replicate,
}
use pi3_distributed_llm_infe.Base.Int.{pos}
use pi3_distributed_llm_infe.Libc.Str.{strlen, strcpy, strcat, memcmp, memiszero}
use pi3_distributed_llm_infe.Libc.Str.Compare.{IsText}

pub strlen_lem : (s r : List ℕ) → IsText s → strlen (s ++ 0 ∷ r) ≡ some (length s)
unfolding strlen
strlen_lem [] r t = refl
strlen_lem (c ∷ s) r t = ground (arith, strlen_lem s r t.1)

pub strcpy_lem :
    (s r d rest : List ℕ)
    → IsText s
    → length d ≡ length s + 1
    → strcpy (d ++ rest) (s ++ 0 ∷ r) ≡ some (s ++ 0 ∷ rest)
unfolding strcpy
strcpy_lem s r [] rest t e = absurd (omega arith)
strcpy_lem [] r (x ∷ []) rest t e = refl
strcpy_lem [] r (x ∷ y ∷ d) rest t e = absurd (omega arith)
strcpy_lem (c ∷ s) r (x ∷ d) rest t e = ground (arith, strcpy_lem s r d rest t.1 (omega arith))

pub strcpy_overflow :
    (s r d : List ℕ) → IsText s → length d ≤ length s → strcpy d (s ++ 0 ∷ r) ≡ none
unfolding strcpy
strcpy_overflow [] r [] t h = refl
strcpy_overflow [] r (x ∷ d) t h = absurd (omega arith)
strcpy_overflow (c ∷ s) r [] t h = refl
strcpy_overflow (c ∷ s) r (x ∷ d) t h = ground (arith, strcpy_overflow s r d t.1 (omega arith))

-- For texts without a NUL, with the room behind the destination's NUL as long as the source's text:
-- `strcat` writes the source's text and its NUL over the destination's NUL and the bytes behind it.
strcat_lem :
    (s t r d rest : List ℕ)
    → IsText s
    → IsText t
    → length d ≡ length t
    → strcat (s ++ 0 ∷ (d ++ rest)) (t ++ 0 ∷ r) ≡ some (s ++ (t ++ 0 ∷ rest))
unfolding strcat
strcat_lem [] t r d rest ts tt' e = strcpy_lem t r (0 ∷ d) rest tt' (omega arith)
strcat_lem (c ∷ s) t r d rest ts tt' e = ground (arith, strcat_lem s t r d rest ts.1 tt' e)

-- Where the destination's room behind its NUL is shorter than the text, `strcat` overruns it.
pub strcat_overflow :
    (s t r room : List ℕ)
    → IsText s
    → IsText t
    → length room < length t
    → strcat (s ++ 0 ∷ room) (t ++ 0 ∷ r) ≡ none
unfolding strcat
strcat_overflow [] t r room ts tt' h = strcpy_overflow t r (0 ∷ room) tt' (omega arith)
strcat_overflow (c ∷ s) t r room ts tt' h = ground (arith, strcat_overflow s t r room ts.1 tt' h)

-- For buffers of at least `n` bytes, `memcmp` returns 0 exactly when their first `n` bytes agree.
memcmp_zero_iff :
    (n : ℕ) (a b : List ℕ)
    → n ≤ length a
    → n ≤ length b
    → (memcmp n a b ≡ some (pos 0)) ↔ (take n a ≡ take n b)
unfolding memcmp
memcmp_zero_iff zero a b ha hb = (λ _. refl, λ _. refl)
memcmp_zero_iff (suc n) [] b ha hb = absurd (omega arith)
memcmp_zero_iff (suc n) (x ∷ a) [] ha hb = absurd (omega arith)
memcmp_zero_iff (suc n) (x ∷ a) (y ∷ b) ha hb =
    ground (arith, memcmp_zero_iff n a b (omega arith) (omega arith))

pub memiszero_iff :
    (n : ℕ) (p : List ℕ) → n ≤ length p → (memiszero n p ≡ some true) ↔ (take n p ≡ replicate n 0)
unfolding memiszero
memiszero_iff zero p h = (λ _. refl, λ _. refl)
memiszero_iff (suc n) [] h = absurd (omega arith)
memiszero_iff (suc n) (c ∷ p) h = ground (arith, memiszero_iff n p (omega arith))
