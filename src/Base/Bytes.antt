-- ===== src/Base/Bytes.antt =====
-- Little-endian numbers as lists of bytes, and the bytes that a stream still holds.
use pi3_distributed_llm_infe.Base.{
  ℕ, zero, suc, ◌+◌, ◌*◌, ◌/◌, ◌%◌, ◌^◌, ◌<◌, ◌≡◌, refl, sym, subst, ap, ◌∙◌, arith, List, [], ◌∷◌,
  ◌++◌, Option, none, some, ◌>>=◌, >>=-eq-some, length,
}
use native.Mathlib.Nat.{pow-succ'}

abbrev pub IsBytes : List ℕ → Type 0
IsBytes [] = Unit
IsBytes (b ∷ bs) = (b < 256) × IsBytes bs

-- The `n` bytes of a number, lowest first.
abbrev pub le_bytes : ℕ → ℕ → List ℕ
le_bytes zero u = []
le_bytes (suc n) u = (u % 256) ∷ le_bytes n (u / 256)

abbrev pub of_le_bytes : List ℕ → ℕ
of_le_bytes [] = 0
of_le_bytes (b ∷ bs) = b + 256 * of_le_bytes bs

pub length-le_bytes : (n u : ℕ) → length (le_bytes n u) ≡ n
length-le_bytes zero u = refl
length-le_bytes (suc n) u = ap suc (length-le_bytes n (u / 256))

pub le_bytes-IsBytes : (n u : ℕ) → IsBytes (le_bytes n u)
le_bytes-IsBytes zero u = tt
le_bytes-IsBytes (suc n) u = (omega arith, le_bytes-IsBytes n (u / 256))

pub of_le_bytes-le_bytes : (n u : ℕ) → u < 256 ^ n → of_le_bytes (le_bytes n u) ≡ u
of_le_bytes-le_bytes zero u h = omega arith
of_le_bytes-le_bytes (suc n) u h =
    let small : u / 256 < 256 ^ n = omega (arith, pow-succ' 256 n) in
    omega (arith, of_le_bytes-le_bytes n (u / 256) small)

pub le_bytes-of_le_bytes : (bs : List ℕ) → IsBytes bs → le_bytes (length bs) (of_le_bytes bs) ≡ bs
le_bytes-of_le_bytes [] h = refl
le_bytes-of_le_bytes (b ∷ bs) h =
    let low : (b + 256 * of_le_bytes bs) % 256 ≡ b = omega arith in
    let high : (b + 256 * of_le_bytes bs) / 256 ≡ of_le_bytes bs = omega arith in
    rw (low, high) (ap (◌∷◌ b) (le_bytes-of_le_bytes bs h.1))

-- Reads `n` bytes off a stream; `none` is a read that waits for bytes that never come.
abbrev pub read_bytes : ℕ → List ℕ → Option (List ℕ × List ℕ)
read_bytes zero s = some ([], s)
read_bytes (suc n) [] = none
read_bytes (suc n) (b ∷ s) = read_bytes n s >>= (λ r. some (b ∷ r.0, r.1))

pub read_bytes-append :
    (n : ℕ) (bs rest : List ℕ) → length bs ≡ n → read_bytes n (bs ++ rest) ≡ some (bs, rest)
read_bytes-append zero [] rest e = refl
read_bytes-append zero (b ∷ bs) rest e = absurd (omega arith)
read_bytes-append (suc n) [] rest e = absurd (omega arith)
read_bytes-append (suc n) (b ∷ bs) rest e = rw (read_bytes-append n bs rest (omega arith)) refl

-- What was read, followed by what is left, is the stream.
pub read_bytes_lem :
    (n : ℕ) (s : List ℕ) (r : List ℕ × List ℕ)
    → read_bytes n s ≡ some r
    → (s ≡ r.0 ++ r.1) × (length r.0 ≡ n)
read_bytes_lem zero s r e =
    let first : List ℕ × List ℕ = ([], s) in
    let same : first ≡ r = cc in (ap (λ p. p.0 ++ p.1) same, ap (λ p. length p.0) (sym same))
read_bytes_lem (suc n) [] r e = cc
read_bytes_lem (suc n) (b ∷ s) r e =
    let (q, eq, er) = >>=-eq-some (read_bytes n s) _ e in
    let first : List ℕ × List ℕ = (b ∷ q.0, q.1) in
    let same : first ≡ r = cc in
    let (split, len) = read_bytes_lem n s q eq in
    (ap (◌∷◌ b) split ∙ ap (λ p. p.0 ++ p.1) same, ap (λ p. length p.0) (sym same) ∙ ap suc len)

IsBytes-append : (xs ys : List ℕ) → IsBytes (xs ++ ys) → IsBytes xs × IsBytes ys
IsBytes-append [] ys h = (tt, h)
IsBytes-append (x ∷ xs) ys h = let (left, right) = IsBytes-append xs ys h.1 in ((h.0, left), right)

-- What was read as a number stands in the stream as the bytes of that number.
pub read_bytes_number :
    (n : ℕ) (s : List ℕ) (r : List ℕ × List ℕ)
    → IsBytes s
    → read_bytes n s ≡ some r
    → (s ≡ le_bytes n (of_le_bytes r.0) ++ r.1) × IsBytes r.1
read_bytes_number n s r b e =
    let (split, len) = read_bytes_lem n s r e in
    let (left, right) = IsBytes-append r.0 r.1 (subst IsBytes split b) in
    let same : le_bytes n (of_le_bytes r.0) ≡ r.0 =
      ap (λ k. le_bytes k (of_le_bytes r.0)) (sym len) ∙ le_bytes-of_le_bytes r.0 left in
    (split ∙ ap (λ x. x ++ r.1) (sym same), right)
