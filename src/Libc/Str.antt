-- ===== src/Libc/Str.antt =====
-- libpi/libc/str*.c and mem*.c on bytes. A buffer is the list of its bytes from the pointer on, up
-- to the end of the object; `none` is an access behind that end. `char` is unsigned, as on ARM.
pub mod Compare
pub mod Buffers
use pi3_distributed_llm_infe.Base.{
  ℕ, zero, suc, ◌+◌, List, [], ◌∷◌, ◌++◌, Option, none, some, ◌>>=◌, ◌&&◌, not, ◌==◌, if◌then◌else◌,
  Bool, true, false,
}
use pi3_distributed_llm_infe.Base.Int.{ℤ, pos, sub_ℕ}

-- A string given by its bytes before the NUL: reading at the end gives 0.
unfoldable pub strcmp : List ℕ → List ℕ → ℤ
strcmp [] [] = sub_ℕ 0 0
strcmp [] (b ∷ bs) = sub_ℕ 0 b
strcmp (a ∷ as') [] = sub_ℕ a 0
strcmp (a ∷ as') (b ∷ bs) =
    let rest = strcmp as' bs in if not (a == 0) && a == b then rest else sub_ℕ a b

unfoldable pub strlen : List ℕ → Option ℕ
strlen [] = none
strlen (c ∷ p) = let rest = strlen p in if c == 0 then some 0 else (rest >>= λ n. some (suc n))

-- Copies up to and with the NUL; the rest of the destination stays.
unfoldable pub strcpy : List ℕ → List ℕ → Option (List ℕ)
strcpy s1 [] = none
strcpy [] (c ∷ s2) = none
strcpy (d ∷ s1) (c ∷ s2) =
    let rest = strcpy s1 s2 in if c == 0 then some (c ∷ s1) else (rest >>= λ r. some (c ∷ r))

-- The first loop finds the NUL of the destination, the second copies from there.
unfoldable pub strcat : List ℕ → List ℕ → Option (List ℕ)
strcat [] src = none
strcat (d ∷ dest) src =
    let rest = strcat dest src in
    if d == 0 then strcpy (d ∷ dest) src else (rest >>= λ r. some (d ∷ r))

-- The first difference of the first `nbytes` bytes, or 0.
unfoldable pub memcmp : ℕ → List ℕ → List ℕ → Option ℤ
memcmp zero s1 s2 = some (pos 0)
memcmp (suc n) [] s2 = none
memcmp (suc n) (a ∷ s1) [] = none
memcmp (suc n) (a ∷ s1) (b ∷ s2) =
    let rest = memcmp n s1 s2 in if a == b then rest else some (sub_ℕ a b)

unfoldable pub memiszero : ℕ → List ℕ → Option Bool
memiszero zero p = some true
memiszero (suc n) [] = none
memiszero (suc n) (c ∷ p) = let rest = memiszero n p in if not (c == 0) then some false else rest
