-- ===== src/Libc/Str/Compare.antt =====
-- `strcmp` compares as C documents, and is 0 exactly on equal strings.
use pi3_distributed_llm_infe.Base.{ℕ, ◌≡◌, refl, false, List, [], ◌∷◌, arith, ◌<◌}
use pi3_distributed_llm_infe.Base.Int.{is_neg, is_pos}
use pi3_distributed_llm_infe.Libc.Compare.{le, IsComparison}
use pi3_distributed_llm_infe.Libc.Str.{strcmp}

-- No byte of the text is a NUL.
abbrev pub IsText : List ℕ → Type 0
IsText [] = Unit
IsText (c ∷ cs) = (0 < c) × IsText cs

strcmp_flip : (a b : List ℕ) → is_pos (strcmp a b) ≡ is_neg (strcmp b a)
unfolding strcmp
strcmp_flip [] [] = refl
strcmp_flip [] (y ∷ b) = ground arith
strcmp_flip (x ∷ a) [] = ground arith
strcmp_flip (x ∷ a) (y ∷ b) = ground (arith, strcmp_flip a b)

strcmp_trans : (a b c : List ℕ) → le strcmp a b → le strcmp b c → le strcmp a c
unfolding strcmp
strcmp_trans [] b [] p q = refl
strcmp_trans [] b (z ∷ c) p q = ground arith
strcmp_trans (x ∷ a) [] [] p q = p
strcmp_trans (x ∷ a) [] (z ∷ c) p q = ground arith
strcmp_trans (x ∷ a) (y ∷ b) [] p q = ground arith
strcmp_trans (x ∷ a) (y ∷ b) (z ∷ c) p q = ground (arith, strcmp_trans a b c)

-- The sign of `strcmp` is a total preorder on strings.
pub strcmp-IsComparison : IsComparison strcmp
strcmp-IsComparison = record { flip = strcmp_flip; trans = strcmp_trans }

-- `strcmp` compares two texts as equal only if they are one text.
pub eq_of_strcmp :
    (a b : List ℕ)
    → IsText a
    → IsText b
    → is_neg (strcmp a b) ≡ false
    → is_pos (strcmp a b) ≡ false
    → a ≡ b
unfolding strcmp
eq_of_strcmp [] [] ta tb n p = refl
eq_of_strcmp [] (y ∷ b) ta tb n p = absurd (ground arith)
eq_of_strcmp (x ∷ a) [] ta tb n p = absurd (ground arith)
eq_of_strcmp (x ∷ a) (y ∷ b) ta tb n p = ground (arith, eq_of_strcmp a b)

pub strcmp_self : (a : List ℕ) → (is_neg (strcmp a a) ≡ false) × (is_pos (strcmp a a) ≡ false)
unfolding strcmp
strcmp_self [] = (refl, refl)
strcmp_self (x ∷ a) = ground (arith, strcmp_self a)
