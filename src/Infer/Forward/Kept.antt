-- ===== src/Infer/Forward/Kept.antt =====
-- What a call on a part of an array leaves as it was.
use pi3_distributed_llm_infe.Base.{
  ℕ, zero, suc, ◌+◌, ◌-◌, ◌≤◌, ◌<◌, ◌≡◌, refl, ap, ◌∙◌, arith, List, [], ◌∷◌, ◌++◌, Option, some,
  ◌⊎◌, inl, inr, le→leb, length, get_elem?, take, drop, length-take, length-drop, length-append,
  get_elem?-drop,
}
use pi3_distributed_llm_infe.Base.Slices.{get_elem?-append}
use pi3_distributed_llm_infe.Infer.Forward.Loops.{on_part}
use pi3_distributed_llm_infe.Infer.Forward.Returns.{Makes}

module _ {F : Type 0} where
  before :
      (offset : ℕ) (buf ys : List F) (j : ℕ)
      → j < offset
      → offset ≤ length buf
      → get_elem? (take offset buf ++ ys) j ≡ get_elem? buf j
  before zero buf ys j h le = absurd (omega arith)
  before (suc offset) [] ys j h le = absurd (omega arith)
  before (suc offset) (b ∷ buf) ys zero h le = refl
  before (suc offset) (b ∷ buf) ys (suc j) h le = before offset buf ys j (omega arith) (omega arith)

  behind :
      (offset n : ℕ) (buf r : List F) (j : ℕ)
      → length r ≡ n
      → offset + n ≤ length buf
      → offset + n ≤ j
      → get_elem? (take offset buf ++ (r ++ drop (offset + n) buf)) j ≡ get_elem? buf j
  behind offset n buf r j len fits h =
      let i = j - (offset + n) in
      let rest = drop (offset + n) buf in
      let front = length-take offset buf in
      let at : j ≡ length (take offset buf) + (length r + i) = omega (arith, front, len, fits, h) in
      let back : offset + n + i ≡ j = omega (arith, h) in
      ap (get_elem? (take offset buf ++ (r ++ rest))) at
      ∙ get_elem?-append (take offset buf) (r ++ rest) (length r + i)
      ∙ get_elem?-append r rest i
      ∙ get_elem?-drop (offset + n) buf i
      ∙ ap (get_elem? buf) back

  -- A result that differs from `buf` only in the `n` cells from `offset` on.
  abbrev pub Fills : ℕ → ℕ → List F → Option (List F) → Type 0
  Fills offset n buf o =
      (r : List F) × (o ≡ some r)
      × (length r ≡ length buf)
      × ((j : ℕ) → (j < offset) ⊎ (offset + n ≤ j) → get_elem? r j ≡ get_elem? buf j)

  -- A call on a part of an array that keeps the part's length.
  pub on_part-Fills :
      (offset n : ℕ) (body : List F → Option (List F)) (buf : List F)
      → offset + n ≤ length buf
      → ((part : List F) → length part ≡ n → Makes n (body part))
      → Fills offset n buf (on_part offset n body buf)
  unfolding on_part
  on_part-Fills offset n body buf fits does =
      let part : List F = take n (drop offset buf) in
      let len : length part ≡ n =
        length-take n (drop offset buf) ∙ omega (arith, fits, length-drop offset buf) in
      let (r, made, size) = does part len in
      let whole : List F = take offset buf ++ (r ++ drop (offset + n) buf) in
      let front = length-take offset buf in
      let back = length-drop (offset + n) buf in
      let sum = length-append (take offset buf) (r ++ drop (offset + n) buf) in
      let rest = length-append r (drop (offset + n) buf) in
      (
        whole,
        rw (le→leb _ _ fits, made) refl,
        omega (arith, front, back, sum, rest, size, fits),
        kept r size,
      )
    where
      kept :
          (r : List F)
          → length r ≡ n
          → (j : ℕ) → (j < offset) ⊎ (offset + n ≤ j)
          → get_elem? (take offset buf ++ (r ++ drop (offset + n) buf)) j ≡ get_elem? buf j
      kept r len j (inl h) =
          before offset buf (r ++ drop (offset + n) buf) j h (omega (arith, fits))
      kept r len j (inr h) = behind offset n buf r j len fits h
