-- ===== src/Fat32/ShortName/Dotted.antt =====
-- A name with an extension: it is valid, and the entry that it is set in gives it back.
use pi3_distributed_llm_infe.Base.Slices.{
  take-append, get_elem?-append, get_elem?-left, take-past, drop-past, take-behind, drop-behind,
  take-replicate, drop-replicate, get_elem?-replicate,
}
use pi3_distributed_llm_infe.Base.{
  ℕ, zero, suc, ◌+◌, ◌-◌, ◌≤◌, ◌<◌, ◌≡◌, refl, sym, ap, ◌∙◌, arith, true, false, List, [], ◌∷◌,
  ◌++◌, Option, some, ◌>>=◌, ◌==◌, ltb, get_elem?, get_elem?-in_range, length, length-append,
  length-replicate, append_assoc, append-nil, take, drop, replicate, Bool-cases, inl, inr,
}
use pi3_distributed_llm_infe.Fat32.Names.{trim_loop, to_8dot3}
use pi3_distributed_llm_infe.Fat32.ShortName.{
  is_name_char, has_dot, chars_but, dot_at, fat32_is_valid_name, copy_at, fat32_dirent_set_name,
}

-- Capital letters and digits.
abbrev pub AreNameChars : List ℕ → Type 0
AreNameChars [] = Unit
AreNameChars (c ∷ s) = (is_name_char c ≡ true) × AreNameChars s

has_dot-append : (base ext : List ℕ) → has_dot (base ++ (46 ∷ ext)) ≡ true
unfolding has_dot
has_dot-append [] ext = refl
has_dot-append (c ∷ base) ext = elim (Bool-cases (c == 46)) [
  | inl dot ↦ rw dot refl
  | inr other ↦ rw other (has_dot-append base ext)
]

chars_but_all : (dot i : ℕ) (s : List ℕ) → AreNameChars s → chars_but dot i s ≡ true
unfolding chars_but
chars_but_all dot i [] h = refl
chars_but_all dot i (c ∷ s) (here, h) = rw here (chars_but_all dot (i + 1) s h)

chars_but-append :
    (dot i : ℕ) (base ext : List ℕ)
    → AreNameChars base
    → AreNameChars ext
    → i + length base ≡ dot
    → chars_but dot i (base ++ (46 ∷ ext)) ≡ true
unfolding chars_but
chars_but-append dot i [] ext hb he e =
    let here : (i == dot) ≡ true = ground arith in
    rw (here) (elim (Bool-cases (is_name_char 46)) [
      | inl y ↦ rw y (chars_but_all dot (i + 1) ext he)
      | inr n ↦ rw n (chars_but_all dot (i + 1) ext he)
    ])
chars_but-append dot i (c ∷ base) ext (here, hb) he e =
    rw here (chars_but-append dot (i + 1) base ext hb he (omega arith))

dot_at-append : (base ext : List ℕ) → dot_at (length base) (base ++ (46 ∷ ext)) ≡ true
unfolding dot_at
dot_at-append base ext =
    let z : length base ≡ length base + 0 = omega arith in
    let e = ap (get_elem? (base ++ (46 ∷ ext))) z ∙ get_elem?-append base (46 ∷ ext) 0 in
    rw (dot_at, e) refl

no_space : (c : ℕ) → is_name_char c ≡ true → (c == 32) ≡ false
unfolding is_name_char
no_space c h = ground arith

-- The last byte of a list that is not empty.
last_of :
    (s : List ℕ)
    → AreNameChars s
    → 0 < length s
    → (j : ℕ) × ((c : ℕ) × (length s ≡ suc j) × (get_elem? s j ≡ some c) × ((c == 32) ≡ false))
last_of s h some_s =
    let (c, e) = get_elem?-in_range s (length s - 1) (omega arith) in
    (length s - 1, (c, omega arith, e, no_space c (chars_of s h (length s - 1) c e)))
  where
    chars_of :
        (s : List ℕ) → AreNameChars s → (i c : ℕ) → get_elem? s i ≡ some c → is_name_char c ≡ true
    chars_of [] h i c e = cc
    chars_of (x ∷ s) h zero c e = cc (h.0)
    chars_of (x ∷ s) h (suc i) c e = chars_of s h.1 i c e

-- The trim passes the spaces and stops at the byte before them.
trim_loop-spaces :
    (left m k c : ℕ) (s : List ℕ)
    → left ≡ m + suc k
    → get_elem? s k ≡ some c
    → (c == 32) ≡ false
    → ((i : ℕ) → i < m → get_elem? s (suc k + i) ≡ some 32)
    → trim_loop left s ≡ some (suc k)
unfolding trim_loop
trim_loop-spaces zero m k c s e here stop spaces = absurd (omega arith)
trim_loop-spaces (suc left) zero k c s e here stop spaces =
    let at : left ≡ k = omega arith in rw (at, here, stop) refl
trim_loop-spaces (suc left) (suc m) k c s e here stop spaces =
    let at : left ≡ suc k + m = omega arith in
    let space : get_elem? s left ≡ some 32 = ap (get_elem? s) at ∙ spaces m (omega arith) in
    rw space (trim_loop-spaces left m k c s (omega arith) here stop (λ i h. spaces i (omega arith)))

module _ (base : List ℕ) (a b c : ℕ) (hb : AreNameChars base) (he : AreNameChars (a ∷ b ∷ c ∷ []))
    (few : length base ≤ 8) (some_base : 0 < length base) where
  abbrev ext : List ℕ
  ext = a ∷ b ∷ c ∷ []

  size : length (base ++ (46 ∷ ext)) ≡ length base + 4
  size = length-append base (46 ∷ ext) ∙ omega arith

  dotted-valid : fat32_is_valid_name (base ++ (46 ∷ ext)) ≡ true
  unfolding fat32_is_valid_name
  dotted-valid =
      let n = length (base ++ (46 ∷ ext)) in
      let s = size in
      let short : ltb 12 n ≡ false = ground arith in
      let long : ltb n 5 ≡ false = ground arith in
      let at : length base ≡ n - 4 = omega arith in
      let dot : dot_at (n - 4) (base ++ (46 ∷ ext)) ≡ true =
        ap (λ i. dot_at i (base ++ (46 ∷ ext))) (sym at) ∙ dot_at-append base ext in
      rw (has_dot-append base ext, short, long, dot)
        (chars_but-append (n - 4) 0 base ext hb he (omega arith))

  -- The 11 bytes of the entry.
  abbrev padded : List ℕ
  padded = base ++ (replicate (8 - length base) 32 ++ ext)

  first : copy_at 0 base (replicate 11 32) ≡ base ++ replicate (11 - length base) 32
  unfolding copy_at
  first =
      let z : 0 + length base ≡ length base = omega arith in
      ap (λ i. base ++ drop i (replicate 11 32)) z
      ∙ ap (λ x. base ++ x) (drop-replicate 11 (length base) 32)

  second : copy_at 8 ext (base ++ replicate (11 - length base) 32) ≡ padded
  unfolding copy_at
  second =
      let pad : List ℕ = replicate (11 - length base) 32 in
      let left =
        take-past 8 base pad few
        ∙ ap (λ x. base ++ x)
            (take-replicate (11 - length base) (8 - length base) 32 (omega arith)) in
      let whole : length (base ++ pad) ≤ 8 + length ext =
        omega (arith, length-append base pad, length-replicate {A = ℕ} (11 - length base) 32) in
      let right = drop-behind (base ++ pad) (8 + length ext) whole in
      rw (left, right, append-nil ext) (append_assoc base (replicate (8 - length base) 32) ext)

  set_name-padded : fat32_dirent_set_name (base ++ (46 ∷ ext)) ≡ some padded
  unfolding fat32_dirent_set_name
  set_name-padded =
      let name = base ++ (46 ∷ ext) in
      let n = length name in
      let k = length base in
      let s = size in
      let before : n - 4 ≡ k = omega (arith, s) in
      let front : take (n - 4) name ≡ base =
        ap (λ i. take i name) before ∙ take-append base (46 ∷ ext) in
      let one : n - 3 - k ≡ 1 = omega (arith, s) in
      let behind : drop (n - 3) name ≡ ext =
        drop-past (n - 3) base (46 ∷ ext) (omega (arith, s)) ∙ ap (λ i. drop i (46 ∷ ext)) one in
      let back : take 3 (drop (n - 3) name) ≡ ext =
        ap (take 3) behind ∙ take-behind ext 3 (omega arith) in
      rw (dotted-valid, has_dot-append base ext, front, back)
        (ap some (ap (copy_at 8 ext) first ∙ second))

  abbrev pad : List ℕ
  pad = replicate (8 - length base) 32

  eight : length (base ++ pad) ≡ 8
  eight = length-append base pad ∙ omega (arith, length-replicate {A = ℕ} (8 - length base) 32)

  cell : (i : ℕ) → get_elem? padded (8 + i) ≡ get_elem? ext i
  cell i =
      ap (λ x. get_elem? x (8 + i)) (sym (append_assoc base pad ext))
      ∙ ap (λ n. get_elem? ((base ++ pad) ++ ext) (n + i)) (sym eight)
      ∙ get_elem?-append (base ++ pad) ext i

  front_cells : take 8 padded ≡ base ++ pad
  front_cells =
      ap (take 8) (sym (append_assoc base pad ext))
      ∙ ap (λ n. take n ((base ++ pad) ++ ext)) (sym eight)
      ∙ take-append (base ++ pad) ext

  trimmed : trim_loop 8 (take 8 padded) ≡ some (length base)
  trimmed =
      let (k, (l, size_k, last, stop)) = last_of base hb some_base in
      let m = 8 - length base in
      let there : get_elem? (base ++ pad) k ≡ some l = get_elem?-left base pad k l last in
      let spaces : (i : ℕ) → i < m → get_elem? (base ++ pad) (suc k + i) ≡ some 32 = λ i h.
        ap (λ n. get_elem? (base ++ pad) (n + i)) (sym size_k)
        ∙ get_elem?-append base pad i
        ∙ get_elem?-replicate m i 32 h in
      ap (trim_loop 8) front_cells
      ∙ trim_loop-spaces 8 m k l (base ++ pad) (omega (arith, size_k)) there stop spaces
      ∙ ap some (sym size_k)

  to_8dot3-padded : to_8dot3 padded ≡ some (base ++ (46 ∷ ext))
  unfolding to_8dot3
  to_8dot3-padded =
      ap
        (λ (m : Option ℕ). m >>= (λ i. get_elem? padded 8 >>= (λ x.
          get_elem? padded 9
          >>= (λ y. get_elem? padded 10 >>= (λ z. some (take i padded ++ (46 ∷ x ∷ y ∷ z ∷ [])))))))
        trimmed
      ∙ rw (cell 0, cell 1, cell 2, take-append base (pad ++ ext)) refl

  -- A name of 1 to 8 capital letters and digits, a dot, and three more of them is valid. The entry that
  -- it is set in has 11 bytes, and `to_8dot3` reads the same name back from them.
  pub set_name-dotted :
      (fat32_is_valid_name (base ++ (46 ∷ a ∷ b ∷ c ∷ [])) ≡ true)
      × ((p : List ℕ) × (fat32_dirent_set_name (base ++ (46 ∷ a ∷ b ∷ c ∷ [])) ≡ some p)
          × (length p ≡ 11)
          × (to_8dot3 p ≡ some (base ++ (46 ∷ a ∷ b ∷ c ∷ []))))
  set_name-dotted =
      let whole = length-append base (pad ++ ext) in
      let rest = length-append pad ext in
      let spaces = length-replicate {A = ℕ} (8 - length base) 32 in
      (
        dotted-valid,
        (padded, set_name-padded, omega (arith, whole, rest, spaces, few), to_8dot3-padded),
      )
