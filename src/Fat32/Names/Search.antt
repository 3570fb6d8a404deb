-- ===== src/Fat32/Names/Search.antt =====
-- `find_dirent_with_name` finds the first entry of the name.
use pi3_distributed_llm_infe.Base.{
  ℕ, zero, suc, ◌+◌, ◌<◌, ◌≡◌, refl, sym, ◌∙◌, ap, arith, Bool, true, false, List, [], ◌∷◌, some,
  ◌⊎◌, inl, inr, get_elem?, take, ◌++◌, ◌||◌, ◌==◌, >>=-eq-some, Bool-cases,
}
use pi3_distributed_llm_infe.Base.Int.{ℤ, pos, negsuc}
use pi3_distributed_llm_infe.Libc.Str.Compare.{IsText, eq_of_strcmp}
use pi3_distributed_llm_infe.Fat32.Names.{trim_loop, to_8dot3, same_name, find_dirent_with_name}

-- Entry `k` has the name that is asked for, or has another one.
abbrev pub Answers : List (List ℕ) → List ℕ → ℕ → Bool → Type 0
Answers dirents filename k b =
    (d cur : List ℕ)
    → get_elem? dirents k ≡ some d
    → to_8dot3 d ≡ some cur
    → same_name filename cur ≡ b

-- The search ended at the first entry of the name, or there is none.
abbrev pub Searched : List (List ℕ) → List ℕ → ℕ → ℤ → Type 0
Searched dirents filename i r =
    ((k : ℕ) × (r ≡ pos (i + k))
      × ((d : List ℕ) × (get_elem? dirents k ≡ some d))
      × Answers dirents filename k true
      × ((j : ℕ) → j < k → Answers dirents filename j false))
    ⊎ ((r ≡ negsuc 0) × ((j : ℕ) → Answers dirents filename j false))

search_from :
    (dirents : List (List ℕ)) (filename : List ℕ) (i : ℕ)
    → ((j : ℕ) (d : List ℕ)
        → get_elem? dirents j ≡ some d
        → (cur : List ℕ) × (to_8dot3 d ≡ some cur))
    → (r : ℤ) × (find_dirent_with_name dirents i filename ≡ some r) × Searched dirents filename i r
unfolding find_dirent_with_name
search_from [] filename i named = (negsuc 0, refl, inr (refl, λ j d cur e f. cc))
search_from (d ∷ dirents) filename i named =
    let (cur, e) = named 0 d refl in
    elim (Bool-cases (same_name filename cur)) [
      | inl same ↦ (
        pos i,
        rw (e, same) refl,
        inl (
          0,
          ap pos (omega arith),
          (d, refl),
          (λ d' cur' f g. first cur e true same d' cur' f g),
          (λ j k. absurd (omega arith)),
        ),
      )
      | inr other ↦
          let (r, f, s) = search_from dirents filename (i + 1) (λ j. named (suc j)) in
          (r, rw (e, other) f, extend cur e other r s)
    ]
  where
    first :
        (cur : List ℕ)
        → to_8dot3 d ≡ some cur
        → (b : Bool) → same_name filename cur ≡ b
        → Answers (d ∷ dirents) filename 0 b
    first cur e b same d' cur' f g =
        let one : d ≡ d' = cc in
        let two : cur ≡ cur' = cc in ap (same_name filename) (sym two) ∙ same

    before :
        (cur : List ℕ)
        → to_8dot3 d ≡ some cur
        → same_name filename cur ≡ false
        → (k : ℕ) → ((j : ℕ) → j < k → Answers dirents filename j false)
        → (j : ℕ) → j < suc k
        → Answers (d ∷ dirents) filename j false
    before cur e other k h zero l = first cur e false other
    before cur e other k h (suc j) l = h j (omega arith)

    all :
        (cur : List ℕ)
        → to_8dot3 d ≡ some cur
        → same_name filename cur ≡ false
        → ((j : ℕ) → Answers dirents filename j false)
        → (j : ℕ) → Answers (d ∷ dirents) filename j false
    all cur e other h zero = first cur e false other
    all cur e other h (suc j) = h j

    extend :
        (cur : List ℕ)
        → to_8dot3 d ≡ some cur
        → same_name filename cur ≡ false
        → (r : ℤ) → Searched dirents filename (i + 1) r
        → Searched (d ∷ dirents) filename i r
    extend cur e other r (inl (k, f, x, y, z)) =
        inl (suc k, f ∙ ap pos (omega arith), x, y, before cur e other k z)
    extend cur e other r (inr (f, h)) = inr (f, all cur e other h)

-- Where each entry has a name in 8.3 form: the search returns the index of the first entry whose 8.3
-- form compares equal to the name, or -1, and then no entry's does.
find_dirent_with_name-Searched :
    (dirents : List (List ℕ)) (filename : List ℕ)
    → ((j : ℕ) (d : List ℕ)
        → get_elem? dirents j ≡ some d
        → (cur : List ℕ) × (to_8dot3 d ≡ some cur))
    → (r : ℤ) × (find_dirent_with_name dirents 0 filename ≡ some r) × Searched dirents filename 0 r
find_dirent_with_name-Searched dirents filename named = search_from dirents filename 0 named

abbrev pub has_dot : List ℕ → Bool
has_dot [] = false
has_dot (c ∷ cs) = c == 46 || has_dot cs

has_dot-append : (xs ys : List ℕ) → has_dot ys ≡ true → has_dot (xs ++ ys) ≡ true
has_dot-append [] ys h = h
has_dot-append (x ∷ xs) ys h = ground (arith, has_dot-append xs ys h)

has_dot-to_8dot3 : (d cur : List ℕ) → to_8dot3 d ≡ some cur → has_dot cur ≡ true
unfolding to_8dot3
has_dot-to_8dot3 d cur e =
    let (i, ei, e1) = >>=-eq-some (trim_loop 8 (take 8 d)) _ e in
    let (a, ea, e2) = >>=-eq-some (get_elem? d 8) _ e1 in
    let (b, eb, e3) = >>=-eq-some (get_elem? d 9) _ e2 in
    let (c, ec, e4) = >>=-eq-some (get_elem? d 10) _ e3 in
    let same : take i d ++ (46 ∷ a ∷ b ∷ c ∷ []) ≡ cur = cc in
    ap has_dot (sym same) ∙ has_dot-append (take i d) (46 ∷ a ∷ b ∷ c ∷ []) refl

-- The 8.3 form always has a dot, so a name without one, such as that of a directory, is never found.
find_dirent_undotted :
    (dirents : List (List ℕ)) (filename : List ℕ)
    → ((j : ℕ) (d : List ℕ)
        → get_elem? dirents j ≡ some d
        → (cur : List ℕ) × (to_8dot3 d ≡ some cur) × IsText cur)
    → IsText filename
    → has_dot filename ≡ false
    → find_dirent_with_name dirents 0 filename ≡ some (negsuc 0)
unfolding same_name
find_dirent_undotted dirents filename named text undotted =
    let (r, e, s) =
      find_dirent_with_name-Searched dirents filename
        (λ j d f. let (c, g, t) = named j d f in (c, g)) in
    e ∙ ap some (missed r s)
  where
    never : (cur : List ℕ) → has_dot cur ≡ true → IsText cur → same_name filename cur ≡ true → ⊥
    never cur dotted t same =
        let one : filename ≡ cur =
          eq_of_strcmp filename cur text t (ground (arith, same)) (ground (arith, same)) in
        cc (ap has_dot one, dotted, undotted)

    missed : (r : ℤ) → Searched dirents filename 0 r → r ≡ negsuc 0
    missed r (inl (k, f, (d, x), y, z)) =
        let (cur, g, t) = named k d x in
        absurd (never cur (has_dot-to_8dot3 d cur g) t (y d cur x g))
    missed r (inr (f, h)) = f
