-- ===== src/Infer/Encode/Spell.antt =====
-- The loop over the text: its tokens spell the text.
use pi3_distributed_llm_infe.Base.{
  ℕ, ◌+◌, ◌*◌, ◌≤◌, ◌<◌, ◌≡◌, refl, sym, ap, ◌∙◌, subst, arith, true, false, List, [], ◌∷◌, ◌++◌,
  Option, some, none, Bool, leb, le→leb, ◌≢◌, ◌>>=◌, >>=-eq-some, ◌&&◌, ltb, map, length, get_elem?,
  append_assoc, append-nil, length-append, length-map, Bool-cases, inl, inr, ◌⊎◌,
}
use pi3_distributed_llm_infe.Base.Int.{ℤ, pos, negsuc}
use pi3_distributed_llm_infe.Libc.Str.Compare.{IsText}
use pi3_distributed_llm_infe.Infer.Tokenizer.Lookup.{LookedUp}
use pi3_distributed_llm_infe.Infer.Encode.{
  is_continuation, continues, append_byte, code_point_tokens, code_points,
}

abbrev pub AreContinuations : List ℕ → Type 0
AreContinuations [] = Unit
AreContinuations (b ∷ bs) = (is_continuation b ≡ true) × AreContinuations bs

-- A byte and continuation bytes behind it.
abbrev pub IsRun : List ℕ → Type 0
IsRun [] = Unit
IsRun (c ∷ cs) = AreContinuations cs

-- The bytes `s` are taken as one code point in front of `text`: a byte and as many continuation bytes as
-- follow it, up to four bytes.
pub record IsCodePoint (s text : List ℕ) : Type 0 where
  pub some_byte : 0 < length s
  pub run : IsRun s
  pub short : length s ≤ 4
  pub whole : (length s ≡ 4) ⊎ (continues text ≡ false)

-- The tokens of a text: for each code point its entry in the vocabulary, or where it has none a token for
-- each of its bytes.
pub data Spells (vocab : List (List ℕ)) : List ℤ → List ℕ → Type 0 where
  done : Spells vocab [] []
  entry :
      (id : ℕ) (s : List ℕ) {tokens : List ℤ} {text : List ℕ}
      → get_elem? vocab id ≡ some s
      → IsCodePoint s text
      → Spells vocab tokens text
      → Spells vocab (pos id ∷ tokens) (s ++ text)
  bytes :
      (s : List ℕ) {tokens : List ℤ} {text : List ℕ}
      → ((i : ℕ) → get_elem? vocab i ≢ some s)
      → IsCodePoint s text
      → Spells vocab tokens text
      → Spells vocab (map (λ b. pos (b + 3)) s ++ tokens) (s ++ text)

AreContinuations-append :
    (cs : List ℕ) (c : ℕ)
    → AreContinuations cs
    → is_continuation c ≡ true
    → AreContinuations (cs ++ (c ∷ []))
AreContinuations-append [] c h e = (e, tt)
AreContinuations-append (x ∷ cs) c h e = (h.0, AreContinuations-append cs c h.1 e)

-- A byte more in the buffer.
IsRun-append :
    (str rest : List ℕ) (c : ℕ)
    → IsRun str
    → (continues (c ∷ rest) ≡ true) ⊎ (str ≡ [])
    → IsRun (str ++ (c ∷ []))
unfolding continues
IsRun-append [] rest c h start = tt
IsRun-append (x ∷ str) rest c h (inl e) = AreContinuations-append str c h e
IsRun-append (x ∷ str) rest c h (inr e) = absurd (cc e)

pub IsText-append : (xs ys : List ℕ) → IsText xs → IsText ys → IsText (xs ++ ys)
IsText-append [] ys hx hy = hy
IsText-append (x ∷ xs) ys hx hy = (hx.0, IsText-append xs ys hx.1 hy)

spell_code_point :
    (vocab : List (List ℕ)) (id : ℤ) (s : List ℕ) {tokens : List ℤ} {text : List ℕ}
    → IsCodePoint s text
    → LookedUp vocab s id
    → Spells vocab tokens text
    → Spells vocab (code_point_tokens id s ++ tokens) (s ++ text)
unfolding code_point_tokens
spell_code_point vocab (pos id) s h found r = Spells.entry id s found h r
spell_code_point vocab (negsuc n) s h found r = Spells.bytes s found.1 h r

length-code_point_tokens :
    (id : ℤ) (s : List ℕ) → 0 < length s → length (code_point_tokens id s) ≤ length s
unfolding code_point_tokens
length-code_point_tokens (pos id) s h = omega arith
length-code_point_tokens (negsuc n) s h = omega (arith, length-map s (λ b. pos (b + 3)))

append_byte_lem :
    (str rest : List ℕ) (c : ℕ)
    → (continues (c ∷ rest) ≡ true) ⊎ (str ≡ [])
    → append_byte str c ≡ str ++ (c ∷ [])
unfolding append_byte continues
append_byte_lem str rest c (inl e) = rw e refl
append_byte_lem str rest c (inr e) = elim (Bool-cases (is_continuation c)) [
  | inl y ↦ rw y refl
  | inr n ↦ rw (n, e) refl
]

module _ (lookup : List ℕ → Option ℤ) where
  code_points-more :
      (size c : ℕ) (rest str held : List ℕ)
      → leb (length (append_byte str c) + 1) size ≡ true
      → (continues rest && ltb (length (append_byte str c)) 4) ≡ true
      → code_points lookup size (c ∷ rest) str held
        ≡ code_points lookup size rest (append_byte str c) (append_byte str c)
  unfolding code_points
  code_points-more size c rest str held room e = rw (code_points, room, e) refl

  code_points-cut :
      (size c : ℕ) (rest str held : List ℕ)
      → leb (length (append_byte str c) + 1) size ≡ true
      → (continues rest && ltb (length (append_byte str c)) 4) ≡ false
      → code_points lookup size (c ∷ rest) str held ≡ (
          lookup (append_byte str c) >>= (λ id.
            code_points lookup size rest [] (append_byte str c)
            >>= (λ r. some (code_point_tokens id (append_byte str c) ++ r.0, r.1))))
  unfolding code_points
  code_points-cut size c rest str held room e = rw (code_points, room, e) refl

  code_points-ends :
      (size c : ℕ) (rest str held : List ℕ) (id : ℤ) (r : List ℤ × List ℕ)
      → leb (length (append_byte str c) + 1) size ≡ true
      → (continues rest && ltb (length (append_byte str c)) 4) ≡ false
      → lookup (append_byte str c) ≡ some id
      → code_points lookup size rest [] (append_byte str c) ≡ some r
      → code_points lookup size (c ∷ rest) str held
        ≡ some (code_point_tokens id (append_byte str c) ++ r.0, r.1)
  code_points-ends size c rest str held id r room e found run =
      code_points-cut size c rest str held room e ∙ rw (found, run) refl

  -- A run that returns has the room that it takes.
  code_points-room :
      (size c : ℕ) (rest str held : List ℕ) (r : List ℤ × List ℕ)
      → code_points lookup size (c ∷ rest) str held ≡ some r
      → leb (length (append_byte str c) + 1) size ≡ true
  unfolding code_points
  code_points-room size c rest str held r e =
      elim (Bool-cases (leb (length (append_byte str c) + 1) size)) [
        | inl room ↦ room
        | inr full ↦
            let stops : code_points lookup size (c ∷ rest) str held ≡ none =
              rw (code_points, full) refl in
            absurd (cc (e, stops))
      ]

module _ (vocab : List (List ℕ)) (lookup : List ℕ → Option ℤ)
    (answers : (s : List ℕ) → IsText s → (id : ℤ) × (lookup s ≡ some id) × LookedUp vocab s id)
    (size : ℕ) (roomy : 5 ≤ size) where
  -- What the loop makes of the text from here on, behind the bytes `str` of a code point.
  abbrev Spelled : List ℕ → List ℕ → List ℕ → Type 0
  Spelled text str held =
      (r : List ℤ × List ℕ) × (code_points lookup size text str held ≡ some r)
      × Spells vocab r.0 (str ++ text)
      × (IsText held → IsText r.1)
      × (length r.0 ≤ length str + length text)

  at_end : (str : List ℕ) → (continues [] ≡ true) ⊎ (str ≡ []) → str ≡ []
  unfolding continues
  at_end str (inl e) = cc
  at_end str (inr e) = e

  is_whole : (b : Bool) (n : ℕ) → (b && ltb n 4) ≡ false → n ≤ 4 → (n ≡ 4) ⊎ (b ≡ false)
  is_whole true n e h = inl (ground arith)
  is_whole false n e h = inr refl

  pub code_points-from :
      (text str held : List ℕ)
      → IsText text
      → IsText str
      → IsRun str
      → length str ≤ 3
      → (continues text ≡ true) ⊎ (str ≡ [])
      → Spelled text str held
  unfolding code_points
  code_points-from [] str held ht hs run_of h start =
      let empty : str ++ [] ≡ [] = append-nil str ∙ at_end str start in
      (([], held), refl, subst (Spells vocab []) (sym empty) Spells.done, (λ x. x), omega arith)
  code_points-from (c ∷ rest) str held ht hs run_of h start =
      let piece = append_byte str c in
      let e : piece ≡ str ++ (c ∷ []) = append_byte_lem str rest c start in
      let text_of : IsText piece =
        subst IsText (sym e) (IsText-append str (c ∷ []) hs (ht.0, tt)) in
      let size_of : length piece ≡ length str + 1 = ap length e ∙ length-append str (c ∷ []) in
      let run : IsRun piece = subst IsRun (sym e) (IsRun-append str rest c run_of start) in
      let room : leb (length piece + 1) size ≡ true = le→leb _ _ (omega (arith, size_of, roomy)) in
      let whole : piece ++ rest ≡ str ++ (c ∷ rest) =
        ap (λ x. x ++ rest) e ∙ append_assoc str (c ∷ []) rest in
      elim (Bool-cases (continues rest && ltb (length piece) 4)) [
        | inl more ↦
            let (r, runs, spelled, kept, bound) =
              code_points-from rest piece piece ht.1 text_of run (ground arith)
                (inl (ground arith)) in
            (
              r,
              code_points-more lookup size c rest str held room more ∙ runs,
              subst (Spells vocab r.0) whole spelled,
              (λ x. kept text_of),
              omega (arith, size_of, bound),
            )
        | inr ends ↦
            let (id, found, looked) = answers piece text_of in
            let (r, runs, spelled, kept, bound) =
              code_points-from rest [] piece ht.1 tt tt (omega arith) (inr refl) in
            let point : IsCodePoint piece rest = record {
              some_byte = omega (arith, size_of);
              run = run;
              short = omega (arith, size_of);
              whole = is_whole (continues rest) (length piece) ends (omega (arith, size_of));
            } in
            let count = length-append (code_point_tokens id piece) r.0 in
            let few = length-code_point_tokens id piece (omega (arith, size_of)) in
            (
              (code_point_tokens id piece ++ r.0, r.1),
              code_points-ends lookup size c rest str held id r room ends found runs,
              subst (Spells vocab (code_point_tokens id piece ++ r.0)) whole
                  (spell_code_point vocab id piece point looked spelled),
              (λ x. kept text_of),
              omega (arith, size_of, bound, count, few),
            )
      ]

pub length-Spells :
    {vocab : List (List ℕ)} {tokens : List ℤ} {text : List ℕ}
    → Spells vocab tokens text
    → length text ≤ 4 * length tokens
length-Spells Spells.done = omega arith
length-Spells (Spells.entry id s {tokens} {text} e h r) =
    omega (arith, length-append s text, length-Spells r, h.short)
length-Spells (Spells.bytes s {tokens} {text} e h r) =
    let count = length-append (map (λ b. pos (b + 3)) s) tokens in
    let each = length-map s (λ b. pos (b + 3)) in
    omega (arith, length-append s text, length-Spells r, count, each)

last_of : (x y : List ℤ × List ℕ) → some x ≡ some y → y.1 ≡ x.1
last_of x y h = cc

append_byte-start : (str : List ℕ) (c : ℕ) → is_continuation c ≡ false → append_byte str c ≡ c ∷ []
unfolding append_byte
append_byte-start str c nc = rw nc refl

-- Behind a last byte that is a code point of its own, the buffer holds that byte.
pub code_points-last :
    (lookup : List ℕ → Option ℤ) (size : ℕ) (front : List ℕ) (c : ℕ) (str held : List ℕ)
    (r : List ℤ × List ℕ)
    → is_continuation c ≡ false
    → code_points lookup size (front ++ (c ∷ [])) str held ≡ some r
    → r.1 ≡ c ∷ []
unfolding continues code_points
code_points-last lookup size [] c str held r nc e =
    let room = code_points-room lookup size c [] str held r e in
    let (id, found, k) =
      >>=-eq-some (lookup (append_byte str c)) _
        (sym (code_points-cut lookup size c [] str held room refl) ∙ e) in
    last_of (code_point_tokens id (append_byte str c) ++ [], append_byte str c) r k
    ∙ append_byte-start str c nc
code_points-last lookup size (x ∷ front) c str held r nc e =
    let piece = append_byte str x in
    let rest = front ++ (c ∷ []) in
    let room = code_points-room lookup size x rest str held r e in
    elim (Bool-cases (continues rest && ltb (length piece) 4)) [
      | inl more ↦
          code_points-last lookup size front c piece piece r nc
            (sym (code_points-more lookup size x rest str held room more) ∙ e)
      | inr ends ↦
          let (id, found, k) =
            >>=-eq-some (lookup piece) _
              (sym (code_points-cut lookup size x rest str held room ends) ∙ e) in
          let (q, run, l) = >>=-eq-some (code_points lookup size rest [] piece) _ k in
          last_of (code_point_tokens id piece ++ q.0, q.1) r l
          ∙ code_points-last lookup size front c [] piece q nc run
    ]
