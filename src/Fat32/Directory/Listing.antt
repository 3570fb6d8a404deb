-- ===== src/Fat32/Directory/Listing.antt =====
-- What `fat32_readdir` lists of a directory.
use pi3_distributed_llm_infe.Base.{
  ℕ, suc, ◌*◌, ◌/◌, ◌%◌, ◌≡◌, refl, ◌∙◌, arith, Bool, true, false, ◌&&◌, ◌||◌, not, List, [], ◌∷◌,
  ◌++◌, ap, Option, some, ◌>>=◌, >>=-eq-some, ◌==◌, if◌then◌else◌, Bool-cases, inl, inr, bit_and,
  take, get_elem?, get_elem?-lt-length, get_elem?-in_range,
}
use pi3_distributed_llm_infe.Base.Bits.{bit_and-high}
use pi3_distributed_llm_infe.Fat32.{Fs}
use pi3_distributed_llm_infe.Fat32.Chain.{IsChain}
use pi3_distributed_llm_infe.Fat32.Card.{Card, IsReliable}
use pi3_distributed_llm_infe.Fat32.Volume.{PiDirent}
use pi3_distributed_llm_infe.Fat32.Names.{trim_loop, to_8dot3}
use pi3_distributed_llm_infe.Fat32.Directory.{
  Dirent, long_file_name, volume_label, dir_attr, fat32_cluster_id, fat32_dirent_is_lfn,
  fat32_dirent_is_deleted_lfn, lfn_is_deleted, fat32_dirent_free, dirent_convert, list_dirents,
  fat32_readdir,
}
use pi3_distributed_llm_infe.Fat32.Directory.Contents.{
  CanRead, entries_of, entries_behind, get_dirents_lem,
}

-- An entry whose first byte is `x` is in use, and is no label: the bit of labels is also one of the
-- four of long names.
abbrev pub is_live : ℕ → ℕ → Bool
is_live x attr = not (x == 0) && (not (x == 0xe5) && (attr / 8 % 2 == 0))

-- The entry as the driver hands it out.
abbrev pub converted : Dirent → List ℕ → PiDirent
converted d name = record {
  name = name;
  raw_name = d.filename;
  cluster_id = fat32_cluster_id d;
  is_dir_p = d.attr == dir_attr;
  nbytes = d.file_nbytes;
}

-- The live entries of a directory, in order.
pub data Listed : List Dirent → List PiDirent → Type 0 where
  done : Listed [] []
  skip :
      {d : Dirent} {ds : List Dirent} {es : List PiDirent} {x : ℕ}
      → get_elem? d.filename 0 ≡ some x
      → is_live x d.attr ≡ false
      → Listed ds es
      → Listed (d ∷ ds) es
  keep :
      {d : Dirent} {ds : List Dirent} {es : List PiDirent} {x : ℕ} {name : List ℕ}
      → get_elem? d.filename 0 ≡ some x
      → is_live x d.attr ≡ true
      → to_8dot3 d.filename ≡ some name
      → Listed ds es
      → Listed (d ∷ ds) (converted d name ∷ es)

-- Each entry has a name in 8.3 form.
abbrev pub AreNamed : List Dirent → Type 0
AreNamed ds =
    (j : ℕ) (d : Dirent)
    → get_elem? ds j ≡ some d
    → (name : List ℕ) × (to_8dot3 d.filename ≡ some name)

-- A name has a first byte.
first_byte : (p name : List ℕ) → to_8dot3 p ≡ some name → (x : ℕ) × (get_elem? p 0 ≡ some x)
unfolding to_8dot3
first_byte p name e =
    let (i, ei, e1) = >>=-eq-some (trim_loop 8 (take 8 p)) _ e in
    let (a, ea, e2) = >>=-eq-some (get_elem? p 8) _ e1 in
    get_elem?-in_range p 0 (omega (arith, get_elem?-lt-length p 8 ea))

label_bit : (attr : ℕ) → (bit_and attr volume_label == 0) ≡ (attr / 8 % 2 == 0)
label_bit attr =
    let e : bit_and attr 8 ≡ attr / 8 % 2 * 8 = bit_and-high 3 1 attr in rw e (ground arith)

free_long :
    (d : Dirent) (x : ℕ)
    → get_elem? d.filename 0 ≡ some x
    → (d.attr == long_file_name) ≡ true
    → fat32_dirent_free d ≡ some (lfn_is_deleted x)
unfolding fat32_dirent_free fat32_dirent_is_deleted_lfn
free_long d x first long = rw (first, long) refl

free_short :
    (d : Dirent) (x : ℕ)
    → get_elem? d.filename 0 ≡ some x
    → (d.attr == long_file_name) ≡ false
    → fat32_dirent_free d ≡ some ((x == 0) || (x == 0xe5))
unfolding fat32_dirent_free
free_short d x first short = rw (first, short) refl

dirent_convert-converted :
    (d : Dirent) (name : List ℕ)
    → to_8dot3 d.filename ≡ some name
    → dirent_convert d ≡ some (converted d name)
unfolding dirent_convert
dirent_convert-converted d name named = rw named refl

-- The tests of the loop for one entry.
list_one :
    (d : Dirent) (ds : List Dirent) (x : ℕ) (name : List ℕ)
    → get_elem? d.filename 0 ≡ some x
    → to_8dot3 d.filename ≡ some name
    → list_dirents (d ∷ ds) ≡ (
        if is_live x d.attr
        then (list_dirents ds >>= λ es. some (converted d name ∷ es))
        else list_dirents ds)
unfolding list_dirents fat32_dirent_is_lfn
list_one d ds x name first named = elim (Bool-cases (d.attr == long_file_name)) [
  | inl long ↦
      let dead : is_live x d.attr ≡ false = ground arith in
      rw (free_long d x first long, dead, long) (either (lfn_is_deleted x) (list_dirents ds))
  | inr short ↦ elim (Bool-cases ((x == 0) || (x == 0xe5))) [
    | inl free ↦
        let dead : is_live x d.attr ≡ false = ground arith in
        rw (free_short d x first short, free, dead) refl
    | inr used ↦
        let live : is_live x d.attr ≡ (d.attr / 8 % 2 == 0) = ground arith in
        rw (free_short d x first short, used, short, label_bit d.attr, live)
          (rw (dirent_convert-converted d name named)
            (turn (d.attr / 8 % 2 == 0) (list_dirents ds) _))
  ]
]
  where
    either : (b : Bool) (rest : Option (List PiDirent)) → (if b then rest else rest) ≡ rest
    either true rest = refl
    either false rest = refl

    turn :
        (b : Bool) (rest more : Option (List PiDirent))
        → (if not b then rest else more) ≡ (if b then more else rest)
    turn true rest more = refl
    turn false rest more = refl

listed_every :
    (ds : List Dirent)
    → AreNamed ds
    → (es : List PiDirent) × (list_dirents ds ≡ some es) × Listed ds es
unfolding list_dirents
listed_every [] named = ([], refl, done)
listed_every (d ∷ ds) named =
    let (name, e) = named 0 d refl in
    let (x, first) = first_byte d.filename name e in
    let (es, rest, l) = listed_every ds (λ j. named (suc j)) in
    elim (Bool-cases (is_live x d.attr)) [
      | inl live ↦ (
        converted d name ∷ es,
        list_one d ds x name first e ∙ rw (live, rest) refl,
        keep first live e l,
      )
      | inr dead ↦ (es, list_one d ds x name first e ∙ rw dead rest, skip first dead l)
    ]

-- What is listed of two rows of entries is what is listed of each.
listed_split :
    (xs ys : List Dirent) (es : List PiDirent)
    → Listed (xs ++ ys) es
    → (own more : List PiDirent) × (es ≡ own ++ more) × Listed xs own × Listed ys more
listed_split [] ys es l = ([], es, refl, done, l)
listed_split (d ∷ xs) ys es (skip first dead l) =
    let (own, more, e, lo, lm) = listed_split xs ys es l in (own, more, e, skip first dead lo, lm)
listed_split (d ∷ xs) ys (_ ∷ es) (keep {name = name} first live named l) =
    let (own, more, e, lo, lm) = listed_split xs ys es l in
    (converted d name ∷ own, more, ap (λ z. converted d name ∷ z) e, keep first live named lo, lm)

-- On a card of which the driver transfers every read of its sectors, of a directory whose clusters are
-- chained to an end mark, where also the sectors are on the card that the end mark would have as a
-- cluster, and all entries in these places have names in 8.3 form: `fat32_readdir` lists first, in
-- order, the entries of the directory that are in use and no labels, and behind them those of the
-- sectors that the end mark would have as a cluster. The parts of long names are among those left out.
pub fat32_readdir-Listed :
    (fuel sectors : ℕ) (card : Card) (fs : Fs) (directory : PiDirent) (mark : ℕ) (chain : List ℕ)
    → IsReliable card sectors
    → directory.is_dir_p ≡ true
    → IsChain fs directory.cluster_id chain mark
    → CanRead fuel sectors fs chain mark
    → AreNamed (entries_of card fs chain ++ entries_behind card fs mark)
    → (own more : List PiDirent) × (fat32_readdir fuel card fs directory ≡ some (own ++ more))
      × Listed (entries_of card fs chain) own
      × Listed (entries_behind card fs mark) more
unfolding fat32_readdir
fat32_readdir-Listed fuel sectors card fs directory mark chain reliable dir linked can named =
    let ds = entries_of card fs chain ++ entries_behind card fs mark in
    let (es, made, l) = listed_every ds named in
    let (own, more, e, lo, lm) =
      listed_split (entries_of card fs chain) (entries_behind card fs mark) es l in
    let read =
      get_dirents_lem fuel sectors card fs directory.cluster_id mark chain reliable linked can in
    (own, more, rw (dir, read) (made ∙ ap some e), lo, lm)
