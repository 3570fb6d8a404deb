-- ===== src/Fat32/Directory/Contents.antt =====
-- What a read of a chain, and of a file, gives.
use pi3_distributed_llm_infe.Base.{
  ℕ, zero, suc, ◌+◌, ◌*◌, ◌/◌, ◌^◌, ◌≤◌, ◌<◌, ◌≡◌, refl, ap, ◌∙◌, arith, true, false, List, [], ◌∷◌,
  ◌++◌, Option, none, some, u32, length, length-append, length-drop, take, drop, replicate,
  get_elem?, map, append-nil,
}
use pi3_distributed_llm_infe.Base.Int.{ℤ, pos, negsuc}
use pi3_distributed_llm_infe.Fat32.{Fs, cluster_read}
use pi3_distributed_llm_infe.Fat32.Chain.{
  IsChain, cluster_reads, get_cluster_chain_length_lem, read_cluster_chain_lem,
}
use pi3_distributed_llm_infe.Fat32.Card.{
  Card, IsReliable, AreOnCard, AreRead, AreOnCard-AreRead, cluster_lba, do_reads, cluster_bytes,
  chain_bytes, put_cluster, do_reads-cluster_reads, length-chain_bytes,
}
use pi3_distributed_llm_infe.Fat32.Volume.{PiDirent}
use pi3_distributed_llm_infe.Fat32.Names.{to_8dot3, same_name, find_dirent_with_name}
use pi3_distributed_llm_infe.Fat32.Directory.{
  Dirent, dirents_of, fat32_cluster_id, read_chain, get_dirents, dirent_at, find_dirent, PiFile,
  read_file, fat32_read,
}

-- A chain that the driver can read: with fuel for its walks, in less than 2 ^ 32 bytes, and with the
-- sectors of its clusters, and those that the end mark would have as a cluster, on the card.
pub record CanRead (fuel sectors : ℕ) (fs : Fs) (chain : List ℕ) (mark : ℕ) : Type 0 where
  pub sector : fs.bytes_per_sec ≡ 512
  pub some_sector : 0 < fs.sectors_per_cluster
  pub fuelled : length chain < fuel
  pub counted : length chain + 1 < 2 ^ 32
  pub fits : (length chain + 1) * (fs.sectors_per_cluster * 512) < 2 ^ 32
  pub on_card : AreOnCard sectors fs chain
  pub mark_on_card : cluster_lba fs mark + fs.sectors_per_cluster ≤ sectors

module _ (fuel sectors : ℕ) (card : Card) (fs : Fs) (reliable : IsReliable card sectors)
    {chain : List ℕ} {mark : ℕ} (can : CanRead fuel sectors fs chain mark) where
  pub CanRead-AreRead : AreRead card fs chain
  CanRead-AreRead = AreOnCard-AreRead card fs sectors chain reliable can.some_sector can.on_card

  pub CanRead-mark : length (cluster_bytes card fs mark) ≡ 512 * fs.sectors_per_cluster
  CanRead-mark =
      reliable (cluster_lba fs mark) fs.sectors_per_cluster can.some_sector can.mark_on_card

read_chain_lem :
    (fuel sectors : ℕ) (card : Card) (fs : Fs) (start mark : ℕ) (chain : List ℕ)
    → IsReliable card sectors
    → IsChain fs start chain mark
    → CanRead fuel sectors fs chain mark
    → read_chain fuel card fs start ≡ some (chain_bytes card fs chain ++ cluster_bytes card fs mark)
unfolding read_chain
read_chain_lem fuel sectors card fs start mark chain reliable linked can =
    let own = CanRead-AreRead fuel sectors card fs reliable can in
    let end = CanRead-mark fuel sectors card fs reliable can in
    let z = fs.sectors_per_cluster * 512 in
    let n = length chain in
    let len =
      get_cluster_chain_length_lem fs start mark chain fuel linked can.fuelled can.counted in
    let reads =
      read_cluster_chain_lem fs start mark chain fuel linked can.fuelled
        (omega (arith, can.counted)) in
    let cut : u32 ((n + 1) * fs.sectors_per_cluster) ≡ (n + 1) * fs.sectors_per_cluster =
      omega (arith, can.fits) in
    let size : u32 (u32 ((n + 1) * fs.sectors_per_cluster) * fs.bytes_per_sec) ≡ n * z + (z + 0) =
      ap (λ x. u32 (x * fs.bytes_per_sec)) cut
      ∙ ap (λ x. u32 ((n + 1) * fs.sectors_per_cluster * x)) can.sector
      ∙ omega (arith, can.fits) in
    let last = cluster_read fs n mark ∷ [] in
    let bytes = chain_bytes card fs chain in
    rw (len, reads)
      (ap (λ m. do_reads card (cluster_reads fs 0 chain ++ last) (replicate m 0)) size
        ∙ do_reads-cluster_reads card fs chain last [] 0 (z + 0) own can.sector (omega arith)
            (omega (arith, can.fits))
        ∙ put_cluster card fs mark [] bytes n 0 end can.sector
            (length-chain_bytes card fs chain own) (omega (arith, can.fits))
        ∙ ap some (append-nil (bytes ++ cluster_bytes card fs mark)))

-- The first entry of a name in a directory, or that it has none.
pub data Found (name : List ℕ) : List Dirent → Option Dirent → Type 0 where
  missing : Found name [] none
  here :
      {d : Dirent} {ds : List Dirent} {cur : List ℕ}
      → to_8dot3 d.filename ≡ some cur
      → same_name name cur ≡ true
      → Found name (d ∷ ds) (some d)
  later :
      {d : Dirent} {ds : List Dirent} {cur : List ℕ} {r : Option Dirent}
      → to_8dot3 d.filename ≡ some cur
      → same_name name cur ≡ false
      → Found name ds r
      → Found name (d ∷ ds) r

-- The result of the search from entry `i` on.
abbrev AtIndex : List Dirent → ℕ → Option Dirent → ℤ → Type 0
AtIndex ds i none r = r ≡ negsuc 0
AtIndex ds i (some d) r = (k : ℕ) × (r ≡ pos (i + k)) × (get_elem? ds k ≡ some d)

search_found :
    (name : List ℕ) (ds : List Dirent) (o : Option Dirent) (i : ℕ)
    → Found name ds o
    → (r : ℤ) × (find_dirent_with_name (map (λ d. d.filename) ds) i name ≡ some r)
      × AtIndex ds i o r
unfolding find_dirent_with_name
search_found name [] none i missing = (negsuc 0, refl, refl)
search_found name [] (some d) i f = elim f [ ]
search_found name (d ∷ ds) none i (later e other f) =
    let (r, found, at) = search_found name ds none (i + 1) f in (r, rw (e, other) found, at)
search_found name (d ∷ ds) (some _) i (here e same) =
    (pos i, rw (e, same) refl, (0, ap pos (omega arith), refl))
search_found name (d ∷ ds) (some x) i (later e other f) =
    let (r, found, (k, at, entry)) = search_found name ds (some x) (i + 1) f in
    (r, rw (e, other) found, (suc k, at ∙ ap pos (omega arith), entry))

-- The entries in the clusters of a directory, and those in the sectors that are read behind them.
abbrev pub entries_of : Card → Fs → List ℕ → List Dirent
entries_of card fs chain = let buf = chain_bytes card fs chain in dirents_of (length buf / 32) buf

abbrev pub entries_behind : Card → Fs → ℕ → List Dirent
entries_behind card fs mark =
    let buf = cluster_bytes card fs mark in dirents_of (length buf / 32) buf

pub take_within : (k : ℕ) (xs ys : List ℕ) → k ≤ length xs → take k (xs ++ ys) ≡ take k xs
take_within zero xs ys h = refl
take_within (suc k) [] ys h = absurd (omega arith)
take_within (suc k) (x ∷ xs) ys h = ap (◌∷◌ x) (take_within k xs ys (omega arith))

drop_within : (k : ℕ) (xs ys : List ℕ) → k ≤ length xs → drop k (xs ++ ys) ≡ drop k xs ++ ys
drop_within zero xs ys h = refl
drop_within (suc k) [] ys h = absurd (omega arith)
drop_within (suc k) (x ∷ xs) ys h = drop_within k xs ys (omega arith)

dirents_of-append :
    (k n : ℕ) (xs ys : List ℕ)
    → length xs ≡ k * 32
    → dirents_of (k + n) (xs ++ ys) ≡ dirents_of k xs ++ dirents_of n ys
unfolding dirents_of
dirents_of-append zero n [] ys h = ap (λ m. dirents_of m ys) (omega arith)
dirents_of-append zero n (x ∷ xs) ys h = absurd (omega arith)
dirents_of-append (suc k) n xs ys h =
    let more : suc k + n ≡ suc (k + n) = omega arith in
    let rest = dirents_of-append k n (drop 32 xs) ys (length-drop 32 xs ∙ omega (arith, h)) in
    rw
      (more, take_within 32 xs ys (omega (arith, h)), drop_within 32 xs ys (omega (arith, h)), rest)
      refl

pub get_dirents_lem :
    (fuel sectors : ℕ) (card : Card) (fs : Fs) (start mark : ℕ) (chain : List ℕ)
    → IsReliable card sectors
    → IsChain fs start chain mark
    → CanRead fuel sectors fs chain mark
    → get_dirents fuel card fs start
      ≡ some (entries_of card fs chain ++ entries_behind card fs mark)
unfolding get_dirents
get_dirents_lem fuel sectors card fs start mark chain reliable linked can =
    let own = chain_bytes card fs chain in
    let behind = cluster_bytes card fs mark in
    let size =
      length-chain_bytes card fs chain (CanRead-AreRead fuel sectors card fs reliable can) in
    let end = CanRead-mark fuel sectors card fs reliable can in
    let both = length-append own behind in
    let whole : length own ≡ length own / 32 * 32 = omega (arith, size) in
    let count : length (own ++ behind) / 32 ≡ length own / 32 + length behind / 32 =
      omega (arith, both, whole) in
    let split = dirents_of-append (length own / 32) (length behind / 32) own behind whole in
    rw (read_chain_lem fuel sectors card fs start mark chain reliable linked can)
      (ap (λ n. some (dirents_of n (own ++ behind))) count ∙ ap some split)

-- A name that is found in the directory is not searched for behind it.
Found-append :
    {name : List ℕ} {ds : List Dirent} {o : Option Dirent} (more : List Dirent)
    → Found name ds o
    → (o ≡ none → Found name more none)
    → Found name (ds ++ more) o
Found-append more missing h = h refl
Found-append more (here e same) h = here e same
Found-append more (later e other f) h = later e other (Found-append more f h)

find_dirent_lem :
    (fuel sectors : ℕ) (card : Card) (fs : Fs) (directory : PiDirent) (name : List ℕ) (mark : ℕ)
    (chain : List ℕ) (o : Option Dirent)
    → IsReliable card sectors
    → directory.is_dir_p ≡ true
    → IsChain fs directory.cluster_id chain mark
    → CanRead fuel sectors fs chain mark
    → Found name (entries_of card fs chain) o
    → (o ≡ none → Found name (entries_behind card fs mark) none)
    → find_dirent fuel card fs directory name ≡ some o
unfolding find_dirent
find_dirent_lem fuel sectors card fs directory name mark chain o reliable dir linked can found
      behind =
    let ds = entries_of card fs chain ++ entries_behind card fs mark in
    let (r, searched, at) =
      search_found name ds o 0 (Found-append (entries_behind card fs mark) found behind) in
    rw
      (
        dir,
        get_dirents_lem fuel sectors card fs directory.cluster_id mark chain reliable linked can,
        searched,
      )
      (chosen o r at)
  where
    chosen :
        (o : Option Dirent) (r : ℤ)
        → AtIndex (entries_of card fs chain ++ entries_behind card fs mark) 0 o r
        → dirent_at (entries_of card fs chain ++ entries_behind card fs mark) r ≡ some o
    chosen none r e = rw e refl
    chosen (some d) r (k, e, entry) =
        let at : r ≡ pos k = e ∙ ap pos (omega arith) in rw (at, entry) refl

-- The bytes of a file, where there is one: as many of its clusters' bytes as its entry says.
pub data FileOf (fuel sectors : ℕ) (card : Card) (fs : Fs)
    : Option Dirent → Option (List ℕ) → Type 0 where
  absent : FileOf fuel sectors card fs none none
  present :
      {d : Dirent} {chain contents : List ℕ} {mark : ℕ}
      → IsChain fs (fat32_cluster_id d) chain mark
      → CanRead fuel sectors fs chain mark
      → d.file_nbytes ≤ length chain * (fs.sectors_per_cluster * 512)
      → take d.file_nbytes (chain_bytes card fs chain) ≡ contents
      → FileOf fuel sectors card fs (some d) (some contents)

-- The part of the buffer that holds the file.
abbrev pub data_of : Option PiFile → Option (List ℕ)
data_of none = none
data_of (some f) = some (take f.n_data f.contents)

read_file_lem :
    (fuel sectors : ℕ) (card : Card) (fs : Fs) (d : Dirent) (contents : List ℕ)
    → IsReliable card sectors
    → FileOf fuel sectors card fs (some d) (some contents)
    → (f : PiFile) × (read_file fuel card fs d ≡ some f) × (take f.n_data f.contents ≡ contents)
unfolding read_file fat32_cluster_id
read_file_lem fuel sectors card fs d contents reliable
      (present {chain = chain} {mark = mark} linked can small e) =
    let buf = chain_bytes card fs chain ++ cluster_bytes card fs mark in
    (
      record { contents = buf; n_data = d.file_nbytes },
      rw (read_chain_lem fuel sectors card fs (fat32_cluster_id d) mark chain reliable linked can)
          refl,
      take_within d.file_nbytes (chain_bytes card fs chain) (cluster_bytes card fs mark) (
            omega (
              arith,
              small,
              length-chain_bytes card fs chain (CanRead-AreRead fuel sectors card fs reliable can),
            ))
          ∙ e,
    )

-- On a card of which the driver transfers every read of its sectors, for a name, a directory whose clusters
-- are chained to an end mark, and a volume on whose card also the sectors are that the end mark would
-- have as a cluster, where the entries that the search comes to have names in 8.3 form: `fat32_read`
-- returns NULL where no entry of the directory has the name, and no entry in those sectors, which the
-- search goes on with. Where an entry of the directory has the name, and its own clusters are chained
-- and on the card in the same way and hold as many bytes as it says, it returns the file of the first
-- such entry: as many bytes as the entry says, of the clusters chained from the entry's first one on.
pub fat32_read_lem :
    (fuel sectors : ℕ) (card : Card) (fs : Fs) (directory : PiDirent) (name : List ℕ) (mark : ℕ)
    (chain : List ℕ) (o : Option Dirent) (contents : Option (List ℕ))
    → IsReliable card sectors
    → directory.is_dir_p ≡ true
    → IsChain fs directory.cluster_id chain mark
    → CanRead fuel sectors fs chain mark
    → Found name (entries_of card fs chain) o
    → (o ≡ none → Found name (entries_behind card fs mark) none)
    → FileOf fuel sectors card fs o contents
    → (r : Option PiFile) × (fat32_read fuel card fs directory name ≡ some r)
      × (data_of r ≡ contents)
unfolding fat32_read
fat32_read_lem fuel sectors card fs directory name mark chain none none reliable dir linked can
      found behind absent =
    (
      none,
      rw
          (find_dirent_lem fuel sectors card fs directory name mark chain none reliable dir linked
            can found behind)
          refl,
      refl,
    )
fat32_read_lem fuel sectors card fs directory name mark chain none (some c) reliable dir linked can
      found behind f =
    elim f [ ]
fat32_read_lem fuel sectors card fs directory name mark chain (some d) none reliable dir linked can
      found behind f =
    elim f [ ]
fat32_read_lem fuel sectors card fs directory name mark chain (some d) (some c) reliable dir linked
      can found behind file =
    let (f, e, same) = read_file_lem fuel sectors card fs d c reliable file in
    (
      some f,
      rw
          (find_dirent_lem fuel sectors card fs directory name mark chain (some d) reliable dir
            linked can found behind)
          (rw e refl),
      ap some same,
    )
