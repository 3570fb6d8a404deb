-- ===== src/Fat32/Directory.antt =====
-- libpi/fat32/fat32.c: directories and files. A directory is read whole, by the walk along its chain of
-- clusters, and its bytes are then taken as entries of 32 bytes. `none` is a panic or a failed `assert`,
-- an access out of range, or a walk that the fuel does not finish; the NULL that `fat32_stat` and
-- `fat32_read` return for a missing name is a `none` inside the result.
pub mod Contents
pub mod Listing
use pi3_distributed_llm_infe.Base.{
  ℕ, zero, suc, ◌+◌, ◌*◌, ◌/◌, ◌^◌, Bool, true, false, ◌&&◌, ◌||◌, not, List, [], ◌∷◌, Option, none,
  some, ◌>>=◌, ◌==◌, check, if◌then◌else◌, bit_and, bit_or, u32, ◌<<<◌, length, take, drop,
  replicate, get_elem?, map,
}
use pi3_distributed_llm_infe.Base.Int.{ℤ, pos, negsuc}
use pi3_distributed_llm_infe.Fat32.{Fs, get_cluster_chain_length, read_cluster_chain}
use pi3_distributed_llm_infe.Fat32.Card.{Card, do_reads}
use pi3_distributed_llm_infe.Fat32.Volume.{field_at, PiDirent}
use pi3_distributed_llm_infe.Fat32.Names.{to_8dot3, find_dirent_with_name}

-- `fat32_dirent_t`
pub record Dirent : Type 0 where
  pub filename : List ℕ
  pub attr : ℕ
  pub reserved0 : ℕ
  pub ctime_tenths : ℕ
  pub ctime : ℕ
  pub create_date : ℕ
  pub access_date : ℕ
  pub hi_start : ℕ
  pub mod_time : ℕ
  pub mod_date : ℕ
  pub lo_start : ℕ
  pub file_nbytes : ℕ

unfoldable pub dirent_of : List ℕ → Dirent
dirent_of e = record {
  filename = take 11 e;
  attr = field_at 11 1 e;
  reserved0 = field_at 12 1 e;
  ctime_tenths = field_at 13 1 e;
  ctime = field_at 14 2 e;
  create_date = field_at 16 2 e;
  access_date = field_at 18 2 e;
  hi_start = field_at 20 2 e;
  mod_time = field_at 22 2 e;
  mod_date = field_at 24 2 e;
  lo_start = field_at 26 2 e;
  file_nbytes = field_at 28 4 e;
}

-- An array of `n` entries in memory.
unfoldable pub dirents_of : ℕ → List ℕ → List Dirent
unfolding dirent_of
dirents_of zero bytes = []
dirents_of (suc n) bytes = dirent_of (take 32 bytes) ∷ dirents_of n (drop 32 bytes)

abbrev pub volume_label : ℕ
volume_label = 8

abbrev pub long_file_name : ℕ
long_file_name = 15

abbrev pub dir_attr : ℕ
dir_attr = 16

unfoldable pub fat32_cluster_id : Dirent → ℕ
fat32_cluster_id d = bit_or (d.hi_start <<< 16) d.lo_start

unfoldable pub fat32_dirent_is_lfn : Dirent → Bool
fat32_dirent_is_lfn d = d.attr == long_file_name

-- Of the sequence number, which is the first byte of an entry of a long name.
unfoldable pub lfn_is_deleted : ℕ → Bool
lfn_is_deleted seqno = bit_and seqno 0xe5 == 0xe5

unfoldable pub fat32_dirent_is_deleted_lfn : Dirent → Option Bool
unfolding lfn_is_deleted
fat32_dirent_is_deleted_lfn d =
    if d.attr == long_file_name
    then (get_elem? d.filename 0 >>= λ seqno. some (lfn_is_deleted seqno))
    else none

unfoldable pub fat32_dirent_free : Dirent → Option Bool
unfolding fat32_dirent_is_deleted_lfn
fat32_dirent_free d = get_elem? d.filename 0 >>= λ x.
    if d.attr == long_file_name
    then fat32_dirent_is_deleted_lfn d
    else some ((x == 0) || (x == 0xe5))

unfoldable pub dirent_convert : Dirent → Option PiDirent
unfolding to_8dot3 fat32_cluster_id
dirent_convert d = do
  name ← to_8dot3 d.filename
  some (record {
    name = name;
    raw_name = d.filename;
    cluster_id = fat32_cluster_id d;
    is_dir_p = d.attr == dir_attr;
    nbytes = d.file_nbytes;
  })

-- The chain that starts at a cluster, read into a buffer of the length that the first walk finds.
unfoldable pub read_chain : ℕ → Card → Fs → ℕ → Option (List ℕ)
unfolding get_cluster_chain_length read_cluster_chain do_reads
read_chain fuel card fs cluster_start = do
  chain_len ← get_cluster_chain_length fuel fs 0 cluster_start
  let n_bytes = u32 (u32 (chain_len * fs.sectors_per_cluster) * fs.bytes_per_sec)
  reads ← read_cluster_chain fuel fs 0 cluster_start
  do_reads card reads (replicate n_bytes 0)

unfoldable pub get_dirents : ℕ → Card → Fs → ℕ → Option (List Dirent)
unfolding read_chain dirents_of
get_dirents fuel card fs cluster_start = do
  buf ← read_chain fuel card fs cluster_start
  some (dirents_of (length buf / 32) buf)

-- The loop of `fat32_readdir`.
unfoldable pub list_dirents : List Dirent → Option (List PiDirent)
unfolding fat32_dirent_free fat32_dirent_is_lfn dirent_convert
list_dirents [] = some []
list_dirents (d ∷ dirents) =
    let rest = list_dirents dirents in
    fat32_dirent_free d >>= λ free.
    if free
    then rest
    else if fat32_dirent_is_lfn d
    then rest
    else if not (bit_and d.attr volume_label == 0)
    then rest
    else (dirent_convert d >>= λ e. rest >>= λ es. some (e ∷ es))

unfoldable pub fat32_readdir : ℕ → Card → Fs → PiDirent → Option (List PiDirent)
unfolding get_dirents list_dirents
fat32_readdir fuel card fs dirent = do
  _ ← check dirent.is_dir_p
  dirents ← get_dirents fuel card fs dirent.cluster_id
  list_dirents dirents

-- The entry that the search finds in a directory, or NULL.
abbrev pub dirent_at : List Dirent → ℤ → Option (Option Dirent)
dirent_at dirents (negsuc n) = some none
dirent_at dirents (pos i) = get_elem? dirents i >>= λ d. some (some d)

unfoldable pub find_dirent : ℕ → Card → Fs → PiDirent → List ℕ → Option (Option Dirent)
unfolding get_dirents find_dirent_with_name
find_dirent fuel card fs directory name = do
  _ ← check directory.is_dir_p
  dirents ← get_dirents fuel card fs directory.cluster_id
  found_idx ← find_dirent_with_name (map (λ d. d.filename) dirents) 0 name
  dirent_at dirents found_idx

unfoldable pub fat32_stat : ℕ → Card → Fs → PiDirent → List ℕ → Option (Option PiDirent)
unfolding find_dirent dirent_convert
fat32_stat fuel card fs directory name = find_dirent fuel card fs directory name >>= λ found.
    elim found [ none ↦ some none | some d ↦ (dirent_convert d >>= λ e. some (some e)) ]

-- `pi_file_t`; `n_alloc` is the length of `contents`.
pub record PiFile : Type 0 where
  pub contents : List ℕ
  pub n_data : ℕ

-- The part of `fat32_read` behind the search.
unfoldable pub read_file : ℕ → Card → Fs → Dirent → Option PiFile
unfolding read_chain
read_file fuel card fs d = do
  file_buf ← read_chain fuel card fs (bit_or (d.hi_start <<< 16) d.lo_start)
  some (record { contents = file_buf; n_data = d.file_nbytes })

unfoldable pub fat32_read : ℕ → Card → Fs → PiDirent → List ℕ → Option (Option PiFile)
unfolding find_dirent read_file
fat32_read fuel card fs directory name = find_dirent fuel card fs directory name >>= λ found.
    elim found [ none ↦ some none | some d ↦ (read_file fuel card fs d >>= λ f. some (some f)) ]
