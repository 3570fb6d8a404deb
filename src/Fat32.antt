-- ===== src/Fat32.antt =====
-- libpi/fat32/fat32.c and fat32-helpers.c: how the driver follows the chain of a file's clusters
-- through the file allocation table. The table is a list of 32-bit entries. `none` is a panic, a read
-- of the table out of range, or a walk that the fuel does not finish.
pub mod Entry
pub mod Chain
pub mod Names
pub mod ShortName
pub mod Card
pub mod Volume
pub mod Mbr
pub mod Directory
use pi3_distributed_llm_infe.Base.{
  ℕ, zero, suc, ◌+◌, ◌-◌, ◌*◌, Bool, true, false, List, [], ◌∷◌, Option, none, some, ◌>>=◌, ◌==◌,
  ◌&&◌, leb, if◌then◌else◌, get_elem?, u32, sub32, ◌<<<◌, ◌>>>◌,
}

pub data EntryType : Type 0 where
  free_cluster reserved_cluster bad_cluster last_cluster used_cluster : EntryType

-- The upper 4 bits are shifted out.
unfoldable pub entry_bits : ℕ → ℕ
entry_bits x = u32 (x <<< 4) >>> 4

-- `none` is a panic: a reserved value.
unfoldable pub fat32_fat_entry_type : ℕ → Option EntryType
unfolding entry_bits
fat32_fat_entry_type entry =
    let x = entry_bits entry in
    if x == 0
    then some free_cluster
    else if x == 1
    then some reserved_cluster
    else if x == 268435447
    then some bad_cluster
    else if leb 2 x && leb x 268435439
    then some used_cluster
    else if leb 268435440 x && leb x 268435446
    then none
    else if leb 268435448 x && leb x 268435455
    then some last_cluster
    else none

abbrev pub is_last : EntryType → Bool
is_last last_cluster = true
is_last free_cluster = false
is_last reserved_cluster = false
is_last bad_cluster = false
is_last used_cluster = false

-- `fat32_fs_t`, and `bytes_per_sec` of the boot sector, which the source keeps in a variable.
pub record Fs : Type 0 where
  pub lba_start : ℕ
  pub fat_begin_lba : ℕ
  pub cluster_begin_lba : ℕ
  pub sectors_per_cluster : ℕ
  pub root_dir_first_cluster : ℕ
  pub fat : List ℕ
  pub n_entries : ℕ
  pub bytes_per_sec : ℕ

-- `get_cluster_chain_length`, with the clusters counted so far in `cluster_num`.
unfoldable pub get_cluster_chain_length : ℕ → Fs → ℕ → ℕ → Option ℕ
unfolding fat32_fat_entry_type
get_cluster_chain_length zero fs cluster_num cur_cluster = none
get_cluster_chain_length (suc fuel) fs cluster_num cur_cluster = do
  kind ← fat32_fat_entry_type cur_cluster
  (if is_last kind
      then some (u32 (cluster_num + 1))
      else (get_elem? fs.fat cur_cluster
          >>= (λ next. get_cluster_chain_length fuel fs (u32 (cluster_num + 1)) next)))

-- One call `pi_sd_read(data + offset, lba, nsec)`.
pub record SdRead : Type 0 where
  pub offset : ℕ
  pub lba : ℕ
  pub nsec : ℕ

unfoldable pub cluster_read : Fs → ℕ → ℕ → SdRead
cluster_read fs i cluster = record {
  offset = u32 (i * u32 (fs.sectors_per_cluster * fs.bytes_per_sec));
  lba = u32 (fs.cluster_begin_lba + sub32 cluster 2 * fs.sectors_per_cluster);
  nsec = fs.sectors_per_cluster;
}

-- `read_cluster_chain` from its round `i` on: the calls of `pi_sd_read` that it makes, in order.
unfoldable pub read_cluster_chain : ℕ → Fs → ℕ → ℕ → Option (List SdRead)
unfolding fat32_fat_entry_type cluster_read
read_cluster_chain zero fs i cur_cluster = none
read_cluster_chain (suc fuel) fs i cur_cluster = do
  kind ← fat32_fat_entry_type cur_cluster
  (if is_last kind then some (cluster_read fs i cur_cluster ∷ []) else (do
    next ← get_elem? fs.fat cur_cluster
    reads ← read_cluster_chain fuel fs (u32 (i + 1)) next
    some (cluster_read fs i cur_cluster ∷ reads)))
