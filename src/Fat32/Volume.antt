-- ===== src/Fat32/Volume.antt =====
-- libpi/fat32/fat32-helpers.h and .c, and `fat32_mk` and `fat32_get_root` of fat32.c: the boot sector
-- of a volume, its checks, and what the driver takes from it. `none` is a failed `assert` or `demand`.
pub mod Geometry
use pi3_distributed_llm_infe.Base.{
  ℕ, zero, suc, ◌+◌, ◌-◌, ◌*◌, ◌/◌, ◌%◌, ◌^◌, Bool, true, ◌&&◌, ◌||◌, not, List, [], ◌∷◌, Option,
  none, some, ◌>>=◌, ◌==◌, check, if◌then◌else◌, bit_and, u32, length, take, drop,
}
use pi3_distributed_llm_infe.Base.Bytes.{of_le_bytes}
use pi3_distributed_llm_infe.Fat32.{Fs}
use pi3_distributed_llm_infe.Fat32.Card.{Card, pi_sd_read, pi_sec_read}

-- A field of a packed struct: `n` bytes from an offset on, lowest first.
abbrev pub field_at : ℕ → ℕ → List ℕ → ℕ
field_at offset n bytes = of_le_bytes (take n (drop offset bytes))

-- `fat32_boot_sec_t`, without the arrays that the source does not read.
pub record BootSec : Type 0 where
  pub bytes_per_sec : ℕ
  pub sec_per_cluster : ℕ
  pub reserved_area_nsec : ℕ
  pub nfats : ℕ
  pub max_files : ℕ
  pub fs_nsec : ℕ
  pub media_type : ℕ
  pub zero_size : ℕ
  pub sec_per_track : ℕ
  pub n_heads : ℕ
  pub hidden_secs : ℕ
  pub nsec_in_fs : ℕ
  pub nsec_per_fat : ℕ
  pub mirror_flags : ℕ
  pub version : ℕ
  pub first_cluster : ℕ
  pub info_sec_num : ℕ
  pub backup_boot_loc : ℕ
  pub logical_drive_num : ℕ
  pub extended_sig : ℕ
  pub serial_num : ℕ
  pub sig : ℕ

unfoldable pub boot_sec_of : List ℕ → BootSec
boot_sec_of s = record {
  bytes_per_sec = field_at 11 2 s;
  sec_per_cluster = field_at 13 1 s;
  reserved_area_nsec = field_at 14 2 s;
  nfats = field_at 16 1 s;
  max_files = field_at 17 2 s;
  fs_nsec = field_at 19 2 s;
  media_type = field_at 21 1 s;
  zero_size = field_at 22 2 s;
  sec_per_track = field_at 24 2 s;
  n_heads = field_at 26 2 s;
  hidden_secs = field_at 28 4 s;
  nsec_in_fs = field_at 32 4 s;
  nsec_per_fat = field_at 36 4 s;
  mirror_flags = field_at 40 2 s;
  version = field_at 42 2 s;
  first_cluster = field_at 44 4 s;
  info_sec_num = field_at 48 2 s;
  backup_boot_loc = field_at 50 2 s;
  logical_drive_num = field_at 64 1 s;
  extended_sig = field_at 66 1 s;
  serial_num = field_at 67 4 s;
  sig = field_at 510 2 s;
}

-- `((x) & -(x)) == (x)`, on 32 bits: the test lets 0 through.
unfoldable pub is_pow2 : ℕ → Bool
is_pow2 x = bit_and x (u32 (2 ^ 32 - x)) == x

-- A row of `assert`s.
unfoldable pub all_of : List Bool → Bool
all_of [] = true
all_of (b ∷ bs) = b && all_of bs

abbrev pub volume_asserts : BootSec → List Bool
volume_asserts b =
    let n = b.bytes_per_sec in
    (n == 512)
    ∷ (b.nfats == 2)
    ∷ (b.sig == 0xAA55)
    ∷ is_pow2 b.sec_per_cluster
    ∷ ((n == 512) || ((n == 1024) || ((n == 2048) || (n == 4096))))
    ∷ (b.max_files == 0)
    ∷ (b.fs_nsec == 0)
    ∷ (b.zero_size == 0)
    ∷ not (b.nsec_in_fs == 0)
    ∷ (b.info_sec_num == 1)
    ∷ (b.backup_boot_loc == 6)
    ∷ (b.extended_sig == 0x29)
    ∷ []

unfoldable pub fat32_volume_id_check : BootSec → Bool
unfolding all_of is_pow2
fat32_volume_id_check b = all_of (volume_asserts b)

-- `struct fsinfo`, without its reserved bytes.
pub record Fsinfo : Type 0 where
  pub sig1 : ℕ
  pub sig2 : ℕ
  pub free_cluster_count : ℕ
  pub next_free_cluster : ℕ
  pub sig3 : ℕ

unfoldable pub fsinfo_of : List ℕ → Fsinfo
fsinfo_of s = record {
  sig1 = field_at 0 4 s;
  sig2 = field_at 484 4 s;
  free_cluster_count = field_at 488 4 s;
  next_free_cluster = field_at 492 4 s;
  sig3 = field_at 508 4 s;
}

unfoldable pub fat32_fsinfo_check : Fsinfo → Bool
fat32_fsinfo_check info =
    (info.sig1 == 0x41615252) && ((info.sig2 == 0x61417272) && (info.sig3 == 0xaa550000))

-- An array of `n` words in memory.
unfoldable pub words_of : ℕ → List ℕ → List ℕ
words_of zero bytes = []
words_of (suc n) bytes = of_le_bytes (take 4 bytes) ∷ words_of n (drop 4 bytes)

-- The numbers that `fat32_mk` computes, around the table that it has read.
unfoldable pub geometry : ℕ → BootSec → List ℕ → Fs
geometry lba_start b fat = record {
  lba_start = lba_start;
  fat_begin_lba = u32 (lba_start + b.reserved_area_nsec);
  cluster_begin_lba = u32 (u32 (lba_start + b.reserved_area_nsec) + u32 (b.nfats * b.nsec_per_fat));
  sectors_per_cluster = b.sec_per_cluster;
  root_dir_first_cluster = b.first_cluster;
  fat = fat;
  n_entries = u32 (b.nsec_per_fat * b.bytes_per_sec) / 4;
  bytes_per_sec = b.bytes_per_sec;
}

-- `fat32_mk`, for the partition that starts at `lba_start`; `init_p` says whether the module is in use.
unfoldable pub fat32_mk : Card → Bool → ℕ → Option Fs
unfolding pi_sec_read pi_sd_read fat32_volume_id_check fat32_fsinfo_check geometry
fat32_mk card init_p lba_start = do
  _ ← check (not init_p)
  sector ← pi_sd_read card lba_start 1
  let b = boot_sec_of sector
  _ ← check (fat32_volume_id_check b)
  _ ← check (b.info_sec_num == 1)
  info ← pi_sec_read card (u32 (lba_start + 1)) 1
  _ ← check (fat32_fsinfo_check (fsinfo_of info))
  table ← pi_sec_read card (u32 (lba_start + b.reserved_area_nsec)) b.nsec_per_fat
  some (geometry lba_start b (words_of (length table / 4) table))

-- `pi_dirent_t`
pub record PiDirent : Type 0 where
  pub name : List ℕ
  pub raw_name : List ℕ
  pub cluster_id : ℕ
  pub is_dir_p : Bool
  pub nbytes : ℕ

unfoldable pub fat32_get_root : Bool → Fs → Option PiDirent
fat32_get_root init_p fs =
    if not init_p
    then none
    else some (record {
      name = [];
      raw_name = [];
      cluster_id = fs.root_dir_first_cluster;
      is_dir_p = true;
      nbytes = 0;
    })
