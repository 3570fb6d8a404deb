-- ===== src/Fat32/Mbr.antt =====
-- libpi/fat32/mbr-helpers.c and mbr.c: the master boot record, as the 512 bytes of the card's first
-- sector. `none` is a failed `assert`.
use pi3_distributed_llm_infe.Base.{
  ℕ, ◌+◌, ◌*◌, Bool, ◌||◌, not, List, Option, none, some, ◌>>=◌, ◌==◌, ltb, check, if◌then◌else◌,
  take, drop,
}
use pi3_distributed_llm_infe.Libc.Str.{memiszero}
use pi3_distributed_llm_infe.Fat32.Card.{Card, pi_sec_read}
use pi3_distributed_llm_infe.Fat32.Volume.{field_at}

-- `mbr_partition_ent_t`
pub record Partition : Type 0 where
  pub bootable_p : ℕ
  pub chs_start : ℕ
  pub part_type : ℕ
  pub chs_end : ℕ
  pub lba_start : ℕ
  pub nsec : ℕ

unfoldable pub partition_of : List ℕ → Partition
partition_of e = record {
  bootable_p = field_at 0 1 e;
  chs_start = field_at 1 3 e;
  part_type = field_at 4 1 e;
  chs_end = field_at 5 3 e;
  lba_start = field_at 8 4 e;
  nsec = field_at 12 4 e;
}

-- The 16 bytes of an entry of the table.
abbrev pub part_tab : ℕ → List ℕ → List ℕ
part_tab partno mbr = take 16 (drop (446 + 16 * partno) mbr)

unfoldable pub mbr_part_is_fat32 : ℕ → Bool
mbr_part_is_fat32 t = (t == 0xb) || (t == 0xc)

unfoldable pub mbr_partition_empty_raw : List ℕ → Option Bool
unfolding memiszero
mbr_partition_empty_raw part = memiszero 16 part

unfoldable pub mbr_check : List ℕ → Option Bool
unfolding partition_of mbr_part_is_fat32 mbr_partition_empty_raw
mbr_check mbr = do
  _ ← check (field_at 510 2 mbr == 0xAA55)
  _ ← check (mbr_part_is_fat32 (partition_of (part_tab 0 mbr)).part_type)
  first ← mbr_partition_empty_raw (part_tab 0 mbr)
  _ ← check (not first)
  second ← mbr_partition_empty_raw (part_tab 1 mbr)
  _ ← check second
  third ← mbr_partition_empty_raw (part_tab 2 mbr)
  _ ← check third
  fourth ← mbr_partition_empty_raw (part_tab 3 mbr)
  check fourth

unfoldable pub mbr_get_partition : List ℕ → ℕ → Option Partition
unfolding partition_of
mbr_get_partition mbr partno =
    if not (ltb partno 4) then none else some (partition_of (part_tab partno mbr))

unfoldable pub mbr_read : Card → Option (List ℕ)
unfolding pi_sec_read mbr_check
mbr_read card = do mbr ← pi_sec_read card 0 1; _ ← mbr_check mbr; some mbr
