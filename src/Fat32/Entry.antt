-- ===== src/Fat32/Entry.antt =====
-- The types of the entries of the table, against the ranges that fat32-helpers.h gives.
use pi3_distributed_llm_infe.Base.{ℕ, ◌%◌, ◌^◌, ◌≡◌, ◌≤◌, ◌<◌, arith, none, some, ◌↔◌}
use pi3_distributed_llm_infe.Fat32.{
  entry_bits, fat32_fat_entry_type, free_cluster, reserved_cluster, bad_cluster, last_cluster,
  used_cluster,
}

entry_bits_lem : (x : ℕ) → x < 2 ^ 32 → entry_bits x ≡ x % 2 ^ 28
unfolding entry_bits
entry_bits_lem x h = omega arith

-- For an entry of 32 bits: the type goes by the low 28 bits alone, is that of the table in
-- fat32-helpers.h, and only the reserved values 0x?FFFFFF0 to 0x?FFFFFF6 panic.
fat32_fat_entry_type_lem :
    (x : ℕ)
    → x < 2 ^ 32
    → ((fat32_fat_entry_type x ≡ some free_cluster) ↔ (x % 2 ^ 28 ≡ 0))
      × ((fat32_fat_entry_type x ≡ some reserved_cluster) ↔ (x % 2 ^ 28 ≡ 1))
      × ((fat32_fat_entry_type x ≡ some used_cluster)
          ↔ ((2 ≤ x % 2 ^ 28) × (x % 2 ^ 28 < 268435440)))
      × ((fat32_fat_entry_type x ≡ none) ↔ ((268435440 ≤ x % 2 ^ 28) × (x % 2 ^ 28 < 268435447)))
      × ((fat32_fat_entry_type x ≡ some bad_cluster) ↔ (x % 2 ^ 28 ≡ 268435447))
      × ((fat32_fat_entry_type x ≡ some last_cluster) ↔ (268435448 ≤ x % 2 ^ 28))
unfolding fat32_fat_entry_type
fat32_fat_entry_type_lem x h =
    let e = entry_bits_lem x h in
    let low : x % 2 ^ 28 < 268435456 = omega arith in
    (
      (λ t. ground (arith, e), λ r. ground (arith, e)),
      (λ t. ground (arith, e), λ r. ground (arith, e)),
      (λ t. ground (arith, e), λ r. ground (arith, e)),
      (λ t. ground (arith, e), λ r. ground (arith, e)),
      (λ t. ground (arith, e), λ r. ground (arith, e)),
      (λ t. ground (arith, e), λ r. ground (arith, e)),
    )
