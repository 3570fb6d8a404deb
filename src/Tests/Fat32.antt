-- ===== src/Tests/Fat32.antt =====
-- A file of two clusters in a small file allocation table, and a directory of one entry.
use pi3_distributed_llm_infe.Base.{
  ℕ, zero, suc, subst, true, length, get_elem?, List, ◌≡◌, refl, arith, [], ◌∷◌, some,
}
use pi3_distributed_llm_infe.Fat32.{Fs, fat32_fat_entry_type, entry_bits, read_cluster_chain}
use pi3_distributed_llm_infe.Libc.Str.Compare.{IsText}
use pi3_distributed_llm_infe.Fat32.Names.{trim_loop, to_8dot3}
use pi3_distributed_llm_infe.Fat32.ShortName.{
  is_name_char, fat32_is_valid_name, fat32_dirent_set_name,
}
use pi3_distributed_llm_infe.Fat32.ShortName.Dotted.{AreNameChars, set_name-dotted}
use pi3_distributed_llm_infe.Fat32.Chain.{IsChain, last, link, read_cluster_chain-placed}

abbrev disk : Fs
disk = record {
  lba_start = 100;
  fat_begin_lba = 132;
  cluster_begin_lba = 1000;
  root_dir_first_cluster = 2;
  n_entries = 4;
  sectors_per_cluster = 8;
  bytes_per_sec = 512;
  fat = 268435448 ∷ 268435455 ∷ 3 ∷ 268435455 ∷ [];
}

chained : IsChain disk 2 (2 ∷ 3 ∷ []) 268435455
unfolding fat32_fat_entry_type entry_bits
chained = link refl refl (link refl refl (last refl))

read_cluster_chain_example :
    read_cluster_chain 5 disk 0 2
    ≡ some (
        record { offset = 0; lba = 1000; nsec = 8 }
        ∷ record { offset = 4096; lba = 1008; nsec = 8 }
        ∷ record { offset = 8192; lba = 2147484624; nsec = 8 }
        ∷ [])
read_cluster_chain_example =
    read_cluster_chain-placed disk 2 268435455 (2 ∷ 3 ∷ []) 5 chained (omega arith) refl
      (omega arith) (omega arith) (omega arith, omega arith, (omega arith, omega arith, tt))
      (omega arith)

-- "KERNEL  BIN", and its 8.3 form.
abbrev kernel : List ℕ
kernel = 75 ∷ 69 ∷ 82 ∷ 78 ∷ 69 ∷ 76 ∷ 32 ∷ 32 ∷ 66 ∷ 73 ∷ 78 ∷ []

abbrev kernel_bin : List ℕ
kernel_bin = 75 ∷ 69 ∷ 82 ∷ 78 ∷ 69 ∷ 76 ∷ 46 ∷ 66 ∷ 73 ∷ 78 ∷ []

kernel_form : to_8dot3 kernel ≡ some kernel_bin
unfolding to_8dot3 trim_loop
kernel_form = refl

kernel_bin-IsText : IsText kernel_bin
kernel_bin-IsText = (
  omega arith,
  (
    omega arith,
    (
      omega arith,
      (
        omega arith,
        (
          omega arith,
          (omega arith, (omega arith, (omega arith, (omega arith, (omega arith, tt))))),
        ),
      ),
    ),
  ),
)

named_text :
    (j : ℕ) (d : List ℕ)
    → get_elem? (kernel ∷ []) j ≡ some d
    → (cur : List ℕ) × (to_8dot3 d ≡ some cur) × IsText cur
named_text zero d e =
    let same : kernel ≡ d = cc in
    (kernel_bin, subst (λ x. to_8dot3 x ≡ some kernel_bin) same kernel_form, kernel_bin-IsText)
named_text (suc j) d e = cc

named :
    (j : ℕ) (d : List ℕ)
    → get_elem? (kernel ∷ []) j ≡ some d
    → (cur : List ℕ) × (to_8dot3 d ≡ some cur)
named j d e = let (cur, f, t) = named_text j d e in (cur, f)

a_IsName : AreNameChars (65 ∷ [])
unfolding is_name_char
a_IsName = (refl, tt)

txt_IsName : AreNameChars (84 ∷ 88 ∷ 84 ∷ [])
unfolding is_name_char
txt_IsName = (refl, (refl, (refl, tt)))

-- "A.TXT".
set_name-dotted_example :
    (fat32_is_valid_name (65 ∷ 46 ∷ 84 ∷ 88 ∷ 84 ∷ []) ≡ true)
    × ((p : List ℕ) × (fat32_dirent_set_name (65 ∷ 46 ∷ 84 ∷ 88 ∷ 84 ∷ []) ≡ some p)
        × (length p ≡ 11)
        × (to_8dot3 p ≡ some (65 ∷ 46 ∷ 84 ∷ 88 ∷ 84 ∷ [])))
set_name-dotted_example =
    set_name-dotted (65 ∷ []) 84 88 84 a_IsName txt_IsName (omega arith) (omega arith)
