-- ===== src/Tests/Card.antt =====
-- A card with a volume of one sector to a cluster: a directory in the cluster 2, whose
-- entries all name one file, in the cluster 3.
use pi3_distributed_llm_infe.Base.{
  ℕ, zero, suc, ◌+◌, ◌*◌, ◌≡◌, refl, sym, ap, ◌∙◌, arith, Bool, true, false, List, [], ◌∷◌, ◌++◌,
  Option, none, some, ◌==◌, if◌then◌else◌, ◌&&◌, Option-cases, inl, inr, length, length-append, ◌^◌,
  ◌≤◌, replicate,
}
use pi3_distributed_llm_infe.Base.Bytes.{le_bytes}
use pi3_distributed_llm_infe.Libc.Str.{strcmp}
use pi3_distributed_llm_infe.Fat32.{Fs, fat32_fat_entry_type, entry_bits}
use pi3_distributed_llm_infe.Fat32.Chain.{IsChain, last, link}
use pi3_distributed_llm_infe.Fat32.Card.{Card, IsReliable, cluster_lba, pi_sd_read}
use pi3_distributed_llm_infe.Fat32.Volume.{PiDirent}
use pi3_distributed_llm_infe.Fat32.Names.{to_8dot3, same_name}
use pi3_distributed_llm_infe.Fat32.Directory.{
  Dirent, dirent_of, dirents_of, fat32_cluster_id, PiFile, fat32_readdir, fat32_read,
}
use pi3_distributed_llm_infe.Fat32.Directory.Contents.{
  CanRead, Found, here, entries_of, entries_behind, FileOf, present, data_of, fat32_read_lem,
}
use pi3_distributed_llm_infe.Fat32.Directory.Listing.{Listed, AreNamed, fat32_readdir-Listed}

abbrev zeros : ℕ → List ℕ
zeros n = replicate n 0

-- "A       TXT", of 3 bytes, at the cluster 3.
abbrev file_entry : List ℕ
file_entry =
    65
    ∷ 32
    ∷ 32
    ∷ 32
    ∷ 32
    ∷ 32
    ∷ 32
    ∷ 32
    ∷ 84
    ∷ 88
    ∷ 84
    ∷ 32
    ∷ (zeros 14 ++ (3 ∷ 0 ∷ 3 ∷ 0 ∷ 0 ∷ 0 ∷ []))

abbrev copies : ℕ → List ℕ → List ℕ
copies zero xs = []
copies (suc n) xs = xs ++ copies n xs

abbrev boot_bytes : List ℕ
boot_bytes =
    zeros 11
    ++ (le_bytes 2 512
        ++ (1 ∷ le_bytes 2 32
            ++ (2 ∷ zeros 15
                ++ (le_bytes 4 4096
                    ++ (le_bytes 4 8
                        ++ (zeros 4
                            ++ (le_bytes 4 2
                                ++ (1 ∷ 0 ∷ 6 ∷ 0 ∷ zeros 14
                                    ++ (0x29 ∷ zeros 443 ++ (0x55 ∷ 0xAA ∷ []))))))))))

abbrev info_bytes : List ℕ
info_bytes =
    le_bytes 4 0x41615252
    ++ (zeros 480 ++ (le_bytes 4 0x61417272 ++ (zeros 20 ++ le_bytes 4 0xaa550000)))

abbrev table_bytes : List ℕ
table_bytes =
    le_bytes 4 268435448
    ++ (le_bytes 4 268435455 ++ (le_bytes 4 268435455 ++ (le_bytes 4 268435455 ++ zeros 496)))

-- The sectors of the card by their number.
sector : ℕ → List ℕ
sector lba =
    if lba == 100
    then boot_bytes
    else if lba == 101
    then info_bytes
    else if lba == 132
    then table_bytes
    else if lba == 148
    then copies 16 file_entry
    else if lba == 149
    then 104 ∷ 105 ∷ 33 ∷ zeros 509
    else copies 16 file_entry

card : Card
card lba zero = []
card lba (suc nsec) = sector lba ++ card (lba + 1) nsec

length_of_if :
    (b : Bool) (x y : List ℕ) → length x ≡ 512 → length y ≡ 512 → length (if b then x else y) ≡ 512
length_of_if true x y h k = h
length_of_if false x y h k = k

length-sector : (lba : ℕ) → length (sector lba) ≡ 512
unfolding sector
length-sector lba = length_of_if (lba == 100) _ _ refl (
    length_of_if (lba == 101) _ _ refl (
      length_of_if (lba == 132) _ _ refl
        (length_of_if (lba == 148) _ _ refl (length_of_if (lba == 149) _ _ refl refl))))

-- A card of 2 ^ 29 sectors.
abbrev sectors : ℕ
sectors = 2 ^ 29

length-card : (lba nsec : ℕ) → length (card lba nsec) ≡ 512 * nsec
unfolding card
length-card lba zero = omega arith
length-card lba (suc nsec) = omega (
  arith,
  length-append (sector lba) (card (lba + 1) nsec),
  length-sector lba,
  length-card (lba + 1) nsec,
)

card-IsReliable : IsReliable card sectors
card-IsReliable lba nsec some_sector fits = length-card lba nsec

abbrev volume : Fs
volume = record {
  lba_start = 100;
  fat_begin_lba = 132;
  cluster_begin_lba = 148;
  sectors_per_cluster = 1;
  root_dir_first_cluster = 2;
  fat = 268435448 ∷ 268435455 ∷ 268435455 ∷ 268435455 ∷ [];
  n_entries = 4;
  bytes_per_sec = 512;
}

abbrev root : PiDirent
root = record { name = []; raw_name = []; cluster_id = 2; is_dir_p = true; nbytes = 0 }

root-IsChain : IsChain volume 2 (2 ∷ []) 268435455
unfolding fat32_fat_entry_type entry_bits
root-IsChain = link refl refl (last refl)

file-IsChain : IsChain volume 3 (3 ∷ []) 268435455
unfolding fat32_fat_entry_type entry_bits
file-IsChain = link refl refl (last refl)

can_read :
    (c : ℕ) → cluster_lba volume c + 1 ≤ sectors → CanRead 5 sectors volume (c ∷ []) 268435455
can_read c on = record {
  sector = refl;
  some_sector = omega arith;
  fuelled = omega arith;
  counted = omega arith;
  fits = omega arith;
  on_card = (on, tt);
  mark_on_card = omega arith;
}

root-CanRead : CanRead 5 sectors volume (2 ∷ []) 268435455
root-CanRead = can_read 2 (omega arith)

file-CanRead : CanRead 5 sectors volume (3 ∷ []) 268435455
file-CanRead = can_read 3 (omega arith)

is_named : Dirent → Bool
unfolding to_8dot3
is_named d = elim (to_8dot3 d.filename) [ none ↦ false | some name ↦ true ]

all_named : List Dirent → Bool
unfolding is_named
all_named [] = true
all_named (d ∷ ds) = is_named d && all_named ds

is_named_sound :
    (d : Dirent) → is_named d ≡ true → (name : List ℕ) × (to_8dot3 d.filename ≡ some name)
unfolding is_named
is_named_sound d h = elim (Option-cases (to_8dot3 d.filename)) [
  | inl blank ↦ let no_name : is_named d ≡ false = rw (is_named, blank) refl in cc
  | inr (name, e) ↦ (name, e)
]

both : (a b : Bool) → (a && b) ≡ true → (a ≡ true) × (b ≡ true)
both true b h = (refl, h)
both false b h = cc

all_named_sound : (ds : List Dirent) → all_named ds ≡ true → AreNamed ds
unfolding all_named
all_named_sound [] h j d e = cc
all_named_sound (x ∷ ds) h zero d e =
    let same : x ≡ d = cc in
    is_named_sound d (ap is_named (sym same) ∙ (both (is_named x) (all_named ds) h).0)
all_named_sound (x ∷ ds) h (suc j) d e =
    all_named_sound ds ((both (is_named x) (all_named ds) h).1) j d e

abbrev root_entries : List Dirent
root_entries = entries_of card volume (2 ∷ []) ++ entries_behind card volume 268435455

root_all_named : all_named root_entries ≡ true
unfolding all_named dirents_of card sector
root_all_named = refl

root_named : AreNamed root_entries
root_named = all_named_sound root_entries root_all_named

fat32_readdir_example :
    (own more : List PiDirent) × (fat32_readdir 5 card volume root ≡ some (own ++ more))
    × Listed (entries_of card volume (2 ∷ [])) own
    × Listed (entries_behind card volume 268435455) more
fat32_readdir_example =
    fat32_readdir-Listed 5 sectors card volume root 268435455 (2 ∷ []) card-IsReliable refl
      root-IsChain root-CanRead root_named

abbrev count : Option (List PiDirent) → ℕ
count none = 0
count (some es) = length es

-- The 16 entries of the directory, and 16 of the sector that the end mark stands for.
readdir_test : count (fat32_readdir 5 card volume root) ≡ 32
unfolding fat32_readdir card sector pi_sd_read
readdir_test = refl

-- "A.TXT"
abbrev name : List ℕ
name = 65 ∷ 46 ∷ 84 ∷ 88 ∷ 84 ∷ []

abbrev entry : Dirent
entry = dirent_of file_entry

found : Found name (entries_of card volume (2 ∷ [])) (some entry)
unfolding dirents_of card sector to_8dot3 same_name strcmp
found = here {cur = name} refl refl

contents : FileOf 5 sectors card volume (some entry) (some (104 ∷ 105 ∷ 33 ∷ []))
unfolding dirent_of card sector fat32_cluster_id
contents = present file-IsChain file-CanRead (omega arith) refl

fat32_read_example :
    (r : Option PiFile) × (fat32_read 5 card volume root name ≡ some r)
    × (data_of r ≡ some (104 ∷ 105 ∷ 33 ∷ []))
fat32_read_example =
    fat32_read_lem 5 sectors card volume root name 268435455 (2 ∷ []) (some entry)
      (some (104 ∷ 105 ∷ 33 ∷ [])) card-IsReliable refl root-IsChain root-CanRead found (λ h. cc)
      contents
