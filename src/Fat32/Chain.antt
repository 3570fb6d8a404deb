-- ===== src/Fat32/Chain.antt =====
-- What the two walks make of a file's chain of clusters.
use pi3_distributed_llm_infe.Base.{
  ℕ, zero, suc, ◌+◌, ◌-◌, ◌*◌, ◌≡◌, ◌≤◌, ◌<◌, ◌^◌, refl, ap₂, ◌∙◌, sub32, arith, List, [], ◌∷◌,
  ◌++◌, some, get_elem?, length, u32,
}
use pi3_distributed_llm_infe.Fat32.{
  Fs, entry_bits, fat32_fat_entry_type, last_cluster, used_cluster, get_cluster_chain_length,
  SdRead, cluster_read, read_cluster_chain,
}

-- The clusters of a file from `cluster` on, as the table links them, and the end mark after them.
pub data IsChain (fs : Fs) : ℕ → List ℕ → ℕ → Type 0 where
  last : {mark : ℕ} → fat32_fat_entry_type mark ≡ some last_cluster → IsChain fs mark [] mark
  link :
      {cluster next mark : ℕ} {rest : List ℕ}
      → fat32_fat_entry_type cluster ≡ some used_cluster
      → get_elem? fs.fat cluster ≡ some next
      → IsChain fs next rest mark
      → IsChain fs cluster (cluster ∷ rest) mark

length_from :
    (fs : Fs) (cluster mark : ℕ) (chain : List ℕ) (fuel n : ℕ)
    → IsChain fs cluster chain mark
    → length chain < fuel
    → n + length chain + 1 < 2 ^ 32
    → get_cluster_chain_length fuel fs n cluster ≡ some (n + length chain + 1)
unfolding get_cluster_chain_length
length_from fs cluster mark chain zero n c h k = absurd (omega arith)
length_from fs cluster mark [] (suc fuel) n (last e) h k = rw e (ground arith)
length_from fs cluster mark (x ∷ rest) (suc fuel) n (link {next = next} e g c) h k =
    let wrap : u32 (n + 1) ≡ n + 1 = omega arith in
    let ih = length_from fs next mark rest fuel (n + 1) c (omega arith) (omega arith) in
    rw (e, g, wrap) (cc (ih, sum))
  where
    sum : n + 1 + length rest + 1 ≡ n + suc (length rest) + 1
    sum = omega arith

-- For a file whose clusters are chained through the table to an end mark, with fuel for one round
-- more than there are clusters: the length found is one more than the number of clusters.
pub get_cluster_chain_length_lem :
    (fs : Fs) (cluster mark : ℕ) (chain : List ℕ) (fuel : ℕ)
    → IsChain fs cluster chain mark
    → length chain < fuel
    → length chain + 1 < 2 ^ 32
    → get_cluster_chain_length fuel fs 0 cluster ≡ some (length chain + 1)
get_cluster_chain_length_lem fs cluster mark chain fuel c h k =
    let zero_left : 0 + length chain ≡ length chain = omega arith in
    let found = length_from fs cluster mark chain fuel 0 c h (omega arith) in rw zero_left at found

-- The reads of the clusters of a list, from round `i` on.
abbrev pub cluster_reads : Fs → ℕ → List ℕ → List SdRead
cluster_reads fs i [] = []
cluster_reads fs i (c ∷ cs) = cluster_read fs i c ∷ cluster_reads fs (i + 1) cs

reads_from :
    (fs : Fs) (cluster mark : ℕ) (chain : List ℕ) (fuel i : ℕ)
    → IsChain fs cluster chain mark
    → length chain < fuel
    → i + length chain < 2 ^ 32
    → read_cluster_chain fuel fs i cluster
      ≡ some (cluster_reads fs i chain ++ (cluster_read fs (i + length chain) mark ∷ []))
unfolding read_cluster_chain
reads_from fs cluster mark chain zero i c h k = absurd (omega arith)
reads_from fs cluster mark [] (suc fuel) i (last e) h k = rw e (cc same)
  where
    same : i + 0 ≡ i
    same = omega arith
reads_from fs cluster mark (x ∷ rest) (suc fuel) i (link {next = next} e g c) h k =
    let wrap : u32 (i + 1) ≡ i + 1 = omega arith in
    let ih = reads_from fs next mark rest fuel (i + 1) c (omega arith) (omega arith) in
    rw (e, g, wrap) (rw ih (cc sum))
  where
    sum : i + 1 + length rest ≡ i + suc (length rest)
    sum = omega arith

-- The calls that the walk makes.
pub read_cluster_chain_lem :
    (fs : Fs) (cluster mark : ℕ) (chain : List ℕ) (fuel : ℕ)
    → IsChain fs cluster chain mark
    → length chain < fuel
    → length chain < 2 ^ 32
    → read_cluster_chain fuel fs 0 cluster
      ≡ some (cluster_reads fs 0 chain ++ (cluster_read fs (length chain) mark ∷ []))
read_cluster_chain_lem fs cluster mark chain fuel c h k =
    let zero_left : 0 + length chain ≡ length chain = omega arith in
    let found = reads_from fs cluster mark chain fuel 0 c h (omega arith) in rw zero_left at found

-- The numbers of clusters start at 2.
used-le : (c : ℕ) → fat32_fat_entry_type c ≡ some used_cluster → 2 ≤ c
unfolding fat32_fat_entry_type entry_bits
used-le c e = ground arith

last-le : (c : ℕ) → fat32_fat_entry_type c ≡ some last_cluster → 2 ≤ c
unfolding fat32_fat_entry_type entry_bits
last-le c e = ground arith

-- The reads of a list of clusters, of which the volume's first has the number 2: the sectors of each,
-- one cluster behind the other in the buffer.
abbrev pub placed : Fs → ℕ → List ℕ → List SdRead
placed fs i [] = []
placed fs i (c ∷ cs) =
    record {
      offset = i * (fs.sectors_per_cluster * 512);
      lba = fs.cluster_begin_lba + (c - 2) * fs.sectors_per_cluster;
      nsec = fs.sectors_per_cluster;
    }
    ∷ placed fs (i + 1) cs

-- The numbers of the clusters' sectors have 32 bits.
abbrev pub AreAddressed : Fs → List ℕ → Type 0
AreAddressed fs [] = Unit
AreAddressed fs (c ∷ cs) =
    (c < 2 ^ 32)
    × (fs.cluster_begin_lba + (c - 2) * fs.sectors_per_cluster < 2 ^ 32)
    × AreAddressed fs cs

cluster_read-placed :
    (fs : Fs) (i c : ℕ)
    → fs.bytes_per_sec ≡ 512
    → i * (fs.sectors_per_cluster * 512) + fs.sectors_per_cluster * 512 < 2 ^ 32
    → 2 ≤ c
    → c < 2 ^ 32
    → cluster_read fs i c ≡ record {
      offset = i * (fs.sectors_per_cluster * 512);
      lba = u32 (fs.cluster_begin_lba + (c - 2) * fs.sectors_per_cluster);
      nsec = fs.sectors_per_cluster;
    }
unfolding cluster_read
cluster_read-placed fs i c sector small two width =
    let whole : u32 (fs.sectors_per_cluster * 512) ≡ fs.sectors_per_cluster * 512 =
      omega (arith, small) in
    let at : u32 (i * (fs.sectors_per_cluster * 512)) ≡ i * (fs.sectors_per_cluster * 512) =
      omega (arith, small) in
    let less : sub32 c 2 ≡ c - 2 = omega (arith, two, width) in rw (sector, whole, at, less) refl

cluster_reads-placed :
    (fs : Fs) (cluster mark i : ℕ) (chain : List ℕ)
    → IsChain fs cluster chain mark
    → fs.bytes_per_sec ≡ 512
    → (i + length chain) * (fs.sectors_per_cluster * 512) < 2 ^ 32
    → AreAddressed fs chain
    → cluster_reads fs i chain ≡ placed fs i chain
cluster_reads-placed fs cluster mark i [] linked sector small addressed = refl
cluster_reads-placed fs cluster mark i (c ∷ cs) (link {next = next} used at rest) sector small
      (width, room, addressed) =
    let one = cluster_read-placed fs i c sector (omega (arith, small)) (used-le c used) width in
    let fit : u32 (fs.cluster_begin_lba + (c - 2) * fs.sectors_per_cluster)
        ≡ fs.cluster_begin_lba + (c - 2) * fs.sectors_per_cluster =
      omega (arith, room) in
    let more =
      cluster_reads-placed fs next mark (i + 1) cs rest sector (omega (arith, small)) addressed in
    rw (one, fit, more) refl

mark-le : (fs : Fs) (cluster mark : ℕ) (chain : List ℕ) → IsChain fs cluster chain mark → 2 ≤ mark
mark-le fs cluster mark [] (last e) = last-le mark e
mark-le fs cluster mark (c ∷ cs) (link {next = next} e g rest) = mark-le fs next mark cs rest

-- For a file whose clusters are chained through the table to an end mark, on a volume with sectors of 512
-- bytes, with fuel for one round more than there are clusters, less than 2 ^ 32 bytes with one cluster
-- more, and numbers that fit in 32 bits: the walk makes one read for each cluster, in order, of the
-- cluster's sectors, to the place behind the clusters before it; and then one read more, of the sectors
-- that the end mark would have as a cluster, with a wrap, to the place behind all clusters.
pub read_cluster_chain-placed :
    (fs : Fs) (cluster mark : ℕ) (chain : List ℕ) (fuel : ℕ)
    → IsChain fs cluster chain mark
    → length chain < fuel
    → fs.bytes_per_sec ≡ 512
    → length chain < 2 ^ 32
    → (length chain + 1) * (fs.sectors_per_cluster * 512) < 2 ^ 32
    → AreAddressed fs chain
    → mark < 2 ^ 32
    → read_cluster_chain fuel fs 0 cluster
      ≡ some (
          placed fs 0 chain
          ++ (record {
            offset = length chain * (fs.sectors_per_cluster * 512);
            lba = u32 (fs.cluster_begin_lba + (mark - 2) * fs.sectors_per_cluster);
            nsec = fs.sectors_per_cluster;
          }
              ∷ []))
read_cluster_chain-placed fs cluster mark chain fuel linked enough sector count small addressed
      width =
    let reads = read_cluster_chain_lem fs cluster mark chain fuel linked enough count in
    let own =
      cluster_reads-placed fs cluster mark 0 chain linked sector (omega (arith, small)) addressed in
    let end =
      cluster_read-placed fs (length chain) mark sector (omega (arith, small))
        (mark-le fs cluster mark chain linked) width in
    reads ∙ ap₂ (λ x y. some (x ++ (y ∷ []))) own end
