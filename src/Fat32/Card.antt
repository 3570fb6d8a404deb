-- ===== src/Fat32/Card.antt =====
-- libpi/fat32/pi-sd.c: reads of the SD card. The driver in external-code is not part of the model:
-- `sd_readblock lba nsec` stands for the bytes that its call of that name transfers, and `none` is the
-- panic on a transfer that falls short. The card is taken to be initialized, and the allocator to have
-- room.
use pi3_distributed_llm_infe.Base.{
  ℕ, suc, ◌+◌, ◌-◌, ◌*◌, ◌≤◌, ◌<◌, ◌^◌, ◌≡◌, refl, sym, ap, ap₂, ◌∙◌, arith, true, List, [], ◌∷◌,
  ◌++◌, Option, none, some, ◌>>=◌, leb, ◌==◌, le→leb, if◌then◌else◌, length, length-append,
  length-replicate, take, drop, replicate, append-nil, append_assoc, u32, sub32,
}
use pi3_distributed_llm_infe.Base.Slices.{take-append, drop-past, drop-replicate}
use pi3_distributed_llm_infe.Fat32.{Fs, SdRead, cluster_read}
use pi3_distributed_llm_infe.Fat32.Chain.{cluster_reads}

abbrev pub Card : Type 0
Card = ℕ → ℕ → List ℕ

unfoldable pub pi_sd_read : Card → ℕ → ℕ → Option (List ℕ)
pi_sd_read sd_readblock lba nsec =
    let bytes = sd_readblock lba nsec in
    if length bytes == u32 (512 * nsec) then some bytes else none

-- `pi_sec_read`: the same into a buffer of its own.
unfoldable pub pi_sec_read : Card → ℕ → ℕ → Option (List ℕ)
unfolding pi_sd_read
pi_sec_read card lba nsec = pi_sd_read card lba nsec

-- A buffer with bytes put over its own from an offset on.
abbrev pub put_bytes : ℕ → List ℕ → List ℕ → List ℕ
put_bytes offset bytes buf = take offset buf ++ (bytes ++ drop (offset + length bytes) buf)

-- The calls of `pi_sd_read` into one buffer; `none` also where a read would write behind its end.
unfoldable pub do_reads : Card → List SdRead → List ℕ → Option (List ℕ)
do_reads card [] buf = some buf
do_reads card (r ∷ rs) buf = do
  bytes ← pi_sd_read card r.lba r.nsec
  (if leb (r.offset + length bytes) (length buf)
      then do_reads card rs (put_bytes r.offset bytes buf)
      else none)

-- A card of `sectors` sectors: the driver transfers all of a read that asks for a sector at least, and
-- for none behind the last.
abbrev pub IsReliable : Card → ℕ → Type 0
IsReliable card sectors =
    (lba nsec : ℕ) → 0 < nsec → lba + nsec ≤ sectors → length (card lba nsec) ≡ 512 * nsec

-- Where the driver takes a cluster to start, and the bytes there, of one and of a list of them.
abbrev pub cluster_lba : Fs → ℕ → ℕ
cluster_lba fs c = u32 (fs.cluster_begin_lba + sub32 c 2 * fs.sectors_per_cluster)

abbrev pub cluster_bytes : Card → Fs → ℕ → List ℕ
cluster_bytes card fs c = card (cluster_lba fs c) fs.sectors_per_cluster

abbrev pub chain_bytes : Card → Fs → List ℕ → List ℕ
chain_bytes card fs [] = []
chain_bytes card fs (c ∷ cs) = cluster_bytes card fs c ++ chain_bytes card fs cs

-- The sectors where the driver takes these clusters to be are on the card.
abbrev pub AreOnCard : ℕ → Fs → List ℕ → Type 0
AreOnCard sectors fs [] = Unit
AreOnCard sectors fs (c ∷ cs) =
    (cluster_lba fs c + fs.sectors_per_cluster ≤ sectors) × AreOnCard sectors fs cs

-- The clusters are read whole.
abbrev pub AreRead : Card → Fs → List ℕ → Type 0
AreRead card fs [] = Unit
AreRead card fs (c ∷ cs) =
    (length (cluster_bytes card fs c) ≡ 512 * fs.sectors_per_cluster) × AreRead card fs cs

pub AreOnCard-AreRead :
    (card : Card) (fs : Fs) (sectors : ℕ) (cs : List ℕ)
    → IsReliable card sectors
    → 0 < fs.sectors_per_cluster
    → AreOnCard sectors fs cs
    → AreRead card fs cs
AreOnCard-AreRead card fs sectors [] h some_sector on = tt
AreOnCard-AreRead card fs sectors (c ∷ cs) h some_sector on = (
  h (cluster_lba fs c) fs.sectors_per_cluster some_sector on.0,
  AreOnCard-AreRead card fs sectors cs h some_sector on.1,
)

pub pi_sd_read-card :
    (card : Card) (lba nsec : ℕ)
    → length (card lba nsec) ≡ 512 * nsec
    → 512 * nsec < 2 ^ 32
    → pi_sd_read card lba nsec ≡ some (card lba nsec)
unfolding pi_sd_read
pi_sd_read-card card lba nsec len small =
    let full : (length (card lba nsec) == u32 (512 * nsec)) ≡ true =
      rw len (ground (arith, small)) in
    rw full refl

pub pi_sec_read-card :
    (card : Card) (lba nsec : ℕ)
    → length (card lba nsec) ≡ 512 * nsec
    → 512 * nsec < 2 ^ 32
    → pi_sec_read card lba nsec ≡ some (card lba nsec)
unfolding pi_sec_read
pi_sec_read-card card lba nsec h small = pi_sd_read-card card lba nsec h small

put_bytes_over :
    (pre bytes : List ℕ) (n : ℕ)
    → put_bytes (length pre) bytes (pre ++ replicate (length bytes + n) 0)
      ≡ (pre ++ bytes) ++ replicate n 0
put_bytes_over pre bytes n =
    let zeros : List ℕ = replicate (length bytes + n) 0 in
    let left : length pre + length bytes - length pre ≡ length bytes = omega arith in
    let few : length bytes + n - length bytes ≡ n = omega arith in
    let rest : drop (length pre + length bytes) (pre ++ zeros) ≡ replicate n 0 =
      drop-past (length pre + length bytes) pre zeros (omega arith)
      ∙ ap (λ k. drop k zeros) left
      ∙ drop-replicate (length bytes + n) (length bytes) 0
      ∙ ap (λ k. replicate k 0) few in
    ap₂ (λ x y. x ++ (bytes ++ y)) (take-append pre zeros) rest
    ∙ sym (append_assoc pre bytes (replicate n 0))

-- One read behind what the buffer has.
pub put_cluster :
    (card : Card) (fs : Fs) (c : ℕ) (rs : List SdRead) (pre : List ℕ) (i n : ℕ)
    → length (cluster_bytes card fs c) ≡ 512 * fs.sectors_per_cluster
    → fs.bytes_per_sec ≡ 512
    → length pre ≡ i * (fs.sectors_per_cluster * 512)
    → i * (fs.sectors_per_cluster * 512) + fs.sectors_per_cluster * 512 + n < 2 ^ 32
    → do_reads card
        (cluster_read fs i c ∷ rs)
        (pre ++ replicate (fs.sectors_per_cluster * 512 + n) 0)
      ≡ do_reads card rs ((pre ++ cluster_bytes card fs c) ++ replicate n 0)
unfolding do_reads cluster_read
put_cluster card fs c rs pre i n h b e k =
    let z = fs.sectors_per_cluster * 512 in
    let bytes = cluster_bytes card fs c in
    let size : fs.sectors_per_cluster * fs.bytes_per_sec ≡ z =
      ap (λ x. fs.sectors_per_cluster * x) b in
    let whole : u32 (fs.sectors_per_cluster * fs.bytes_per_sec) ≡ z =
      ap u32 size ∙ omega (arith, k) in
    let at : u32 (i * u32 (fs.sectors_per_cluster * fs.bytes_per_sec)) ≡ length pre =
      ap (λ x. u32 (i * x)) whole ∙ omega (arith, k, e) in
    let len : length bytes ≡ z = h ∙ omega arith in
    let all = length-append pre (replicate (z + n) 0) in
    let zeros = length-replicate {A = ℕ} (z + n) 0 in
    let fits : leb (length pre + length bytes) (length (pre ++ replicate (z + n) 0)) ≡ true =
      le→leb _ _ (omega (arith, len, all, zeros)) in
    let over : put_bytes (length pre) bytes (pre ++ replicate (z + n) 0)
        ≡ (pre ++ bytes) ++ replicate n 0 =
      ap (λ m. put_bytes (length pre) bytes (pre ++ replicate (m + n) 0)) (sym len)
      ∙ put_bytes_over pre bytes n in
    rw (pi_sd_read-card card _ fs.sectors_per_cluster h (omega (arith, k)))
      (rw (at, fits) (ap (do_reads card rs) over))

-- Reads of whole clusters, one behind the other, fill the buffer.
pub do_reads-cluster_reads :
    (card : Card) (fs : Fs) (cs : List ℕ) (more : List SdRead) (pre : List ℕ) (i n : ℕ)
    → AreRead card fs cs
    → fs.bytes_per_sec ≡ 512
    → length pre ≡ i * (fs.sectors_per_cluster * 512)
    → (i + length cs) * (fs.sectors_per_cluster * 512) + n < 2 ^ 32
    → do_reads card
        (cluster_reads fs i cs ++ more)
        (pre ++ replicate (length cs * (fs.sectors_per_cluster * 512) + n) 0)
      ≡ do_reads card more ((pre ++ chain_bytes card fs cs) ++ replicate n 0)
do_reads-cluster_reads card fs [] more pre i n h b e k =
    let none_left : 0 * (fs.sectors_per_cluster * 512) + n ≡ n = omega arith in
    ap (λ m. do_reads card more (pre ++ replicate m 0)) none_left
    ∙ ap (λ x. do_reads card more (x ++ replicate n 0)) (sym (append-nil pre))
do_reads-cluster_reads card fs (c ∷ cs) more pre i n h b e k =
    let z = fs.sectors_per_cluster * 512 in
    let bytes = cluster_bytes card fs c in
    let len : length bytes ≡ z = h.0 ∙ omega arith in
    let split : suc (length cs) * z + n ≡ z + (length cs * z + n) = omega arith in
    ap (λ m. do_reads card (cluster_reads fs i (c ∷ cs) ++ more) (pre ++ replicate m 0)) split
    ∙ put_cluster card fs c (cluster_reads fs (i + 1) cs ++ more) pre i (length cs * z + n) h.0 b e
        (omega (arith, k))
    ∙ do_reads-cluster_reads card fs cs more (pre ++ bytes) (i + 1) n h.1 b
        (omega (arith, len, e, length-append pre bytes)) (omega (arith, k))
    ∙ ap (λ x. do_reads card more (x ++ replicate n 0))
        (append_assoc pre bytes (chain_bytes card fs cs))

pub length-chain_bytes :
    (card : Card) (fs : Fs) (cs : List ℕ)
    → AreRead card fs cs
    → length (chain_bytes card fs cs) ≡ length cs * (fs.sectors_per_cluster * 512)
length-chain_bytes card fs [] h = omega arith
length-chain_bytes card fs (c ∷ cs) h =
    let bytes = cluster_bytes card fs c in
    let rest = length-chain_bytes card fs cs h.1 in
    omega (arith, length-append bytes (chain_bytes card fs cs), h.0, rest)
