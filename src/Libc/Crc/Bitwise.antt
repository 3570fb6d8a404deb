-- ===== src/Libc/Crc/Bitwise.antt =====
-- The checksum against its definition bit by bit: division by the polynomial 0xEDB88320.
use pi3_distributed_llm_infe.Base.{
  ℕ, zero, suc, ◌+◌, ◌*◌, ◌/◌, ◌%◌, ◌^◌, ◌<◌, ◌≡◌, refl, sym, subst, ap, ap₂, ◌∙◌, arith, List, [],
  ◌∷◌, ◌++◌, get_or, bit_and, bit_xor, if◌then◌else◌, ◌==◌, true, false, Bool-cases, inl, inr, Bool,
  ◌&&◌, length,
}
use pi3_distributed_llm_infe.Base.Bytes.{IsBytes}
use pi3_distributed_llm_infe.Base.Bits.{bit_and-low, bit_xor-zero, bit_xor_undo, bit_xor-lt}
use pi3_distributed_llm_infe.Base.Xor.{
  bit_xor_comm, bit_xor_assoc, bit_xor-half, bit_xor-parity, bit_xor-fields, bit_xor-div,
}
use pi3_distributed_llm_infe.Libc.Crc.Table.{crc32_tab}
use pi3_distributed_llm_infe.Libc.Crc.{crc_round, crc_loop, our_crc32_inc, our_crc32}

-- One bit: shift right, and subtract the polynomial if a 1 fell out.
unfoldable pub bit_round : ℕ → ℕ
bit_round crc = if crc % 2 == 0 then crc / 2 else bit_xor (crc / 2) 3988292384

unfoldable pub bit_rounds : ℕ → ℕ → ℕ
unfolding bit_round
bit_rounds zero crc = crc
bit_rounds (suc n) crc = bit_rounds n (bit_round crc)

-- Each byte is added to the remainder, and then eight bits are divided out.
unfoldable pub bitwise_loop : List ℕ → ℕ → ℕ
unfolding bit_rounds
bitwise_loop [] crc = crc
bitwise_loop (b ∷ p) crc = bitwise_loop p (bit_rounds 8 (bit_xor crc b))

unfoldable pub bitwise_crc32 : List ℕ → ℕ
bitwise_crc32 buf = bit_xor (bitwise_loop buf 4294967295) 4294967295

bit_xor-swap : (x y p : ℕ) → bit_xor (bit_xor x y) p ≡ bit_xor (bit_xor x p) y
bit_xor-swap x y p =
    bit_xor_assoc x y p ∙ ap (bit_xor x) (bit_xor_comm y p) ∙ sym (bit_xor_assoc x p y)

bit_xor-cancel : (x y p : ℕ) → bit_xor (bit_xor x p) (bit_xor y p) ≡ bit_xor x y
bit_xor-cancel x y p =
    sym (bit_xor_assoc (bit_xor x p) y p)
    ∙ ap (λ z. bit_xor z p) (bit_xor-swap x p y)
    ∙ bit_xor_undo (bit_xor x y) p

-- One round of a sum without carries is the sum of the rounds.
bit_round-xor : (a b : ℕ) → bit_round (bit_xor a b) ≡ bit_xor (bit_round a) (bit_round b)
unfolding bit_round
bit_round-xor a b =
    let half = bit_xor-half a b in
    let parity = bit_xor-parity a b in
    let p : ℕ = 3988292384 in
    elim (Bool-cases (a % 2 == 0)) [
      | inl even_a ↦ elim (Bool-cases (b % 2 == 0)) [
        | inl even_b ↦
            let sum : (bit_xor a b % 2 == 0) ≡ true = ground (arith, parity) in
            rw (even_a, even_b, sum) half
        | inr odd_b ↦
            let sum : (bit_xor a b % 2 == 0) ≡ false = ground (arith, parity) in
            rw (even_a, odd_b, sum) (ap (λ x. bit_xor x p) half ∙ bit_xor_assoc (a / 2) (b / 2) p)
      ]
      | inr odd_a ↦ elim (Bool-cases (b % 2 == 0)) [
        | inl even_b ↦
            let sum : (bit_xor a b % 2 == 0) ≡ false = ground (arith, parity) in
            rw (odd_a, even_b, sum) (ap (λ x. bit_xor x p) half ∙ bit_xor-swap (a / 2) (b / 2) p)
        | inr odd_b ↦
            let sum : (bit_xor a b % 2 == 0) ≡ true = ground (arith, parity) in
            rw (odd_a, odd_b, sum) (half ∙ sym (bit_xor-cancel (a / 2) (b / 2) p))
      ]
    ]

bit_rounds-xor :
    (n a b : ℕ) → bit_rounds n (bit_xor a b) ≡ bit_xor (bit_rounds n a) (bit_rounds n b)
unfolding bit_rounds
bit_rounds-xor zero a b = refl
bit_rounds-xor (suc n) a b =
    ap (bit_rounds n) (bit_round-xor a b) ∙ bit_rounds-xor n (bit_round a) (bit_round b)

bit_round_even : (q : ℕ) → bit_round (q * 2) ≡ q
unfolding bit_round
bit_round_even q = ground arith

-- A number whose low 8 bits are 0 is shifted out of them.
bit_rounds_shift : (q : ℕ) → bit_rounds 8 (q * 256) ≡ q
unfolding bit_rounds
bit_rounds_shift q =
    let s1 : q * 256 ≡ q * 128 * 2 = omega arith in
    let s2 : q * 128 ≡ q * 64 * 2 = omega arith in
    let s3 : q * 64 ≡ q * 32 * 2 = omega arith in
    let s4 : q * 32 ≡ q * 16 * 2 = omega arith in
    let s5 : q * 16 ≡ q * 8 * 2 = omega arith in
    let s6 : q * 8 ≡ q * 4 * 2 = omega arith in
    let s7 : q * 4 ≡ q * 2 * 2 = omega arith in
    rw
      (
        s1,
        bit_round_even (q * 128),
        s2,
        bit_round_even (q * 64),
        s3,
        bit_round_even (q * 32),
        s4,
        bit_round_even (q * 16),
        s5,
        bit_round_even (q * 8),
        s6,
        bit_round_even (q * 4),
        s7,
        bit_round_even (q * 2),
      )
      (bit_round_even q)

-- Each entry of the table is what eight rounds make of its index.
entries_right : ℕ → List ℕ → Bool
entries_right i [] = true
entries_right i (t ∷ ts) = t == bit_rounds 8 i && entries_right (i + 1) ts

table_right : entries_right 0 crc32_tab ≡ true
unfolding entries_right bit_rounds bit_round
table_right = refl

entry_of :
    (i : ℕ) (ts : List ℕ) (j : ℕ)
    → entries_right i ts ≡ true
    → j < length ts
    → get_or ts j 0 ≡ bit_rounds 8 (i + j)
unfolding entries_right
entry_of i [] j h k = absurd (omega arith)
entry_of i (t ∷ ts) zero h k = let e : i + 0 ≡ i = omega arith in rw e (ground arith)
entry_of i (t ∷ ts) (suc j) h k =
    let e : i + suc j ≡ i + 1 + j = omega arith in
    rw e (entry_of (i + 1) ts j (ground arith) (omega arith))

length-crc32_tab : length crc32_tab ≡ 256
length-crc32_tab = refl

-- The table gives eight rounds of a byte.
table_entry : (x : ℕ) → get_or crc32_tab (bit_and x 255) 0 ≡ bit_rounds 8 (x % 256)
table_entry x =
    let low : bit_and x 255 ≡ x % 256 = bit_and-low 8 x in
    let none_before : 0 + x % 256 ≡ x % 256 = omega arith in
    ap (λ k. get_or crc32_tab k 0) low
    ∙ entry_of 0 crc32_tab (x % 256) table_right (omega (arith, length-crc32_tab))
    ∙ ap (bit_rounds 8) none_before

-- Eight rounds take the low byte through the rounds and shift the rest down.
bit_rounds_split : (x : ℕ) → bit_rounds 8 x ≡ bit_xor (bit_rounds 8 (x % 256)) (x / 256)
bit_rounds_split x =
    let whole : x ≡ x / 256 * 256 + x % 256 = omega arith in
    ap (bit_rounds 8) (whole ∙ sym (bit_xor-fields 8 (x / 256) (x % 256) (omega arith)))
    ∙ bit_rounds-xor 8 (x / 256 * 256) (x % 256)
    ∙ ap (λ y. bit_xor y (bit_rounds 8 (x % 256))) (bit_rounds_shift (x / 256))
    ∙ bit_xor_comm (x / 256) (bit_rounds 8 (x % 256))

-- A round by the table is eight rounds by bits.
crc_round_lem : (crc b : ℕ) → b < 256 → crc_round crc b ≡ bit_rounds 8 (bit_xor crc b)
unfolding crc_round
crc_round_lem crc b h =
    let none_high : b / 256 ≡ 0 = omega arith in
    let high : bit_xor crc b / 256 ≡ crc / 256 =
      bit_xor-div 8 crc b ∙ ap (bit_xor (crc / 256)) none_high ∙ bit_xor-zero (crc / 256) in
    ap₂ bit_xor (table_entry (bit_xor crc b)) (sym high) ∙ sym (bit_rounds_split (bit_xor crc b))

crc_loop_lem : (buf : List ℕ) (crc : ℕ) → IsBytes buf → crc_loop buf crc ≡ bitwise_loop buf crc
unfolding crc_loop bitwise_loop
crc_loop_lem [] crc h = refl
crc_loop_lem (b ∷ buf) crc h =
    crc_loop_lem buf (crc_round crc b) h.1 ∙ ap (bitwise_loop buf) (crc_round_lem crc b h.0)

-- On every buffer of bytes the checksum is the remainder of the division bit by bit.
pub our_crc32-bitwise : (buf : List ℕ) → IsBytes buf → our_crc32 buf ≡ bitwise_crc32 buf
unfolding our_crc32 our_crc32_inc bitwise_crc32
our_crc32-bitwise buf h = ap (λ c. bit_xor c 4294967295) (crc_loop_lem buf 4294967295 h)

crc_loop-append :
    (xs ys : List ℕ) (crc : ℕ) → crc_loop (xs ++ ys) crc ≡ crc_loop ys (crc_loop xs crc)
unfolding crc_loop
crc_loop-append [] ys crc = refl
crc_loop-append (x ∷ xs) ys crc = crc_loop-append xs ys (crc_round crc x)

-- A checksum can be continued: that of two buffers, one behind the other, is that of the second
-- from the checksum of the first on.
our_crc32_inc-append :
    (xs ys : List ℕ) (crc : ℕ)
    → our_crc32_inc (xs ++ ys) crc ≡ our_crc32_inc ys (our_crc32_inc xs crc)
unfolding our_crc32_inc
our_crc32_inc-append xs ys crc =
    let start = bit_xor crc 4294967295 in
    ap (λ c. bit_xor c 4294967295)
      (crc_loop-append xs ys start
        ∙ ap (crc_loop ys) (sym (bit_xor_undo (crc_loop xs start) 4294967295)))

bit_rounds-lt : (n crc : ℕ) → crc < 2 ^ 32 → bit_rounds n crc < 2 ^ 32
unfolding bit_rounds bit_round
bit_rounds-lt zero crc h = h
bit_rounds-lt (suc n) crc h = bit_rounds-lt n (bit_round crc) small
  where
    small : bit_round crc < 2 ^ 32
    small = ground (arith, bit_xor-lt 32 (crc / 2) 3988292384 (omega arith) (omega arith))

crc_loop-lt : (buf : List ℕ) (crc : ℕ) → crc < 2 ^ 32 → crc_loop buf crc < 2 ^ 32
unfolding crc_loop crc_round
crc_loop-lt [] crc h = h
crc_loop-lt (b ∷ buf) crc h =
    let x = bit_xor crc b in
    let entry = table_entry x in
    let row : get_or crc32_tab (bit_and x 255) 0 < 2 ^ 32 =
      subst (λ t. t < 2 ^ 32) (sym entry) (bit_rounds-lt 8 (x % 256) (omega arith)) in
    crc_loop-lt buf (crc_round crc b)
      (bit_xor-lt 32 (get_or crc32_tab (bit_and x 255) 0) (crc / 256) row (omega arith))

-- The checksum has 32 bits.
pub our_crc32-lt : (buf : List ℕ) → our_crc32 buf < 2 ^ 32
unfolding our_crc32 our_crc32_inc
our_crc32-lt buf =
    bit_xor-lt 32 (crc_loop buf 4294967295) 4294967295 (crc_loop-lt buf 4294967295 (omega arith))
      (omega arith)
