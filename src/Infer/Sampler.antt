-- ===== src/Infer/Sampler.antt =====
-- The sampler of libpi/src/run.c: `sample_argmax`, `sample_mult`, `random_u32`, `compare` and
-- `sample_topp`. Floats are a parameter, with `gt` for `>` and `lt` for `<`; arrays are lists, and
-- `none` is a read out of range.
pub mod Argmax
pub mod Draw
pub mod Random
pub mod Topp
use pi3_distributed_llm_infe.Base.{
  ℕ, zero, suc, ◌+◌, ◌-◌, ◌*◌, Bool, true, false, List, [], ◌∷◌, Option, none, some, ◌>>=◌,
  if◌then◌else◌, get_elem?, u32, u64, ◌<<<◌, ◌>>>◌, bit_xor, length,
}
use pi3_distributed_llm_infe.Base.Int.{ℤ, pos, negsuc, sub_ℕ}
use pi3_distributed_llm_infe.Libc.Qsort.{qsort}

-- The new state of `random_u32`: three xorshifts of 64 bits.
unfoldable pub xorshift : ℕ → ℕ
xorshift state =
    let s1 = bit_xor state (state >>> 12) in
    let s2 = bit_xor s1 (u64 (s1 <<< 25)) in bit_xor s2 (s2 >>> 27)

-- `random_u32`: the new state, and the number.
unfoldable pub random_u32 : ℕ → ℕ × ℕ
random_u32 state =
    let next = xorshift state in (next, u32 (u64 (next * 2685821657736338717) >>> 32))

module _ {Float : Type 0} (gt : Float → Float → Bool) where
  -- The rounds of `sample_argmax` from index `i` on, over what is left of the array.
  unfoldable pub argmax_loop : List Float → ℕ → ℕ → Float → ℕ
  argmax_loop [] i max_i max_p = max_i
  argmax_loop (p ∷ rest) i max_i max_p =
      if gt p max_p then argmax_loop rest (i + 1) i p else argmax_loop rest (i + 1) max_i max_p

  -- `none` is the read of `probabilities[0]` of an empty array.
  unfoldable pub sample_argmax : List Float → Option ℕ
  unfolding argmax_loop
  sample_argmax [] = none
  sample_argmax (p ∷ rest) = some (argmax_loop rest 1 0 p)

module _ {Float : Type 0} (add : Float → Float → Float) (lt : Float → Float → Bool) where
  -- The rounds of `sample_mult` from index `i` on; `none` when they have all gone by.
  unfoldable pub mult_loop : List Float → ℕ → Float → Float → Option ℕ
  mult_loop [] i cdf coin = none
  mult_loop (p ∷ rest) i cdf coin =
      let next = mult_loop rest (i + 1) (add cdf p) coin in
      if lt coin (add cdf p) then some i else next

  unfoldable pub sample_mult : Float → List Float → Float → ℤ
  unfolding mult_loop
  sample_mult zero_f probabilities coin = elim (mult_loop probabilities 0 zero_f coin) [
    | none ↦ sub_ℕ (length probabilities) 1
    | some i ↦ pos i
  ]

pub record ProbIndex (Float : Type 0) : Type 0 where
  pub prob : Float
  pub index : ℕ

-- `sample_topp`: `cutoff topp n` is `(1.0f - topp) / (n - 1)`.
module _ {Float : Type 0} (add mul : Float → Float → Float) (gt ge lt : Float → Float → Bool)
    (cutoff : Float → ℕ → Float) where
  -- `compare`, which sorts by descending probability.
  unfoldable pub compare_prob : ProbIndex Float → ProbIndex Float → ℤ
  compare_prob a b =
      if gt a.prob b.prob then negsuc 0 else if lt a.prob b.prob then pos 1 else pos 0

  -- The candidates from index `i` on.
  unfoldable pub crop : Float → List Float → ℕ → List (ProbIndex Float)
  crop least [] i = []
  crop least (p ∷ rest) i =
      let later = crop least rest (i + 1) in
      if ge p least then record { prob = p; index = i } ∷ later else later

  -- The cumulative probability and `last_idx`, with `i` candidates gone by. The source starts from
  -- `last_idx = n0 - 1`, which of no candidate is -1; the model then has 0, as much out of range.
  unfoldable pub truncate : Float → List (ProbIndex Float) → ℕ → Float → Float × ℕ
  truncate topp [] i cumulative = (cumulative, i - 1)
  truncate topp (c ∷ rest) i cumulative =
      let further = truncate topp rest (i + 1) (add cumulative c.prob) in
      if gt (add cumulative c.prob) topp then (add cumulative c.prob, i) else further

  -- The rounds of the last loop, `left` of them; `none` when they have all gone by.
  unfoldable pub draw_loop : ℕ → List (ProbIndex Float) → Float → Float → Option ℕ
  draw_loop zero cells cdf r = none
  draw_loop (suc left) [] cdf r = none
  draw_loop (suc left) (c ∷ rest) cdf r =
      let later = draw_loop left rest (add cdf c.prob) r in
      if lt r (add cdf c.prob) then some c.index else later

  unfoldable pub index_or_last : List (ProbIndex Float) → ℕ → Option ℕ → Option ℕ
  index_or_last cells last_idx none = get_elem? cells last_idx >>= (λ c. some c.index)
  index_or_last cells last_idx (some index) = some index

  unfoldable pub sample_topp : Float → List Float → Float → Float → Option ℕ
  unfolding compare_prob crop truncate draw_loop index_or_last
  sample_topp zero_f probabilities topp coin = do
    sorted ← qsort compare_prob (crop (cutoff topp (length probabilities)) probabilities 0)
    let t = truncate topp sorted 0 zero_f
    index_or_last sorted t.1 (draw_loop (t.1 + 1) sorted zero_f (mul coin t.0))
