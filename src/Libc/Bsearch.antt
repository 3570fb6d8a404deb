-- ===== src/Libc/Bsearch.antt =====
-- libpi/libc/bsearch.c. Addresses are counted in elements from `base`. The pointer `hi` of the
-- source may stand one element before `base`, so the model keeps `past = hi + 1`: the test
-- `lo <= hi` is `lo < past`, and `hi = mid - size` is `past = mid`. `none` outside is an access out
-- of range or no fuel left; inside it is the source's NULL.
pub mod Finds
use pi3_distributed_llm_infe.Base.{
  ℕ, zero, suc, ◌+◌, ◌-◌, ◌/◌, List, Option, none, some, ◌>>=◌, ltb, ◌==◌, if◌then◌else◌, length,
  get_elem?,
}
use pi3_distributed_llm_infe.Base.Int.{ℤ, is_neg, is_pos}

module _ {ℓ} {A : Type ℓ} (compar : A → A → ℤ) (key : A) (xs : List A) where
  unfoldable pub bsearch_loop : ℕ → ℕ → ℕ → Option (Option ℕ)
  bsearch_loop zero lo past = none
  bsearch_loop (suc fuel) lo past =
      let mid = lo + (past - 1 - lo) / 2 in
      let below = bsearch_loop fuel lo mid in
      let above = bsearch_loop fuel (mid + 1) past in
      if ltb lo past
      then (get_elem? xs mid >>= λ m.
          let cmp = compar key m in
          if is_neg cmp then below else if is_pos cmp then above else some (some mid))
      else some none

  -- Each round leaves a shorter interval, so `nmemb + 1` rounds are enough.
  unfoldable pub bsearch : Option (Option ℕ)
  unfolding bsearch_loop
  bsearch = if length xs == 0 then some none else bsearch_loop (length xs + 1) 0 (length xs)
