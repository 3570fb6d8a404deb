-- ===== src/Libc/Qsort.antt =====
-- libpi/libc/qsort.c. The subarray of `nmemb` elements that starts at `base` is the list of its
-- elements: `base` is index 0 and the pointers `lo`, `hi`, `store` and `p` are indices. The byte-wise
-- `swap` of two elements is `swap` of two cells. `none` is an access out of range, or no fuel left.
pub mod Partition
pub mod Sorts
use pi3_distributed_llm_infe.Base.{
  ℕ, zero, suc, ◌+◌, ◌-◌, ◌/◌, List, [], ◌∷◌, ◌++◌, Option, none, some, ◌>>=◌, ltb, leb,
  if◌then◌else◌, length, get_elem?, take, drop,
}
use pi3_distributed_llm_infe.Base.Int.{ℤ, is_neg}
use pi3_distributed_llm_infe.Base.Swap.{swap}

module _ {ℓ} {A : Type ℓ} (compar : A → A → ℤ) where
  -- One round of the loop: the element at `p` goes below `store` if it is less than the pivot.
  unfoldable pub partition_round : ℕ → ℕ → ℕ → List A → Option (ℕ × List A)
  partition_round hi p store xs = do
    x ← get_elem? xs p
    pivot ← get_elem? xs hi
    (if is_neg (compar x pivot)
        then (do ys ← swap xs store p; some (store + 1, ys))
        else some (store, xs))

  -- `for (p = lo; p < hi; p += size)`, with `left` rounds to go.
  unfoldable pub partition_loop : ℕ → ℕ → ℕ → ℕ → List A → Option (ℕ × List A)
  partition_loop zero hi p store xs = some (store, xs)
  partition_loop (suc left) hi p store xs =
      partition_round hi p store xs >>= λ r. partition_loop left hi (p + 1) r.0 r.1

  -- The pivot goes to the end, the loop runs, and the pivot goes to `store`.
  unfoldable pub partition : List A → Option (ℕ × List A)
  partition xs = do
    let hi = length xs - 1
    a ← swap xs (length xs / 2) hi
    (store, b) ← partition_loop hi hi 0 0 a
    c ← swap b store hi
    some (store, c)

  -- The two recursive calls work on the subarrays on the two sides of `store`.
  unfoldable pub qsort_impl : ℕ → List A → Option (List A)
  qsort_impl zero xs = none
  qsort_impl (suc fuel) xs =
      let sorted = (do
        (left_n, c) ← partition xs
        let right_n = length xs - left_n - 1
        l ←
            (let rec = qsort_impl fuel (take left_n c) in
              if ltb 1 left_n then rec else some (take left_n c))
        r ←
            (let rec = qsort_impl fuel (drop (left_n + 1) c) in
              if ltb 1 right_n then rec else some (drop (left_n + 1) c))
        some (l ++ (take 1 (drop left_n c) ++ r))) in
      if leb (length xs) 1 then some xs else sorted

  -- The fuel is the depth of the recursion, which `nmemb` bounds.
  unfoldable pub qsort : List A → Option (List A)
  qsort xs = if leb (length xs) 1 then some xs else qsort_impl (length xs) xs
