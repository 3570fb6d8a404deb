-- ===== src/Libc/Qsort/Partition.antt =====
-- The partition step of `qsort_impl`: the pivot ends at `store`, with what is less than it before
-- it and the rest behind it.
use mathlib.Core.List.Perm
use pi3_distributed_llm_infe.Base.{
  ℕ, zero, suc, ◌+◌, ◌-◌, ◌/◌, ◌≤◌, ◌<◌, ◌≡◌, refl, sym, ◌∙◌, true, false, List, some, arith,
  length, get_elem?, get_elem?-in_range, get_elem?-lt-length, Perm, Bool-cases, inl, inr, ◌==◌,
  ==_iff, ==_self, subst,
}
use pi3_distributed_llm_infe.Base.Int.{ℤ, is_neg}
use pi3_distributed_llm_infe.Base.Swap.{swap_lem, IsSwapped}
use pi3_distributed_llm_infe.Libc.Qsort.{partition_round, partition_loop, partition}

module _ {ℓ} {A : Type ℓ} (compar : A → A → ℤ) where
  -- The loop at `p`: the cells below `store` are less than the pivot at `hi`, those from `store` to
  -- `p` are not, and the array is a rearrangement of `xs₀`.
  pub record IsPartitioned (xs₀ : List A) (pivot : A) (hi p store : ℕ) (xs : List A) : Type ℓ where
    pub same_length : length xs ≡ suc hi
    pub perm : Perm xs xs₀
    pub pivot_at : get_elem? xs hi ≡ some pivot
    pub bounds : store ≤ p
    pub below :
        (i : ℕ) (x : A) → i < store → get_elem? xs i ≡ some x → is_neg (compar x pivot) ≡ true
    pub above :
        (i : ℕ) (x : A)
        → store ≤ i
        → i < p
        → get_elem? xs i ≡ some x
        → is_neg (compar x pivot) ≡ false

  round-IsPartitioned :
      {xs₀ : List A} {pivot : A} (hi p store : ℕ) (xs : List A)
      → p < hi
      → IsPartitioned xs₀ pivot hi p store xs
      → (r : ℕ × List A) × (partition_round compar hi p store xs ≡ some r)
        × IsPartitioned xs₀ pivot hi (p + 1) r.0 r.1
  unfolding partition_round
  round-IsPartitioned {xs₀} {pivot} hi p store xs lt v =
      let (x, ex) = get_elem?-in_range xs p (omega (arith, v.same_length)) in
      elim (Bool-cases (is_neg (compar x pivot))) [
        | inl less ↦
            let sw =
              swap_lem xs store p (omega (arith, v.same_length, v.bounds))
                (omega (arith, v.same_length)) in
            let s : IsSwapped xs store p sw.0 = sw.2 in
            (
              (store + 1, sw.0),
              rw (ex, v.pivot_at, less, sw.1),
              record {
                same_length = s.same_length ∙ v.same_length;
                perm = Perm.trans s.perm v.perm;
                pivot_at = ground (arith, s.cells hi, v.pivot_at, v.bounds);
                bounds = omega (arith, v.bounds);
                below = λ i y h e. ground (arith, s.cells i, v.below i y, v.bounds);
                above =
                    λ i y h k e. ground (arith, s.cells i, v.above i y, v.above store y, v.bounds);
              },
            )
        | inr not_less ↦ (
          (store, xs),
          rw (ex, v.pivot_at, not_less),
          record {
            same_length = v.same_length;
            perm = v.perm;
            pivot_at = v.pivot_at;
            bounds = omega (arith, v.bounds);
            below = v.below;
            above = λ i y h k e. ground (arith, v.above i y);
          },
        )
      ]

  loop-IsPartitioned :
      {xs₀ : List A} {pivot : A} (left hi p store : ℕ) (xs : List A)
      → p + left ≡ hi
      → IsPartitioned xs₀ pivot hi p store xs
      → (r : ℕ × List A) × (partition_loop compar left hi p store xs ≡ some r)
        × IsPartitioned xs₀ pivot hi hi r.0 r.1
  unfolding partition_loop
  loop-IsPartitioned {xs₀} {pivot} zero hi p store xs e v =
      let e' : p ≡ hi = omega arith in ((store, xs), refl, rw e' at v)
  loop-IsPartitioned (suc left) hi p store xs e v =
      let (r, er, vr) = round-IsPartitioned hi p store xs (omega arith) v in
      let (q, eq, vq) = loop-IsPartitioned left hi (p + 1) r.0 r.1 (omega arith) vr in
      (q, rw (er, eq), vq)

  -- What `partition` returns: the array rearranged about the pivot at `store`.
  pub record IsSplit (xs : List A) (pivot : A) (store : ℕ) (c : List A) : Type ℓ where
    pub same_length : length c ≡ length xs
    pub perm : Perm c xs
    pub inside : store < length xs
    pub pivot_at : get_elem? c store ≡ some pivot
    pub below :
        (i : ℕ) (x : A) → i < store → get_elem? c i ≡ some x → is_neg (compar x pivot) ≡ true
    pub above :
        (i : ℕ) (x : A) → store < i → get_elem? c i ≡ some x → is_neg (compar x pivot) ≡ false

  start-IsPartitioned :
      (xs a : List A) (hi : ℕ) {pivot : A}
      → length a ≡ suc hi
      → Perm a xs
      → get_elem? a hi ≡ some pivot
      → IsPartitioned xs pivot hi 0 0 a
  start-IsPartitioned xs a hi len p e = record {
    same_length = len;
    perm = p;
    pivot_at = e;
    bounds = omega arith;
    below = λ i x h _. absurd (omega arith);
    above = λ i x h k _. absurd (omega arith);
  }

  finish-IsSplit :
      {xs b c : List A} {pivot : A} {hi store : ℕ}
      → length xs ≡ suc hi
      → IsPartitioned xs pivot hi hi store b
      → IsSwapped b store hi c
      → IsSplit xs pivot store c
  finish-IsSplit {b} {c} {pivot} {hi} {store} len v s = record {
    same_length = s.same_length ∙ v.same_length ∙ sym len;
    perm = Perm.trans s.perm v.perm;
    inside = omega (arith, v.bounds);
    pivot_at = pivot_at;
    below = λ i x h e. ground (arith, s.cells i, v.below i x, v.bounds);
    above = λ i x h e. above i x h e;
  }
    where
      pivot_at : get_elem? c store ≡ some pivot
      pivot_at = elim (Bool-cases (hi == store)) [
        | inl e ↦
            s.cells store
            ∙ rw e (subst (λ k. get_elem? b k ≡ some pivot) ((==_iff hi store).0 e) v.pivot_at)
        | inr ne ↦ s.cells store ∙ rw (ne, ==_self) v.pivot_at
      ]

      above : (i : ℕ) (x : A) → store < i → get_elem? c i ≡ some x → is_neg (compar x pivot) ≡ false
      above i x h e = ground (
        arith,
        s.cells i,
        v.above i x,
        v.above store x,
        v.bounds,
        v.same_length,
        s.same_length,
        get_elem?-lt-length c i e,
      )

  -- On two elements or more `partition` runs in range and splits the array.
  pub partition-IsSplit :
      (xs : List A)
      → 2 ≤ length xs
      → (pivot : A) × (r : ℕ × List A) × (partition compar xs ≡ some r) × IsSplit xs pivot r.0 r.1
  unfolding partition
  partition-IsSplit xs two =
      let hi = length xs - 1 in
      let (a, ea, sa) = swap_lem xs (length xs / 2) hi (omega arith) (omega arith) in
      let a_len : length a ≡ suc hi = omega (arith, sa.same_length) in
      let (pivot, e) = get_elem?-in_range a hi (omega arith) in
      let start = start-IsPartitioned xs a hi a_len sa.perm e in
      let (q, eq, vq) = loop-IsPartitioned {pivot = pivot} hi hi 0 0 a (omega arith) start in
      let (c, ec, sc) =
        swap_lem q.1 q.0 hi (omega (arith, vq.same_length, vq.bounds))
          (omega (arith, vq.same_length)) in
      (
        pivot,
        (q.0, c),
        rw (ea, eq, ec),
        finish-IsSplit {b = q.1} {c = c} {pivot = pivot} {hi = hi} {store = q.0} (omega arith) vq
            sc,
      )
