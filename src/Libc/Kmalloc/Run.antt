-- ===== src/Libc/Kmalloc/Run.antt =====
-- A run of `kmalloc` calls: the blocks that it hands out never overlap.
use pi3_distributed_llm_infe.Base.{
  ℕ, true, ◌+◌, ◌^◌, ◌≤◌, ◌<◌, ◌≡◌, List, [], ◌∷◌, Option, none, some, arith,
}
use pi3_distributed_llm_infe.Libc.Kmalloc.{Heap, kmalloc}
use pi3_distributed_llm_infe.Libc.Kmalloc.Blocks.{IsValid, rounded, Outcome, kmalloc-Outcome}

-- A block that was granted, with its size.
pub record Block : Type 0 where
  pub start : ℕ
  pub size : ℕ

granted : ℕ → Option ℕ → List Block → List Block
granted n none bs = bs
granted n (some p) bs = record { start = p; size = rounded n } ∷ bs

-- The blocks that the requests `ns` are granted, in order.
unfoldable pub allocate : ℕ → List ℕ → Heap → List Block
unfolding granted
allocate heap_default [] h = []
allocate heap_default (n ∷ ns) h =
    let r = kmalloc heap_default n h in granted n r.0 (allocate heap_default ns r.1)

-- Blocks in ascending order, each behind the one before it, all from `lo` up to `hi`.
abbrev pub Laid : ℕ → ℕ → List Block → Type 0
Laid lo hi [] = lo ≤ hi
Laid lo hi (b ∷ bs) = (lo ≤ b.start) × Laid (b.start + b.size) hi bs

-- No request wraps the 32-bit sums of the allocator.
abbrev pub Modest : ℕ → List ℕ → Type 0
Modest heap_end [] = Unit
Modest heap_end (n ∷ ns) = (heap_end + n + 3 < 2 ^ 32) × Modest heap_end ns

-- Whatever requests are made of a valid heap, as long as none wraps a 32-bit sum, the blocks that
-- are granted lie inside the heap, one behind the other: no two overlap.
pub allocate-Laid :
    (heap_default : ℕ) (ns : List ℕ) (h : Heap)
    → IsValid h
    → Modest h.heap_end ns
    → Laid h.heap_ptr h.heap_end (allocate heap_default ns h)
unfolding allocate
allocate-Laid d [] h v m = v.to_end
allocate-Laid d (n ∷ ns) h v m =
    next (kmalloc d n h) (kmalloc-Outcome d n v m.0) (allocate-Laid d ns)
  where
    next :
        (r : Option ℕ × Heap)
        → Outcome true h (rounded n) r
        → ((h' : Heap)
            → IsValid h'
            → Modest h'.heap_end ns
            → Laid h'.heap_ptr h'.heap_end (allocate d ns h'))
        → Laid h.heap_ptr h.heap_end (granted n r.0 (allocate d ns r.1))
    next (none, h') (over, same) rec = rw same (rec h v m.1)
    next (some p, h') (here, a) rec = (
      omega arith,
      let later = rec h' a.valid (rw a.same_end m.1) in
          let from : p + rounded n ≡ h'.heap_ptr = omega (arith, a.bumped) in
          rw (from, ← a.same_end) later,
    )
