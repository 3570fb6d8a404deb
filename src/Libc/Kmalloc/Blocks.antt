-- ===== src/Libc/Kmalloc/Blocks.antt =====
-- What `kmalloc` and `kmalloc_notzero` promise: zeroed, word-aligned blocks of the heap that never
-- overlap, or NULL and an unchanged heap.
use pi3_distributed_llm_infe.Base.{
  ℕ, zero, suc, Bool, true, false, ◌+◌, ◌*◌, ◌/◌, ◌%◌, ◌^◌, ◌≤◌, ◌<◌, ◌≡◌, refl, inl, inr, Option,
  none, some, arith, Bool-cases, ltb, ltb→lt, leb, ◌&&◌, ◌==◌, if◌then◌else◌, u32,
}
use pi3_distributed_llm_infe.Libc.Kmalloc.{
  Heap, poke, zero_fill, first_use, kmalloc, kmalloc_notzero,
}
use pi3_distributed_llm_infe.Libc.Kmalloc.Words.{round4_lem, round4_wraps}

-- A heap in use: the bump pointer is inside it and word aligned.
pub record IsValid (h : Heap) : Type 0 where
  pub in_use : 0 < h.heap_ptr
  pub from_start : h.heap_start ≤ h.heap_ptr
  pub to_end : h.heap_ptr ≤ h.heap_end
  pub small : h.heap_end < 2 ^ 32
  pub word : h.heap_ptr % 4 ≡ 0

-- The zero-fill clears its block and no other byte.
pub zero_fill_lem :
    (n p : ℕ) (m : ℕ → ℕ) (b : ℕ)
    → p + n < 2 ^ 32
    → zero_fill n p m b ≡ (if leb p b && ltb b (p + n) then 0 else m b)
unfolding zero_fill
zero_fill_lem zero p m b h = ground arith
zero_fill_lem (suc n) p m b h =
    ground (arith, zero_fill_lem n (u32 (p + 1)) (poke m p 0) b (omega arith))

-- The size that `kmalloc` hands out for a request.
abbrev pub rounded : ℕ → ℕ
rounded n = (n + 3) / 4 * 4

-- A block of `size` bytes was cut off the valid heap `h`; with `clear` its bytes are zero, and all
-- other memory is as before.
pub record Allocated (clear : Bool) (h : Heap) (size : ℕ) (h' : Heap) : Type 0 where
  pub fits : h.heap_ptr + size ≤ h.heap_end
  pub bumped : h'.heap_ptr ≡ h.heap_ptr + size
  pub same_start : h'.heap_start ≡ h.heap_start
  pub same_end : h'.heap_end ≡ h.heap_end
  pub contents :
      (b : ℕ)
      → h'.mem b ≡ (if clear && (leb h.heap_ptr b && ltb b (h.heap_ptr + size)) then 0 else h.mem b)
  pub valid : IsValid h'

abbrev pub Outcome : Bool → Heap → ℕ → Option ℕ × Heap → Type 0
Outcome clear h size (some p, h') = (p ≡ h.heap_ptr) × Allocated clear h size h'
Outcome clear h size (none, h') = (h.heap_end < h.heap_ptr + size) × (h' ≡ h)

bump-IsValid :
    {h : Heap}
    → IsValid h
    → (size : ℕ) (m : ℕ → ℕ) → size % 4 ≡ 0
    → h.heap_ptr + size ≤ h.heap_end
    → IsValid (record h { heap_ptr = h.heap_ptr + size; mem = m })
bump-IsValid v size m w fits = omega arith

module _ (heap_default : ℕ) where
  pub used : {h : Heap} → IsValid h → first_use heap_default h ≡ h
  unfolding first_use
  used {h} v = let e : (h.heap_ptr == 0) ≡ false = ground (arith, v.in_use) in rw e

  -- A request that does not overflow gets the next block of the heap where it fits, and NULL with the
  -- heap unchanged exactly where it does not. The block is not cleared.
  kmalloc_notzero-Outcome :
      (n : ℕ) {h : Heap}
      → IsValid h
      → h.heap_end + n + 3 < 2 ^ 32
      → Outcome false h (rounded n) (kmalloc_notzero heap_default n h)
  unfolding kmalloc_notzero
  kmalloc_notzero-Outcome n {h} v small =
      rw (used v, round4_lem n (omega arith), sum)
        (elim (Bool-cases (ltb h.heap_end (h.heap_ptr + rounded n))) [
          | inl over ↦ rw over (ltb→lt _ _ over, refl)
          | inr fits ↦ rw fits (
            refl,
            record {
              fits = ground arith;
              bumped = refl;
              same_start = refl;
              same_end = refl;
              contents = λ b. refl;
              valid = bump-IsValid v (rounded n) _ (omega arith) (ground arith);
            },
          )
        ])
    where
      sum : u32 (h.heap_ptr + rounded n) ≡ h.heap_ptr + rounded n
      sum = omega (arith, v.to_end)

  -- A request of `kmalloc` that does not overflow gets the next block of the heap where it fits, with
  -- its bytes cleared and no other memory changed, and NULL with the heap unchanged where it does not.
  pub kmalloc-Outcome :
      (n : ℕ) {h : Heap}
      → IsValid h
      → h.heap_end + n + 3 < 2 ^ 32
      → Outcome true h (rounded n) (kmalloc heap_default n h)
  unfolding kmalloc
  kmalloc-Outcome n {h} v small =
      rw (used v, round4_lem n (omega arith), sum)
        (elim (Bool-cases (ltb h.heap_end (h.heap_ptr + rounded n))) [
          | inl over ↦ rw over (ltb→lt _ _ over, refl)
          | inr fits ↦ rw fits (
            refl,
            record {
              fits = ground arith;
              bumped = refl;
              same_start = refl;
              same_end = refl;
              contents =
                  λ b. zero_fill_lem (rounded n) h.heap_ptr h.mem b (ground (arith, v.small));
              valid = bump-IsValid v (rounded n) _ (omega arith) (ground arith);
            },
          )
        ])
    where
      sum : u32 (h.heap_ptr + rounded n) ≡ h.heap_ptr + rounded n
      sum = omega (arith, v.to_end)

  -- A request within 3 bytes of 2 ^ 32 rounds up to 0: it is granted, with no memory behind it.
  kmalloc_overflow :
      (n : ℕ) {h : Heap}
      → IsValid h
      → 2 ^ 32 ≤ n + 3
      → n < 2 ^ 32
      → ((kmalloc heap_default n h).0 ≡ some h.heap_ptr)
        × ((kmalloc heap_default n h).1.heap_ptr ≡ h.heap_ptr)
  unfolding kmalloc
  kmalloc_overflow n {h} v big small =
      rw (used v, round4_wraps n big small) (ground (arith, v.to_end, v.small))
