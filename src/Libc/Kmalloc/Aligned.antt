-- ===== src/Libc/Kmalloc/Aligned.antt =====
-- `kmalloc_aligned` with a power of two: aligned, zeroed blocks of the heap; and what a refused
-- request leaves behind.
use native.Mathlib.Nat.{mod-lt, div-add-mod', mul-mod_left}
use pi3_distributed_llm_infe.Base.{
  ℕ, ◌+◌, ◌-◌, ◌*◌, ◌/◌, ◌%◌, ◌^◌, ◌≤◌, ◌<◌, ◌≡◌, refl, inl, inr, Option, none, some, arith,
  Bool-cases, ltb, ltb→lt, leb, ◌&&◌, if◌then◌else◌, u32,
}
use pi3_distributed_llm_infe.Base.Bits.{one-le-two_pow}
use pi3_distributed_llm_infe.Libc.Kmalloc.{Heap, kmalloc_aligned}
use pi3_distributed_llm_infe.Libc.Kmalloc.Words.{round_up_lem}
use pi3_distributed_llm_infe.Libc.Kmalloc.Blocks.{IsValid, zero_fill_lem, used}

-- The next multiple of `2 ^ k`.
abbrev pub up : ℕ → ℕ → ℕ
up k x = (x + 2 ^ k - 1) / 2 ^ k * 2 ^ k

up_bounds : (k x : ℕ) → (x ≤ up k x) × (up k x < x + 2 ^ k)
up_bounds k x = bounds (2 ^ k) (one-le-two_pow k)
  where
    bounds : (p : ℕ) → 1 ≤ p → (x ≤ (x + p - 1) / p * p) × ((x + p - 1) / p * p < x + p)
    bounds p h = omega (arith, div-add-mod' (x + p - 1) p, mod-lt (x + p - 1) h)

-- The outcome on the valid heap `h` of a request for `n` bytes at a multiple of `2 ^ k`.
abbrev pub AlignedOutcome : ℕ → ℕ → Heap → Option ℕ × Heap → Type 0
AlignedOutcome k n h (some p, h') =
    (p ≡ up k h.heap_ptr)
    × (p % 2 ^ k ≡ 0)
    × (h.heap_ptr ≤ p)
    × (p + n ≤ h'.heap_ptr)
    × (h'.heap_ptr ≤ h.heap_end)
    × ((b : ℕ) → h'.mem b ≡ (if leb p b && ltb b h'.heap_ptr then 0 else h.mem b))
AlignedOutcome k n h (none, h') =
    (h.heap_end < up k h.heap_ptr + up k n) × (h' ≡ record h { heap_ptr = up k h.heap_ptr })

-- Where no 32-bit sum wraps, `kmalloc_aligned` grants a zeroed block inside the heap that starts at
-- a multiple of the alignment and holds the request, or returns NULL when the rounded block does not
-- fit; then the bump pointer is still moved up to the alignment.
pub kmalloc_aligned-Outcome :
    (heap_default k w n : ℕ) {h : Heap}
    → IsValid h
    → k + w ≡ 32
    → h.heap_end + n + 2 * 2 ^ k < 2 ^ 32
    → AlignedOutcome k n h (kmalloc_aligned heap_default n (2 ^ k) h)
unfolding kmalloc_aligned
kmalloc_aligned-Outcome d k w n {h} v e small =
    rw
      (
        used d v,
        round_up_lem h.heap_ptr k w e (omega (arith, v.to_end)),
        round_up_lem n k w e (omega arith),
        sum,
      )
      (elim (Bool-cases (ltb h.heap_end (p + up k n))) [
        | inl over ↦ rw over (ltb→lt _ _ over, refl)
        | inr fits ↦ rw fits (
          refl,
          mul-mod_left _ _,
          (up_bounds k h.heap_ptr).0,
          omega (arith, up_bounds k n),
          ground arith,
          λ b. zero_fill_lem (up k n) p h.mem b (ground (arith, v.small)),
        )
      ])
  where
    p : ℕ
    p = up k h.heap_ptr

    sum : u32 (p + up k n) ≡ p + up k n
    sum = omega (arith, v.to_end, up_bounds k h.heap_ptr, up_bounds k n)
