-- ===== src/Libc/Kmalloc.antt =====
-- libpi/libc/kmalloc.c: a bump allocator. Addresses are 32-bit numbers, 0 is the null pointer, and
-- memory is a function from addresses to bytes. `heap_default` is the linker's `__heap_start__`.
pub mod Words
pub mod Blocks
pub mod Run
pub mod Aligned
use pi3_distributed_llm_infe.Base.{
  ℕ, zero, suc, ◌+◌, ◌-◌, ◌*◌, ◌^◌, Option, none, some, bit_and, not32, u32, ltb, ◌==◌,
  if◌then◌else◌,
}

abbrev pub default_heap_size : ℕ
default_heap_size = 4 * 1024 * 1024

-- The three static variables, and the memory that the zero-fill writes.
pub record Heap : Type 0 where
  pub heap_ptr : ℕ
  pub heap_end : ℕ
  pub heap_start : ℕ
  pub mem : ℕ → ℕ

abbrev pub poke : (ℕ → ℕ) → ℕ → ℕ → ℕ → ℕ
poke m a v b = if a == b then v else m b

-- `for (i = 0; i < nbytes; i++) ((uint8_t *)p)[i] = 0`, with `left` rounds to go at address `p`.
pub zero_fill : ℕ → ℕ → (ℕ → ℕ) → ℕ → ℕ
zero_fill zero p m = m
zero_fill (suc left) p m = zero_fill left (u32 (p + 1)) (poke m p 0)

unfoldable pub kmalloc_init_set_start : ℕ → ℕ → Heap → Heap
kmalloc_init_set_start addr max_nbytes h = record h {
  heap_start = addr;
  heap_ptr = addr;
  heap_end = u32 (addr + max_nbytes);
}

-- `(nbytes + 3) & ~3`
unfoldable pub round4 : ℕ → ℕ
round4 nbytes = bit_and (u32 (nbytes + 3)) (not32 3)

-- `(x + alignment - 1) & ~(alignment - 1)`, on 32 bits.
unfoldable pub round_up : ℕ → ℕ → ℕ
round_up x alignment =
    bit_and (u32 (x + alignment + 2 ^ 32 - 1)) (not32 (u32 (alignment + 2 ^ 32 - 1)))

module _ (heap_default : ℕ) where
  -- The first lines of the three allocators: the first use takes the default heap.
  unfoldable pub first_use : Heap → Heap
  first_use h =
      if h.heap_ptr == 0
      then record h {
        heap_start = heap_default;
        heap_ptr = heap_default;
        heap_end = u32 (heap_default + default_heap_size);
      }
      else h

  unfoldable pub kmalloc_notzero : ℕ → Heap → Option ℕ × Heap
  kmalloc_notzero nbytes h0 =
      let h = first_use h0 in
      let n = round4 nbytes in
      if ltb h.heap_end (u32 (h.heap_ptr + n))
      then (none, h)
      else (some h.heap_ptr, record h { heap_ptr = u32 (h.heap_ptr + n) })

  unfoldable pub kmalloc : ℕ → Heap → Option ℕ × Heap
  kmalloc nbytes h0 =
      let h = first_use h0 in
      let n = round4 nbytes in
      if ltb h.heap_end (u32 (h.heap_ptr + n)) then (none, h) else (
        some h.heap_ptr,
        record h { heap_ptr = u32 (h.heap_ptr + n); mem = zero_fill n h.heap_ptr h.mem },
      )

  -- The pointer is aligned before the size is tested.
  unfoldable pub kmalloc_aligned : ℕ → ℕ → Heap → Option ℕ × Heap
  kmalloc_aligned nbytes alignment h0 =
      let h = first_use h0 in
      let aligned = round_up h.heap_ptr alignment in
      let n = round_up nbytes alignment in
      if ltb h.heap_end (u32 (aligned + n)) then (none, record h { heap_ptr = aligned }) else (
        some aligned,
        record h { heap_ptr = u32 (aligned + n); mem = zero_fill n aligned h.mem },
      )

  unfoldable pub kmalloc_heap_ptr : Heap → ℕ
  kmalloc_heap_ptr h = if h.heap_ptr == 0 then heap_default else h.heap_ptr

  unfoldable pub kmalloc_heap_start : Heap → ℕ
  kmalloc_heap_start h = if h.heap_start == 0 then heap_default else h.heap_start

  unfoldable pub kmalloc_heap_end : Heap → ℕ
  kmalloc_heap_end h =
      if h.heap_end == 0 then u32 (heap_default + default_heap_size) else h.heap_end
