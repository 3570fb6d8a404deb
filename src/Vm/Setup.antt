-- ===== src/Vm/Setup.antt =====
-- `setup_vm` of libpi/src/run.c: the sections that the inference program maps, each to itself.
pub mod Identity
use pi3_distributed_llm_infe.Base.{
  ℕ, zero, suc, ◌+◌, ◌-◌, ◌*◌, ◌/◌, Option, none, some, ◌>>=◌, u32, ◌<<<◌,
}
use pi3_distributed_llm_infe.Libc.Kmalloc.{Heap, kmalloc_heap_start, kmalloc_heap_end}
use pi3_distributed_llm_infe.Vm.Attr.{Pin, perm_rw_priv, mem_wb_alloc, pin_mk_global, pin_mk_device}
use pi3_distributed_llm_infe.Vm.Procmap.{one_mb, stack_addr, int_stack_addr}
use pi3_distributed_llm_infe.Vm.Table.{
  PageTable, Mmu, vm_pt_alloc, vm_map_sec, vm_mmu_init, vm_mmu_switch, vm_mmu_enable, dom_client,
  kern_pid, kern_asid,
}

-- One section, mapped to itself.
unfoldable pub map_self : ℕ → Pin → PageTable → Option PageTable
unfolding vm_map_sec
map_self addr attr pt = vm_map_sec pt addr addr attr >>= λ r. some r.0

-- `for (addr = ...; addr < end; addr += OneMB)`, with `left` rounds to go.
unfoldable pub map_range : ℕ → ℕ → Pin → PageTable → Option PageTable
unfolding map_self
map_range zero addr attr pt = some pt
map_range (suc left) addr attr pt = map_self addr attr pt >>= map_range left (addr + one_mb) attr

-- The sections, with a heap from `heap_start` to `heap_end`.
unfoldable pub map_setup : ℕ → ℕ → PageTable → Option PageTable
map_setup heap_start heap_end pt = do
  cached ← pin_mk_global 1 perm_rw_priv mem_wb_alloc
  device ← pin_mk_device 1
  pt1 ← map_self 0 cached pt
  pt2 ← map_range ((heap_end - heap_start + (one_mb - 1)) / one_mb) heap_start cached pt1
  pt3 ← map_self (stack_addr - one_mb) cached pt2
  pt4 ← map_self (int_stack_addr - one_mb) cached pt3
  pt5 ← map_range 16 0x3F000000 device pt4
  map_self 0x40000000 device pt5

-- `setup_vm`, up to the caches; the domain is 1.
unfoldable pub setup_vm : ℕ → Mmu → Heap → Option (PageTable × Mmu × Heap)
unfolding map_setup vm_mmu_init vm_pt_alloc vm_mmu_switch vm_mmu_enable kmalloc_heap_start
    kmalloc_heap_end
setup_vm heap_default m h = do
  m1 ← vm_mmu_init (u32 (dom_client <<< 2)) m
  (pt, h') ← vm_pt_alloc heap_default 4096 h
  pt' ← map_setup (kmalloc_heap_start heap_default h') (kmalloc_heap_end heap_default h') pt
  m2 ← vm_mmu_switch pt'.base kern_pid kern_asid m1
  m3 ← vm_mmu_enable m2
  some (pt', m3, h')
