-- ===== src/Vm/Table.antt =====
-- libpi/vm/pt-vm.c and armv6-vm.h: page tables, the mapping of a section, and translation. A table is
-- its address and what it holds; a `vm_pte_t *` is the index of the entry. `Mmu` is what the program
-- has set in the hardware.
use pi3_distributed_llm_infe.Base.{
  ℕ, ◌*◌, ◌%◌, ◌^◌, Bool, true, false, ◌&&◌, not, List, [], ◌∷◌, Option, none, some, ◌>>=◌, bit_and,
  bit_or, u32, ◌<<<◌, ◌>>>◌, ltb, ◌==◌, if◌then◌else◌,
}
use pi3_distributed_llm_infe.Libc.Kmalloc.{Heap, kmalloc_aligned}
use pi3_distributed_llm_infe.Vm.Attr.{
  Pin, page_1mb, perm_rw_priv, mem_uncached, pin_mk_global, pin_mk_device,
}
use pi3_distributed_llm_infe.Vm.Procmap.{MemType, PrEnt, Procmap, one_mb, dom_perm}

-- `fld_t`, with a field for each of its bit fields.
pub record Pte : Type 0 where
  pub pxn : ℕ
  pub tag : ℕ
  pub b : ℕ
  pub c : ℕ
  pub xn : ℕ
  pub domain : ℕ
  pub imp : ℕ
  pub ap : ℕ
  pub tex : ℕ
  pub ap2 : ℕ
  pub s : ℕ
  pub n_global : ℕ
  pub super : ℕ
  pub ns : ℕ
  pub sec_base_addr : ℕ

abbrev pub zero_pte : Pte
zero_pte = record {
  pxn = 0;
  tag = 0;
  b = 0;
  c = 0;
  xn = 0;
  domain = 0;
  imp = 0;
  ap = 0;
  tex = 0;
  ap2 = 0;
  s = 0;
  n_global = 0;
  super = 0;
  ns = 0;
  sec_base_addr = 0;
}

pub record PageTable : Type 0 where
  pub base : ℕ
  pub pte : ℕ → Pte

abbrev pub pt_level1_n : ℕ
pt_level1_n = 4096

-- The memory of a new table is zeroed by the allocator. Where that has none left, the source goes on
-- with a null pointer, until the `assert` at the end of `vm_map_kernel`; here it stops at once.
abbrev pub table_at : Option ℕ × Heap → Option (PageTable × Heap)
table_at (none, h) = none
table_at (some p, h) =
    if p % 2 ^ 14 == 0 then some (record { base = p; pte = λ _. zero_pte }, h) else none

unfoldable pub vm_pt_alloc : ℕ → ℕ → Heap → Option (PageTable × Heap)
vm_pt_alloc heap_default n h =
    if not (n == 4096) then none else table_at (kmalloc_aligned heap_default (4096 * 4) (2 ^ 14) h)

unfoldable pub vm_dup : ℕ → PageTable → Heap → Option (PageTable × Heap)
unfolding vm_pt_alloc
vm_dup heap_default pt1 h = do
  (pt2, h') ← vm_pt_alloc heap_default pt_level1_n h
  some (record pt2 { pte = pt1.pte }, h')

-- The entry that `vm_map_sec` writes, each field cut to its bits.
unfoldable pub section_pte : ℕ → Pin → Pte
section_pte pa attr = record {
  pxn = 0;
  tag = 1;
  b = bit_and attr.mem_attr 1;
  c = bit_and attr.mem_attr 2 >>> 1;
  xn = 0;
  domain = attr.dom % 2 ^ 4;
  imp = 0;
  ap = bit_and attr.ap_perm 3;
  tex = attr.mem_attr >>> 2 % 2 ^ 3;
  ap2 = attr.ap_perm >>> 2 % 2 ^ 1;
  s = 1;
  n_global = if attr.global == 0 then 1 else 0;
  super = 0;
  ns = 0;
  sec_base_addr = pa >>> 20 % 2 ^ 12;
}

unfoldable pub vm_map_sec : PageTable → ℕ → ℕ → Pin → Option (PageTable × ℕ)
unfolding section_pte
vm_map_sec pt va pa attr =
    if not (va % one_mb == 0 && (pa % one_mb == 0 && attr.pagesize == page_1mb))
    then none
    else if not (ltb (va >>> 20) pt_level1_n)
    then none
    else some (
      record pt { pte = λ i. if i == va >>> 20 then section_pte pa attr else pt.pte i },
      va >>> 20,
    )

unfoldable pub vm_lookup : PageTable → ℕ → Option ℕ
vm_lookup pt va = if not ((pt.pte (va >>> 20)).tag == 1) then none else some (va >>> 20)

-- The physical address and the entry.
unfoldable pub vm_xlate : PageTable → ℕ → Option (ℕ × ℕ)
unfolding vm_lookup
vm_xlate pt va = elim (vm_lookup pt va) [
  | none ↦ none
  | some i ↦ some (bit_or (u32 ((pt.pte i).sec_base_addr <<< 20)) (bit_and va 0xFFFFF), i)
]

unfoldable pub attr_mk : PrEnt → Option Pin
unfolding pin_mk_device pin_mk_global
attr_mk e = elim e.mem_type [
  | MemType.mem_device ↦ pin_mk_device e.dom
  | MemType.mem_rw ↦ pin_mk_global e.dom perm_rw_priv mem_uncached
  | MemType.mem_ro ↦ none
]

-- One round of the loop of `vm_map_kernel`.
unfoldable pub map_entry : PrEnt → PageTable → Option PageTable
unfolding attr_mk vm_map_sec vm_lookup
map_entry e pt = do
  attr ← attr_mk e
  (pt', allocated) ← vm_map_sec pt e.addr e.addr attr
  found ← vm_lookup pt' e.addr
  if allocated == found then some pt' else none

unfoldable pub map_entries : List PrEnt → PageTable → Option PageTable
map_entries [] pt = some pt
map_entries (e ∷ es) pt = map_entry e pt >>= map_entries es

pub record Mmu : Type 0 where
  pub enabled : Bool
  pub domain_access : ℕ
  pub pid : ℕ
  pub asid : ℕ
  pub table : ℕ

unfoldable pub vm_mmu_enable : Mmu → Option Mmu
vm_mmu_enable m = if m.enabled then none else some (record m { enabled = true })

unfoldable pub vm_mmu_disable : Mmu → Option Mmu
vm_mmu_disable m = if m.enabled then some (record m { enabled = false }) else none

-- `assert(pt)`, and the asserts of `mmu_set_ctx`.
unfoldable pub vm_mmu_switch : ℕ → ℕ → ℕ → Mmu → Option Mmu
vm_mmu_switch pt pid asid m =
    if not (not (pt == 0) && (not (asid == 0) && ltb asid 64))
    then none
    else some (record m { pid = pid; asid = asid; table = pt })

-- `mmu_init` leaves an MMU off that is off, and refuses one that is on.
unfoldable pub vm_mmu_init : ℕ → Mmu → Option Mmu
vm_mmu_init domain_reg m =
    if m.enabled then none else some (record m { domain_access = domain_reg })

abbrev pub dom_client : ℕ
dom_client = 1

abbrev pub kern_asid : ℕ
kern_asid = 1

abbrev pub kern_pid : ℕ
kern_pid = 0x140e

unfoldable pub vm_map_kernel : ℕ → Procmap → ℕ → Mmu → Heap → Option (PageTable × Mmu × Heap)
unfolding dom_perm vm_mmu_init vm_pt_alloc map_entries vm_mmu_switch vm_mmu_enable
vm_map_kernel heap_default p enable_p m h = do
  d ← dom_perm p.dom_ids dom_client
  m1 ← vm_mmu_init d m
  (pt, h') ← vm_pt_alloc heap_default 4096 h
  pt' ← map_entries p.entries pt
  m2 ← vm_mmu_switch pt'.base kern_pid kern_asid m1
  m3 ← if enable_p == 1 then vm_mmu_enable m2 else some m2
  some (pt', m3, h')
