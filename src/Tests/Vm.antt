-- ===== src/Tests/Vm.antt =====
-- The default map of the kernel's domain, and a table over a map of two entries.
use pi3_distributed_llm_infe.Base.{
  ℕ, ◌*◌, ◌/◌, if◌then◌else◌, ◌≡◌, refl, arith, true, false, [], ◌∷◌, some, none,
}
use pi3_distributed_llm_infe.Libc.Kmalloc.{Heap}
use pi3_distributed_llm_infe.Libc.Kmalloc.Blocks.{IsValid}
use pi3_distributed_llm_infe.Vm.Attr.{Pin, pin_mk, perm_rw_priv}
use pi3_distributed_llm_infe.Vm.Procmap.{
  MemType, Procmap, one_mb, procmap_lookup, procmap_default_mk, dom_perm,
}
use pi3_distributed_llm_infe.Vm.Table.{
  PageTable, Mmu, zero_pte, section_pte, vm_map_sec, vm_xlate, vm_map_kernel,
}
use pi3_distributed_llm_infe.Vm.Sections.{vm_xlate-vm_map_sec}
use pi3_distributed_llm_infe.Vm.Domains.{domain_field, dom_perm_lem}
use pi3_distributed_llm_infe.Vm.Maps.{IsMap, entry_mb}
use pi3_distributed_llm_infe.Vm.Default.{procmap_default_mk-lookup}
use pi3_distributed_llm_infe.Vm.Kernel.{identity}
use pi3_distributed_llm_infe.Vm.Setup.{map_setup}
use pi3_distributed_llm_infe.Vm.Setup.Identity.{in_setup, map_setup-IsIdentityOn}
use pi3_distributed_llm_infe.Vm.Paging.{client_xlate, vm_map_kernel_lem}

abbrev table : PageTable
table = record { base = 16384; pte = λ i. zero_pte }

abbrev pin : Pin
pin = record { global = 1; asid = 0; dom = 1; pagesize = 3; ap_perm = perm_rw_priv; mem_attr = 4 }

vm_map_sec_example :
    (r : PageTable) × (vm_map_sec table 0x300000 0x100000 pin ≡ some (r, 3))
    × (vm_xlate r 0x300123 ≡ some (0x100123, 3))
vm_map_sec_example =
    vm_xlate-vm_map_sec table 0x300000 0x100000 0x300123 pin (omega arith) (omega arith) refl refl
      refl

dom_perm_example : (r : ℕ) × (dom_perm 6 1 ≡ some r) × (domain_field r 2 ≡ 1)
dom_perm_example = dom_perm_lem 6 1 2 (omega arith) (omega arith) (omega arith) (omega arith)

procmap_default_mk_example :
    (p : Procmap) × (procmap_default_mk 0x9000 one_mb (2 * one_mb) 1 ≡ some p)
    × IsMap p
    × (p.dom_ids ≡ 2)
    × (procmap_lookup p 0x3F200008 ≡ some (entry_mb 0x3F200000 MemType.mem_device 1))
procmap_default_mk_example =
    procmap_default_mk-lookup 0x9000 1 0x3F200008 (omega arith) (omega arith)

abbrev kernel_map : Procmap
kernel_map = record {
  dom_ids = 2;
  entries = entry_mb 0x3F200000 MemType.mem_device 1 ∷ entry_mb 0 MemType.mem_rw 1 ∷ [];
}

kernel_map-IsMap : IsMap kernel_map
kernel_map-IsMap = record {
  ids_small = omega arith;
  legal = (
    record {
      below = omega arith;
      aligned = refl;
      sized = refl;
      in_range = omega arith;
      listed = refl;
      writable = λ e. cc;
    },
    (
      record {
        below = omega arith;
        aligned = refl;
        sized = refl;
        in_range = omega arith;
        listed = refl;
        writable = λ e. cc;
      },
      tt,
    ),
  );
}

abbrev mmu : Mmu
mmu = record { enabled = false; domain_access = 0; pid = 0; asid = 0; table = 0 }

abbrev kernel_heap : Heap
kernel_heap = record {
  heap_start = 0x100000;
  heap_ptr = 0x100010;
  heap_end = 0x200000;
  mem = λ b. 7;
}

kernel_heap-IsValid : IsValid kernel_heap
kernel_heap-IsValid = omega arith

vm_map_kernel_example :
    (pt : PageTable) × (m' : Mmu) × (h' : Heap) × (vm_map_kernel 0 kernel_map 1 mmu kernel_heap
      ≡ some (pt, m', h'))
    × (m'.enabled ≡ true)
    × (m'.table ≡ pt.base)
    × (client_xlate m' pt 0x3F200008
        ≡ identity 0x3F200008 none (procmap_lookup kernel_map 0x3F200008))
vm_map_kernel_example =
    vm_map_kernel_lem 0 0x3F200008 kernel_map mmu {h = kernel_heap} kernel_map-IsMap (omega arith)
      refl kernel_heap-IsValid (omega arith) (omega arith)

lookup_test :
    identity 0x3F200008 none (procmap_lookup kernel_map 0x3F200008) ≡ some (0x3F200008, 1010)
unfolding procmap_lookup
lookup_test = refl

-- The domain 16 is let through, and is stored as the domain 0.
illegal_domain :
    pin_mk 1 16 0 perm_rw_priv 0
    ≡ some (record {
      global = 1;
      asid = 0;
      dom = 16;
      pagesize = 3;
      ap_perm = perm_rw_priv;
      mem_attr = 0;
    })
unfolding pin_mk
illegal_domain = refl

stored_domain : (section_pte 0 (record pin { dom = 16 })).domain ≡ 0
unfolding section_pte
stored_domain = refl

empty_table : (a : ℕ) → vm_xlate table a ≡ none
unfolding vm_xlate
empty_table a = refl

map_setup_example :
    (r : PageTable) × (map_setup (1 * one_mb) (100 * one_mb) table ≡ some r)
    × ((a : ℕ)
        → vm_xlate r a ≡ (if in_setup 1 100 (a / one_mb) then some (a, a / one_mb) else none))
map_setup_example = map_setup-IsIdentityOn 1 100 table (omega arith) (omega arith) empty_table
