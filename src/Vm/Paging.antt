-- ===== src/Vm/Paging.antt =====
-- The kernel's address space: the identity on the memory map, nothing outside it, and client access to
-- the domain of every page.
use pi3_distributed_llm_infe.Base.{
  ℕ, ◌+◌, ◌*◌, ◌/◌, ◌%◌, ◌^◌, ◌≤◌, ◌<◌, ◌≡◌, ◌≢◌, refl, ap, ◌∙◌, arith, true, false, some, Option,
  none, ◌>>=◌, ◌==◌, if◌then◌else◌, Bool-cases, inl, inr,
}
use pi3_distributed_llm_infe.Libc.Kmalloc.{Heap, kmalloc_aligned}
use pi3_distributed_llm_infe.Libc.Kmalloc.Blocks.{IsValid}
use pi3_distributed_llm_infe.Libc.Kmalloc.Aligned.{up, AlignedOutcome, kmalloc_aligned-Outcome}
use pi3_distributed_llm_infe.Vm.Procmap.{PrEnt, Procmap, one_mb, lookup_loop, procmap_lookup}
use pi3_distributed_llm_infe.Vm.Table.{
  PageTable, Mmu, zero_pte, vm_pt_alloc, vm_xlate, vm_map_kernel, dom_client, kern_pid, kern_asid,
}
use pi3_distributed_llm_infe.Vm.Sections.{vm_xlate-pte}
use pi3_distributed_llm_infe.Vm.Domains.{domain_field, dom_perm_every}
use pi3_distributed_llm_infe.Vm.Maps.{domain_bit, IsMap}
use pi3_distributed_llm_infe.Vm.Kernel.{HaveDomains, identity, map_entries-identity}

-- A heap with room for a table, wherever its pointer stands.
abbrev pub HasRoom : Heap → Type 0
HasRoom h = up 14 h.heap_ptr + 2 ^ 14 ≤ h.heap_end

abbrev blank : Heap → PageTable
blank h = record { base = up 14 h.heap_ptr; pte = λ _. zero_pte }

placed :
    (heap_default : ℕ) (h : Heap) (p : ℕ) (h' : Heap)
    → kmalloc_aligned heap_default 16384 16384 h ≡ (some p, h')
    → p ≡ up 14 h.heap_ptr
    → p % 2 ^ 14 ≡ 0
    → vm_pt_alloc heap_default 4096 h ≡ some (blank h, h')
unfolding vm_pt_alloc
placed heap_default h p h' e at aligned =
    let test : (p % 2 ^ 14 == 0) ≡ true = ground arith in
    rw (e, test) (ap (λ b. some (record { base = b; pte = λ _. zero_pte }, h')) at)

vm_pt_alloc-blank :
    (heap_default : ℕ) {h : Heap}
    → IsValid h
    → HasRoom h
    → h.heap_end + 3 * 2 ^ 14 < 2 ^ 32
    → (h' : Heap) × (vm_pt_alloc heap_default 4096 h ≡ some (blank h, h')) × (0 < up 14 h.heap_ptr)
vm_pt_alloc-blank heap_default {h} v room small =
    granted (kmalloc_aligned heap_default 16384 16384 h) refl
      (kmalloc_aligned-Outcome heap_default 14 18 16384 {h = h} v refl (omega (arith, small)))
  where
    granted :
        (r : Option ℕ × Heap)
        → kmalloc_aligned heap_default 16384 16384 h ≡ r
        → AlignedOutcome 14 16384 h r
        → (h' : Heap) × (vm_pt_alloc heap_default 4096 h ≡ some (blank h, h'))
          × (0 < up 14 h.heap_ptr)
    granted (none, h') e (full, same) = absurd (omega (arith, room, full))
    granted (some p, h') e o = (h', placed heap_default h p h' e o.0 o.1, omega (arith, v.in_use))

-- The translation of an access that goes through only where the domain register has client access.
abbrev pub client_xlate : Mmu → PageTable → ℕ → Option (ℕ × ℕ)
client_xlate m pt a = vm_xlate pt a >>= λ (pa, e).
    if domain_field m.domain_access (pt.pte e).domain == dom_client then some (pa, e) else none

client_xlate-identity :
    (m : Mmu) (pt : PageTable) (ids a : ℕ) (o : Option PrEnt)
    → ((j : ℕ) → j < 16 → domain_field m.domain_access j ≡ (if domain_bit ids j == 1 then 1 else 0))
    → HaveDomains ids pt
    → vm_xlate pt a ≡ identity a none o
    → client_xlate m pt a ≡ identity a none o
client_xlate-identity m pt ids a none fields domains e = rw e refl
client_xlate-identity m pt ids a (some entry) fields domains e =
    elim (Bool-cases ((pt.pte (a / one_mb)).tag == 1)) [
      | inl valid ↦
          let (small, listed) = domains (a / one_mb) (ground arith) in
          let bit : (domain_bit ids (pt.pte (a / one_mb)).domain == 1) ≡ true = ground arith in
          let client : domain_field m.domain_access (pt.pte (a / one_mb)).domain ≡ 1 =
            fields (pt.pte (a / one_mb)).domain small ∙ rw bit refl in
          rw (e, client) refl
      | inr hole ↦ let missing : vm_xlate pt a ≡ none = vm_xlate-pte pt a ∙ rw hole refl in cc
    ]

-- With a legal map that lists a domain, an MMU that is off, and a valid heap with room for the table:
-- `vm_map_kernel` returns a table and turns the MMU on with it. An address is then translated to
-- itself where the map has an entry for it, by an entry whose domain has client access, and not at all
-- where the map has none.
pub vm_map_kernel_lem :
    (heap_default a : ℕ) (p : Procmap) (m : Mmu) {h : Heap}
    → IsMap p
    → p.dom_ids ≢ 0
    → m.enabled ≡ false
    → IsValid h
    → HasRoom h
    → h.heap_end + 3 * 2 ^ 14 < 2 ^ 32
    → (pt : PageTable) × (m' : Mmu) × (h' : Heap) × (vm_map_kernel heap_default p 1 m h
        ≡ some (pt, m', h'))
      × (m'.enabled ≡ true)
      × (m'.table ≡ pt.base)
      × (client_xlate m' pt a ≡ identity a none (procmap_lookup p a))
unfolding vm_map_kernel procmap_lookup
vm_map_kernel_lem heap_default a p m {h} map used off v room small =
    let (d, perm, fields) = dom_perm_every p.dom_ids dom_client used map.ids_small (omega arith) in
    let (h', fresh, nonzero) = vm_pt_alloc-blank heap_default v room small in
    let empty : HaveDomains p.dom_ids (blank h) = λ i e. cc in
    let (pt, done, base, domains, xlate) =
      map_entries-identity p.dom_ids p.entries (blank h) map.legal empty in
    let m' = record m {
      enabled = true;
      domain_access = d;
      pid = kern_pid;
      asid = kern_asid;
      table = pt.base;
    } in
    let set : (pt.base == 0) ≡ false = ground (arith, base, nonzero) in
    (
      pt,
      m',
      h',
      rw (perm, off, fresh, done, set) refl,
      refl,
      refl,
      client_xlate-identity m' pt p.dom_ids a (procmap_lookup p a) fields domains
          (xlate a ∙ ap (λ o. identity a o (lookup_loop p.entries a)) (vm_xlate-pte (blank h) a)),
    )
