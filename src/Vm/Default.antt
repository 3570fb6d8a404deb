-- ===== src/Vm/Default.antt =====
-- The default memory map, entry by entry.
use pi3_distributed_llm_infe.Base.{
  ℕ, ◌*◌, ◌/◌, ◌^◌, ◌≤◌, ◌<◌, ◌≡◌, refl, ap, subst, ◌∙◌, Option, some, none, ◌==◌, if◌then◌else◌,
  bit_or,
}
use native.Mathlib.Nat.{one-mul}
use pi3_distributed_llm_infe.Base.Or.{bit_or_self}
use pi3_distributed_llm_infe.Base.Xor.{bit_or_comm}
use pi3_distributed_llm_infe.Base.Bits.{bit_or-zero}
use pi3_distributed_llm_infe.Vm.Procmap.{
  MemType, PrEnt, Procmap, one_mb, lookup_loop, procmap_lookup, procmap_default_mk,
}
use pi3_distributed_llm_infe.Vm.Maps.{
  IsMap, AreLegal, ids_after, entry_mb, default_entries, procmap_default_mk-IsMap,
}
use pi3_distributed_llm_infe.Vm.Kernel.{lookup_loop-cons}

-- The map of a domain by the number of a section of 1 MB: the peripherals at 1008 to 1010 and 1024, and
-- as memory the code, the heap, and the ends of the two stacks.
abbrev pub default_entry : ℕ → ℕ → Option PrEnt
default_entry dom s =
    if s == 1008
    then some (entry_mb 0x3F000000 MemType.mem_device dom)
    else if s == 1009
    then some (entry_mb 0x3F100000 MemType.mem_device dom)
    else if s == 1010
    then some (entry_mb 0x3F200000 MemType.mem_device dom)
    else if s == 1024
    then some (entry_mb 0x40000000 MemType.mem_device dom)
    else if s == 0
    then some (entry_mb 0 MemType.mem_rw dom)
    else if s == 1
    then some (entry_mb 0x100000 MemType.mem_rw dom)
    else if s == 143
    then some (entry_mb 0x8F00000 MemType.mem_rw dom)
    else if s == 127
    then some (entry_mb 0x7F00000 MemType.mem_rw dom)
    else none

lookup_default :
    (ids dom a : ℕ)
    → AreLegal ids (default_entries dom)
    → lookup_loop (default_entries dom) a ≡ default_entry dom (a / one_mb)
unfolding lookup_loop
lookup_default ids dom a (h1, (h2, (h3, (h4, (h5, (h6, (h7, (h8, _)))))))) =
    rw
      (
        lookup_loop-cons ids a _ _ h1,
        lookup_loop-cons ids a _ _ h2,
        lookup_loop-cons ids a _ _ h3,
        lookup_loop-cons ids a _ _ h4,
        lookup_loop-cons ids a _ _ h5,
        lookup_loop-cons ids a _ _ h6,
        lookup_loop-cons ids a _ _ h7,
        lookup_loop-cons ids a _ _ h8,
      )
      refl

same_ids : (dom : ℕ) → ids_after 8 dom ≡ 2 ^ dom
same_ids dom =
    let b = 1 * 2 ^ dom in
    let first : bit_or 0 b ≡ b = bit_or_comm 0 b ∙ bit_or-zero b in
    rw
      (
        first,
        bit_or_self b,
        bit_or_self b,
        bit_or_self b,
        bit_or_self b,
        bit_or_self b,
        bit_or_self b,
        bit_or_self b,
      )
      (one-mul (2 ^ dom))

-- For a domain below 16 and a program that ends below 1 MB, with a heap of the second MB:
-- `procmap_default_mk` returns a legal map whose set has that domain alone. It holds in that domain, and
-- by its search finds, the sections of the peripherals as devices, and as memory those of the code,
-- the heap and the ends of the two stacks; and no other address is in it.
pub procmap_default_mk-lookup :
    (prog_end dom a : ℕ)
    → prog_end ≤ one_mb
    → dom < 16
    → (p : Procmap) × (procmap_default_mk prog_end one_mb (2 * one_mb) dom ≡ some p)
      × IsMap p
      × (p.dom_ids ≡ 2 ^ dom)
      × (procmap_lookup p a ≡ default_entry dom (a / one_mb))
unfolding procmap_lookup
procmap_default_mk-lookup prog_end dom a fits hd =
    let (p, made, map, ids, entries) = procmap_default_mk-IsMap prog_end dom fits hd in
    (
      p,
      made,
      map,
      ids ∙ same_ids dom,
      ap (λ es. lookup_loop es a) entries
          ∙ lookup_default p.dom_ids dom a (subst (AreLegal p.dom_ids) entries map.legal),
    )
