-- ===== src/Vm/Sections.antt =====
-- Mapping a section changes the translation of that section alone.
use pi3_distributed_llm_infe.Base.{
  ℕ, ◌+◌, ◌*◌, ◌/◌, ◌%◌, ◌^◌, ◌<◌, ◌≡◌, refl, sym, ap, ◌∙◌, arith, not, none, Option, some, bit_and,
  bit_or, u32, ◌<<<◌, ◌>>>◌, ◌==◌, ==_self, if◌then◌else◌, Bool-cases, inl, inr,
}
use pi3_distributed_llm_infe.Base.Bits.{bit_and-low, bit_or-fields}
use pi3_distributed_llm_infe.Vm.Attr.{Pin, page_1mb}
use pi3_distributed_llm_infe.Vm.Procmap.{one_mb}
use pi3_distributed_llm_infe.Vm.Table.{PageTable, Pte, section_pte, vm_map_sec, vm_lookup, vm_xlate}

-- The table with the section of `va` mapped to that of `pa`.
abbrev pub mapped : PageTable → ℕ → ℕ → Pin → PageTable
mapped pt va pa attr = record pt {
  pte = λ i. if i == va >>> 20 then section_pte pa attr else pt.pte i;
}

pub vm_map_sec-mapped :
    (pt : PageTable) (va pa : ℕ) (attr : Pin)
    → va < 2 ^ 32
    → va % one_mb ≡ 0
    → pa % one_mb ≡ 0
    → attr.pagesize ≡ page_1mb
    → vm_map_sec pt va pa attr ≡ some (mapped pt va pa attr, va >>> 20)
unfolding vm_map_sec
vm_map_sec-mapped pt va pa attr small hva hpa size = ground arith

pub vm_lookup-mapped :
    (pt : PageTable) (va pa : ℕ) (attr : Pin)
    → vm_lookup (mapped pt va pa attr) va ≡ some (va >>> 20)
unfolding vm_lookup section_pte
vm_lookup-mapped pt va pa attr = rw (==_self (va >>> 20)) refl

-- The address that an entry gives.
abbrev pub xlate_pte : Pte → ℕ → ℕ → Option (ℕ × ℕ)
xlate_pte e va i =
    if not (e.tag == 1)
    then none
    else some (bit_or (u32 (e.sec_base_addr <<< 20)) (bit_and va 0xFFFFF), i)

pub vm_xlate-pte :
    (pt : PageTable) (va : ℕ) → vm_xlate pt va ≡ xlate_pte (pt.pte (va >>> 20)) va (va >>> 20)
unfolding vm_xlate vm_lookup
vm_xlate-pte pt va = elim (Bool-cases ((pt.pte (va >>> 20)).tag == 1)) [
  | inl valid ↦ rw (vm_xlate, valid) refl
  | inr hole ↦ rw (vm_xlate, hole) refl
]

pub section_pte-xlate :
    (pa va i : ℕ) (attr : Pin)
    → pa < 2 ^ 32
    → pa % one_mb ≡ 0
    → xlate_pte (section_pte pa attr) va i ≡ some (pa + va % one_mb, i)
unfolding section_pte
section_pte-xlate pa va i attr small aligned =
    let base : u32 (pa / 2 ^ 20 % 2 ^ 12 * 2 ^ 20) ≡ pa / 2 ^ 20 * 2 ^ 20 = omega arith in
    let low : bit_and va 0xFFFFF ≡ va % 2 ^ 20 = bit_and-low 20 va in
    let join : bit_or (pa / 2 ^ 20 * 2 ^ 20) (va % 2 ^ 20) ≡ pa / 2 ^ 20 * 2 ^ 20 + va % 2 ^ 20 =
      bit_or-fields 20 (pa / 2 ^ 20) (va % 2 ^ 20) (omega arith) in
    rw (base, low, join) (ap (λ x. some (x, i)) (omega arith))

pub vm_xlate-mapped :
    (pt : PageTable) (va pa a : ℕ) (attr : Pin)
    → pa < 2 ^ 32
    → pa % one_mb ≡ 0
    → vm_xlate (mapped pt va pa attr) a
      ≡ (if a / one_mb == va / one_mb then some (pa + a % one_mb, va / one_mb) else vm_xlate pt a)
vm_xlate-mapped pt va pa a attr small aligned = elim (Bool-cases (a / one_mb == va / one_mb)) [
  | inl here ↦
      let same : a / one_mb ≡ va / one_mb = ground arith in
      rw here (
        vm_xlate-pte (mapped pt va pa attr) a
        ∙ rw here (section_pte-xlate pa a (a / one_mb) attr small aligned)
        ∙ ap (λ i. some (pa + a % one_mb, i)) same)
  | inr elsewhere ↦
      rw elsewhere (vm_xlate-pte (mapped pt va pa attr) a ∙ rw elsewhere (sym (vm_xlate-pte pt a)))
]

-- A section of 1 MB maps to another, with the 20 low bits kept, and every address outside it is
-- translated as before.
pub vm_xlate-vm_map_sec :
    (pt : PageTable) (va pa a : ℕ) (attr : Pin)
    → va < 2 ^ 32
    → pa < 2 ^ 32
    → va % one_mb ≡ 0
    → pa % one_mb ≡ 0
    → attr.pagesize ≡ page_1mb
    → (r : PageTable) × (vm_map_sec pt va pa attr ≡ some (r, va / one_mb))
      × (vm_xlate r a ≡ (
          if a / one_mb == va / one_mb then some (pa + a % one_mb, va / one_mb) else vm_xlate pt a))
vm_xlate-vm_map_sec pt va pa a attr hva hpa ava apa size = (
  mapped pt va pa attr,
  vm_map_sec-mapped pt va pa attr hva ava apa size,
  vm_xlate-mapped pt va pa a attr hpa apa,
)
