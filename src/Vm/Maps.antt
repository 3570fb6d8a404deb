-- ===== src/Vm/Maps.antt =====
-- What the kernel's memory map keeps: its entries are sections, and all their domains are listed.
use pi3_distributed_llm_infe.Base.{
  ℕ, zero, suc, ◌+◌, ◌-◌, ◌*◌, ◌/◌, ◌%◌, ◌^◌, ◌≤◌, ◌<◌, ◌≡◌, ◌≢◌, refl, ap, ◌∙◌, arith, List, [],
  ◌∷◌, ◌++◌, length, some, bit_or, ◌<<<◌, lt→ltb, le→leb,
}
use native.Mathlib.Nat.{div_self, pow-le-pow_right, one-mul}
use pi3_distributed_llm_infe.Base.Bits.{one-le-two_pow}
use pi3_distributed_llm_infe.Base.Or.{bit_or_bit_left, bit_or_bit_right, bit_or-lt}
use pi3_distributed_llm_infe.Vm.Procmap.{
  MemType, PrEnt, Procmap, one_mb, max_ent, stack_addr, int_stack_addr, empty_procmap, pr_ent_mk,
  procmap_push, push_mb, procmap_default_mk,
}

-- Whether a domain is in the set `ids`.
abbrev pub domain_bit : ℕ → ℕ → ℕ
domain_bit ids dom = ids / 2 ^ dom % 2

-- An entry that `vm_map_kernel` can map, below the last section, with its domain in the set.
pub record IsLegal (ids : ℕ) (e : PrEnt) : Type 0 where
  pub below : e.addr + one_mb < 2 ^ 32
  pub aligned : e.addr % one_mb ≡ 0
  pub sized : e.nbytes ≡ one_mb
  pub in_range : e.dom < 16
  pub listed : domain_bit ids e.dom ≡ 1
  pub writable : e.mem_type ≢ MemType.mem_ro

abbrev pub AreLegal : ℕ → List PrEnt → Type 0
AreLegal ids [] = Unit {0}
AreLegal ids (e ∷ es) = IsLegal ids e × AreLegal ids es

pub record IsMap (p : Procmap) : Type 0 where
  pub ids_small : p.dom_ids < 2 ^ 16
  pub legal : AreLegal p.dom_ids p.entries

more_ids : (ids more : ℕ) (es : List PrEnt) → AreLegal ids es → AreLegal (bit_or ids more) es
more_ids ids more [] h = tt
more_ids ids more (e ∷ es) (h, hs) = (
  record {
    below = h.below;
    aligned = h.aligned;
    sized = h.sized;
    in_range = h.in_range;
    writable = h.writable;
    listed = bit_or_bit_left e.dom ids more h.listed;
  },
  more_ids ids more es hs,
)

AreLegal-append :
    (ids : ℕ) (es : List PrEnt) (e : PrEnt)
    → AreLegal ids es
    → IsLegal ids e
    → AreLegal ids (es ++ e ∷ [])
AreLegal-append ids [] e hs h = (h, tt)
AreLegal-append ids (x ∷ es) e (hx, hs) h = (hx, AreLegal-append ids es e hs h)

own_bit : (d ids : ℕ) → domain_bit (bit_or ids (1 * 2 ^ d)) d ≡ 1
own_bit d ids =
    bit_or_bit_right d ids (1 * 2 ^ d)
      (ap (λ x. x / 2 ^ d % 2) (one-mul (2 ^ d)) ∙ ap (λ x. x % 2) (div_self (one-le-two_pow d)))

-- The set after a number of entries of one domain.
abbrev pub ids_after : ℕ → ℕ → ℕ
ids_after zero dom = 0
ids_after (suc n) dom = bit_or (ids_after n dom) (1 * 2 ^ dom)

-- The map with one entry more.
abbrev pub pushed : Procmap → PrEnt → Procmap
pushed p e = record { dom_ids = bit_or p.dom_ids (1 <<< e.dom); entries = p.entries ++ e ∷ [] }

abbrev pub entry_mb : ℕ → MemType → ℕ → PrEnt
entry_mb addr mem_type dom = record { addr = addr; nbytes = one_mb; mem_type = mem_type; dom = dom }

pub push_mb-IsMap :
    (addr : ℕ) (mem_type : MemType) (dom : ℕ) {p : Procmap}
    → IsMap p
    → length p.entries < max_ent
    → addr + one_mb < 2 ^ 32
    → addr % one_mb ≡ 0
    → dom < 16
    → mem_type ≢ MemType.mem_ro
    → (push_mb addr mem_type dom p ≡ some (pushed p (entry_mb addr mem_type dom)))
      × IsMap (pushed p (entry_mb addr mem_type dom))
unfolding push_mb pr_ent_mk procmap_push
push_mb-IsMap addr mem_type dom {p} h room below aligned hd writable =
    let e = entry_mb addr mem_type dom in
    let power : 2 ^ dom ≤ 2 ^ 15 =
      pow-le-pow_right {n = 2} (omega arith) {i = dom} {j = 15} (omega arith) in
    (
      rw (lt→ltb dom 16 hd) (rw (lt→ltb _ _ room, lt→ltb dom 16 hd) refl),
      record {
        ids_small = bit_or-lt 16 p.dom_ids (1 * 2 ^ dom) h.ids_small (omega (arith, power));
        legal =
            AreLegal-append (bit_or p.dom_ids (1 * 2 ^ dom)) p.entries e
              (more_ids p.dom_ids (1 * 2 ^ dom) p.entries h.legal)
              (record {
                below = below;
                aligned = aligned;
                sized = refl;
                in_range = hd;
                writable = writable;
                listed = own_bit dom p.dom_ids;
              });
      },
    )

-- The entries of the default map.
abbrev pub default_entries : ℕ → List PrEnt
default_entries dom =
    entry_mb 0x3F000000 MemType.mem_device dom
    ∷ entry_mb 0x3F100000 MemType.mem_device dom
    ∷ entry_mb 0x3F200000 MemType.mem_device dom
    ∷ entry_mb 0x40000000 MemType.mem_device dom
    ∷ entry_mb 0 MemType.mem_rw dom
    ∷ entry_mb 0x100000 MemType.mem_rw dom
    ∷ entry_mb (int_stack_addr - one_mb) MemType.mem_rw dom
    ∷ entry_mb (stack_addr - one_mb) MemType.mem_rw dom
    ∷ []

-- The default map is legal, for every domain.
pub procmap_default_mk-IsMap :
    (prog_end dom : ℕ)
    → prog_end ≤ one_mb
    → dom < 16
    → (p : Procmap) × (procmap_default_mk prog_end one_mb (2 * one_mb) dom ≡ some p)
      × IsMap p
      × (p.dom_ids ≡ ids_after 8 dom)
      × (p.entries ≡ default_entries dom)
unfolding procmap_default_mk
procmap_default_mk-IsMap prog_end dom fits hd =
    let start : IsMap empty_procmap = record { ids_small = omega arith; legal = tt } in
    let s1 = device 0x3F000000 start (omega arith) (omega arith) (omega arith) in
    let s2 = device 0x3F100000 s1.1 (omega arith) (omega arith) (omega arith) in
    let s3 = device 0x3F200000 s2.1 (omega arith) (omega arith) (omega arith) in
    let s4 = device 0x40000000 s3.1 (omega arith) (omega arith) (omega arith) in
    let s5 = memory 0 s4.1 (omega arith) (omega arith) (omega arith) in
    let s6 = memory 0x100000 s5.1 (omega arith) (omega arith) (omega arith) in
    let s7 = memory (int_stack_addr - one_mb) s6.1 (omega arith) (omega arith) (omega arith) in
    let s8 = memory (stack_addr - one_mb) s7.1 (omega arith) (omega arith) (omega arith) in
    (_, rw (s1.0, s2.0, s3.0, s4.0, le→leb _ _ fits, s5.0, s6.0, s7.0) s8.0, s8.1, refl, refl)
  where
    device :
        (addr : ℕ) {p : Procmap}
        → IsMap p
        → length p.entries < max_ent
        → addr + one_mb < 2 ^ 32
        → addr % one_mb ≡ 0
        → (push_mb addr MemType.mem_device dom p
            ≡ some (pushed p (entry_mb addr MemType.mem_device dom)))
          × IsMap (pushed p (entry_mb addr MemType.mem_device dom))
    device addr m r b a = push_mb-IsMap addr MemType.mem_device dom m r b a hd (λ e. cc)

    memory :
        (addr : ℕ) {p : Procmap}
        → IsMap p
        → length p.entries < max_ent
        → addr + one_mb < 2 ^ 32
        → addr % one_mb ≡ 0
        → (push_mb addr MemType.mem_rw dom p ≡ some (pushed p (entry_mb addr MemType.mem_rw dom)))
          × IsMap (pushed p (entry_mb addr MemType.mem_rw dom))
    memory addr m r b a = push_mb-IsMap addr MemType.mem_rw dom m r b a hd (λ e. cc)
