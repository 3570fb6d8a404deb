-- ===== src/Vm/Kernel.antt =====
-- The loop of `vm_map_kernel`: one entry of the memory map, and all of them.
use pi3_distributed_llm_infe.Base.{
  ℕ, ◌+◌, ◌/◌, ◌%◌, ◌^◌, ◌<◌, ◌≡◌, ◌≢◌, refl, sym, ap, ap₂, ◌∙◌, arith, true, List, [], ◌∷◌, some,
  Option, none, u32, ◌>>>◌, leb, ◌==◌, ==_self, if◌then◌else◌, Bool-cases, inl, inr,
}
use pi3_distributed_llm_infe.Vm.Attr.{Pin, page_1mb, perm_rw_priv, mem_uncached, mem_device}
use pi3_distributed_llm_infe.Vm.Procmap.{MemType, PrEnt, one_mb, is_in, lookup_loop}
use pi3_distributed_llm_infe.Vm.Table.{
  PageTable, section_pte, attr_mk, map_entry, map_entries, vm_xlate,
}
use pi3_distributed_llm_infe.Vm.Sections.{
  mapped, vm_map_sec-mapped, vm_lookup-mapped, vm_xlate-mapped,
}
use pi3_distributed_llm_infe.Vm.Maps.{domain_bit, IsLegal, AreLegal}

-- The attributes of a kernel mapping with a caching policy.
abbrev kernel_pin : ℕ → ℕ → Pin
kernel_pin dom mem = record {
  global = 1;
  asid = 0;
  dom = dom;
  pagesize = page_1mb;
  ap_perm = perm_rw_priv;
  mem_attr = mem;
}

attr_mk-device :
    (e : PrEnt)
    → e.dom < 16
    → e.mem_type ≡ MemType.mem_device
    → attr_mk e ≡ some (kernel_pin e.dom mem_device)
unfolding attr_mk
attr_mk-device e h q = let small : leb e.dom 16 ≡ true = ground arith in rw (attr_mk, q, small) refl

attr_mk-memory :
    (e : PrEnt)
    → e.dom < 16
    → e.mem_type ≡ MemType.mem_rw
    → attr_mk e ≡ some (kernel_pin e.dom mem_uncached)
unfolding attr_mk
attr_mk-memory e h q = let small : leb e.dom 16 ≡ true = ground arith in rw (attr_mk, q, small) refl

attr_mk-kernel :
    (e : PrEnt)
    → e.dom < 16
    → e.mem_type ≢ MemType.mem_ro
    → (mem : ℕ) × (attr_mk e ≡ some (kernel_pin e.dom mem))
attr_mk-kernel e h w = by_type e.mem_type refl w
  where
    by_type :
        (t : MemType)
        → e.mem_type ≡ t
        → t ≢ MemType.mem_ro
        → (mem : ℕ) × (attr_mk e ≡ some (kernel_pin e.dom mem))
    by_type MemType.mem_device q w = (mem_device, attr_mk-device e h q)
    by_type MemType.mem_rw q w = (mem_uncached, attr_mk-memory e h q)
    by_type MemType.mem_ro q w = absurd (w refl)

map_entry-mapped :
    (ids : ℕ) (e : PrEnt) (pt : PageTable)
    → IsLegal ids e
    → (attr : Pin) × (map_entry e pt ≡ some (mapped pt e.addr e.addr attr))
      × (attr.dom ≡ e.dom)
      × (attr.pagesize ≡ page_1mb)
unfolding map_entry
map_entry-mapped ids e pt h =
    let (mem, made) = attr_mk-kernel e h.in_range h.writable in
    let attr = kernel_pin e.dom mem in
    let done =
      vm_map_sec-mapped pt e.addr e.addr attr (omega (arith, h.below)) h.aligned h.aligned refl in
    let found = vm_lookup-mapped pt e.addr e.addr attr in
    (attr, rw (made, done) (rw (found, ==_self (e.addr >>> 20)) refl), refl, refl)

-- The entries that a table has are for domains of the set.
abbrev pub HaveDomains : ℕ → PageTable → Type 0
HaveDomains ids pt =
    (i : ℕ) → (pt.pte i).tag ≡ 1 → ((pt.pte i).domain < 16) × (domain_bit ids (pt.pte i).domain ≡ 1)

mapped-HaveDomains :
    (ids va pa : ℕ) (attr : Pin) (pt : PageTable)
    → HaveDomains ids pt
    → attr.dom < 16
    → domain_bit ids attr.dom ≡ 1
    → HaveDomains ids (mapped pt va pa attr)
unfolding section_pte
mapped-HaveDomains ids va pa attr pt all h b i = elim (Bool-cases (i == va >>> 20)) [
  | inl here ↦
      let same : attr.dom % 2 ^ 4 ≡ attr.dom = omega arith in
      rw here (λ _. (omega arith, rw same b))
  | inr there ↦ rw there (all i)
]

-- What an entry of the map makes of an address.
abbrev pub identity : ℕ → Option (ℕ × ℕ) → Option PrEnt → Option (ℕ × ℕ)
identity a other none = other
identity a other (some e) = some (a, a / one_mb)

is_in-section :
    (ids a : ℕ) (e : PrEnt) → IsLegal ids e → is_in e a ≡ (a / one_mb == e.addr / one_mb)
is_in-section ids a e h =
    let end : u32 (e.addr + e.nbytes) ≡ e.addr + one_mb =
      ap (λ n. u32 (e.addr + n)) h.sized ∙ omega (arith, h.below) in
    rw end (ground (arith, h.aligned))

pub lookup_loop-cons :
    (ids a : ℕ) (e : PrEnt) (es : List PrEnt)
    → IsLegal ids e
    → lookup_loop (e ∷ es) a ≡ (if a / one_mb == e.addr / one_mb then some e else lookup_loop es a)
unfolding lookup_loop
lookup_loop-cons ids a e es h =
    ap (λ b. if b then some e else lookup_loop es a) (is_in-section ids a e h)

identity_kept :
    (a : ℕ) (o : Option PrEnt) → identity a (some (a, a / one_mb)) o ≡ some (a, a / one_mb)
identity_kept a none = refl
identity_kept a (some e) = refl

-- The translation after one entry more.
identity-mapped :
    (ids : ℕ) (e : PrEnt) (es : List PrEnt) (pt : PageTable) (attr : Pin) (a : ℕ)
    → IsLegal ids e
    → identity a (vm_xlate (mapped pt e.addr e.addr attr) a) (lookup_loop es a)
      ≡ identity a (vm_xlate pt a) (lookup_loop (e ∷ es) a)
identity-mapped ids e es pt attr a h =
    let now = vm_xlate-mapped pt e.addr e.addr a attr (omega (arith, h.below)) h.aligned in
    elim (Bool-cases (a / one_mb == e.addr / one_mb)) [
      | inl here ↦
          let here' : a / one_mb ≡ e.addr / one_mb = ground arith in
          let back : e.addr + a % one_mb ≡ a = omega (arith, h.aligned, here') in
          rw (now, lookup_loop-cons ids a e es h, here)
            (ap₂ (λ x i. identity a (some (x, i)) (lookup_loop es a)) back (sym here')
              ∙ identity_kept a (lookup_loop es a))
      | inr elsewhere ↦ rw (now, lookup_loop-cons ids a e es h, elsewhere) refl
    ]

pub map_entries-identity :
    (ids : ℕ) (es : List PrEnt) (pt : PageTable)
    → AreLegal ids es
    → HaveDomains ids pt
    → (r : PageTable) × (map_entries es pt ≡ some r)
      × (r.base ≡ pt.base)
      × HaveDomains ids r
      × ((a : ℕ) → vm_xlate r a ≡ identity a (vm_xlate pt a) (lookup_loop es a))
unfolding map_entries lookup_loop
map_entries-identity ids [] pt h d = (pt, refl, refl, d, λ a. refl)
map_entries-identity ids (e ∷ es) pt (h, hs) d =
    let (attr, made, dom, size) = map_entry-mapped ids e pt h in
    let pt' = mapped pt e.addr e.addr attr in
    let d' =
      mapped-HaveDomains ids e.addr e.addr attr pt d (omega (arith, dom, h.in_range))
        (rw dom h.listed) in
    let (r, rest, base, kept, xlate) = map_entries-identity ids es pt' hs d' in
    (r, rw made rest, base, kept, λ a. xlate a ∙ identity-mapped ids e es pt attr a h)
