-- ===== src/Vm/Setup/Identity.antt =====
-- The table of `setup_vm` is the identity on its sections, and nothing else.
use pi3_distributed_llm_infe.Base.{
  ℕ, zero, suc, ◌+◌, ◌-◌, ◌*◌, ◌/◌, ◌%◌, ◌^◌, ◌≤◌, ◌<◌, ◌≡◌, refl, ap, ◌∙◌, arith, Bool, false,
  ◌&&◌, ◌||◌, Option, none, some, ◌>>=◌, ◌==◌, leb, ltb, if◌then◌else◌, Bool-cases, inl, inr,
}
use pi3_distributed_llm_infe.Vm.Attr.{
  Pin, page_1mb, perm_rw_priv, mem_wb_alloc, mem_device, pin_mk_global, pin_mk_device,
}
use pi3_distributed_llm_infe.Vm.Procmap.{one_mb, stack_addr, int_stack_addr}
use pi3_distributed_llm_infe.Vm.Table.{PageTable, vm_xlate}
use pi3_distributed_llm_infe.Vm.Sections.{mapped, vm_map_sec-mapped, vm_xlate-mapped}
use pi3_distributed_llm_infe.Vm.Setup.{map_self, map_range, map_setup}

-- The table is the identity on the sections of a set, and has no others.
abbrev pub IsIdentityOn : (ℕ → Bool) → PageTable → Type 0
IsIdentityOn in_set pt =
    (a : ℕ) → vm_xlate pt a ≡ (if in_set (a / one_mb) then some (a, a / one_mb) else none)

map_self-IsIdentityOn :
    (in_set : ℕ → Bool) (n addr : ℕ) (attr : Pin) (pt : PageTable)
    → addr ≡ n * one_mb
    → n < 4096
    → attr.pagesize ≡ page_1mb
    → IsIdentityOn in_set pt
    → (r : PageTable) × (map_self addr attr pt ≡ some r)
      × IsIdentityOn (λ s. (s == n) || in_set s) r
unfolding map_self
map_self-IsIdentityOn in_set n addr attr pt at small size holds =
    let fits : addr < 2 ^ 32 = omega (arith, at, small) in
    let aligned : addr % one_mb ≡ 0 = omega (arith, at) in
    let section : addr / one_mb ≡ n = omega (arith, at) in
    (
      mapped pt addr addr attr,
      rw (vm_map_sec-mapped pt addr addr attr fits aligned aligned size) refl,
      λ a. vm_xlate-mapped pt addr addr a attr fits aligned ∙ merged a section (holds a),
    )
  where
    merged :
        (a : ℕ)
        → addr / one_mb ≡ n
        → vm_xlate pt a ≡ (if in_set (a / one_mb) then some (a, a / one_mb) else none)
        → (if a / one_mb == addr / one_mb
            then some (addr + a % one_mb, addr / one_mb)
            else vm_xlate pt a)
          ≡ (if (a / one_mb == n) || in_set (a / one_mb) then some (a, a / one_mb) else none)
    merged a section before = elim (Bool-cases (a / one_mb == n)) [
      | inl here ↦
          let here' : a / one_mb ≡ n = ground arith in
          let whole : addr + a % one_mb ≡ a = omega (arith, at, here') in
          rw (section, here, whole, here') refl
      | inr elsewhere ↦ rw (section, elsewhere) before
    ]

map_range-IsIdentityOn :
    (in_set : ℕ → Bool) (left n addr : ℕ) (attr : Pin) (pt : PageTable)
    → addr ≡ n * one_mb
    → n + left ≤ 4096
    → attr.pagesize ≡ page_1mb
    → IsIdentityOn in_set pt
    → (r : PageTable) × (map_range left addr attr pt ≡ some r)
      × IsIdentityOn (λ s. (leb n s && ltb s (n + left)) || in_set s) r
unfolding map_range
map_range-IsIdentityOn in_set zero n addr attr pt at small size holds = (
  pt,
  refl,
  λ a. holds a ∙ ap (λ b. if b then some (a, a / one_mb) else none) (empty (a / one_mb)),
)
  where
    empty : (s : ℕ) → in_set s ≡ (leb n s && ltb s (n + 0)) || in_set s
    empty s = ground arith
map_range-IsIdentityOn in_set (suc left) n addr attr pt at small size holds =
    let (r1, e1, h1) = map_self-IsIdentityOn in_set n addr attr pt at (omega arith) size holds in
    let (r, e, h) =
      map_range-IsIdentityOn (λ s. (s == n) || in_set s) left (n + 1) (addr + one_mb) attr r1
        (omega (arith, at)) (omega arith) size h1 in
    (
      r,
      rw e1 e,
      λ a. h a ∙ ap (λ b. if b then some (a, a / one_mb) else none) (joined (a / one_mb)),
    )
  where
    joined :
        (s : ℕ)
        → ((leb (n + 1) s && ltb s (n + 1 + left)) || ((s == n) || in_set s))
          ≡ ((leb n s && ltb s (n + suc left)) || in_set s)
    joined s = ground arith

-- The sections of the program: its code, its heap, the two stacks, and the devices.
abbrev pub in_setup : ℕ → ℕ → ℕ → Bool
in_setup first last s =
    (s == 1024)
    || ((leb 1008 s && ltb s 1024)
        || ((s == 143) || ((s == 127) || ((leb first s && ltb s last) || ((s == 0) || false)))))

abbrev setup_pin : ℕ → Pin
setup_pin mem = record {
  global = 1;
  asid = 0;
  dom = 1;
  pagesize = page_1mb;
  ap_perm = perm_rw_priv;
  mem_attr = mem;
}

-- A chain whose first call returns.
then_some :
    {A B : Type 0} {o : Option A} {a : A} {r : Option B}
    → (f : A → Option B) → o ≡ some a
    → f a ≡ r
    → (o >>= f) ≡ r
then_some f e rest = ap (λ x. x >>= f) e ∙ rest

cached_pin : pin_mk_global 1 perm_rw_priv mem_wb_alloc ≡ some (setup_pin mem_wb_alloc)
unfolding pin_mk_global
cached_pin = refl

device_pin : pin_mk_device 1 ≡ some (setup_pin mem_device)
unfolding pin_mk_device
device_pin = refl

-- Of a table without entries, and a heap from one multiple of 1 MB to another below 4 GB: `map_setup`
-- returns a table that translates each address of the first section, the heap, the stacks' two
-- sections, the 16 of the peripherals and the one behind them to itself, and no other address.
pub map_setup-IsIdentityOn :
    (first last : ℕ) (pt : PageTable)
    → first ≤ last
    → last ≤ 4096
    → ((a : ℕ) → vm_xlate pt a ≡ none)
    → (r : PageTable) × (map_setup (first * one_mb) (last * one_mb) pt ≡ some r)
      × IsIdentityOn (in_setup first last) r
unfolding map_setup
map_setup-IsIdentityOn first last pt le small none_yet =
    let cached = setup_pin mem_wb_alloc in
    let device = setup_pin mem_device in
    let count : (last * one_mb - first * one_mb + (one_mb - 1)) / one_mb ≡ last - first =
      omega (arith, le) in
    let end : first + (last - first) ≡ last = omega (arith, le) in
    let s0 : ℕ → Bool = λ s. false in
    let s1 : ℕ → Bool = λ s. (s == 0) || s0 s in
    let s2 : ℕ → Bool = λ s. (leb first s && ltb s (first + (last - first))) || s1 s in
    let s3 : ℕ → Bool = λ s. (s == 127) || s2 s in
    let s4 : ℕ → Bool = λ s. (s == 143) || s3 s in
    let s5 : ℕ → Bool = λ s. (leb 1008 s && ltb s 1024) || s4 s in
    let (r1, e1, h1) = map_self-IsIdentityOn s0 0 0 cached pt refl (omega arith) refl none_yet in
    let (r2, e2, h2) =
      map_range-IsIdentityOn s1 (last - first) first (first * one_mb) cached r1 refl
        (omega (arith, le, small)) refl h1 in
    let (r3, e3, h3) =
      map_self-IsIdentityOn s2 127 (stack_addr - one_mb) cached r2 refl (omega arith) refl h2 in
    let (r4, e4, h4) =
      map_self-IsIdentityOn s3 143 (int_stack_addr - one_mb) cached r3 refl (omega arith) refl h3 in
    let (r5, e5, h5) =
      map_range-IsIdentityOn s4 16 1008 0x3F000000 device r4 refl (omega arith) refl h4 in
    let (r6, e6, h6) =
      map_self-IsIdentityOn s5 1024 0x40000000 device r5 refl (omega arith) refl h5 in
    (
      r6,
      then_some _ cached_pin (
          then_some _ device_pin (
            then_some _ e1 (
              then_some _ (ap (λ n. map_range n (first * one_mb) cached r1) count ∙ e2)
                (then_some _ e3 (then_some _ e4 (then_some _ e5 e6)))))),
      λ a.
          h6 a ∙ ap (λ l. if in_setup first l (a / one_mb) then some (a, a / one_mb) else none) end,
    )
