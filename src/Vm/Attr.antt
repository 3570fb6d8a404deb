-- ===== src/Vm/Attr.antt =====
-- libpi/vm/mem-attr.h and pinned-vm.h: permissions, caching policies, and the attributes of a mapping.
use pi3_distributed_llm_infe.Base.{
  ℕ, ◌*◌, ◌%◌, Bool, true, ◌&&◌, not, Option, none, some, leb, ltb, ◌==◌, if◌then◌else◌,
}

-- `mem_perm_t`: AP[2] above the two bits of AP.
abbrev pub perm_rw_user : ℕ
perm_rw_user = 3

abbrev pub perm_ro_user : ℕ
perm_ro_user = 2

abbrev pub perm_na_user : ℕ
perm_na_user = 1

abbrev pub perm_ro_priv : ℕ
perm_ro_priv = 5

abbrev pub perm_rw_priv : ℕ
perm_rw_priv = perm_na_user

abbrev pub perm_na_priv : ℕ
perm_na_priv = 0

-- Any other value panics.
unfoldable pub mem_perm_islegal : ℕ → Option Bool
mem_perm_islegal p =
    if p == perm_rw_user
    then some true
    else if p == perm_ro_user
    then some true
    else if p == perm_ro_priv
    then some true
    else if p == perm_rw_priv
    then some true
    else if p == perm_na_priv
    then some true
    else none

-- `TEX_C_B`, and the policies of `mem_attr_t`.
abbrev pub mem_device : ℕ
mem_device = 0

abbrev pub mem_uncached : ℕ
mem_uncached = 4

abbrev pub mem_wb_noalloc : ℕ
mem_wb_noalloc = 3

abbrev pub mem_wt_noalloc : ℕ
mem_wt_noalloc = 2

abbrev pub mem_wb_alloc : ℕ
mem_wb_alloc = 7

abbrev pub page_4k : ℕ
page_4k = 1

abbrev pub page_64k : ℕ
page_64k = 2

abbrev pub page_1mb : ℕ
page_1mb = 3

abbrev pub page_16mb : ℕ
page_16mb = 0

-- `pin_t`
pub record Pin : Type 0 where
  pub global : ℕ
  pub asid : ℕ
  pub dom : ℕ
  pub pagesize : ℕ
  pub ap_perm : ℕ
  pub mem_attr : ℕ

unfoldable pub pin_mem_attr_set : Pin → ℕ → Pin
pin_mem_attr_set e mem = record e { mem_attr = mem }

unfoldable pub pin_16mb : Pin → Pin
pin_16mb p = record p { pagesize = page_16mb }

unfoldable pub pin_64k : Pin → Pin
pin_64k p = record p { pagesize = page_64k }

unfoldable pub pin_nbytes : Pin → Option ℕ
pin_nbytes attr =
    if attr.pagesize == page_4k
    then some (4 * 1024)
    else if attr.pagesize == page_64k
    then some (64 * 1024)
    else if attr.pagesize == page_1mb
    then some (1024 * 1024)
    else if attr.pagesize == page_16mb
    then some (16 * (1024 * 1024))
    else none

-- The switch on the size repeats the one of `pin_nbytes`, so that its default is never reached.
unfoldable pub pin_aligned : ℕ → Pin → Option Bool
unfolding pin_nbytes
pin_aligned va attr = elim (pin_nbytes attr) [
  | none ↦ none
  | some n ↦
      if n == 4 * 1024
      then some (va % (4 * 1024) == 0)
      else if n == 64 * 1024
      then some (va % (64 * 1024) == 0)
      else if n == 1024 * 1024
      then some (va % (1024 * 1024) == 0)
      else if n == 16 * (1024 * 1024)
      then some (va % (16 * (1024 * 1024)) == 0)
      else none
]

-- A global entry has no address space identifier, and any other has one below 64.
unfoldable pub is_asid_legal : ℕ → ℕ → Bool
is_asid_legal global asid =
    if not (global == 0) then asid == 0 else (not (asid == 0) && (ltb 0 asid && ltb asid 64))

unfoldable pub pin_mk : ℕ → ℕ → ℕ → ℕ → ℕ → Option Pin
unfolding mem_perm_islegal is_asid_legal
pin_mk global dom asid perm mem_attr = elim (mem_perm_islegal perm) [
  | none ↦ none
  | some legal ↦
      if not (legal && (leb dom 16 && is_asid_legal global asid))
      then none
      else some (record {
        global = global;
        asid = asid;
        dom = dom;
        pagesize = page_1mb;
        ap_perm = perm;
        mem_attr = mem_attr;
      })
]

unfoldable pub pin_mk_global : ℕ → ℕ → ℕ → Option Pin
unfolding pin_mk
pin_mk_global dom perm attr = pin_mk 1 dom 0 perm attr

unfoldable pub pin_mk_user : ℕ → ℕ → ℕ → ℕ → Option Pin
unfolding pin_mk
pin_mk_user dom asid perm attr = pin_mk 0 dom asid perm attr

unfoldable pub pin_mk_device : ℕ → Option Pin
unfolding pin_mk
pin_mk_device dom = pin_mk 1 dom 0 perm_rw_priv mem_device
