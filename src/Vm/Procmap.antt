-- ===== src/Vm/Procmap.antt =====
-- libpi/vm/procmap.h: the kernel's memory map. The first `n` slots of the array are a list.
use pi3_distributed_llm_infe.Base.{
  ℕ, zero, suc, ◌+◌, ◌-◌, ◌*◌, ◌^◌, Bool, ◌&&◌, not, List, [], ◌∷◌, ◌++◌, length, Option, none,
  some, ◌>>=◌, bit_and, bit_or, u32, ◌<<<◌, ◌>>>◌, leb, ltb, ◌==◌, if◌then◌else◌, check,
}

abbrev pub one_mb : ℕ
one_mb = 1024 * 1024

-- The kinds of memory of a `pr_ent_t`.
pub data MemType : Type 0 where
  mem_device : MemType
  mem_rw : MemType
  mem_ro : MemType

pub record PrEnt : Type 0 where
  pub addr : ℕ
  pub nbytes : ℕ
  pub mem_type : MemType
  pub dom : ℕ

unfoldable pub pr_ent_mk : ℕ → ℕ → MemType → ℕ → Option PrEnt
pr_ent_mk addr nbytes mem_type dom =
    if not (nbytes == one_mb && ltb dom 16)
    then none
    else some (record { addr = addr; nbytes = nbytes; mem_type = mem_type; dom = dom })

abbrev pub max_ent : ℕ
max_ent = 16

pub record Procmap : Type 0 where
  pub dom_ids : ℕ
  pub entries : List PrEnt

abbrev pub empty_procmap : Procmap
empty_procmap = record { dom_ids = 0; entries = [] }

unfoldable pub procmap_push : Procmap → PrEnt → Option Procmap
procmap_push p e =
    if not (ltb (length p.entries) max_ent && ltb e.dom 16)
    then none
    else some (record { dom_ids = bit_or p.dom_ids (1 <<< e.dom); entries = p.entries ++ e ∷ [] })

-- The loop of `dom_perm`, with `left` rounds to go from the domain `i` on.
unfoldable pub dom_perm_loop : ℕ → ℕ → ℕ → ℕ → ℕ → ℕ
dom_perm_loop zero i doms perm mask = mask
dom_perm_loop (suc left) i doms perm mask =
    dom_perm_loop left (suc i) doms perm
      (if not (bit_and doms (1 <<< i) == 0) then bit_or mask (u32 (perm <<< (i * 2))) else mask)

unfoldable pub dom_perm : ℕ → ℕ → Option ℕ
dom_perm doms perm =
    if not (not (doms == 0) && (doms >>> 16 == 0 && leb perm 3))
    then none
    else some (dom_perm_loop 16 0 doms perm 0)

-- `addr >= s && addr < e`, where `e` is a pointer of 32 bits.
abbrev pub is_in : PrEnt → ℕ → Bool
is_in p addr = leb p.addr addr && ltb addr (u32 (p.addr + p.nbytes))

-- The first entry that holds the address.
unfoldable pub lookup_loop : List PrEnt → ℕ → Option PrEnt
lookup_loop [] addr = none
lookup_loop (p ∷ ps) addr = if is_in p addr then some p else lookup_loop ps addr

unfoldable pub procmap_lookup : Procmap → ℕ → Option PrEnt
unfolding lookup_loop
procmap_lookup pmap addr = lookup_loop pmap.entries addr

abbrev pub stack_addr : ℕ
stack_addr = 0x8000000

abbrev pub int_stack_addr : ℕ
int_stack_addr = 0x9000000

-- `procmap_push(&p, pr_ent_mk(addr, MB, type, dom))`
unfoldable pub push_mb : ℕ → MemType → ℕ → Procmap → Option Procmap
unfolding pr_ent_mk procmap_push
push_mb addr mem_type dom p = pr_ent_mk addr one_mb mem_type dom >>= procmap_push p

-- `prog_end` is the linker's symbol, `start` and `end` are what the allocator says of the heap.
unfoldable pub procmap_default_mk : ℕ → ℕ → ℕ → ℕ → Option Procmap
unfolding push_mb
procmap_default_mk prog_end start end dom = do
  p1 ← push_mb 0x3F000000 mem_device dom empty_procmap
  p2 ← push_mb 0x3F100000 mem_device dom p1
  p3 ← push_mb 0x3F200000 mem_device dom p2
  p4 ← push_mb 0x40000000 mem_device dom p3
  _ ← check (leb prog_end one_mb)
  p5 ← push_mb 0 mem_rw dom p4
  _ ← check (start == one_mb)
  _ ← check (u32 (end + 2 ^ 32 - start) == one_mb)
  p6 ← push_mb 0x100000 mem_rw dom p5
  p7 ← push_mb (int_stack_addr - one_mb) mem_rw dom p6
  push_mb (stack_addr - one_mb) mem_rw dom p7
