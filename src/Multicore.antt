-- ===== src/Multicore.antt =====
-- libpi/multicore/multicore.c: core 0 hands functions to the cores 1 to 3 through one command box
-- for each. `multicore_main` of a core and the program on core 0 are interleaved a step at a time.
-- The caches are coherent and the barriers order the accesses, so memory is sequentially consistent.
-- Each core has an event register: `sev` sets that of every core, and `wfe` waits for the core's own to
-- be set, and clears it. An event that comes between a test and the `wfe` behind it is not lost. The
-- cores 1 to 3 have come online.
pub mod Script
pub mod Done
pub mod Roused
pub mod Live
pub mod Keeps
use pi3_distributed_llm_infe.Base.{
  ℕ, suc, ◌+◌, ◌<◌, ◌≡◌, ◌≢◌, Bool, true, false, List, [], ◌∷◌, ◌&&◌, not, ltb, ◌==◌, if◌then◌else◌,
  u32,
}

abbrev pub num_cores : ℕ
num_cores = 4

pub data Status : Type 0 where
  ok err_core err_null err_busy err_ready : Status

-- Where a core stands in `multicore_main`, with the local variables that are live there: `dozing` is at
-- the `wfe`, and `signalling` at the `sev` behind a command.
pub data Pc : Type 0 where
  polling dozing woken signalling : Pc
  got_seq : (seq : ℕ) → Pc
  got_func : (seq func_addr : ℕ) → Pc
  got_arg : (seq func_addr arg : ℕ) → Pc
  running : (seq : ℕ) (left : List ℕ) → Pc

-- One core: its cells of `core_online`, `cmd_funcs`, `cmd_args`, `cmd_seq` and `cmd_done`, and its event
-- register.
pub record Core : Type 0 where
  pub online : ℕ
  pub func : ℕ
  pub arg : ℕ
  pub seq : ℕ
  pub done : ℕ
  pub event : Bool
  pub pc : Pc

abbrev pub update {ℓ} : {A : Type ℓ} → (ℕ → A) → ℕ → A → ℕ → A
update f i a j = if i == j then a else f j

abbrev pub sev : (ℕ → Core) → ℕ → Core
sev cores i = record (cores i) { event = true }

-- What a `wfe` of core `d` does to the event registers.
abbrev pub clear_event : ℕ → (ℕ → Core) → ℕ → Core
clear_event d cores i = record (cores i) { event = if d == i then false else (cores i).event }

unfoldable pub is_core_id_valid : ℕ → Bool
is_core_id_valid core_id = ltb 0 core_id && ltb core_id num_cores

-- `multicore_call_async`: the status, and the cores with the command posted and every core woken.
unfoldable pub multicore_call_async : ℕ → ℕ → ℕ → (ℕ → Core) → Status × (ℕ → Core)
unfolding is_core_id_valid
multicore_call_async core_id f a cores =
    let c = cores core_id in
    if not (is_core_id_valid core_id)
    then (err_core, cores)
    else if f == 0
    then (err_null, cores)
    else if c.online == 0
    then (err_ready, cores)
    else if not (c.seq == c.done)
    then (err_busy, cores)
    else (ok, sev (update cores core_id (record c { func = f; arg = a; seq = u32 (c.seq + 1) })))

-- `multicore_check_done`, for a valid core: has it finished its command?
unfoldable pub multicore_check_done : ℕ → (ℕ → Core) → Bool
multicore_check_done core_id cores = (cores core_id).seq == (cores core_id).done

-- What core 0 does: a call of `multicore_call_async` whose status is ignored, one piece of its own
-- work, or `multicore_wait`.
pub data Command : Type 0 where
  call : (core_id f a : ℕ) → Command
  work : (i : ℕ) → Command
  wait : (core_id : ℕ) → Command

-- A function at address `f` with argument `a` does the pieces of work `job f a` in order, and piece
-- `i` changes the shared memory by `act i`.
module _ {M : Type 0} (job : ℕ → ℕ → List ℕ) (act : ℕ → M → M) where
  pub record System : Type 0 where
    pub mem : M
    pub cores : ℕ → Core
    pub script : List Command
    -- Core 0 is at the `wfe` of `multicore_wait`.
    pub asleep : Bool

  -- A step of `multicore_main` on one core.
  pub data Move (m : M) (c : Core) : M → Core → Type 0 where
    wake : c.pc ≡ polling → c.seq ≢ c.done → Move m c m (record c { pc = woken })
    doze : c.pc ≡ polling → c.seq ≡ c.done → Move m c m (record c { pc = dozing })
    listen : c.pc ≡ dozing → c.event ≡ true → Move m c m (record c { pc = polling; event = false })
    load_seq : c.pc ≡ woken → Move m c m (record c { pc = got_seq c.seq })
    load_func : {q : ℕ} → c.pc ≡ got_seq q → Move m c m (record c { pc = got_func q c.func })
    load_arg : {q f : ℕ} → c.pc ≡ got_func q f → Move m c m (record c { pc = got_arg q f c.arg })
    start :
        {q f a : ℕ}
        → c.pc ≡ got_arg q f a
        → f ≢ 0
        → Move m c m (record c { pc = running q (job f a) })
    skip : {q f a : ℕ} → c.pc ≡ got_arg q f a → f ≡ 0 → Move m c m (record c { pc = running q [] })
    run :
        {q i : ℕ} {left : List ℕ}
        → c.pc ≡ running q (i ∷ left)
        → Move m c (act i m) (record c { pc = running q left })
    finish : {q : ℕ} → c.pc ≡ running q [] → Move m c m (record c { done = q; pc = signalling })

  -- A step of the system. In `multicore_wait` core 0 passes a core that is done, and else goes to sleep
  -- until its event register is set.
  pub data Step (s : System) : System → Type 0 where
    post :
        {core_id f a : ℕ} {rest : List Command}
        → s.script ≡ call core_id f a ∷ rest
        → Step s (record s { cores = (multicore_call_async core_id f a s.cores).1; script = rest })
    own :
        {i : ℕ} {rest : List Command}
        → s.script ≡ work i ∷ rest
        → Step s (record s { mem = act i s.mem; script = rest })
    passed :
        {core_id : ℕ} {rest : List Command}
        → s.script ≡ wait core_id ∷ rest
        → s.asleep ≡ false
        → multicore_check_done core_id s.cores ≡ true
        → Step s (record s { script = rest })
    sleep :
        {core_id : ℕ} {rest : List Command}
        → s.script ≡ wait core_id ∷ rest
        → s.asleep ≡ false
        → multicore_check_done core_id s.cores ≡ false
        → Step s (record s { asleep = true })
    rouse :
        s.asleep ≡ true
        → (s.cores 0).event ≡ true
        → Step s (record s { cores = clear_event 0 s.cores; asleep = false })
    signal :
        (core_id : ℕ)
        → is_core_id_valid core_id ≡ true
        → (s.cores core_id).pc ≡ signalling
        → Step s (record s {
          cores = sev (update s.cores core_id (record (s.cores core_id) { pc = polling }));
        })
    core :
        (core_id : ℕ) {m : M} {c : Core}
        → is_core_id_valid core_id ≡ true
        → Move s.mem (s.cores core_id) m c
        → Step s (record s { mem = m; cores = update s.cores core_id c })

  pub data Reach (s : System) : System → Type 0 where
    here : Reach s s
    next : {t u : System} → Reach s t → Step t u → Reach s u
