-- ===== src/Multicore/Live/Weight.antt =====
-- How many steps a core, and a script of core 0, still lead to.
use pi3_distributed_llm_infe.Base.{
  ℕ, ◌+◌, ◌≤◌, ◌<◌, ◌≡◌, ◌≢◌, refl, true, Bool, List, [], ◌∷◌, ◌⊎◌, inl, inr, arith, ◌==◌,
  if◌then◌else◌, length, subst,
}
use pi3_distributed_llm_infe.Multicore.{
  Core as Box, Pc, polling, dozing, signalling, woken, sev, clear_event, got_seq, got_func, got_arg,
  running, Command, call, work, wait, update, is_core_id_valid, Move, wake, doze, listen, load_seq,
  load_func, load_arg, start, skip, run, finish,
}
use pi3_distributed_llm_infe.Multicore.Script.{IsFresh, IsCoherent, is_between, job_of}

-- The sum over the three cores that have a command box.
pub total : (Box → ℕ) → (ℕ → Box) → ℕ
total w cores = w (cores 1) + w (cores 2) + w (cores 3)

id_cases : (d : ℕ) → is_core_id_valid d ≡ true → (d ≡ 1) ⊎ ((d ≡ 2) ⊎ (d ≡ 3))
unfolding is_core_id_valid
id_cases d valid = ground arith

pub total-update :
    (w : Box → ℕ) (cores : ℕ → Box) (d : ℕ) (b : Box)
    → is_core_id_valid d ≡ true
    → total w (update cores d b) + w (cores d) ≡ total w cores + w b
unfolding total
total-update w cores d b valid = elim (id_cases d valid) [
  | inl e ↦ rw e (omega arith)
  | inr (inl e) ↦ rw e (omega arith)
  | inr (inr e) ↦ rw e (omega arith)
]

module _ (job : ℕ → ℕ → List ℕ) where
  -- The steps that a core still has to make, and those that a script leads to. A set event register
  -- costs a core at most two more: it wakes, and goes back to sleep. So a `sev`, which sets four, is worth
  -- nine.
  abbrev pub weight : Box → Pc → ℕ
  weight c dozing = if c.seq == c.done then 0 else 15 + length (job_of job c.func c.arg)
  weight c polling = if c.seq == c.done then 1 else 16 + length (job_of job c.func c.arg)
  weight c signalling = if c.seq == c.done then 10 else 25 + length (job_of job c.func c.arg)
  weight c woken = 15 + length (job_of job c.func c.arg)
  weight c (got_seq q) = 14 + length (job_of job c.func c.arg)
  weight c (got_func q f) = 13 + length (job_of job f c.arg)
  weight c (got_arg q f a) = 12 + length (job_of job f a)
  weight c (running q left) = 11 + length left

  abbrev pub script_weight : List Command → ℕ
  script_weight [] = 0
  script_weight (call c f a ∷ r) = 24 + length (job f a) + script_weight r
  script_weight (work i ∷ r) = 1 + script_weight r
  script_weight (wait c ∷ r) = 1 + script_weight r

  abbrev pub flag_weight : Bool → ℕ
  flag_weight b = if b then 2 else 0

  abbrev pub core_weight : Box → ℕ
  core_weight c = flag_weight c.event + weight c c.pc

  -- What the event register of core 0 and its `wfe` are worth.
  abbrev pub main_weight : Bool → Bool → ℕ
  main_weight event asleep = flag_weight event + (if asleep then 0 else 1)

  weight-event : (c : Box) (b : Bool) (p : Pc) → weight (record c { event = b }) p ≡ weight c p
  weight-event c b polling = refl
  weight-event c b dozing = refl
  weight-event c b signalling = refl
  weight-event c b woken = refl
  weight-event c b (got_seq q) = refl
  weight-event c b (got_func q f) = refl
  weight-event c b (got_arg q f a) = refl
  weight-event c b (running q left) = refl

  -- Core 0 has no weight of its own in the total.
  pub total-clear :
      (cores : ℕ → Box) → total core_weight (clear_event 0 cores) ≡ total core_weight cores
  unfolding total
  total-clear cores = refl

  set_event : (c : Box) → core_weight (record c { event = true }) ≤ core_weight c + 2
  set_event c = omega (arith, weight-event c true c.pc)

  pub total-sev : (cores : ℕ → Box) → total core_weight (sev cores) ≤ total core_weight cores + 6
  unfolding total
  total-sev cores = omega (arith, set_event (cores 1), set_event (cores 2), set_event (cores 3))

  -- Posting a command to a core between two commands.
  pub posted_weight :
      (c b : Box) (p : Pc)
      → is_between p ≡ true
      → c.seq ≡ c.done
      → b.seq ≢ b.done
      → weight b p ≡ weight c p + 15 + length (job_of job b.func b.arg)
  posted_weight c b polling h e ne = ground (arith, e, ne)
  posted_weight c b dozing h e ne = ground (arith, e, ne)
  posted_weight c b signalling h e ne = ground (arith, e, ne)
  posted_weight c b woken h e ne = cc
  posted_weight c b (got_seq q) h e ne = cc
  posted_weight c b (got_func q f) h e ne = cc
  posted_weight c b (got_arg q f a) h e ne = cc
  posted_weight c b (running q left) h e ne = cc

  pub signal_weight :
      (c : Box) → c.pc ≡ signalling → core_weight c ≡ 9 + core_weight (record c { pc = polling })
  signal_weight c e = rw e (ground arith)

  module _ {M : Type 0} (act : ℕ → M → M) where
    pub Move-weight :
        {m m' : M} {c c' : Box}
        → Move job act m c m' c'
        → IsCoherent c
        → core_weight c' < core_weight c
    Move-weight {c} (wake e ne) v = rw e (ground arith)
    Move-weight {c} (doze e same) v = rw e (ground (arith, same))
    Move-weight {c} (listen e set) v = rw (e, set) (ground arith)
    Move-weight {c} (load_seq e) v = rw e (omega arith)
    Move-weight {c} (load_func e) v = rw e (omega arith)
    Move-weight {c} (load_arg e) v = rw e (omega arith)
    Move-weight {c} (start e ne) v = rw e (ground arith)
    Move-weight {c} (skip e z) v = rw e (ground arith)
    Move-weight {c} (run e) v = rw e (omega arith)
    Move-weight {c} (finish {q} e) v =
        let f = subst (IsFresh c) e v.fresh in rw e (ground (arith, f.1))
