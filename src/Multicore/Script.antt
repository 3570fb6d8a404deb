-- ===== src/Multicore/Script.antt =====
-- What the cores and the script of core 0 still have to do, and which scripts are sound.
use pi3_distributed_llm_infe.Base.{
  ℕ, ◌≡◌, ◌≢◌, Bool, true, false, List, [], ◌∷◌, ◌++◌, ◌||◌, ◌==◌, if◌then◌else◌, ◌<◌, ◌^◌, ◌⊎◌,
  inr, refl, arith,
}
use pi3_distributed_llm_infe.Multicore.{
  Core, Pc, polling, dozing, signalling, woken, got_seq, got_func, got_arg, running, Command, call,
  work, wait, is_core_id_valid,
}

abbrev pub elem : ℕ → List ℕ → Bool
elem i [] = false
elem i (x ∷ xs) = x == i || elem i xs

abbrev pub has_call : ℕ → List Command → Bool
has_call c [] = false
has_call c (call d f a ∷ r) = d == c || has_call c r
has_call c (work i ∷ r) = has_call c r
has_call c (wait d ∷ r) = has_call c r

abbrev pub has_wait : ℕ → List Command → Bool
has_wait c [] = false
has_wait c (call d f a ∷ r) = has_wait c r
has_wait c (work i ∷ r) = has_wait c r
has_wait c (wait d ∷ r) = d == c || has_wait c r

-- Each call is of a core that is not called again, and that is waited for afterwards; each wait is of
-- a core with a command box.
abbrev pub IsSound : List Command → Type 0
IsSound [] = Unit
IsSound (call c f a ∷ r) =
    (is_core_id_valid c ≡ true)
    × (f ≢ 0)
    × (has_call c r ≡ false)
    × (has_wait c r ≡ true)
    × IsSound r
IsSound (work i ∷ r) = IsSound r
IsSound (wait c ∷ r) = (is_core_id_valid c ≡ true) × IsSound r

-- A core that has no command, or has not seen it yet.
abbrev pub is_between : Pc → Bool
is_between polling = true
is_between dozing = true
is_between signalling = true
is_between woken = false
is_between (got_seq q) = false
is_between (got_func q f) = false
is_between (got_arg q f a) = false
is_between (running q left) = false

-- What the local variables of a core say about its box.
abbrev pub IsFresh : Core → Pc → Type 0
IsFresh c polling = Unit
IsFresh c dozing = Unit
IsFresh c signalling = Unit
IsFresh c woken = c.seq ≢ c.done
IsFresh c (got_seq q) = (c.seq ≢ c.done) × (q ≡ c.seq)
IsFresh c (got_func q f) = (c.seq ≢ c.done) × (q ≡ c.seq) × (f ≡ c.func)
IsFresh c (got_arg q f a) = (c.seq ≢ c.done) × (q ≡ c.seq) × (f ≡ c.func) × (a ≡ c.arg)
IsFresh c (running q left) = (c.seq ≢ c.done) × (q ≡ c.seq)

pub record IsCoherent (c : Core) : Type 0 where
  pub small : c.seq < 2 ^ 32
  pub fresh : IsFresh c c.pc

module _ (job : ℕ → ℕ → List ℕ) where
  abbrev pub job_of : ℕ → ℕ → List ℕ
  job_of f a = if f == 0 then [] else job f a

  -- The pieces of work that a core has been handed and has not done.
  abbrev pub pending : Core → Pc → List ℕ
  pending c polling = if c.seq == c.done then [] else job_of c.func c.arg
  pending c dozing = if c.seq == c.done then [] else job_of c.func c.arg
  pending c signalling = if c.seq == c.done then [] else job_of c.func c.arg
  pending c woken = job_of c.func c.arg
  pending c (got_seq q) = job_of c.func c.arg
  pending c (got_func q f) = job_of f c.arg
  pending c (got_arg q f a) = job_of f a
  pending c (running q left) = left

  -- The pieces of work in a script, those of the jobs that it will post included.
  abbrev pub planned : List Command → List ℕ
  planned [] = []
  planned (call c f a ∷ r) = job f a ++ planned r
  planned (work i ∷ r) = i ∷ planned r
  planned (wait c ∷ r) = planned r

  -- A core that is not behind its box is between two commands, and owes nothing.
  fresh_pending : (c : Core) (p : Pc) → IsFresh c p → c.seq ≡ c.done → pending c p ≡ []
  fresh_pending c polling f e = ground (arith, e)
  fresh_pending c dozing f e = ground (arith, e)
  fresh_pending c signalling f e = ground (arith, e)
  fresh_pending c woken f e = absurd (f e)
  fresh_pending c (got_seq q) f e = absurd (f.0 e)
  fresh_pending c (got_func q g) f e = absurd (f.0 e)
  fresh_pending c (got_arg q g a) f e = absurd (f.0 e)
  fresh_pending c (running q l) f e = absurd (f.0 e)

  pub idle_pending : (c : Core) → IsCoherent c → c.seq ≡ c.done → pending c c.pc ≡ []
  idle_pending c v e = fresh_pending c c.pc v.fresh e

  -- A core between two commands that is behind its box owes the job of the next.
  pub between_pending :
      (c : Core) (p : Pc) → is_between p ≡ true → c.seq ≢ c.done → pending c p ≡ job_of c.func c.arg
  between_pending c polling b ne = ground (arith, ne)
  between_pending c dozing b ne = ground (arith, ne)
  between_pending c signalling b ne = ground (arith, ne)
  between_pending c woken b ne = cc
  between_pending c (got_seq q) b ne = cc
  between_pending c (got_func q g) b ne = cc
  between_pending c (got_arg q g a) b ne = cc
  between_pending c (running q l) b ne = cc

  -- The event registers do not matter to what a core owes.
  pub pending-event :
      (c : Core) (b : Bool) (p : Pc) → pending (record c { event = b }) p ≡ pending c p
  pending-event c b polling = refl
  pending-event c b dozing = refl
  pending-event c b signalling = refl
  pending-event c b woken = refl
  pending-event c b (got_seq q) = refl
  pending-event c b (got_func q g) = refl
  pending-event c b (got_arg q g a) = refl
  pending-event c b (running q l) = refl

pub between-IsFresh : (c : Core) (p : Pc) → is_between p ≡ true → IsFresh c p
between-IsFresh c polling b = tt
between-IsFresh c dozing b = tt
between-IsFresh c signalling b = tt
between-IsFresh c woken b = cc
between-IsFresh c (got_seq q) b = cc
between-IsFresh c (got_func q g) b = cc
between-IsFresh c (got_arg q g a) b = cc
between-IsFresh c (running q l) b = cc

event-IsFresh : (c : Core) (b : Bool) (p : Pc) → IsFresh c p → IsFresh (record c { event = b }) p
event-IsFresh c b polling f = f
event-IsFresh c b dozing f = f
event-IsFresh c b signalling f = f
event-IsFresh c b woken f = f
event-IsFresh c b (got_seq q) f = f
event-IsFresh c b (got_func q g) f = f
event-IsFresh c b (got_arg q g a) f = f
event-IsFresh c b (running q l) f = f

pub event-IsCoherent : (c : Core) (b : Bool) → IsCoherent c → IsCoherent (record c { event = b })
event-IsCoherent c b v = record { small = v.small; fresh = event-IsFresh c b c.pc v.fresh }

pub elem-append :
    (i : ℕ) (xs ys : List ℕ) → elem i (xs ++ ys) ≡ true → (elem i xs ≡ true) ⊎ (elem i ys ≡ true)
elem-append i [] ys h = inr h
elem-append i (x ∷ xs) ys h = ground (arith, elem-append i xs ys)
