-- ===== src/Multicore/Done.antt =====
-- When the script of core 0 has run, every piece of work has been done, whatever the interleaving.
pub mod Core
use pi3_distributed_llm_infe.Base.{
  ℕ, ◌≡◌, ◌≢◌, refl, sym, ◌∙◌, Bool, true, false, List, [], ◌∷◌, ◌++◌, ◌⊎◌, inl, inr, arith, ◌==◌,
  ==_iff, if◌then◌else◌, Bool-cases, ◌||◌, ◌+◌, ==_self, u32, subst, ap,
}
use pi3_distributed_llm_infe.Multicore.{
  Core as Box, update, polling, sev, Command, call, work, wait, is_core_id_valid, System, Move, run,
  Step, post, own, passed, sleep, rouse, signal, core, Reach, here, next, multicore_call_async,
  multicore_check_done, ok,
}
use pi3_distributed_llm_infe.Multicore.Script.{
  elem, has_call, has_wait, IsSound, IsCoherent, is_between, between_pending, between-IsFresh,
  pending-event, event-IsCoherent, pending, planned, idle_pending, elem-append,
}
use pi3_distributed_llm_infe.Multicore.Done.Core.{Kept, Move-Kept, signal-Kept}

module _ {M : Type 0} (job : ℕ → ℕ → List ℕ) (act : ℕ → M → M) (Right : M → ℕ → Type 0)
    (act_does : (i : ℕ) (m : M) → Right (act i m) i)
    (act_keeps : (i j : ℕ) (m : M) → Right m j → Right (act i m) j) (Wanted : ℕ → Type 0) where
  -- A piece that is done, or planned by core 0, or handed to a core that has yet to do it.
  abbrev pub Covered : System job act → ℕ → Type 0
  Covered s i =
      Right s.mem i
      ⊎ ((elem i (planned job s.script) ≡ true)
          ⊎ ((c : ℕ) × (is_core_id_valid c ≡ true)
              × (elem i (pending job (s.cores c) (s.cores c).pc) ≡ true)))

  pub record Inv (s : System job act) : Type 0 where
    pub sound : IsSound s.script
    pub coherent : (c : ℕ) → IsCoherent (s.cores c)
    pub callable :
        (c : ℕ)
        → has_call c s.script ≡ true
        → ((s.cores c).online ≢ 0)
          × ((s.cores c).seq ≡ (s.cores c).done)
          × (is_between (s.cores c).pc ≡ true)
    pub awaited :
        (c : ℕ)
        → is_core_id_valid c ≡ true
        → (s.cores c).seq ≢ (s.cores c).done
        → has_wait c s.script ≡ true
    pub covered : (i : ℕ) → Wanted i → Covered s i

  -- At the end of the script nothing is planned, no core is busy, and an idle core owes nothing.
  Inv-finished : {s : System job act} → Inv s → s.script ≡ [] → (i : ℕ) → Wanted i → Right s.mem i
  Inv-finished {s} v e i w = finish (v.covered i w)
    where
      idle : (c : ℕ) → is_core_id_valid c ≡ true → (s.cores c).seq ≡ (s.cores c).done
      idle c valid = elim (Bool-cases ((s.cores c).seq == (s.cores c).done)) [
        | inl same ↦ (==_iff _ _).0 same
        | inr other ↦ absurd (cc (v.awaited c valid (λ h. cc ((==_iff _ _).1 h)), e))
      ]

      finish : Covered s i → Right s.mem i
      finish (inl r) = r
      finish (inr (inl p)) = absurd (cc (subst (λ l. elem i (planned job l) ≡ true) e p))
      finish (inr (inr (c, valid, p))) =
          absurd (cc (p, idle_pending job (s.cores c) (v.coherent c) (idle c valid)))

  -- The event registers and the sleep of core 0 do not matter to it.
  events-Inv :
      {s : System job act} (event : ℕ → Bool) (asleep : Bool)
      → Inv s
      → Inv (record s { cores = λ c. record (s.cores c) { event = event c }; asleep = asleep })
  events-Inv {s} event asleep v = record {
    sound = v.sound;
    coherent = λ c. event-IsCoherent (s.cores c) (event c) (v.coherent c);
    callable = v.callable;
    awaited = v.awaited;
    covered = λ i w. cover i (v.covered i w);
  }
    where
      cover :
          (i : ℕ)
          → Covered s i
          → Covered
              (record s { cores = λ c. record (s.cores c) { event = event c }; asleep = asleep })
              i
      cover i (inl r) = inl r
      cover i (inr (inl p)) = inr (inl p)
      cover i (inr (inr (c, valid, p))) =
          inr (inr (c, valid, rw (pending-event job (s.cores c) (event c) (s.cores c).pc) p))

  module _ {s : System job act} (v : Inv s) where
    own-Inv :
        (i : ℕ) (rest : List Command)
        → s.script ≡ work i ∷ rest
        → Inv (record s { mem = act i s.mem; script = rest })
    own-Inv j rest e = record {
      sound = subst IsSound e v.sound;
      coherent = v.coherent;
      callable = λ c h. v.callable c (subst (λ l. has_call c l ≡ true) (sym e) h);
      awaited = λ c valid ne. subst (λ l. has_wait c l ≡ true) e (v.awaited c valid ne);
      covered = λ i w. cover i (v.covered i w);
    }
      where
        cover : (i : ℕ) → Covered s i → Covered (record s { mem = act j s.mem; script = rest }) i
        cover i (inl r) = inl (act_keeps j i s.mem r)
        cover i (inr (inr o)) = inr (inr o)
        cover i (inr (inl p)) =
            let p' = subst (λ l. elem i (planned job l) ≡ true) e p in
            elim (Bool-cases (j == i)) [
              | inl same ↦
                  inl (subst (Right (act j s.mem)) ((==_iff j i).0 same) (act_does j s.mem))
              | inr other ↦ inr (inl (rw other at p'))
            ]

    passed-Inv :
        (d : ℕ) (rest : List Command)
        → s.script ≡ wait d ∷ rest
        → multicore_check_done d s.cores ≡ true
        → Inv (record s { script = rest })
    unfolding multicore_check_done
    passed-Inv d rest e done = record {
      sound = (subst IsSound e v.sound).1;
      coherent = v.coherent;
      callable = λ c h. v.callable c (subst (λ l. has_call c l ≡ true) (sym e) h);
      awaited =
          λ c valid ne. still c ne (subst (λ l. has_wait c l ≡ true) e (v.awaited c valid ne));
      covered = λ i w. cover i (v.covered i w);
    }
      where
        still :
            (c : ℕ)
            → (s.cores c).seq ≢ (s.cores c).done
            → has_wait c (wait d ∷ rest) ≡ true
            → has_wait c rest ≡ true
        still c ne h = elim (Bool-cases (d == c)) [
          | inl same ↦
              let e' : d ≡ c = (==_iff d c).0 same in
              let done' = subst (λ x. ((s.cores x).seq == (s.cores x).done) ≡ true) e' done in
              absurd (ne ((==_iff _ _).0 done'))
          | inr other ↦ rw other at h
        ]

        cover : (i : ℕ) → Covered s i → Covered (record s { script = rest }) i
        cover i (inl r) = inl r
        cover i (inr (inr o)) = inr (inr o)
        cover i (inr (inl p)) = inr (inl (subst (λ l. elem i (planned job l) ≡ true) e p))

    -- The new box of a core that a command was posted to.
    abbrev pub posted : ℕ → ℕ → ℕ → Box
    posted d f a = record (s.cores d) { func = f; arg = a; seq = u32 ((s.cores d).seq + 1) }

    -- The core that a sound script posts to is idle, and takes the command.
    pub record Accepted (d f a : ℕ) (rest : List Command) : Type 0 where
      pub valid : is_core_id_valid d ≡ true
      pub not_null : f ≢ 0
      pub no_more_calls : has_call d rest ≡ false
      pub waited : has_wait d rest ≡ true
      pub rest_sound : IsSound rest
      pub online : (s.cores d).online ≢ 0
      pub idle : (s.cores d).seq ≡ (s.cores d).done
      pub between : is_between (s.cores d).pc ≡ true
      pub busy : (posted d f a).seq ≢ (posted d f a).done
      pub new : IsCoherent (posted d f a)
      pub accepted : (multicore_call_async d f a s.cores).1 ≡ sev (update s.cores d (posted d f a))

    pub post-Accepted :
        (d f a : ℕ) (rest : List Command) → s.script ≡ call d f a ∷ rest → Accepted d f a rest
    unfolding multicore_call_async
    post-Accepted d f a rest e = record {
      valid = sound.0;
      not_null = sound.1;
      no_more_calls = sound.2;
      waited = sound.3;
      rest_sound = sound.4;
      online = old.0;
      idle = old.1;
      between = old.2;
      busy = omega (arith, (v.coherent d).small, old.1);
      new = record {
        small = omega arith;
        fresh = between-IsFresh (posted d f a) (s.cores d).pc old.2;
      };
      accepted = ground (arith, sound.0, sound.1, old.0, old.1);
    }
      where
        sound : IsSound (call d f a ∷ rest)
        sound = subst IsSound e v.sound

        old :
            ((s.cores d).online ≢ 0)
            × ((s.cores d).seq ≡ (s.cores d).done)
            × (is_between (s.cores d).pc ≡ true)
        old = v.callable d (subst (λ l. has_call d l ≡ true) (sym e) (rw ==_self refl))

    put_command :
        (d f a : ℕ) (rest : List Command)
        → s.script ≡ call d f a ∷ rest
        → Accepted d f a rest
        → Inv (record s { cores = update s.cores d (posted d f a); script = rest })
    put_command d f a rest e k = record {
      sound = k.rest_sound;
      coherent = λ c. ground (arith, v.coherent c, k.new);
      callable = λ c h. callable c h;
      awaited = λ c valid ne. awaited c valid ne;
      covered = λ i w. cover i (v.covered i w);
    }
      where
        callable :
            (c : ℕ)
            → has_call c rest ≡ true
            → let b = update s.cores d (posted d f a) c in
              (b.online ≢ 0) × (b.seq ≡ b.done) × (is_between b.pc ≡ true)
        callable c h = elim (Bool-cases (d == c)) [
          | inl same ↦ absurd (
              cc (
                subst (λ x. has_call x rest ≡ true) (sym ((==_iff d c).0 same)) h,
                k.no_more_calls,
              ))
          | inr other ↦
              rw other (v.callable c (subst (λ l. has_call c l ≡ true) (sym e) (rw other h)))
        ]

        awaited :
            (c : ℕ)
            → is_core_id_valid c ≡ true
            → let b = update s.cores d (posted d f a) c in b.seq ≢ b.done → has_wait c rest ≡ true
        awaited c valid busy = elim (Bool-cases (d == c)) [
          | inl same ↦ subst (λ x. has_wait x rest ≡ true) ((==_iff d c).0 same) k.waited
          | inr other ↦ subst (λ l. has_wait c l ≡ true) e (v.awaited c valid (rw other at busy))
        ]

        handed : pending job (posted d f a) (posted d f a).pc ≡ job f a
        handed =
            between_pending job (posted d f a) (s.cores d).pc k.between k.busy
            ∙ ground (arith, k.not_null)

        cover :
            (i : ℕ)
            → Covered s i
            → Covered (record s { cores = update s.cores d (posted d f a); script = rest }) i
        cover i (inl r) = inl r
        cover i (inr (inl p)) =
            elim (elem-append i (job f a) (planned job rest)
              (subst (λ l. elem i (planned job l) ≡ true) e p)) [
                | inl q ↦ inr (inr (d, k.valid, rw (==_self, handed) q))
                | inr q ↦ inr (inl q)
              ]
        cover i (inr (inr (c, valid, p))) = elim (Bool-cases (d == c)) [
          | inl same ↦
              let e' : c ≡ d = sym ((==_iff d c).0 same) in
              let p' = subst (λ x. elem i (pending job (s.cores x) (s.cores x).pc) ≡ true) e' p in
              absurd (cc (p', idle_pending job (s.cores d) (v.coherent d) k.idle))
          | inr other ↦ inr (inr (c, valid, rw other p))
        ]

    post-Inv :
        (d f a : ℕ) (rest : List Command)
        → s.script ≡ call d f a ∷ rest
        → Inv (record s { cores = (multicore_call_async d f a s.cores).1; script = rest })
    post-Inv d f a rest e = rw k.accepted (events-Inv (λ c. true) s.asleep before)
      where
        k : Accepted d f a rest
        k = post-Accepted d f a rest e

        before : Inv (record s { cores = update s.cores d (posted d f a); script = rest })
        before = put_command d f a rest e k

    core-Inv :
        (d : ℕ) {m : M} {b : Box}
        → is_core_id_valid d ≡ true
        → Kept job act Right act_does act_keeps s.mem (s.cores d) m b
        → Inv (record s { mem = m; cores = update s.cores d b })
    core-Inv d {m} {b} valid k = record {
      sound = v.sound;
      coherent = λ c. ground (arith, v.coherent c, k.coherent);
      callable = λ c h. callable c h;
      awaited = λ c valid' ne. awaited c valid' ne;
      covered = λ i w. cover i (v.covered i w);
    }
      where
        callable :
            (c : ℕ)
            → has_call c s.script ≡ true
            → let b' = update s.cores d b c in
              (b'.online ≢ 0) × (b'.seq ≡ b'.done) × (is_between b'.pc ≡ true)
        callable c h = elim (Bool-cases (d == c)) [
          | inl same ↦
              let old =
                v.callable d
                  (subst (λ x. has_call x s.script ≡ true) (sym ((==_iff d c).0 same)) h) in
              let calm = k.calm old.1 in rw (same, k.online) (old.0, calm.0, calm.1)
          | inr other ↦ rw other (v.callable c h)
        ]

        awaited :
            (c : ℕ)
            → is_core_id_valid c ≡ true
            → let b' = update s.cores d b c in b'.seq ≢ b'.done → has_wait c s.script ≡ true
        awaited c valid' ne = elim (Bool-cases (d == c)) [
          | inl same ↦
              subst (λ x. has_wait x s.script ≡ true) ((==_iff d c).0 same)
                (v.awaited d valid (λ idle. (rw same at ne) (k.calm idle).0))
          | inr other ↦ v.awaited c valid' (rw other at ne)
        ]

        cover : (i : ℕ) → Covered s i → Covered (record s { mem = m; cores = update s.cores d b }) i
        cover i (inl r) = inl (k.rights i r)
        cover i (inr (inl p)) = inr (inl p)
        cover i (inr (inr (c, valid', p))) = elim (Bool-cases (d == c)) [
          | inl same ↦
              let e' : c ≡ d = sym ((==_iff d c).0 same) in
              let p' = subst (λ x. elem i (pending job (s.cores x) (s.cores x).pc) ≡ true) e' p in
              elim (k.work i p') [ inl r ↦ inl r | inr q ↦ inr (inr (d, valid, rw ==_self q)) ]
          | inr other ↦ inr (inr (c, valid', rw other p))
        ]

  pub Step-Inv : {s t : System job act} → Step job act s t → Inv s → Inv t
  Step-Inv (post {core_id} {f} {a} {rest} e) v = post-Inv v core_id f a rest e
  Step-Inv (own {i} {rest} e) v = own-Inv v i rest e
  Step-Inv (passed {core_id} {rest} e up done) v = passed-Inv v core_id rest e done
  Step-Inv {s} (sleep e up busy) v = events-Inv (λ c. (s.cores c).event) true v
  Step-Inv {s} (rouse down set) v =
      events-Inv (λ c. if 0 == c then false else (s.cores c).event) false v
  Step-Inv {s} (signal d valid e) v =
      events-Inv (λ c. true) s.asleep
        (core-Inv v d valid
          (signal-Kept job act Right act_does act_keeps s.mem (s.cores d) e (v.coherent d)))
  Step-Inv (core d valid mv) v =
      core-Inv v d valid (Move-Kept job act Right act_does act_keeps mv (v.coherent d))

  pub Reach-Inv : {s t : System job act} → Inv s → Reach job act s t → Inv t
  Reach-Inv v here = v
  Reach-Inv v (next r st) = Step-Inv st (Reach-Inv v r)

  -- From a state where the invariant holds, under any interleaving of the cores: once core 0 has run
  -- its script, each wanted piece of work is done.
  pub Reach-Right :
      {s t : System job act}
      → Inv s
      → Reach job act s t
      → t.script ≡ []
      → (i : ℕ) → Wanted i
      → Right t.mem i
  Reach-Right v r e i w = Inv-finished (Reach-Inv v r) e i w
