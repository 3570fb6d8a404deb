-- ===== src/Multicore/Roused.antt =====
-- No event is lost: a core at its `wfe` that there is something for will be woken.
use pi3_distributed_llm_infe.Base.{
  ℕ, ◌≡◌, ◌≢◌, refl, sym, Bool, true, false, List, ◌∷◌, ◌⊎◌, inl, inr, arith, ◌==◌, ==_iff,
  Bool-cases, subst,
}
use pi3_distributed_llm_infe.Multicore.{
  Core as Box, dozing, signalling, Command, wait, update, is_core_id_valid, System, Move, wake,
  doze, listen, load_seq, load_func, load_arg, start, skip, run, finish, Step, post, own, passed,
  sleep, rouse, signal, core, multicore_check_done,
}
use pi3_distributed_llm_infe.Multicore.Done.{Inv, post-Accepted, Accepted}

-- What a core does that wakes core 0, or that the event register of core 0 is set.
abbrev pub Alarm : Box → Bool → Type 0
Alarm c event = (c.seq ≢ c.done) ⊎ ((c.pc ≡ signalling) ⊎ (event ≡ true))

pub not_done :
    (cores : ℕ → Box) (c : ℕ)
    → multicore_check_done c cores ≡ false
    → (cores c).seq ≢ (cores c).done
unfolding multicore_check_done
not_done cores c busy = ground arith

not_core_0 : (d : ℕ) → is_core_id_valid d ≡ true → (0 == d) ≡ false
unfolding is_core_id_valid
not_core_0 d valid = ground arith

pub not_to_core_0 : (d : ℕ) → is_core_id_valid d ≡ true → (d == 0) ≡ false
unfolding is_core_id_valid
not_to_core_0 d valid = ground arith

module _ {M : Type 0} (job : ℕ → ℕ → List ℕ) (act : ℕ → M → M) where
  pub record Roused (s : System job act) : Type 0 where
    pub roused :
        (d : ℕ)
        → is_core_id_valid d ≡ true
        → (s.cores d).pc ≡ dozing
        → (s.cores d).seq ≢ (s.cores d).done
        → (s.cores d).event ≡ true
    pub alarmed :
        s.asleep ≡ true
        → (d : ℕ) × (rest : List Command) × (s.script ≡ wait d ∷ rest)
          × Alarm (s.cores d) (s.cores 0).event

  -- A core goes to sleep only where it has nothing to do.
  Move-dozes : {m m' : M} {c c' : Box} → Move job act m c m' c' → c'.pc ≡ dozing → c'.seq ≡ c'.done
  Move-dozes (wake e ne) h = cc
  Move-dozes (doze e same) h = same
  Move-dozes (listen e set) h = cc
  Move-dozes (load_seq e) h = cc
  Move-dozes (load_func e) h = cc
  Move-dozes (load_arg e) h = cc
  Move-dozes (start e ne) h = cc
  Move-dozes (skip e z) h = cc
  Move-dozes (run e) h = cc
  Move-dozes (finish e) h = cc

  -- A core that core 0 waits for is busy until it is about to signal.
  Move-Alarm :
      {m m' : M} {c c' : Box} (event : Bool)
      → Move job act m c m' c'
      → Alarm c event
      → Alarm c' event
  Move-Alarm event mv (inr (inr set)) = inr (inr set)
  Move-Alarm event (wake e ne) (inr (inl h)) = cc
  Move-Alarm event (doze e same) (inr (inl h)) = cc
  Move-Alarm event (listen e set) (inr (inl h)) = cc
  Move-Alarm event (load_seq e) (inr (inl h)) = cc
  Move-Alarm event (load_func e) (inr (inl h)) = cc
  Move-Alarm event (load_arg e) (inr (inl h)) = cc
  Move-Alarm event (start e ne) (inr (inl h)) = cc
  Move-Alarm event (skip e z) (inr (inl h)) = cc
  Move-Alarm event (run e) (inr (inl h)) = cc
  Move-Alarm event (finish e) (inr (inl h)) = cc
  Move-Alarm event (wake e ne) (inl busy) = inl busy
  Move-Alarm event (doze e same) (inl busy) = inl busy
  Move-Alarm event (listen e set) (inl busy) = inl busy
  Move-Alarm event (load_seq e) (inl busy) = inl busy
  Move-Alarm event (load_func e) (inl busy) = inl busy
  Move-Alarm event (load_arg e) (inl busy) = inl busy
  Move-Alarm event (start e ne) (inl busy) = inl busy
  Move-Alarm event (skip e z) (inl busy) = inl busy
  Move-Alarm event (run e) (inl busy) = inl busy
  Move-Alarm event (finish e) (inl busy) = inr (inl refl)

  core-Roused :
      {s : System job act} (d : ℕ) {m : M} {b : Box}
      → is_core_id_valid d ≡ true
      → Move job act s.mem (s.cores d) m b
      → Roused s
      → Roused (record s { mem = m; cores = update s.cores d b })
  core-Roused {s} d {m} {b} valid mv r = record {
    roused = λ c valid' dozes busy. roused c valid' dozes busy;
    alarmed = λ down. alarmed (r.alarmed down);
  }
    where
      roused :
          (c : ℕ)
          → is_core_id_valid c ≡ true
          → let b' = update s.cores d b c in b'.pc ≡ dozing → b'.seq ≢ b'.done → b'.event ≡ true
      roused c valid' dozes busy = elim (Bool-cases (d == c)) [
        | inl same ↦ absurd ((rw same at busy) (Move-dozes mv (rw same at dozes)))
        | inr other ↦ rw other (r.roused c valid' (rw other at dozes) (rw other at busy))
      ]

      alarmed :
          ((w : ℕ) × (rest : List Command) × (s.script ≡ wait w ∷ rest)
            × Alarm (s.cores w) (s.cores 0).event)
          → (w : ℕ) × (rest : List Command) × (s.script ≡ wait w ∷ rest)
            × Alarm (update s.cores d b w) (update s.cores d b 0).event
      alarmed (w, rest, e, alarm) = rw (not_to_core_0 d valid) (elim (Bool-cases (d == w)) [
        | inl same ↦
            let e' : w ≡ d = sym ((==_iff d w).0 same) in
            let alarm' = subst (λ x. Alarm (s.cores x) (s.cores 0).event) e' alarm in
            (w, rest, e, rw same (Move-Alarm (s.cores 0).event mv alarm'))
        | inr other ↦ (w, rest, e, rw other alarm)
      ])

  module _ (Right : M → ℕ → Type 0) (act_does : (i : ℕ) (m : M) → Right (act i m) i)
      (act_keeps : (i j : ℕ) (m : M) → Right m j → Right (act i m) j) (Wanted : ℕ → Type 0) where
    pub Step-Roused :
        {s t : System job act}
        → Step job act s t
        → Inv job act Right act_does act_keeps Wanted s
        → Roused s
        → Roused t
    Step-Roused {s} (post {core_id} {f} {a} {rest} e) v r = rw k.accepted (record {
      roused = λ d valid dozes busy. refl;
      alarmed = λ down. let (w, later, e', alarm) = r.alarmed down in cc (e, e');
    })
      where
        k : Accepted job act Right act_does act_keeps Wanted v core_id f a rest
        k = post-Accepted job act Right act_does act_keeps Wanted v core_id f a rest e
    Step-Roused {s} (own {i} {rest} e) v r = record {
      roused = r.roused;
      alarmed = λ down. let (w, later, e', alarm) = r.alarmed down in cc (e, e');
    }
    Step-Roused {s} (passed {core_id} {rest} e up done) v r = record {
      roused = r.roused;
      alarmed = λ down. cc (up, down);
    }
    Step-Roused {s} (sleep {core_id} {rest} e up busy) v r = record {
      roused = r.roused;
      alarmed = λ down. (core_id, rest, e, inl (not_done s.cores core_id busy));
    }
    Step-Roused {s} (rouse down set) v r = record {
      roused = λ d valid dozes busy. rw (not_core_0 d valid) (r.roused d valid dozes busy);
      alarmed = λ h. cc;
    }
    Step-Roused {s} (signal d valid e) v r = record {
      roused = λ c valid' dozes busy. refl;
      alarmed = λ down. let (w, rest, e', alarm) = r.alarmed down in (w, rest, e', inr (inr refl));
    }
    Step-Roused {s} (core d valid mv) v r = core-Roused d valid mv r
