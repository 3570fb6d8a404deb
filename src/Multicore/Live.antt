-- ===== src/Multicore/Live.antt =====
-- No interleaving runs forever, and none stops before core 0 has run its script.
pub mod Weight
use pi3_distributed_llm_infe.Base.{
  ℕ, zero, suc, ◌+◌, ◌≤◌, ◌<◌, ◌≡◌, ◌≢◌, refl, true, Bool, List, [], ◌∷◌, ◌⊎◌, inl, inr, arith,
  ◌==◌, if◌then◌else◌, Bool-cases, length, subst,
}
use native.Mathlib.Decide.{ℕ_discrete}
use pi3_distributed_llm_infe.Multicore.{
  Core as Box, Pc, polling, dozing, signalling, woken, sev, clear_event, got_seq, got_func, got_arg,
  running, Command, call, work, wait, update, is_core_id_valid, System, Move, wake, doze, listen,
  load_seq, load_func, load_arg, start, skip, run, finish, Step, post, own, passed, sleep, rouse,
  signal, core, Reach, here, next, multicore_check_done,
}
use pi3_distributed_llm_infe.Multicore.Script.{IsFresh, IsCoherent, is_between, job_of, IsSound}
use pi3_distributed_llm_infe.Multicore.Done.{Inv, Step-Inv, post-Accepted, Accepted, posted}
use pi3_distributed_llm_infe.Multicore.Roused.{Alarm, Roused, Step-Roused, not_to_core_0}
use pi3_distributed_llm_infe.Multicore.Live.Weight.{
  total, total-update, total-clear, total-sev, script_weight, core_weight, main_weight,
  posted_weight, signal_weight, Move-weight,
}

module _ (job : ℕ → ℕ → List ℕ) where
  module _ {M : Type 0} (act : ℕ → M → M) where
    abbrev pub measure : System job act → ℕ
    measure s =
        (script_weight job) s.script
        + total (core_weight job) s.cores
        + (main_weight job) (s.cores 0).event s.asleep

    abbrev pub length_of : {s t : System job act} → Reach job act s t → ℕ
    length_of here = 0
    length_of (next r st) = suc (length_of r)

    module _ (Right : M → ℕ → Type 0) (act_does : (i : ℕ) (m : M) → Right (act i m) i)
        (act_keeps : (i j : ℕ) (m : M) → Right m j → Right (act i m) j) (Wanted : ℕ → Type 0) where
      abbrev pub Inv' : System job act → Type 0
      Inv' s = Inv job act Right act_does act_keeps Wanted s × Roused job act s

      Step-Inv' : {s t : System job act} → Step job act s t → Inv' s → Inv' t
      Step-Inv' st v = (
        Step-Inv job act Right act_does act_keeps Wanted st v.0,
        Step-Roused job act Right act_does act_keeps Wanted st v.0 v.1,
      )

      Reach-Inv' : {s t : System job act} → Inv' s → Reach job act s t → Inv' t
      Reach-Inv' v here = v
      Reach-Inv' v (next r st) = Step-Inv' st (Reach-Inv' v r)

      -- Every step of the system takes the measure down.
      Step-measure : {s t : System job act} → Step job act s t → Inv' s → measure t < measure s
      Step-measure {s} (post {core_id} {f} {a} {rest} e) v =
          rw (e, k.accepted)
            (omega (
              arith,
              (total-sev job) (update s.cores core_id box),
              total-update (core_weight job) s.cores core_id box k.valid,
              after,
            ))
        where
          k : Accepted job act Right act_does act_keeps Wanted v.0 core_id f a rest
          k = post-Accepted job act Right act_does act_keeps Wanted v.0 core_id f a rest e

          box : Box
          box = posted job act Right act_does act_keeps Wanted v.0 core_id f a

          after :
              (core_weight job) box ≡ (core_weight job) (s.cores core_id) + 15 + length (job f a)
          after =
              let heavy =
                (posted_weight job) (s.cores core_id) box (s.cores core_id).pc k.between k.idle
                  k.busy in
              ground (arith, heavy, k.not_null)
      Step-measure {s} (own {i} {rest} e) v = rw e (omega arith)
      Step-measure {s} (passed {core_id} {rest} e up done) v = rw e (omega arith)
      Step-measure {s} (sleep {core_id} {rest} e up busy) v = rw up (omega arith)
      Step-measure {s} (rouse down set) v =
          rw (down, set) (omega (arith, (total-clear job) s.cores))
      Step-measure {s} (signal d valid e) v =
          let b = record (s.cores d) { pc = polling } in
          omega (
            arith,
            (total-sev job) (update s.cores d b),
            total-update (core_weight job) s.cores d b valid,
            (signal_weight job) (s.cores d) e,
          )
      Step-measure {s} (core d {m} {c} valid mv) v = rw (not_to_core_0 d valid) (
          omega (
            arith,
            total-update (core_weight job) s.cores d c valid,
            Move-weight job act mv (v.0.coherent d),
          ))

      -- A core that has a command, or signals, can make a step.
      busy_goes :
          (s : System job act) (d : ℕ) (p : Pc)
          → Inv' s
          → is_core_id_valid d ≡ true
          → (s.cores d).pc ≡ p
          → (s.cores d).seq ≢ (s.cores d).done
          → (t : System job act) × Step job act s t
      busy_goes s d polling v valid e ne = (_, core d valid (wake e ne))
      busy_goes s d dozing v valid e ne = (_, core d valid (listen e (v.1.roused d valid e ne)))
      busy_goes s d signalling v valid e ne = (_, signal d valid e)
      busy_goes s d woken v valid e ne = (_, core d valid (load_seq e))
      busy_goes s d (got_seq q) v valid e ne = (_, core d valid (load_func e))
      busy_goes s d (got_func q f) v valid e ne = (_, core d valid (load_arg e))
      busy_goes s d (got_arg q f a) v valid e ne = elim (ℕ_discrete f 0) [
        | yes z ↦ (_, core d valid (skip e z))
        | no nz ↦ (_, core d valid (start e nz))
      ]
      busy_goes s d (running q []) v valid e ne = (_, core d valid (finish e))
      busy_goes s d (running q (i ∷ left)) v valid e ne = (_, core d valid (run e))

      -- Core 0 at the `wfe` of a wait will be woken, or is.
      asleep_goes :
          (s : System job act) (d : ℕ)
          → Inv' s
          → is_core_id_valid d ≡ true
          → s.asleep ≡ true
          → Alarm (s.cores d) (s.cores 0).event
          → (t : System job act) × Step job act s t
      asleep_goes s d v valid down (inl ne) = busy_goes s d (s.cores d).pc v valid refl ne
      asleep_goes s d v valid down (inr (inl e)) = (_, signal d valid e)
      asleep_goes s d v valid down (inr (inr set)) = (_, rouse down set)

      wait_goes :
          (s : System job act) (d : ℕ) (rest : List Command)
          → Inv' s
          → s.script ≡ wait d ∷ rest
          → (t : System job act) × Step job act s t
      wait_goes s d rest v e = elim (Bool-cases s.asleep) [
        | inl down ↦
            let (w, later, e', alarm) = v.1.alarmed down in
            asleep_goes s w v (subst IsSound e' v.0.sound).0 down alarm
        | inr up ↦ elim (Bool-cases (multicore_check_done d s.cores)) [
          | inl done ↦ (_, passed e up done)
          | inr busy ↦ (_, sleep e up busy)
        ]
      ]

      -- While the script has commands left, some step can be made.
      script_goes :
          (s : System job act) → Inv' s → s.script ≢ [] → (t : System job act) × Step job act s t
      script_goes s v ne = go s.script refl
        where
          go : (l : List Command) → s.script ≡ l → (t : System job act) × Step job act s t
          go [] e = absurd (ne e)
          go (call c f a ∷ rest) e = (_, post e)
          go (work i ∷ rest) e = (_, own e)
          go (wait c ∷ rest) e = wait_goes s c rest v e

      -- The number of steps that have been made and that may still follow never grows.
      Reach-measure :
          {s t : System job act}
          → Inv' s
          → (r : Reach job act s t) → length_of r + measure t ≤ measure s
      Reach-measure v here = omega arith
      Reach-measure v (next r st) =
          omega (arith, Reach-measure v r, Step-measure st (Reach-Inv' v r))

      Reach-after :
          {s t u : System job act} → Step job act s t → Reach job act t u → Reach job act s u
      Reach-after st here = next here st
      Reach-after st (next r last) = next (Reach-after st r) last

      -- There is a run to the end of the script.
      pub Reach-end :
          (fuel : ℕ) (s : System job act)
          → Inv' s
          → measure s ≤ fuel
          → (t : System job act) × Reach job act s t × (t.script ≡ [])
      Reach-end zero s v h = go s.script refl
        where
          go :
              (l : List Command)
              → s.script ≡ l
              → (t : System job act) × Reach job act s t × (t.script ≡ [])
          go [] e = (s, here, e)
          go (c ∷ l) e =
              let (t, st) = script_goes s v (λ n. cc (n, e)) in
              absurd (omega (arith, Step-measure st v))
      Reach-end (suc fuel) s v h = go s.script refl (Reach-end fuel)
        where
          go :
              (l : List Command)
              → s.script ≡ l
              → ((u : System job act)
                  → Inv' u
                  → measure u ≤ fuel
                  → (t : System job act) × Reach job act u t × (t.script ≡ []))
              → (t : System job act) × Reach job act s t × (t.script ≡ [])
          go [] e rec = (s, here, e)
          go (c ∷ l) e rec =
              let (u, st) = script_goes s v (λ n. cc (n, e)) in
              let (t, r, f) = rec u (Step-Inv' st v) (omega (arith, Step-measure st v)) in
              (t, Reach-after st r, f)

      -- From a state where the invariant holds, no interleaving of the cores makes more steps than the
      -- measure of that state, and wherever one stands before the script has run, another step can be
      -- made: core 0 always gets through its waits.
      pub Reach-ends :
          {s t : System job act}
          → Inv' s
          → (r : Reach job act s t)
          → (length_of r ≤ measure s)
            × ((t.script ≡ []) ⊎ ((u : System job act) × Step job act t u))
      Reach-ends {s} {t} v r = (omega (arith, Reach-measure v r), go t.script refl)
        where
          go :
              (l : List Command)
              → t.script ≡ l
              → (t.script ≡ []) ⊎ ((u : System job act) × Step job act t u)
          go [] e = inl e
          go (c ∷ l) e = inr (script_goes t (Reach-Inv' v r) (λ h. cc))
