-- ===== src/Multicore/Done/Core.antt =====
-- One step of `multicore_main`: what it keeps of its own core, and that it loses no work.
use pi3_distributed_llm_infe.Base.{
  ℕ, ◌≡◌, refl, true, List, [], ◌∷◌, ◌⊎◌, inl, inr, arith, ◌==◌, subst, Bool-cases, ==_iff,
}
use pi3_distributed_llm_infe.Multicore.{
  Core, Pc, polling, dozing, signalling, woken, got_seq, got_func, got_arg, running, Move, wake,
  doze, listen, load_seq, load_func, load_arg, start, skip, run, finish,
}
use pi3_distributed_llm_infe.Multicore.Script.{elem, is_between, IsFresh, IsCoherent, pending}

-- `Right m i` says that piece `i` of the work is done in `m`: doing it makes it so, and no later
-- piece undoes it.
module _ {M : Type 0} (job : ℕ → ℕ → List ℕ) (act : ℕ → M → M) (Right : M → ℕ → Type 0)
    (act_does : (i : ℕ) (m : M) → Right (act i m) i)
    (act_keeps : (i j : ℕ) (m : M) → Right m j → Right (act i m) j) where
  -- The parts of a core that its own steps leave alone, and what stays true of it.
  pub record Kept (m : M) (c : Core) (m' : M) (c' : Core) : Type 0 where
    pub online : c'.online ≡ c.online
    pub seq : c'.seq ≡ c.seq
    pub calm : c.seq ≡ c.done → (c'.seq ≡ c'.done) × (is_between c'.pc ≡ true)
    pub coherent : IsCoherent c'
    pub rights : (i : ℕ) → Right m i → Right m' i
    pub work :
        (i : ℕ)
        → elem i (pending job c c.pc) ≡ true
        → Right m' i ⊎ (elem i (pending job c' c'.pc) ≡ true)

  -- A step that changes no more than where the core stands.
  keep_pc :
      (m : M) (c : Core) (p p' : Pc)
      → c.pc ≡ p
      → IsCoherent c
      → (c.seq ≡ c.done → is_between p' ≡ true)
      → IsFresh (record c { pc = p' }) p'
      → ((i : ℕ)
          → elem i (pending job c p) ≡ true
          → elem i (pending job (record c { pc = p' }) p') ≡ true)
      → Kept m c m (record c { pc = p' })
  keep_pc m c p p' e v calm f w = record {
    online = refl;
    seq = refl;
    calm = λ h. (h, calm h);
    coherent = record { small = v.small; fresh = f };
    rights = λ i r. r;
    work = λ i h. inr (w i (subst (λ x. elem i (pending job c x) ≡ true) e h));
  }

  pub Move-Kept : {m m' : M} {c c' : Core} → Move job act m c m' c' → IsCoherent c → Kept m c m' c'
  Move-Kept {m} {c} (wake e ne) v =
      keep_pc m c polling woken e v (λ h. absurd (ne h)) ne (λ i h. ground (arith, h))
  Move-Kept {m} {c} (doze e same) v = keep_pc m c polling dozing e v (λ h. refl) tt (λ i h. h)
  Move-Kept {m} {c} (listen e set) v = record {
    online = refl;
    seq = refl;
    calm = λ h. (h, refl);
    coherent = record { small = v.small; fresh = tt };
    rights = λ i r. r;
    work = λ i h. inr (subst (λ x. elem i (pending job c x) ≡ true) e h);
  }
  Move-Kept {m} {c} (load_seq e) v =
      let f = subst (IsFresh c) e v.fresh in
      keep_pc m c woken (got_seq c.seq) e v (λ h. absurd (f h)) (f, refl) (λ i h. h)
  Move-Kept {m} {c} (load_func {q} e) v =
      let f = subst (IsFresh c) e v.fresh in
      keep_pc m c (got_seq q) (got_func q c.func) e v (λ h. absurd (f.0 h)) (f.0, f.1, refl)
        (λ i h. h)
  Move-Kept {m} {c} (load_arg {q} {f = g} e) v =
      let f = subst (IsFresh c) e v.fresh in
      keep_pc m c (got_func q g) (got_arg q g c.arg) e v (λ h. absurd (f.0 h)) (f.0, f.1, f.2, refl)
        (λ i h. h)
  Move-Kept {m} {c} (start {q} {f = g} {a} e ne) v =
      let f = subst (IsFresh c) e v.fresh in
      keep_pc m c (got_arg q g a) (running q (job g a)) e v (λ h. absurd (f.0 h)) (f.0, f.1)
        (λ i h. ground (arith, h))
  Move-Kept {m} {c} (skip {q} {f = g} {a} e z) v =
      let f = subst (IsFresh c) e v.fresh in
      keep_pc m c (got_arg q g a) (running q []) e v (λ h. absurd (f.0 h)) (f.0, f.1)
        (λ i h. ground (arith, h))
  Move-Kept {m} {c} (run {q} {i = j} {left} e) v =
      let f = subst (IsFresh c) e v.fresh in
      record {
        online = refl;
        seq = refl;
        calm = λ h. absurd (f.0 h);
        coherent = record { small = v.small; fresh = f };
        rights = λ i r. act_keeps j i m r;
        work = λ i h. split i (subst (λ x. elem i (pending job c x) ≡ true) e h);
      }
    where
      split : (i : ℕ) → elem i (j ∷ left) ≡ true → Right (act j m) i ⊎ (elem i left ≡ true)
      split i h = elim (Bool-cases (j == i)) [
        | inl same ↦ inl (subst (Right (act j m)) ((==_iff j i).0 same) (act_does j m))
        | inr other ↦ inr (rw other at h)
      ]
  Move-Kept {m} {c} (finish {q} e) v =
      let f = subst (IsFresh c) e v.fresh in
      record {
        online = refl;
        seq = refl;
        calm = λ h. absurd (f.0 h);
        coherent = record { small = v.small; fresh = tt };
        rights = λ i r. r;
        work = λ i h. absurd (cc (subst (λ x. elem i (pending job c x) ≡ true) e h));
      }

  -- The `sev` behind a command, less what it does to the event registers.
  pub signal-Kept :
      (m : M) (c : Core) → c.pc ≡ signalling → IsCoherent c → Kept m c m (record c { pc = polling })
  signal-Kept m c e v = keep_pc m c signalling polling e v (λ h. refl) tt (λ i h. h)
