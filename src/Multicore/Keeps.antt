-- ===== src/Multicore/Keeps.antt =====
-- What no piece of work changes stays as it was, under any interleaving.
use pi3_distributed_llm_infe.Base.{ℕ, List}
use pi3_distributed_llm_infe.Multicore.{
  Core, System, Move, wake, doze, listen, load_seq, load_func, load_arg, start, skip, run, finish,
  Step, post, own, passed, sleep, rouse, signal, core, Reach, here, next,
}

module _ {M : Type 0} (job : ℕ → ℕ → List ℕ) (act : ℕ → M → M) (P : M → Type 0)
    (keep : (i : ℕ) (m : M) → P m → P (act i m)) where
  Move-keeps : {m m' : M} {c c' : Core} → Move job act m c m' c' → P m → P m'
  Move-keeps (wake e ne) q = q
  Move-keeps (doze e same) q = q
  Move-keeps (listen e set) q = q
  Move-keeps (load_seq e) q = q
  Move-keeps (load_func e) q = q
  Move-keeps (load_arg e) q = q
  Move-keeps (start e ne) q = q
  Move-keeps (skip e z) q = q
  Move-keeps {m = m} (run {i = i} e) q = keep i m q
  Move-keeps (finish e) q = q

  Step-keeps : {s t : System job act} → Step job act s t → P s.mem → P t.mem
  Step-keeps (post e) q = q
  Step-keeps {s = s} (own {i = i} e) q = keep i s.mem q
  Step-keeps (passed e up done) q = q
  Step-keeps (sleep e up busy) q = q
  Step-keeps (rouse down set) q = q
  Step-keeps (signal d valid e) q = q
  Step-keeps (core d valid mv) q = Move-keeps mv q

  pub Reach-keeps : {s t : System job act} → Reach job act s t → P s.mem → P t.mem
  Reach-keeps here p = p
  Reach-keeps (next r st) p = Step-keeps st (Reach-keeps r p)
