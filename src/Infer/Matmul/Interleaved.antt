-- ===== src/Infer/Matmul/Interleaved.antt =====
-- `matmul` on four cores: under every interleaving the output is that of the loop on one core.
use pi3_distributed_llm_infe.Base.{
  ℕ, ◌*◌, ◌^◌, ◌≤◌, ◌<◌, ◌≡◌, ◌≢◌, refl, sym, ◌∙◌, true, List, [], ◌∷◌, ◌++◌, Option, none, some,
  false, arith, ◌⊎◌, inl, inr, ◌==◌, if◌then◌else◌, length, get_elem?, set, length-set,
  get_elem?-set_ne, subst, ap, Bool-cases, ==_iff, ==_self,
}
use pi3_distributed_llm_infe.Base.Swap.{get_elem?-set}
use pi3_distributed_llm_infe.Infer.Float.{Floats}
use pi3_distributed_llm_infe.Infer.Matmul.{
  row_value, worker_rows, matmul_args, rows_of, works, matmul_script,
}
use pi3_distributed_llm_infe.Infer.Matmul.Rows.{Owns, matmul_args_cover}
use pi3_distributed_llm_infe.Infer.Matmul.Parallel.{row_value_total}
use pi3_distributed_llm_infe.Infer.Matmul.OneCore.{list_ext, worker_rows-Rounds}
use pi3_distributed_llm_infe.Multicore.{Core, System, Step, Reach, Command, wait, is_core_id_valid}
use pi3_distributed_llm_infe.Multicore.Script.{
  elem, has_call, has_wait, IsSound, is_between, between-IsFresh, planned,
}
use pi3_distributed_llm_infe.Multicore.Roused.{Roused}
use pi3_distributed_llm_infe.Multicore.Done.{Inv, Reach-Right}
use pi3_distributed_llm_infe.Multicore.Keeps.{Reach-keeps}
use pi3_distributed_llm_infe.Multicore.Live.{measure, length_of, Reach-ends, Reach-end}

works-has_call : (c : ℕ) (is : List ℕ) (r : List Command) → has_call c (works is r) ≡ has_call c r
works-has_call c [] r = refl
works-has_call c (i ∷ is) r = works-has_call c is r

works-has_wait : (c : ℕ) (is : List ℕ) (r : List Command) → has_wait c (works is r) ≡ has_wait c r
works-has_wait c [] r = refl
works-has_wait c (i ∷ is) r = works-has_wait c is r

works-IsSound : (is : List ℕ) (r : List Command) → IsSound r → IsSound (works is r)
works-IsSound [] r h = h
works-IsSound (i ∷ is) r h = works-IsSound is r h

planned-works :
    (job : ℕ → ℕ → List ℕ) (i : ℕ) (is : List ℕ) (r : List Command)
    → elem i is ≡ true
    → elem i (planned job (works is r)) ≡ true
planned-works job i [] r h = cc
planned-works job i (j ∷ is) r h = ground (arith, planned-works job i is r)

elem_left : (i : ℕ) (xs ys : List ℕ) → elem i xs ≡ true → elem i (xs ++ ys) ≡ true
elem_left i [] ys h = cc
elem_left i (x ∷ xs) ys h = ground (arith, elem_left i xs ys)

elem_right : (i : ℕ) (xs ys : List ℕ) → elem i ys ≡ true → elem i (xs ++ ys) ≡ true
elem_right i [] ys h = h
elem_right i (x ∷ xs) ys h = ground (arith, elem_right i xs ys h)

-- The rows that `matmul_worker` at address `worker` computes for its argument.
abbrev pub worker_job : ℕ → ℕ → ℕ → ℕ → List ℕ
worker_job worker d f a = if f == worker then rows_of (matmul_args d a) else []

abbrev pub store : {A : Type 0} → Option A → ℕ → List A → List A
store none i m = m
store (some v) i m = set m i v

-- Every core is between two commands, awake or asleep, and has nothing left to do; the cores 1 to 3 are
-- online.
pub record IsIdle (cores : ℕ → Core) : Type 0 where
  pub online : (c : ℕ) → is_core_id_valid c ≡ true → (cores c).online ≢ 0
  pub small : (c : ℕ) → (cores c).seq < 2 ^ 32
  pub done : (c : ℕ) → (cores c).seq ≡ (cores c).done
  pub pc : (c : ℕ) → is_between (cores c).pc ≡ true

module _ (floats : Floats) (x w : List floats.Float) (n d : ℕ) (fits_x : n ≤ length x)
    (fits_w : d * n ≤ length w) (worker : ℕ) (nonzero : worker ≢ 0) where
  -- A piece of the work is a row of the output.
  abbrev pub write_row : ℕ → List floats.Float → List floats.Float
  write_row i m = store (row_value floats x w n i) i m

  IsRight : List floats.Float → ℕ → Type 0
  IsRight m i = length m ≡ d → i < d → get_elem? m i ≡ row_value floats x w n i

  length-store :
      (v : Option floats.Float) (i : ℕ) (m : List floats.Float) → length (store v i m) ≡ length m
  length-store none i m = refl
  length-store (some v) i m = length-set m i v

  does : (i : ℕ) (m : List floats.Float) → IsRight (write_row i m) i
  unfolding IsRight
  does i m len h =
      let (v, ev) = row_value_total floats x w n d fits_x fits_w i h in
      let size = length-store (row_value floats x w n i) i m in
      rw ev (ground (arith, get_elem?-set m i i v (omega arith)))

  keeps : (i j : ℕ) (m : List floats.Float) → IsRight m j → IsRight (write_row i m) j
  unfolding IsRight
  keeps i j m r len h = elim (Bool-cases (i == j)) [
    | inl same ↦
        subst (λ k. get_elem? (write_row i m) k ≡ row_value floats x w n k) ((==_iff i j).0 same)
          (does i m len (omega (arith, (==_iff i j).0 same, h)))
    | inr other ↦
        kept (ground arith) (row_value floats x w n i)
          (r (sym (length-store (row_value floats x w n i) i m) ∙ len) h)
  ]
    where
      kept :
          i ≢ j
          → (v : Option floats.Float) → get_elem? m j ≡ row_value floats x w n j
          → get_elem? (store v i m) j ≡ row_value floats x w n j
      kept ne none e = e
      kept ne (some v) e = get_elem?-set_ne m v ne ∙ e

  -- The state in which core 0 calls `matmul`.
  abbrev pub matmul_start : List floats.Float → (ℕ → Core) → System (worker_job worker d) write_row
  matmul_start xout cores = record {
    mem = xout;
    cores = cores;
    script = matmul_script worker d;
    asleep = false;
  }

  module _ (xout : List floats.Float) (cores : ℕ → Core) (idle : IsIdle cores) where
    script-IsSound : IsSound (matmul_script worker d)
    unfolding matmul_script is_core_id_valid
    script-IsSound =
        let own = rows_of (matmul_args d 0) in
        let end = wait 1 ∷ wait 2 ∷ wait 3 ∷ [] in
        (
          refl,
          nonzero,
          works-has_call 1 own end,
          works-has_wait 1 own end,
          (
            refl,
            nonzero,
            works-has_call 2 own end,
            works-has_wait 2 own end,
            (
              refl,
              nonzero,
              works-has_call 3 own end,
              works-has_wait 3 own end,
              works-IsSound own end (refl, (refl, (refl, tt))),
            ),
          ),
        )

    calls_valid : (c : ℕ) → has_call c (matmul_script worker d) ≡ true → is_core_id_valid c ≡ true
    unfolding matmul_script is_core_id_valid
    calls_valid c h =
        ground (arith, works-has_call c (rows_of (matmul_args d 0)) (wait 1 ∷ wait 2 ∷ wait 3 ∷ []))

    rows_planned :
        (i : ℕ) → i < d → elem i (planned (worker_job worker d) (matmul_script worker d)) ≡ true
    unfolding matmul_script
    rows_planned i h = rw (==_self worker) (place ((matmul_args_cover d i).0 h))
      where
        place :
            Owns d 0 i ⊎ (Owns d 1 i ⊎ (Owns d 2 i ⊎ Owns d 3 i))
            → elem i (
                rows_of (matmul_args d 1)
                ++ (rows_of (matmul_args d 2)
                    ++ (rows_of (matmul_args d 3)
                        ++ planned
                            (worker_job worker d)
                            (works (rows_of (matmul_args d 0)) (wait 1 ∷ wait 2 ∷ wait 3 ∷ [])))))
              ≡ true
        place (inl p) = elem_right i (rows_of (matmul_args d 1)) _ (
            elem_right i (rows_of (matmul_args d 2)) _ (
              elem_right i (rows_of (matmul_args d 3)) _
                (planned-works (worker_job worker d) i (rows_of (matmul_args d 0)) _ p)))
        place (inr (inl p)) = elem_left i (rows_of (matmul_args d 1)) _ p
        place (inr (inr (inl p))) =
            elem_right i (rows_of (matmul_args d 1)) _ (elem_left i (rows_of (matmul_args d 2)) _ p)
        place (inr (inr (inr p))) = elem_right i (rows_of (matmul_args d 1)) _ (
            elem_right i (rows_of (matmul_args d 2)) _
              (elem_left i (rows_of (matmul_args d 3)) _ p))

    matmul_start-Inv :
        Inv
          (worker_job worker d)
          write_row
          IsRight
          does
          keeps
          (λ i. i < d)
          (matmul_start xout cores)
    matmul_start-Inv = record {
      sound = script-IsSound;
      coherent = λ c. record {
        small = idle.small c;
        fresh = between-IsFresh (cores c) (cores c).pc (idle.pc c);
      };
      callable = λ c h. (idle.online c (calls_valid c h), idle.done c, idle.pc c);
      awaited = λ c valid ne. absurd (ne (idle.done c));
      covered = λ i h. inr (inl (rows_planned i h));
    }

    matmul_start-Roused : Roused (worker_job worker d) write_row (matmul_start xout cores)
    matmul_start-Roused = record {
      roused = λ c valid dozes busy. absurd (busy (idle.done c));
      alarmed = λ down. cc;
    }

    -- With the cores 1 to 3 online and idle, and arrays as long as the loops read: wherever the
    -- interleaving of the four cores has come when core 0 returns from `matmul`, the output array is
    -- the one that the loop over all `d` rows makes on one core.
    pub matmul_interleaved :
        length xout ≡ d
        → {t : System (worker_job worker d) write_row}
        → Reach (worker_job worker d) write_row (matmul_start xout cores) t
        → t.script ≡ []
        → worker_rows floats x w n d 0 xout ≡ some t.mem
    unfolding IsRight
    matmul_interleaved size {t} r e =
        let right =
          Reach-Right (worker_job worker d) write_row IsRight does keeps (λ i. i < d)
            matmul_start-Inv r e in
        let (out, o) =
          worker_rows-Rounds floats x w n d fits_x fits_w xout d 0 (omega arith) (omega arith) in
        let same_size : length t.mem ≡ d =
          Reach-keeps (worker_job worker d) write_row (λ m. length m ≡ d)
            (λ i m h. length-store (row_value floats x w n i) i m ∙ h) r size in
        let same : out ≡ t.mem = list_ext out t.mem (o.size ∙ size ∙ sym same_size) (λ i h.
          o.written i (omega arith) (omega (arith, o.size))
          ∙ sym (right i (omega (arith, o.size)) same_size (omega (arith, o.size)))) in
        o.runs ∙ ap some same

    -- With the cores 1 to 3 online and idle, and arrays as long as the loops read, `matmul` returns,
    -- although a core that has nothing to do sleeps until an event wakes it: no interleaving makes more
    -- steps than the measure of the first state, and wherever it stands before core 0 returns, a core
    -- can make a step.
    pub matmul_returns :
        {t : System (worker_job worker d) write_row}
        → (r : Reach (worker_job worker d) write_row (matmul_start xout cores) t)
        → (length_of (worker_job worker d) write_row r
            ≤ measure (worker_job worker d) write_row (matmul_start xout cores))
          × ((t.script ≡ [])
              ⊎ ((u : System (worker_job worker d) write_row) × Step
                    (worker_job worker d)
                    write_row
                    t
                    u))
    matmul_returns r =
        Reach-ends (worker_job worker d) write_row IsRight does keeps (λ i. i < d)
          (matmul_start-Inv, matmul_start-Roused) r

    pub matmul_end :
        (t : System (worker_job worker d) write_row) × Reach
          (worker_job worker d)
          write_row
          (matmul_start xout cores)
          t
        × (t.script ≡ [])
    matmul_end =
        Reach-end (worker_job worker d) write_row IsRight does keeps (λ i. i < d)
          (measure (worker_job worker d) write_row (matmul_start xout cores))
          (matmul_start xout cores) (matmul_start-Inv, matmul_start-Roused) (omega arith)
