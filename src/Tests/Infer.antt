-- ===== src/Tests/Infer.antt =====
-- The inference program at small inputs, with natural numbers in the place of floats.
use pi3_distributed_llm_infe.Base.{
  ℕ, leb, Bool, true, false, zero, suc, ◌≡◌, ◌≢◌, ◌+◌, ◌*◌, ◌≤◌, ◌<◌, ◌⊎◌, refl, arith, List, [],
  ◌∷◌, some, ltb, get_elem?, length, subst,
}
use pi3_distributed_llm_infe.Base.Int.{ℤ, pos}
use pi3_distributed_llm_infe.Libc.Str.Compare.{IsText}
use pi3_distributed_llm_infe.Multicore.{Core, dozing, System, Step, Reach}
use pi3_distributed_llm_infe.Multicore.Live.{measure, length_of}
use pi3_distributed_llm_infe.Infer.Float.{Floats}
use pi3_distributed_llm_infe.Infer.Matmul.{worker_rows}
use pi3_distributed_llm_infe.Infer.Matmul.Interleaved.{
  IsIdle, worker_job, write_row, matmul_start, matmul_end, matmul_interleaved, matmul_returns,
}
use pi3_distributed_llm_infe.Infer.Sampler.{sample_mult, sample_topp}
use pi3_distributed_llm_infe.Infer.Sampler.Draw.{IsDrawn, IsMissed, sample_mult-IsDrawn}
use pi3_distributed_llm_infe.Infer.Sampler.Topp.{kept, sample_topp-kept}
use pi3_distributed_llm_infe.Infer.Tokenizer.{TokenIndex, sort_vocab, str_lookup}
use pi3_distributed_llm_infe.Infer.Tokenizer.Lookup.{LookedUp, str_lookup-LookedUp}
use pi3_distributed_llm_infe.Infer.Tokenizer.Bytes.{byte_token}

abbrev naturals : Floats
naturals = record { Float = ℕ; zero = 0; add = ◌+◌; mul = ◌*◌; vmla = λ acc p q. acc + p * q }

abbrev cores : ℕ → Core
cores c = record { online = 1; func = 0; arg = 0; seq = 0; done = 0; event = false; pc = dozing }

cores-IsIdle : IsIdle cores
cores-IsIdle = record {
  online = λ c h. omega arith;
  small = λ c. omega arith;
  done = λ c. refl;
  pc = λ c. refl;
}

-- Two rows of five columns.
abbrev x : List ℕ
x = 1 ∷ 2 ∷ 3 ∷ 4 ∷ 5 ∷ []

abbrev w : List ℕ
w = 1 ∷ 0 ∷ 0 ∷ 0 ∷ 1 ∷ 0 ∷ 2 ∷ 0 ∷ 2 ∷ 0 ∷ []

fits_x : 5 ≤ length x
fits_x = omega arith

fits_w : 2 * 5 ≤ length w
fits_w = omega arith

abbrev worker : ℕ
worker = 32768

worker_nonzero : worker ≢ 0
worker_nonzero = λ e. absurd (omega arith)

-- A run of the four cores to the end of `matmul`.
abbrev ended :
    (t : System
      (worker_job worker 2)
      (write_row naturals x w 5 2 fits_x fits_w worker worker_nonzero))
    × Reach
        (worker_job worker 2)
        (write_row naturals x w 5 2 fits_x fits_w worker worker_nonzero)
        (matmul_start naturals x w 5 2 fits_x fits_w worker worker_nonzero (0 ∷ 0 ∷ []) cores)
        t
    × (t.script ≡ [])
ended =
    matmul_end naturals x w 5 2 fits_x fits_w worker worker_nonzero (0 ∷ 0 ∷ []) cores cores-IsIdle

matmul_interleaved_example : worker_rows naturals x w 5 2 0 (0 ∷ 0 ∷ []) ≡ some ended.0.mem
matmul_interleaved_example =
    matmul_interleaved naturals x w 5 2 fits_x fits_w worker worker_nonzero (0 ∷ 0 ∷ []) cores
      cores-IsIdle refl {t = ended.0} ended.1 ended.2

matmul_returns_example :
    (length_of
        (worker_job worker 2)
        (write_row naturals x w 5 2 fits_x fits_w worker worker_nonzero)
        ended.1
      ≤ measure
          (worker_job worker 2)
          (write_row naturals x w 5 2 fits_x fits_w worker worker_nonzero)
          (matmul_start naturals x w 5 2 fits_x fits_w worker worker_nonzero (0 ∷ 0 ∷ []) cores))
    × ((ended.0.script ≡ [])
        ⊎ ((u : System
              (worker_job worker 2)
              (write_row naturals x w 5 2 fits_x fits_w worker worker_nonzero))
            × Step
                (worker_job worker 2)
                (write_row naturals x w 5 2 fits_x fits_w worker worker_nonzero)
                ended.0
                u))
matmul_returns_example =
    matmul_returns naturals x w 5 2 fits_x fits_w worker worker_nonzero (0 ∷ 0 ∷ []) cores
      cores-IsIdle {t = ended.0} ended.1

abbrev one : ℕ
one = 1

abbrev weights : List ℕ
weights = 3 ∷ 8 ∷ 1 ∷ []

nonempty : weights ≢ []
nonempty e = cc

sample_mult_example :
    (i : ℕ) × (sample_mult ◌+◌ ltb 0 weights 5 ≡ pos i)
    × (i < 3)
    × (IsDrawn ◌+◌ ltb 0 weights 5 i ⊎ (IsMissed ◌+◌ ltb 0 weights 5 × (i + 1 ≡ 3)))
sample_mult_example = sample_mult-IsDrawn ◌+◌ ltb 0 5 weights nonempty

-- The vocabulary "b", "ab", "<0x0A>".
abbrev vocab : List (List ℕ)
vocab = (98 ∷ []) ∷ (97 ∷ 98 ∷ []) ∷ byte_token 10 ∷ []

text : (a s : List ℕ) → IsText a → some a ≡ some s → IsText s
text a s t e = let same : a ≡ s = cc in subst IsText same t

vocab-IsText : (i : ℕ) (s : List ℕ) → get_elem? vocab i ≡ some s → IsText s
vocab-IsText zero s e = text (98 ∷ []) s (omega arith, tt) e
vocab-IsText (suc zero) s e = text (97 ∷ 98 ∷ []) s (omega arith, (omega arith, tt)) e
vocab-IsText (suc (suc zero)) s e =
    text (byte_token 10) s
      (omega arith, (omega arith, (omega arith, (omega arith, (omega arith, (omega arith, tt)))))) e
vocab-IsText (suc (suc (suc i))) s e = cc

str_lookup_example :
    (sorted : List TokenIndex) × (sort_vocab vocab ≡ some sorted)
    × ((id : ℤ) × (str_lookup (97 ∷ 98 ∷ []) sorted ≡ some id) × LookedUp vocab (97 ∷ 98 ∷ []) id)
str_lookup_example =
    str_lookup-LookedUp vocab (97 ∷ 98 ∷ []) vocab-IsText (omega arith, (omega arith, tt))

abbrev more : ℕ → ℕ → Bool
more a b = ltb b a

abbrev at_least : ℕ → ℕ → Bool
at_least a b = leb b a

abbrev two : ℕ → ℕ → ℕ
two topp n = 2

sample_topp_example :
    (index : ℕ) × (sample_topp ◌+◌ ◌*◌ more at_least ltb two 0 weights 10 1 ≡ some index)
    × (kept ◌+◌ ◌*◌ more at_least ltb two 10 weights index ≡ true)
sample_topp_example =
    sample_topp-kept ◌+◌ ◌*◌ more at_least ltb two (λ a b h. ground arith)
      (λ a b c h k. ground arith) (λ a b. refl) 0 10 1 weights 0 3 refl refl
