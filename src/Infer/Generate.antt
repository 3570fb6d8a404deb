-- ===== src/Infer/Generate.antt =====
-- The generation loop of libpi/src/run.c: `generate`, with `sample`, `safe_printf`, and libc/isprint.c and isspace.c. The transformer's pass is a parameter `forward` on a state `S`.
pub mod Loop
pub mod Sample
pub mod Model
use pi3_distributed_llm_infe.Base.{
  ℕ, zero, suc, ◌+◌, ◌-◌, Bool, true, false, List, [], ◌∷◌, ◌++◌, Option, none, some, ◌>>=◌, ◌==◌,
  ◌&&◌, ◌||◌, not, ltb, leb, map, if◌then◌else◌, get_elem?, length, ◌>>>◌,
}
use pi3_distributed_llm_infe.Base.Int.{ℤ, pos, negsuc}
use pi3_distributed_llm_infe.Infer.Float.{Floats}
use pi3_distributed_llm_infe.Infer.Forward.Norm.{Maths, softmax}
use pi3_distributed_llm_infe.Infer.Tokenizer.{decode}
use pi3_distributed_llm_infe.Infer.Encode.{Tokenizer, encode}
use pi3_distributed_llm_infe.Infer.Sampler.{random_u32, sample_argmax, sample_mult, sample_topp}

unfoldable pub isprint : ℕ → Bool
isprint c = leb 32 c && leb c 126

unfoldable pub isspace : ℕ → Bool
isspace c = (c == 32) || (c == 9) || (c == 10) || (c == 11) || (c == 12) || (c == 13)

-- The bytes that `safe_printf` prints of a piece.
unfoldable pub safe_printf : List ℕ → List ℕ
safe_printf [] = []
safe_printf (b ∷ []) = if not (isprint b || isspace b) then [] else b ∷ []
safe_printf (b ∷ c ∷ piece) = b ∷ c ∷ piece

-- `Sampler`, without its buffer.
pub record Sampler (Float : Type 0) : Type 0 where
  pub temperature : Float
  pub topp : Float
  pub rng_state : ℕ

-- The rest of the arithmetic of `sample`, of which nothing is assumed: `cutoff topp n` is
-- `(1.0f - topp) / (n - 1)`, and `unit_of n` is `n / 16777216.0f`.
pub record SampleOps (Float : Type 0) : Type 0 where
  pub equal : Float → Float → Bool
  pub ge : Float → Float → Bool
  pub lt : Float → Float → Bool
  pub le : Float → Float → Bool
  pub cutoff : Float → ℕ → Float
  pub unit_of : ℕ → Float

-- `random_f32`: the new state, and the coin.
unfoldable pub random_f32 : {Float : Type 0} → SampleOps Float → ℕ → ℕ × Float
random_f32 ops state = let r = random_u32 state in (r.0, ops.unit_of (r.1 >>> 8))

-- `sample`: the sampler that it leaves, and the token; `vocab_size` is the length of the logits.
unfoldable pub sample :
    (floats : Floats)
    → Maths floats
    → SampleOps floats.Float
    → Sampler floats.Float
    → List floats.Float
    → Option (Sampler floats.Float × ℤ)
unfolding softmax random_f32
sample floats maths ops sampler logits =
    if ops.equal sampler.temperature floats.zero
    then sample_argmax maths.gt logits >>= (λ next. some (sampler, pos next))
    else (do
      probabilities ←
          softmax floats maths (map (λ q. maths.divide q sampler.temperature) logits)
            (length logits)
      let coin = random_f32 ops sampler.rng_state
      let after = record sampler { rng_state = coin.0 }
      (if ops.le sampler.topp floats.zero || ops.ge sampler.topp maths.one
          then some (after, sample_mult floats.add ops.lt floats.zero probabilities coin.1)
          else (sample_topp floats.add floats.mul maths.gt ops.ge ops.lt ops.cutoff floats.zero
                probabilities sampler.topp coin.1
              >>= (λ next. some (after, pos next)))))

-- The tokens that the loop gives `forward`, in their order, and the bytes that it prints.
pub record Run (S : Type 0) : Type 0 where
  pub fed : List ℤ
  pub out : List ℕ
  pub state : S

-- `decode` of tokens that are `int`s: no entry stands at a negative one, and none is BOS.
unfoldable pub decode_int : List (List ℕ) → ℤ → ℤ → Option (List ℕ)
decode_int vocab prev_token (negsuc n) = none
decode_int vocab (pos p) (pos t) = decode vocab p t
decode_int vocab (negsuc n) (pos t) = decode vocab 0 t

-- `next == 1`
unfoldable pub is_bos : ℤ → Bool
is_bos (pos n) = n == 1
is_bos (negsuc n) = false

module _ {S Logits : Type 0} (forward : S → ℤ → ℕ → Option (S × Logits))
    (choose : S → Logits → Option (S × ℤ)) (vocab : List (List ℕ)) (prompt_tokens : List ℤ) where
  -- The next token, at position `at`: of the prompt, or a sample.
  unfoldable pub next_token : ℕ → S → Logits → Option (S × ℤ)
  next_token at s logits =
      if ltb at (length prompt_tokens - 1)
      then get_elem? prompt_tokens (at + 1) >>= (λ next. some (s, next))
      else choose s logits

  -- `while (pos < steps)` at position `at`, `left` of the steps to go.
  unfoldable pub generate_loop : ℕ → ℕ → ℤ → S → Option (Run S)
  generate_loop zero at token s = some (record { fed = []; out = []; state = s })
  generate_loop (suc left) at token s = do
    (s1, logits) ← forward s token at
    (s2, next) ← next_token at s1 logits
    (let more = (do
      piece ← decode_int vocab token next
      rest ← generate_loop left (at + 1) next s2
      some (record {
        fed = token ∷ rest.fed;
        out = safe_printf piece ++ rest.out;
        state = rest.state;
      })) in
        if is_bos next then some (record { fed = token ∷ []; out = []; state = s2 }) else more)

  -- `generate` behind `encode`, up to the newline; `none` is also the panic on no tokens.
  unfoldable pub generate_tokens : ℕ → S → Option (Run S)
  generate_tokens steps s = do
    token ← get_elem? prompt_tokens 0
    r ← generate_loop steps 0 token s
    some (record r { out = r.out ++ (10 ∷ []) })

-- `generate`: the prompt is encoded with BOS and without EOS. The tokenizer that is left, and the run.
unfoldable pub generate :
    {S Logits Score : Type 0}
    → (S → ℤ → ℕ → Option (S × Logits))
    → (S → Logits → Option (S × ℤ))
    → (Score → Score → Bool)
    → Score
    → Tokenizer Score
    → ℕ
    → List ℕ
    → S
    → Option (Tokenizer Score × Run S)
generate forward choose gt lowest t steps prompt s = do
  (t', prompt_tokens) ← encode gt lowest t true false prompt
  run ← generate_tokens forward choose t.vocab prompt_tokens steps s
  some (t', run)
