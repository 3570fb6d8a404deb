-- ===== src/Boot/Errors/Copy.antt =====
-- The copy loop of `get_code`: which bytes it writes.
use pi3_distributed_llm_infe.Base.{
  ℕ, zero, suc, ◌+◌, ◌^◌, ◌≤◌, ◌<◌, ◌≡◌, refl, ap, ap₂, ◌∙◌, arith, List, [], ◌∷◌, ◌++◌, some, ◌⊎◌,
  inl, u32, length,
}
use pi3_distributed_llm_infe.Boot.Pi.{put8, copy_code, memory_bytes}

-- It writes nothing outside of its range, even when the stream ends too early.
pub copy_code_keeps :
    (left addr : ℕ) (s : List ℕ) (mem : ℕ → ℕ) (b : ℕ)
    → (b < addr) ⊎ (addr + left ≤ b)
    → addr + left < 2 ^ 32
    → (copy_code left addr s mem).1 b ≡ mem b
unfolding copy_code
copy_code_keeps zero addr s mem b h w = refl
copy_code_keeps (suc left) addr [] mem b h w = refl
copy_code_keeps (suc left) addr (x ∷ s) mem b h w =
    let next : u32 (addr + 1) ≡ addr + 1 = omega arith in
    let kept : put8 addr x mem b ≡ mem b = ground arith in
    ap (λ a. (copy_code left a s (put8 addr x mem)).1 b) next
    ∙ copy_code_keeps left (addr + 1) s (put8 addr x mem) b (ground arith) (omega arith)
    ∙ kept

-- The bytes that it takes off the stream are then in memory, in their order.
pub copy_code_lem :
    (buf rest : List ℕ) (addr : ℕ) (mem : ℕ → ℕ)
    → addr + length buf < 2 ^ 32
    → ((copy_code (length buf) addr (buf ++ rest) mem).0 ≡ some rest)
      × (memory_bytes (length buf) addr (copy_code (length buf) addr (buf ++ rest) mem).1 ≡ buf)
unfolding copy_code memory_bytes
copy_code_lem [] rest addr mem w = (refl, refl)
copy_code_lem (x ∷ buf) rest addr mem w =
    let next : u32 (addr + 1) ≡ addr + 1 = omega arith in
    let (e, m) = copy_code_lem buf rest (addr + 1) (put8 addr x mem) (omega arith) in
    let first : (copy_code (length buf) (addr + 1) (buf ++ rest) (put8 addr x mem)).1 addr ≡ x =
      copy_code_keeps (length buf) (addr + 1) (buf ++ rest) (put8 addr x mem) addr
        (inl (omega arith)) (omega arith)
      ∙ ground arith in
    (rw next e, rw next (ap₂ ◌∷◌ first m))
