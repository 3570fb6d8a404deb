-- ===== src/Libc/Printk.antt =====
-- libc/printk.c: the numbers that `printk` writes. Characters are their codes; what a function
-- writes with `putchar` is the list of them.
pub mod Number
use pi3_distributed_llm_infe.Base.{
  ℕ, zero, suc, ◌+◌, ◌-◌, ◌*◌, ◌/◌, ◌%◌, ◌^◌, Bool, List, [], ◌∷◌, ◌++◌, Option, none, some, ◌==◌,
  ◌||◌, ltb, if◌then◌else◌, u32, ◌>>>◌, ◌>>=◌,
}

-- `"0123456789abcdef"[d]`; the strings for the bases 2 and 10 are its beginnings.
unfoldable pub digit : ℕ → ℕ
digit d = if ltb d 10 then 48 + d else 87 + d

-- The `do ... while (u /= base)` loop: each digit goes in front, since the buffer is emitted
-- backwards. `num` is what has been buffered.
unfoldable pub emit_loop : ℕ → ℕ → ℕ → List ℕ → Option (List ℕ)
unfolding digit
emit_loop zero base u num = none
emit_loop (suc fuel) base u num =
    let rest = emit_loop fuel base (u / base) (digit (u % base) ∷ num) in
    if u / base == 0 then some (digit (u % base) ∷ num) else rest

-- `emit_val`: `num` has 33 cells, one round fills one. `none` is the panic on another base, or a
-- 34th round.
unfoldable pub emit_val : ℕ → ℕ → Option (List ℕ)
emit_val base u =
    if (base == 2) || (base == 10) || (base == 16) then emit_loop 33 base u [] else none

-- The case `%llx` of `vprintk`.
unfoldable pub emit_llx : ℕ → Option (List ℕ)
emit_llx x =
    let hi = u32 (x >>> 32) in
    let lo = u32 x in
    let high = if hi == 0 then some [] else emit_val 16 hi in
    high >>= (λ h. emit_val 16 lo >>= (λ l. some (48 ∷ 120 ∷ (h ++ l))))

-- The case `%d` of `vprintk`, for the `int` with bits `v`: `v = -v` wraps at the least one.
unfoldable pub emit_int : ℕ → Option (List ℕ)
emit_int v =
    if ltb v (2 ^ 31)
    then emit_val 10 v
    else (emit_val 10 (u32 (2 ^ 32 - v)) >>= (λ s. some (45 ∷ s)))
