-- ===== src/Fat32/Names.antt =====
-- The names of directory entries, in fat32-helpers.c and fat32.c, and the search for one. A name as
-- the disk has it is 11 bytes. `none` is an access out of range.
pub mod Search
use pi3_distributed_llm_infe.Base.{
  ℕ, zero, suc, ◌+◌, Bool, List, [], ◌∷◌, ◌++◌, Option, none, some, ◌>>=◌, ◌==◌, ◌&&◌, not,
  if◌then◌else◌, get_elem?, take,
}
use pi3_distributed_llm_infe.Base.Int.{ℤ, pos, negsuc, is_neg, is_pos}
use pi3_distributed_llm_infe.Libc.Str.{strcmp}

-- The loop of `to_8dot3`, with the first `left` bytes still to look at: the place behind the last
-- byte that is not a space. On 8 spaces the source goes on with `i = -1` and writes `s[-1]`.
unfoldable pub trim_loop : ℕ → List ℕ → Option ℕ
trim_loop zero s = none
trim_loop (suc left) s =
    let rest = trim_loop left s in
    get_elem? s left >>= (λ c. if c == 32 then rest else some (suc left))

-- The bytes of the buffer up to the NUL that the function appends.
unfoldable pub to_8dot3 : List ℕ → Option (List ℕ)
unfolding trim_loop
to_8dot3 p = do
  i ← trim_loop 8 (take 8 p)
  a ← get_elem? p 8
  b ← get_elem? p 9
  c ← get_elem? p 10
  some (take i p ++ (46 ∷ a ∷ b ∷ c ∷ []))

-- `strcmp(filename, cur_filename) == 0`
unfoldable pub same_name : List ℕ → List ℕ → Bool
same_name filename cur = not (is_neg (strcmp filename cur)) && not (is_pos (strcmp filename cur))

-- `find_dirent_with_name` from entry `i` on, over the names of the entries.
unfoldable pub find_dirent_with_name : List (List ℕ) → ℕ → List ℕ → Option ℤ
unfolding to_8dot3 same_name
find_dirent_with_name [] i filename = some (negsuc 0)
find_dirent_with_name (d ∷ dirents) i filename =
    let rest = find_dirent_with_name dirents (i + 1) filename in
    to_8dot3 d >>= (λ cur. if same_name filename cur then some (pos i) else rest)
