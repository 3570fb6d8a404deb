-- ===== src/Fat32/ShortName.antt =====
-- `fat32_is_valid_name` and `fat32_dirent_set_name` of fat32-helpers.c: the names that the driver takes,
-- and how one stands in an entry. A name is the list of its bytes before the NUL.
pub mod Dotted
use pi3_distributed_llm_infe.Base.{
  ℕ, zero, suc, ◌+◌, ◌-◌, Bool, true, false, List, [], ◌∷◌, ◌++◌, Option, none, some, ◌>>=◌, ◌==◌,
  ◌&&◌, ◌||◌, not, ltb, if◌then◌else◌, get_elem?, length, take, drop, replicate,
}

-- The bytes that the loops let pass: capital letters and digits.
unfoldable pub is_name_char : ℕ → Bool
is_name_char c = not ((ltb c 65 || ltb 90 c) && (ltb c 48 || ltb 57 c))

-- The first loop of both functions.
unfoldable pub has_dot : List ℕ → Bool
has_dot [] = false
has_dot (c ∷ name) = if c == 46 then true else has_dot name

-- The loop of a name with a dot, from index `i` on; the dot's place is let pass.
unfoldable pub chars_but : ℕ → ℕ → List ℕ → Bool
chars_but dot i [] = true
chars_but dot i (c ∷ name) =
    if not (is_name_char c) && not (i == dot) then false else chars_but dot (i + 1) name

-- The loop of a name without one.
unfoldable pub all_chars : List ℕ → Bool
all_chars [] = true
all_chars (c ∷ name) = if not (is_name_char c) then false else all_chars name

-- Whether `name[n-4]` is a dot; the tests on the length come first.
unfoldable pub dot_at : ℕ → List ℕ → Bool
dot_at i name = elim (get_elem? name i) [ none ↦ false | some c ↦ c == 46 ]

unfoldable pub fat32_is_valid_name : List ℕ → Bool
fat32_is_valid_name name =
    let n = length name in
    if has_dot name
    then if ltb 12 n
      then false
      else if ltb n 5
      then false
      else if not (dot_at (n - 4) name)
      then false
      else chars_but (n - 4) 0 name
    else if ltb 8 n
    then false
    else if ltb n 1
    then false
    else all_chars name

-- `memcpy` of `src` to `dst + i`.
unfoldable pub copy_at : ℕ → List ℕ → List ℕ → List ℕ
copy_at i src dst = take i dst ++ (src ++ drop (i + length src) dst)

-- The name of the entry; `none` is the failed assertion.
unfoldable pub fat32_dirent_set_name : List ℕ → Option (List ℕ)
fat32_dirent_set_name name =
    let n = length name in
    let blank = replicate 11 32 in
    if not (fat32_is_valid_name name)
    then none
    else some (
        if has_dot name
        then copy_at 8 (take 3 (drop (n - 3) name)) (copy_at 0 (take (n - 4) name) blank)
        else copy_at 0 name blank)
