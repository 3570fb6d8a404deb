-- ===== src/Infer/Tokenizer.antt =====
-- The tokenizer of libpi/src/run.c, with libc/parse-byte-token.c: the sorted vocabulary, the search
-- in it, and the text of a token. A string is the list of its bytes before the NUL. `none` is an
-- access out of range.
pub mod Lookup
pub mod Bytes
use pi3_distributed_llm_infe.Base.{
  ℕ, zero, suc, ◌+◌, ◌-◌, ◌*◌, Bool, true, false, List, [], ◌∷◌, Option, none, some, ◌>>=◌, ◌==◌,
  ◌&&◌, ◌||◌, leb, if◌then◌else◌, get_elem?, u8,
}
use pi3_distributed_llm_infe.Base.Int.{ℤ, pos, negsuc}
use pi3_distributed_llm_infe.Libc.Str.{strcmp}
use pi3_distributed_llm_infe.Libc.Qsort.{qsort}
use pi3_distributed_llm_infe.Libc.Bsearch.{bsearch}

pub record TokenIndex : Type 0 where
  pub str : List ℕ
  pub id : ℕ

unfoldable pub compare_tokens : TokenIndex → TokenIndex → ℤ
compare_tokens a b = strcmp a.str b.str

-- The array that `encode` makes of the vocabulary before it sorts it, from entry `i` on.
unfoldable pub token_indices : ℕ → List (List ℕ) → List TokenIndex
token_indices i [] = []
token_indices i (s ∷ vocab) = record { str = s; id = i } ∷ token_indices (i + 1) vocab

-- `sorted_vocab`, which `encode` makes on its first call.
unfoldable pub sort_vocab : List (List ℕ) → Option (List TokenIndex)
unfolding token_indices
sort_vocab vocab = qsort compare_tokens (token_indices 0 vocab)

-- The id in the cell that `bsearch` found, or -1.
unfoldable pub found_id : List TokenIndex → Option ℕ → Option ℤ
found_id sorted_vocab none = some (negsuc 0)
found_id sorted_vocab (some i) = get_elem? sorted_vocab i >>= (λ res. some (pos res.id))

-- The key's `id` is 0, as of every member that the initializer leaves out.
unfoldable pub str_lookup : List ℕ → List TokenIndex → Option ℤ
unfolding found_id
str_lookup str sorted_vocab =
    bsearch compare_tokens (record { str = str; id = 0 }) sorted_vocab >>= found_id sorted_vocab

unfoldable pub isxdigit : ℕ → Bool
isxdigit u = (leb 48 u && leb u 57) || (leb 97 u && leb u 102) || (leb 65 u && leb u 70)

-- The value of a hexadecimal digit, as an `unsigned char`.
unfoldable pub hex_value : ℕ → ℕ
hex_value h = if leb 97 h then h - 97 + 10 else if leb 65 h then h - 65 + 10 else h - 48

-- The value of a token `<0xHH>`, and `none` for any other text, which the source returns 0 for.
unfoldable pub parse_byte_token : List ℕ → Option ℕ
unfolding isxdigit hex_value
parse_byte_token (c0 ∷ c1 ∷ c2 ∷ hi ∷ lo ∷ c5 ∷ []) =
    if (c0 == 60) && (c1 == 48) && (c2 == 120) && isxdigit hi && isxdigit lo && (c5 == 62)
    then some (hex_value hi * 16 + hex_value lo)
    else none
parse_byte_token piece = none

-- The string at `byte_pieces + 2 * b`.
unfoldable pub byte_piece : ℕ → List ℕ
byte_piece b = if b == 0 then [] else b ∷ []

unfoldable pub strip_space : ℕ → List ℕ → List ℕ
strip_space prev_token (c ∷ piece) = if (prev_token == 1) && (c == 32) then piece else c ∷ piece
strip_space prev_token [] = []

unfoldable pub piece_bytes : List ℕ → Option ℕ → List ℕ
unfolding byte_piece
piece_bytes piece none = piece
piece_bytes piece (some b) = byte_piece b

unfoldable pub decode : List (List ℕ) → ℕ → ℕ → Option (List ℕ)
unfolding strip_space parse_byte_token piece_bytes
decode vocab prev_token token = do
  entry ← get_elem? vocab token
  let piece = strip_space prev_token entry
  some (piece_bytes piece (parse_byte_token piece))
