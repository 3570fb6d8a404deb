-- ===== src/Infer/Tokenizer/Bytes.antt =====
-- `decode` turns the byte tokens of the vocabulary into their bytes, and leaves other text alone.
use pi3_distributed_llm_infe.Base.{
  ℕ, ◌+◌, ◌/◌, ◌%◌, ◌≡◌, ◌<◌, refl, arith, List, [], ◌∷◌, some, get_elem?, ltb, if◌then◌else◌, ◌==◌,
}
use pi3_distributed_llm_infe.Infer.Tokenizer.{
  isxdigit, hex_value, parse_byte_token, byte_piece, strip_space, piece_bytes, decode,
}

-- A hexadecimal digit as the vocabulary writes it, in upper case, and the token of a byte.
abbrev pub hex_digit : ℕ → ℕ
hex_digit d = if ltb d 10 then 48 + d else 55 + d

abbrev pub byte_token : ℕ → List ℕ
byte_token b = 60 ∷ 48 ∷ 120 ∷ hex_digit (b / 16) ∷ hex_digit (b % 16) ∷ 62 ∷ []

parse_byte_token_lem : (b : ℕ) → b < 256 → parse_byte_token (byte_token b) ≡ some b
unfolding parse_byte_token isxdigit hex_value
parse_byte_token_lem b h = ground arith

-- Whatever token came before it, the token `<0xHH>` of a byte other than 0 is decoded to that byte
-- alone, and the token of the byte 0 to the empty string.
decode-byte_token :
    (vocab : List (List ℕ)) (prev_token token b : ℕ)
    → b < 256
    → get_elem? vocab token ≡ some (byte_token b)
    → decode vocab prev_token token ≡ some (if b == 0 then [] else b ∷ [])
unfolding decode byte_piece strip_space piece_bytes
decode-byte_token vocab prev_token token b h e =
    let parsed = parse_byte_token_lem b h in
    let kept : strip_space prev_token (byte_token b) ≡ byte_token b = ground arith in
    rw (e, kept, parsed) refl
