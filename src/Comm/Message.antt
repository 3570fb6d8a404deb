-- ===== src/Comm/Message.antt =====
-- What is sent is received, and what is accepted was sent.
use pi3_distributed_llm_infe.Base.{
  ℕ, ◌+◌, ◌^◌, ◌≤◌, ◌<◌, ◌≡◌, refl, ap, arith, false, List, [], ◌∷◌, ◌++◌, some, ==_self, ◌&&◌, ltb,
  u32, take, length, append_assoc, Bool-cases, inl, inr,
}
use pi3_distributed_llm_infe.Base.Bits.{bit_xor-lt}
use pi3_distributed_llm_infe.Base.Bytes.{
  le_bytes, of_le_bytes, read_bytes, length-le_bytes, of_le_bytes-le_bytes, read_bytes-append,
}
use pi3_distributed_llm_infe.Base.Int.{pos}
use pi3_distributed_llm_infe.Libc.Crc.{our_crc32}
use pi3_distributed_llm_infe.Libc.Crc.Bitwise.{our_crc32-lt}
use pi3_distributed_llm_infe.Comm.{
  comm_magic, Header, header_bytes, compute_msg_crc, comm_send_msg, recv_header, recv_body,
  comm_recv_msg,
}

-- Every field fits its width.
pub record IsHeader (h : Header) : Type 0 where
  pub magic_fits : h.magic < 2 ^ 32
  pub msg_type_fits : h.msg_type < 2 ^ 8
  pub seq_fits : h.seq < 2 ^ 16
  pub pos_fits : h.pos < 2 ^ 16
  pub payload_len_fits : h.payload_len < 2 ^ 32

read_field :
    (n u : ℕ) (rest : List ℕ) → read_bytes n (le_bytes n u ++ rest) ≡ some (le_bytes n u, rest)
read_field n u rest = read_bytes-append n (le_bytes n u) rest (length-le_bytes n u)

recv_header-header_bytes :
    (h : Header) (rest : List ℕ)
    → IsHeader h
    → recv_header (header_bytes h ++ rest) ≡ some (h, rest)
unfolding recv_header header_bytes
recv_header-header_bytes h rest v =
    let magic = of_le_bytes-le_bytes 4 h.magic v.magic_fits in
    let msg_type = of_le_bytes-le_bytes 1 h.msg_type v.msg_type_fits in
    let seq = of_le_bytes-le_bytes 2 h.seq v.seq_fits in
    let place = of_le_bytes-le_bytes 2 h.pos v.pos_fits in
    let len = of_le_bytes-le_bytes 4 h.payload_len v.payload_len_fits in
    cc (magic, msg_type, seq, place, len)

take_all : (xs : List ℕ) → take (length xs) xs ≡ xs
take_all [] = refl
take_all (x ∷ xs) = ap (◌∷◌ x) (take_all xs)

compute_msg_crc-lt : (h : Header) (payload : List ℕ) → compute_msg_crc h payload < 2 ^ 32
unfolding compute_msg_crc
compute_msg_crc-lt h payload =
    let body = take h.payload_len payload in
    let both = our_crc32-lt (header_bytes h ++ body) in
    let split =
      bit_xor-lt 32 (our_crc32 (header_bytes h)) (our_crc32 body) (our_crc32-lt (header_bytes h))
        (our_crc32-lt body) in
    elim (Bool-cases (ltb 1200 (u32 (13 + h.payload_len)))) [
      | inl long ↦ rw long split
      | inr short ↦ rw short both
    ]

recv_body-sent :
    (h : Header) (payload rest : List ℕ)
    → length payload ≡ h.payload_len
    → recv_body h (payload ++ (le_bytes 4 (compute_msg_crc h payload) ++ rest))
      ≡ some (record { status = pos 0; hdr = h; payload = payload; left = rest })
unfolding recv_body
recv_body-sent h payload rest e =
    let c = compute_msg_crc h payload in
    let field : of_le_bytes (le_bytes 4 c) ≡ c =
      of_le_bytes-le_bytes 4 c (compute_msg_crc-lt h payload) in
    rw (read_bytes-append h.payload_len payload (le_bytes 4 c ++ rest) e, field, ==_self c) refl

-- A message whose fields fit their widths, with a payload as long as it says, is received as it was
-- sent by a receiver whose buffer holds the payload, and the bytes behind it are left.
pub comm_recv_msg-comm_send_msg :
    (msg_type seq place buf_max : ℕ) (payload rest : List ℕ)
    → msg_type < 2 ^ 8
    → seq < 2 ^ 16
    → place < 2 ^ 16
    → length payload < 2 ^ 32
    → length payload ≤ buf_max
    → comm_recv_msg buf_max (comm_send_msg msg_type seq place payload (length payload) ++ rest)
      ≡ some (record {
        status = pos 0;
        hdr = record {
          magic = comm_magic;
          msg_type = msg_type;
          seq = seq;
          pos = place;
          payload_len = length payload;
        };
        payload = payload;
        left = rest;
      })
unfolding comm_recv_msg comm_send_msg
comm_recv_msg-comm_send_msg msg_type seq place buf_max payload rest ht hs hp hl hb =
    let hdr : Header = record {
      magic = comm_magic;
      msg_type = msg_type;
      seq = seq;
      pos = place;
      payload_len = length payload;
    } in
    let c = compute_msg_crc hdr payload in
    let valid : IsHeader hdr = omega arith in
    let fits : (ltb buf_max (length payload) && ltb 0 (length payload)) ≡ false = ground arith in
    rw
      (
        take_all payload,
        append_assoc (header_bytes hdr) (payload ++ le_bytes 4 c) rest,
        append_assoc payload (le_bytes 4 c) rest,
        recv_header-header_bytes hdr (payload ++ (le_bytes 4 c ++ rest)) valid,
        fits,
      )
      (recv_body-sent hdr payload rest refl)
