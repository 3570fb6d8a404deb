-- ===== src/Comm.antt =====
-- libpi/src/pi-comm.c: messages between two boards, on a link that one byte after the other crosses.
-- What one side sends is the list of its bytes; a side that receives reads off the front of such a
-- list, and `none` is a read that waits for ever.
pub mod Message
pub mod Accepted
pub mod Link
use pi3_distributed_llm_infe.Base.{
  ℕ, ◌+◌, ◌-◌, ◌*◌, ◌^◌, List, [], ◌∷◌, ◌++◌, Option, none, some, ◌>>=◌, ◌==◌, not, ◌&&◌, ltb,
  if◌then◌else◌, u32, take, bit_xor,
}
use pi3_distributed_llm_infe.Base.Bytes.{le_bytes, of_le_bytes, read_bytes}
use pi3_distributed_llm_infe.Base.Int.{ℤ, pos, negsuc}
use pi3_distributed_llm_infe.Libc.Crc.{our_crc32}

abbrev pub comm_magic : ℕ
comm_magic = 3405648695

-- `CommHeader`
pub record Header : Type 0 where
  pub magic : ℕ
  pub msg_type : ℕ
  pub seq : ℕ
  pub pos : ℕ
  pub payload_len : ℕ

-- The 13 bytes of the packed struct.
unfoldable pub header_bytes : Header → List ℕ
header_bytes h =
    le_bytes 4 h.magic
    ++ (le_bytes 1 h.msg_type
        ++ (le_bytes 2 h.seq ++ (le_bytes 2 h.pos ++ le_bytes 4 h.payload_len)))

-- `payload` holds at least `payload_len` bytes, and no length is within 13 bytes of 2 ^ 32, where the sum
-- with the header's size would wrap and the copy into `scratch` go behind its end.
unfoldable pub compute_msg_crc : Header → List ℕ → ℕ
compute_msg_crc hdr payload =
    let total = u32 (13 + hdr.payload_len) in
    let body = take hdr.payload_len payload in
    if ltb 1200 total
    then bit_xor (our_crc32 (header_bytes hdr)) (our_crc32 body)
    else our_crc32 (header_bytes hdr ++ body)

-- The bytes that `comm_send_msg` sends.
unfoldable pub comm_send_msg : ℕ → ℕ → ℕ → List ℕ → ℕ → List ℕ
comm_send_msg msg_type seq place payload payload_len =
    let hdr : Header = record {
      magic = comm_magic;
      msg_type = msg_type;
      seq = seq;
      pos = place;
      payload_len = payload_len;
    } in
    let crc = compute_msg_crc hdr payload in
    header_bytes hdr ++ (take payload_len payload ++ le_bytes 4 crc)

-- The header off the front of the stream.
unfoldable pub recv_header : List ℕ → Option (Header × List ℕ)
recv_header s = do
  (magic, s1) ← read_bytes 4 s
  (msg_type, s2) ← read_bytes 1 s1
  (seq, s3) ← read_bytes 2 s2
  (place, s4) ← read_bytes 2 s3
  (payload_len, s5) ← read_bytes 4 s4
  some (
    record {
      magic = of_le_bytes magic;
      msg_type = of_le_bytes msg_type;
      seq = of_le_bytes seq;
      pos = of_le_bytes place;
      payload_len = of_le_bytes payload_len;
    },
    s5,
  )

-- What a receiver is left with: the status, the header, the payload that was read, and the bytes that
-- it has not read.
pub record Received : Type 0 where
  pub status : ℤ
  pub hdr : Header
  pub payload : List ℕ
  pub left : List ℕ

-- `comm_recv_msg` behind the check of the length: the payload, the checksum, and its check.
unfoldable pub recv_body : Header → List ℕ → Option Received
recv_body hdr s = do
  (payload, s1) ← read_bytes hdr.payload_len s
  (crc, s2) ← read_bytes 4 s1
  let status = if not (of_le_bytes crc == compute_msg_crc hdr payload) then negsuc 0 else pos 0
  some (record { status = status; hdr = hdr; payload = payload; left = s2 })

-- `comm_recv_msg`: -2 is another magic number, -3 a payload longer than the buffer, -1 a checksum
-- that does not match.
unfoldable pub comm_recv_msg : ℕ → List ℕ → Option Received
comm_recv_msg buf_max s = do
  (hdr, s1) ← recv_header s
  (let body = recv_body hdr s1 in
      if not (hdr.magic == comm_magic)
      then some (record { status = negsuc 1; hdr = hdr; payload = []; left = s1 })
      else if ltb buf_max hdr.payload_len && ltb 0 hdr.payload_len
      then some (record { status = negsuc 2; hdr = hdr; payload = []; left = s1 })
      else body)
