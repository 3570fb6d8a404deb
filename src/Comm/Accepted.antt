-- ===== src/Comm/Accepted.antt =====
-- What `comm_recv_msg` accepts was sent by `comm_send_msg`; what it refuses, and with which status.
use pi3_distributed_llm_infe.Base.{
  ℕ, ◌≤◌, ◌<◌, ◌≡◌, ◌≢◌, refl, subst, ap, ◌∙◌, arith, List, [], ◌++◌, some, >>=-eq-some, ◌==◌, not,
  ◌&&◌, ltb, if◌then◌else◌, length, Bool-cases, inl, inr, ◌⊎◌,
}
use pi3_distributed_llm_infe.Base.Bytes.{
  IsBytes, le_bytes, of_le_bytes, read_bytes, read_bytes_lem, read_bytes_number,
}
use pi3_distributed_llm_infe.Base.Int.{pos, negsuc}
use pi3_distributed_llm_infe.Comm.{
  comm_magic, Header, header_bytes, compute_msg_crc, recv_header, Received, recv_body,
  comm_recv_msg,
}

-- Five fields read one behind the other stand in the stream as a header.
fields_of_stream :
    (m t q p n : ℕ) {s a b c d e : List ℕ}
    → s ≡ le_bytes 4 m ++ a
    → a ≡ le_bytes 1 t ++ b
    → b ≡ le_bytes 2 q ++ c
    → c ≡ le_bytes 2 p ++ d
    → d ≡ le_bytes 4 n ++ e
    → s ≡ header_bytes (record { magic = m; msg_type = t; seq = q; pos = p; payload_len = n }) ++ e
unfolding header_bytes
fields_of_stream m t q p n s1 s2 s3 s4 s5 =
    s1
    ∙ ap (λ x. le_bytes 4 m ++ x)
        (s2
          ∙ ap (λ x. le_bytes 1 t ++ x)
              (s3 ∙ ap (λ x. le_bytes 2 q ++ x) (s4 ∙ ap (λ x. le_bytes 2 p ++ x) s5)))

header_of_stream :
    (s : List ℕ) (r : Header × List ℕ)
    → IsBytes s
    → recv_header s ≡ some r
    → (s ≡ header_bytes r.0 ++ r.1) × IsBytes r.1
unfolding recv_header
header_of_stream s r b e =
    let (f1, e1, k1) = >>=-eq-some (read_bytes 4 s) _ e in
    let (f2, e2, k2) = >>=-eq-some (read_bytes 1 f1.1) _ k1 in
    let (f3, e3, k3) = >>=-eq-some (read_bytes 2 f2.1) _ k2 in
    let (f4, e4, k4) = >>=-eq-some (read_bytes 2 f3.1) _ k3 in
    let (f5, e5, k5) = >>=-eq-some (read_bytes 4 f4.1) _ k4 in
    let (s1, b1) = read_bytes_number 4 s f1 b e1 in
    let (s2, b2) = read_bytes_number 1 f1.1 f2 b1 e2 in
    let (s3, b3) = read_bytes_number 2 f2.1 f3 b2 e3 in
    let (s4, b4) = read_bytes_number 2 f3.1 f4 b3 e4 in
    let (s5, b5) = read_bytes_number 4 f4.1 f5 b4 e5 in
    let split =
      fields_of_stream (of_le_bytes f1.0) (of_le_bytes f2.0) (of_le_bytes f3.0) (of_le_bytes f4.0)
        (of_le_bytes f5.0) s1 s2 s3 s4 s5 in
    close (of_le_bytes f1.0) (of_le_bytes f2.0) (of_le_bytes f3.0) (of_le_bytes f4.0)
      (of_le_bytes f5.0) f5.1 k5 split b5
  where
    close :
        (m t q p n : ℕ) (rest : List ℕ)
        → some (record { magic = m; msg_type = t; seq = q; pos = p; payload_len = n }, rest)
          ≡ some r
        → s
          ≡ header_bytes (record { magic = m; msg_type = t; seq = q; pos = p; payload_len = n })
            ++ rest
        → IsBytes rest
        → (s ≡ header_bytes r.0 ++ r.1) × IsBytes r.1
    close m t q p n rest k split b5 =
        let found : Header × List ℕ =
          (record { magic = m; msg_type = t; seq = q; pos = p; payload_len = n }, rest) in
        let same : found ≡ r = cc in
        (
          subst (λ (x : Header × List ℕ). s ≡ header_bytes x.0 ++ x.1) same split,
          subst (λ (x : Header × List ℕ). IsBytes x.1) same b5,
        )

-- The three statuses of `comm_recv_msg`, and what each says of the stream.
abbrev pub Outcome : ℕ → List ℕ → Received → Type 0
Outcome buf_max s r =
    ((r.status ≡ negsuc 1) × (r.hdr.magic ≢ comm_magic) × (s ≡ header_bytes r.hdr ++ r.left))
    ⊎ (((r.status ≡ negsuc 2)
          × (r.hdr.magic ≡ comm_magic)
          × (buf_max < r.hdr.payload_len)
          × (s ≡ header_bytes r.hdr ++ r.left))
        ⊎ ((r.hdr.magic ≡ comm_magic)
            × (length r.payload ≡ r.hdr.payload_len)
            × (r.hdr.payload_len ≤ buf_max)
            × ((crc : ℕ) × (s ≡ header_bytes r.hdr ++ (r.payload ++ (le_bytes 4 crc ++ r.left)))
                × (((r.status ≡ pos 0) × (crc ≡ compute_msg_crc r.hdr r.payload))
                    ⊎ ((r.status ≡ negsuc 0) × (crc ≢ compute_msg_crc r.hdr r.payload))))))

body_of_stream :
    (h : Header) (s : List ℕ) (r : Received)
    → IsBytes s
    → recv_body h s ≡ some r
    → (r.hdr ≡ h)
      × (length r.payload ≡ h.payload_len)
      × ((crc : ℕ) × (s ≡ r.payload ++ (le_bytes 4 crc ++ r.left))
          × (((r.status ≡ pos 0) × (crc ≡ compute_msg_crc h r.payload))
              ⊎ ((r.status ≡ negsuc 0) × (crc ≢ compute_msg_crc h r.payload))))
unfolding recv_body
body_of_stream h s r b e =
    let (f1, e1, k1) = >>=-eq-some (read_bytes h.payload_len s) _ e in
    let (f2, e2, k2) = >>=-eq-some (read_bytes 4 f1.1) _ k1 in
    let (s1, len) = read_bytes_lem h.payload_len s f1 e1 in
    let (n1, b1) = read_bytes_number h.payload_len s f1 b e1 in
    let (s2, b2) = read_bytes_number 4 f1.1 f2 b1 e2 in
    close f1.0 (of_le_bytes f2.0) f2.1 k2 (s1 ∙ ap (λ x. f1.0 ++ x) s2) len
  where
    close :
        (payload : List ℕ) (crc : ℕ) (rest : List ℕ)
        → some (record {
          status = if not (crc == compute_msg_crc h payload) then negsuc 0 else pos 0;
          hdr = h;
          payload = payload;
          left = rest;
        })
          ≡ some r
        → s ≡ payload ++ (le_bytes 4 crc ++ rest)
        → length payload ≡ h.payload_len
        → (r.hdr ≡ h)
          × (length r.payload ≡ h.payload_len)
          × ((crc : ℕ) × (s ≡ r.payload ++ (le_bytes 4 crc ++ r.left))
              × (((r.status ≡ pos 0) × (crc ≡ compute_msg_crc h r.payload))
                  ⊎ ((r.status ≡ negsuc 0) × (crc ≢ compute_msg_crc h r.payload))))
    close payload crc rest k split len =
        let found : Received = record {
          status = if not (crc == compute_msg_crc h payload) then negsuc 0 else pos 0;
          hdr = h;
          payload = payload;
          left = rest;
        } in
        let same : found ≡ r = cc in
        subst
          (λ (x : Received).
            (x.hdr ≡ h)
            × (length x.payload ≡ h.payload_len)
            × ((crc : ℕ) × (s ≡ x.payload ++ (le_bytes 4 crc ++ x.left))
                × (((x.status ≡ pos 0) × (crc ≡ compute_msg_crc h x.payload))
                    ⊎ ((x.status ≡ negsuc 0) × (crc ≢ compute_msg_crc h x.payload)))))
          same (refl, len, (crc, split, ground (arith)))

-- On a stream of bytes: `comm_recv_msg` returns -2 exactly when the magic number differs, -3 when it
-- agrees and the payload is longer than the buffer, and otherwise it has read the payload and a
-- checksum, and returns 0 if that is the checksum of the message, and -1 if it is not.
pub comm_recv_msg-Outcome :
    (buf_max : ℕ) (s : List ℕ) (r : Received)
    → IsBytes s
    → comm_recv_msg buf_max s ≡ some r
    → Outcome buf_max s r
unfolding comm_recv_msg
comm_recv_msg-Outcome buf_max s r b e =
    let (f, ef, k) = >>=-eq-some (recv_header s) _ e in
    let (split, b1) = header_of_stream s f b ef in
    elim (Bool-cases (f.0.magic == comm_magic)) [
      | inr other ↦
          let found : Received = record {
            status = negsuc 1;
            hdr = f.0;
            payload = [];
            left = f.1;
          } in
          let same : found ≡ r = some_inj found r (rw other at k) in
          subst (Outcome buf_max s) same (inl (refl, ground arith, split))
      | inl magic ↦ elim (Bool-cases (ltb buf_max f.0.payload_len && ltb 0 f.0.payload_len)) [
        | inl long ↦
            let found : Received = record {
              status = negsuc 2;
              hdr = f.0;
              payload = [];
              left = f.1;
            } in
            let same : found ≡ r = some_inj found r (rw (magic, long) at k) in
            subst (Outcome buf_max s) same (inr (inl (refl, ground arith, ground arith, split)))
        | inr fits ↦
            let whole : recv_body f.0 f.1 ≡ some r = rw (magic, fits) at k in
            let (h, len, (crc, rest, check)) = body_of_stream f.0 f.1 r b1 whole in
            let room : f.0.payload_len ≤ buf_max = ground arith in
            let is_magic : f.0.magic ≡ comm_magic = ground arith in
            let split' : s ≡ header_bytes f.0 ++ (r.payload ++ (le_bytes 4 crc ++ r.left)) =
              split ∙ ap (λ x. header_bytes f.0 ++ x) rest in
            accepted f.0 crc h is_magic len room split' check
      ]
    ]
  where
    some_inj : (x y : Received) → some x ≡ some y → x ≡ y
    some_inj x y h = cc

    accepted :
        (h : Header) (crc : ℕ)
        → r.hdr ≡ h
        → h.magic ≡ comm_magic
        → length r.payload ≡ h.payload_len
        → h.payload_len ≤ buf_max
        → s ≡ header_bytes h ++ (r.payload ++ (le_bytes 4 crc ++ r.left))
        → (((r.status ≡ pos 0) × (crc ≡ compute_msg_crc h r.payload))
            ⊎ ((r.status ≡ negsuc 0) × (crc ≢ compute_msg_crc h r.payload)))
        → Outcome buf_max s r
    accepted h crc e m len room split check =
        subst
          (λ (x : Header).
            (x.magic ≡ comm_magic)
            → (length r.payload ≡ x.payload_len)
            → (x.payload_len ≤ buf_max)
            → s ≡ header_bytes x ++ (r.payload ++ (le_bytes 4 crc ++ r.left))
            → (((r.status ≡ pos 0) × (crc ≡ compute_msg_crc x r.payload))
                ⊎ ((r.status ≡ negsuc 0) × (crc ≢ compute_msg_crc x r.payload)))
            → Outcome buf_max s r)
          e (λ m' len' room' split' check'. inr (inr (m', len', room', (crc, split', check')))) m
          len room split check
