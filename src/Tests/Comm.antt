-- ===== src/Tests/Comm.antt =====
-- Messages between two boards at small inputs.
use pi3_distributed_llm_infe.Base.{
  ◌+◌, ℕ, ◌≡◌, refl, arith, false, Bool, List, [], ◌∷◌, ◌++◌, some, replicate,
}
use pi3_distributed_llm_infe.Base.Bytes.{IsBytes}
use pi3_distributed_llm_infe.Base.Int.{pos, negsuc}
use pi3_distributed_llm_infe.Comm.{comm_magic, comm_send_msg, recv_header, Received, comm_recv_msg}
use pi3_distributed_llm_infe.Comm.Message.{comm_recv_msg-comm_send_msg}
use pi3_distributed_llm_infe.Comm.Accepted.{Outcome, comm_recv_msg-Outcome}
use pi3_distributed_llm_infe.Comm.Link.{Pace, comm_send_bytes, comm_recv_bytes}
use pi3_distributed_llm_infe.Comm.Link.Bytes.{comm_recv_bytes_lem}

comm_recv_msg_example :
    comm_recv_msg 16 (comm_send_msg 3 1 0 (7 ∷ 8 ∷ []) 2 ++ (9 ∷ []))
    ≡ some (record {
      status = pos 0;
      hdr = record { magic = comm_magic; msg_type = 3; seq = 1; pos = 0; payload_len = 2 };
      payload = 7 ∷ 8 ∷ [];
      left = 9 ∷ [];
    })
comm_recv_msg_example =
    comm_recv_msg-comm_send_msg 3 1 0 16 (7 ∷ 8 ∷ []) (9 ∷ []) (omega arith) (omega arith)
      (omega arith) (omega arith) (omega arith)

-- A header of 13 ones.
abbrev noise : List ℕ
noise = 1 ∷ 1 ∷ 1 ∷ 1 ∷ 1 ∷ 1 ∷ 1 ∷ 1 ∷ 1 ∷ 1 ∷ 1 ∷ 1 ∷ 1 ∷ []

abbrev of_noise : Received
of_noise = record {
  status = negsuc 1;
  hdr = record { magic = 16843009; msg_type = 1; seq = 257; pos = 257; payload_len = 16843009 };
  payload = [];
  left = [];
}

noise-IsBytes : IsBytes noise
noise-IsBytes = (
  omega arith,
  (
    omega arith,
    (
      omega arith,
      (
        omega arith,
        (
          omega arith,
          (
            omega arith,
            (
              omega arith,
              (
                omega arith,
                (omega arith, (omega arith, (omega arith, (omega arith, (omega arith, tt))))),
              ),
            ),
          ),
        ),
      ),
    ),
  ),
)

noise_received : comm_recv_msg 16 noise ≡ some of_noise
unfolding comm_recv_msg recv_header
noise_received = refl

comm_recv_msg-Outcome_example : Outcome 16 noise of_noise
comm_recv_msg-Outcome_example = comm_recv_msg-Outcome 16 noise of_noise noise-IsBytes noise_received

abbrev steady : ℕ → ℕ → Pace
steady k i = record { early = 1; up = i + 2; down = k + 1 }

comm_recv_bytes_example :
    (m : ℕ) × ((d : Bool) × (comm_recv_bytes 2 (comm_send_bytes steady (165 ∷ 7 ∷ []))
        ≡ some (165 ∷ 7 ∷ [], replicate m (record { sclk = false; mosi = d }))))
comm_recv_bytes_example =
    comm_recv_bytes_lem steady (165 ∷ 7 ∷ []) (λ k i. (omega arith, omega arith))
      (omega arith, (omega arith, tt))
