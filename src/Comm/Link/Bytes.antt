-- ===== src/Comm/Link/Bytes.antt =====
-- A buffer that crosses the wires.
use pi3_distributed_llm_infe.Base.{
  ℕ, ◌≡◌, refl, ap, arith, Bool, false, List, [], ◌∷◌, ◌++◌, some, replicate, length, append-nil,
}
use pi3_distributed_llm_infe.Base.Bytes.{IsBytes}
use pi3_distributed_llm_infe.Comm.Link.{Level, Pace, comm_send_bytes, comm_recv_bytes}
use pi3_distributed_llm_infe.Comm.Link.Byte.{IsSlow, recv_from}

abbrev pub low : ℕ → Bool → List Level
low n d = replicate n (record { sclk = false; mosi = d })

-- With samples left of the byte before.
recv_behind :
    (pace : ℕ → ℕ → Pace) (buf : List ℕ) (n : ℕ) (c : Bool)
    → ((k i : ℕ) → IsSlow (pace k i))
    → IsBytes buf
    → (m : ℕ) × ((d : Bool) × (comm_recv_bytes (length buf) (low n c ++ comm_send_bytes pace buf)
          ≡ some (buf, low m d)))
unfolding comm_recv_bytes comm_send_bytes
recv_behind pace [] n c slow h = (n, (c, ap (λ x. some ([], x)) (append-nil (low n c))))
recv_behind pace (b ∷ buf) n c slow (here, h) =
    let later = comm_send_bytes pace buf in
    let (m, (d, first)) =
      recv_from (pace (length buf)) b 8 0 n c later (slow (length buf)) (omega arith) in
    let (m', (d', rest)) = recv_behind pace buf m d slow h in (m', (d', rw (first, rest) refl))

-- Where the delays of every bit are long enough for the slave to sample the wires twice while the clock
-- is up and once while it is down: the slave receives the bytes that the master sends, and is left
-- with low samples only.
pub comm_recv_bytes_lem :
    (pace : ℕ → ℕ → Pace) (buf : List ℕ)
    → ((k i : ℕ) → IsSlow (pace k i))
    → IsBytes buf
    → (m : ℕ) × ((d : Bool) × (comm_recv_bytes (length buf) (comm_send_bytes pace buf)
          ≡ some (buf, replicate m (record { sclk = false; mosi = d }))))
comm_recv_bytes_lem pace buf slow h = recv_behind pace buf 0 false slow h
