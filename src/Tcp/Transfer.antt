-- ===== src/Tcp/Transfer.antt =====
-- The sender and the receiver of 3700TCP/networks together, over a network that loses nothing, in
-- lock step: the sender reads a piece from its source, the receiver takes a turn with the datagram, and
-- the sender takes the answer before it reads the next piece. The programs may also run ahead of the
-- answers.
pub mod Received
pub mod Receiving
pub mod Acked
pub mod Complete
use cs.Prelude.{ℕ, List, [], ◌∷◌}
use cs.Prelude.Exec.{Result, ok, err, bind, index_error, result_of, state_of}
use cs.Prelude.Text.{Text}
use cs.Tcp.Packet.{from_bytes}
use cs.Tcp.Receiver.{Receiver}
use cs.Tcp.Receiver.Run.{turn}
use cs.Tcp.Sender.{Sender, receive, read_source}

-- The datagram that was sent last.
abbrev pub last_sent : List (List ℕ) → Result (List ℕ)
last_sent [] = err index_error
last_sent (bs ∷ []) = ok bs
last_sent (bs ∷ cs ∷ rest) = last_sent (cs ∷ rest)

-- One piece of data goes over and is acked, at one time. The address is that of the sender.
unfoldable pub exchange :
    (List ℕ → List ℕ) → Text × ℕ → ℕ → List ℕ → Sender × Receiver → Result (Sender × Receiver)
exchange hash address now byte_data (sender, receiver) =
    let sending = read_source hash now byte_data sender in
    bind (result_of sending) λ left. bind (last_sent (state_of sending).sent) λ datagram.
      let receiving = turn hash (record { packet_bytes = datagram; from = address }) receiver in
      bind (result_of receiving) λ done. bind (last_sent (state_of receiving).sent) λ answer.
        bind (from_bytes answer) λ parsed.
          let answered = receive hash now parsed.0 (state_of sending) in
          bind (result_of answered) λ finished. ok (state_of answered, state_of receiving)

-- All pieces, each with the time at which it goes over.
unfoldable pub transfer :
    (List ℕ → List ℕ)
    → Text × ℕ
    → List (ℕ × List ℕ)
    → Sender × Receiver
    → Result (Sender × Receiver)
unfolding exchange
transfer hash address [] both = ok both
transfer hash address ((now, byte_data) ∷ rest) both =
    bind (exchange hash address now byte_data both) λ after. transfer hash address rest after
