-- ===== src/Tcp/Receiver/Run.antt =====
-- The reading of datagrams and the loop of `run` in 3700TCP/networks/launch_receiver.py.
pub mod Delivered
pub mod Ordered
use cs.Prelude.{ℕ, Option, none, some, List, [], ◌∷◌}
use cs.Prelude.Exec.{Exec, Result, lift, modify, pure, ◌>>=◌, ◌>>◌}
use cs.Prelude.Text.{Text}
use cs.Tcp.Packet.{Packet, from_bytes}
use cs.Tcp.Receiver.{Receiver, handle_packet}

-- What `recvfrom` returns: the bytes and the address that they come from.
pub record Received : Type 0 where
  pub packet_bytes : List ℕ
  pub from : Text × ℕ

-- The first address that a datagram comes from is answered.
abbrev pub learn : Text × ℕ → Option (Text × ℕ) → Option (Text × ℕ)
learn address none = some address
learn address (some known) = some known

-- `read_packet`; bytes after the packet are only logged
unfoldable pub read_packet : Received → Exec Receiver Packet
read_packet received = do
  modify (λ (r : Receiver). record r { simulator = learn received.from r.simulator })
  parsed ← lift (from_bytes received.packet_bytes)
  pure parsed.0

-- One turn of the loop of `run`
unfoldable pub turn : (List ℕ → List ℕ) → Received → Exec Receiver Unit
unfolding read_packet
turn hash received = do packet ← read_packet received; handle_packet hash packet

-- The loop of `run` over the datagrams that come, up to the one at which it raises, if it does
unfoldable pub run_over : (List ℕ → List ℕ) → List Received → Exec Receiver Unit
unfolding turn
run_over hash [] = pure tt
run_over hash (received ∷ rest) = do turn hash received; run_over hash rest
