-- ===== src/Bridge/Forwarding.antt =====
-- The forwarding table of 3700Bridge/networks/bridge.py, and `ForwardingRequest` of
-- request_handler.py.
pub mod Table
pub mod Delivery
use cs.Prelude.{
  ℕ, zero, suc, ◌+◌, Bool, true, false, not, ◌&&◌, ◌||◌, Option, none, some, List, [], ◌∷◌,
  get_elem?, if◌then◌else◌,
}
use cs.Prelude.Eq.{◌==◌, ℕ_eq, List_eq, Option_eq}
use cs.Prelude.Exec.{
  Exec, Result, ok, err, index_error, key_error, or_raise, pure, lift, gets, modify, ◌>>=◌, ◌>>◌,
}
use cs.Prelude.Dict.{Dict, lookup, contains, insert}
use cs.Prelude.Text.{Text}
use cs.Bridge.Bpdu.{Bpdu, Packet}
use cs.Bridge.Port.{Port, PortStatus, designated, disabled, status_beq, send_packet}
use cs.Bridge.State.{Bridge, on_port}

-- The loop over the BPDUs of one port.
abbrev pub add_seen : ℕ → Dict Bpdu (ℕ × ℕ) → Dict Text ℕ → Dict Text ℕ
add_seen index [] table = table
add_seen index ((bpdu, seen) ∷ rest) table =
    add_seen index rest (if contains bpdu.id table then table else insert bpdu.id index table)

-- The test that passes over a port.
abbrev pub is_blocked : Option ℕ → Port → Bool
is_blocked root_port p = status_beq p.status disabled && not (some p.index == root_port)

-- The loop over the ports.
unfoldable pub add_ports : Option ℕ → List Port → Dict Text ℕ → Dict Text ℕ
add_ports root_port [] table = table
add_ports root_port (p ∷ ps) table =
    add_ports root_port ps
      (if is_blocked root_port p then table else add_seen p.index p.seen_bpdus table)

-- `calculate_forwarding_table`
unfoldable pub calculate_forwarding_table : Bridge → Dict Text ℕ
unfolding add_ports
calculate_forwarding_table b = add_ports b.root_port b.ports []

-- The source is entered if it is not known.
abbrev pub learn : ℕ → Text → Dict Text ℕ → Dict Text ℕ
learn i source table = if contains source table then table else insert source i table

-- The loop of a broadcast over the ports from place `k` on.
abbrev pub broadcast : ℕ → Option ℕ → ℕ → Packet → List Port → List Port
broadcast client root_port k packet [] = []
broadcast client root_port k packet (p ∷ ps) =
    (if not (k == client) && (status_beq p.status designated || (some p.index == root_port))
      then send_packet packet p
      else p)
    ∷ broadcast client root_port (suc k) packet ps

abbrev pub send_on : ℕ → Packet → Exec Bridge Unit
send_on i packet = on_port i (modify (send_packet packet))

-- `handle`, from the look-up of the destination on
abbrev pub deliver : ℕ → Packet → Option ℕ → Exec Bridge Unit
deliver client packet none =
    modify (λ (b : Bridge). record b { ports = broadcast client b.root_port 0 packet b.ports })
deliver client packet (some dest) = if dest == client then pure tt else send_on dest packet

-- `ForwardingRequest.handle`, for a packet that came in by the port `client`
unfoldable pub handle : ℕ × Packet → Exec Bridge Unit
handle (client, packet) = do
  modify (λ (b : Bridge). record b {
    forwarding_table = learn client packet.source b.forwarding_table;
  })
  ports ← gets (λ (b : Bridge). b.ports)
  client_port ← lift (or_raise index_error (get_elem? ports client))
  root_port ← gets (λ (b : Bridge). b.root_port)
  dest ← gets (λ (b : Bridge). lookup packet.dest b.forwarding_table)
  if is_blocked root_port client_port then pure tt else deliver client packet dest

-- The loop of `launch` over a batch.
unfoldable pub handle_all : List (ℕ × Packet) → Exec Bridge Unit
unfolding handle
handle_all [] = pure tt
handle_all (request ∷ rest) = handle request >> handle_all rest
