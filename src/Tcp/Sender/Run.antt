-- ===== src/Tcp/Sender/Run.antt =====
-- `_select_ready_sources`, `read_packet` and the loop of `run` in 3700TCP/networks/launch_sender.py.
pub mod Bounded
use cs.Prelude.{ℕ, Bool, true, false, Option, none, some, List, [], ◌∷◌, ◌++◌, if◌then◌else◌}
use cs.Prelude.Exec.{Exec, Result, lift, gets, modify, pure, ◌>>=◌, ◌>>◌}
use cs.Tcp.Packet.{Packet, from_bytes}
use cs.Tcp.Sender.{Sender, may_read, receive, read_source, resend_timeout_packets}

-- A source that is ready, with what can be read from it.
pub data Source : Type 0 where
  packet_io : List ℕ → Source
  text_reader : List ℕ → Source

-- What can be read when `select` returns: a datagram, and data of the text. The clock reads `now`.
pub record Waiting : Type 0 where
  pub now : ℕ
  pub datagram : Option (List ℕ)
  pub byte_data : Option (List ℕ)

abbrev pub ready_packet : Option (List ℕ) → List Source
ready_packet none = []
ready_packet (some bs) = packet_io bs ∷ []

abbrev pub ready_text : Option (List ℕ) → List Source
ready_text none = []
ready_text (some bs) = text_reader bs ∷ []

-- `_select_ready_sources`
abbrev pub select_ready_sources : Waiting → Sender → List Source
select_ready_sources w s =
    ready_packet w.datagram ++ (if may_read s then ready_text w.byte_data else [])

-- `read_packet`; bytes after the packet are only logged
abbrev pub read_packet : List ℕ → Exec Sender Packet
read_packet packet_bytes = do parsed ← lift (from_bytes packet_bytes); pure parsed.0

-- The `for` over the sources that are ready, with its `else`; the answer says whether it was left by
-- `break`.
unfoldable pub for_sources : (List ℕ → List ℕ) → ℕ → List Source → Exec Sender Bool
for_sources hash now [] = do resend_timeout_packets now; pure false
for_sources hash now (packet_io bs ∷ rest) =
    let others = for_sources hash now rest in
    (do
      response_packet ← read_packet bs
      left ← receive hash now response_packet
      if left then pure true else others)
for_sources hash now (text_reader byte_data ∷ rest) =
    let others = for_sources hash now rest in
    (do
      sent_all_messages ← gets (λ (s : Sender). s.sent_all_messages)
      if sent_all_messages
          then others
          else (do left ← read_source hash now byte_data; if left then pure true else others))

-- The `while` of `run` over what is ready each time, up to the turn that leaves it or raises
unfoldable pub run_over : (List ℕ → List ℕ) → List Waiting → Exec Sender Bool
unfolding for_sources
run_over hash [] = pure false
run_over hash (w ∷ rest) =
    let others = run_over hash rest in
    (do
      sources ← gets (select_ready_sources w)
      left ← for_sources hash w.now sources
      if left then pure true else others)

-- `run`
unfoldable pub run : (List ℕ → List ℕ) → List Waiting → Exec Sender Bool
unfolding run_over
run hash waiting = do
  modify (λ (s : Sender). record s { sent_all_messages = false })
  run_over hash waiting
