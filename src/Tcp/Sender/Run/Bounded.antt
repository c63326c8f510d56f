-- ===== src/Tcp/Sender/Run/Bounded.antt =====
-- A run of the sender never has more packets in flight than its window holds.
use cs.Prelude.{
  ℕ, ◌≤◌, ◌≡◌, inl, inr, Bool, true, false, Option, none, some, List, [], ◌∷◌, ◌++◌, length,
  Bool-cases, if◌then◌else◌,
}
use cs.Prelude.Exec.{Exec, state_of, bind-state, Result-cases, pure, ◌>>=◌}
use cs.Tcp.Packet.{from_bytes}
use cs.Tcp.Sender.{Sender, may_read, receive, read_source, resend_timeout_packets}
use cs.Tcp.Sender.Window.{
  Within, reads, receives, times_out, Step-Within, receive_room, receive-Shrinks,
}
use cs.Tcp.Sender.Flight.{Shrinks}
use cs.Tcp.Sender.Run.{
  Source, packet_io, text_reader, Waiting, ready_packet, ready_text, select_ready_sources,
  for_sources, run_over, run,
}

module _ (hash : List ℕ → List ℕ) (now : ℕ) where
  -- Sources that are ready in a state keep the bound.
  abbrev pub Keeps : List Source → Sender → Type 0
  Keeps sources s = Within (state_of (for_sources hash now sources s))

  resend-Keeps : (s : Sender) → Within s → Keeps [] s
  unfolding for_sources
  resend-Keeps s h =
      let k = Step-Within hash s (state_of (resend_timeout_packets now s)) (times_out now) h in
      bind-state Within (resend_timeout_packets now) (λ _. pure false) s k (λ a e. k)

  left_or :
      (left : Bool) (others : Exec Sender Bool) (s : Sender)
      → Within s
      → Within (state_of (others s))
      → Within (state_of ((if left then pure true else others) s))
  left_or true others s h k = h
  left_or false others s h k = k

  either-Within :
      (b : Bool) (m n : Exec Sender Bool) (s : Sender)
      → Within (state_of (m s))
      → Within (state_of (n s))
      → Within (state_of ((if b then m else n) s))
  either-Within true m n s h k = h
  either-Within false m n s h k = k

  text-Keeps :
      (byte_data : List ℕ) (s : Sender)
      → may_read s ≡ true
      → Within s
      → Keeps (text_reader byte_data ∷ []) s
  unfolding for_sources
  text-Keeps byte_data s room h =
      let k =
        Step-Within hash s (state_of (read_source hash now byte_data s)) (reads now byte_data room)
          h in
      either-Within s.sent_all_messages (for_sources hash now [])
        (do
          left ← read_source hash now byte_data
          if left then pure true else for_sources hash now [])
        s (resend-Keeps s h)
        (bind-state Within (read_source hash now byte_data)
          (λ left. if left then pure true else for_sources hash now []) s k
          (λ left e.
            left_or left (for_sources hash now []) (state_of (read_source hash now byte_data s)) k
              (resend-Keeps (state_of (read_source hash now byte_data s)) k)))

  packet-Keeps :
      (bs : List ℕ) (rest : List Source) (s : Sender)
      → ((s1 : Sender) → Shrinks s s1 → Within s1 → Keeps rest s1)
      → Within s
      → Keeps (packet_io bs ∷ rest) s
  unfolding for_sources
  packet-Keeps bs rest s after h = elim (Result-cases (from_bytes bs)) [
    | inr (x, e) ↦ rw e h
    | inl ((p, more), e) ↦
        let k = Step-Within hash s (state_of (receive hash now p s)) (receives now p) h in
        rw e (
          bind-state Within (receive hash now p)
            (λ left. if left then pure true else for_sources hash now rest) s k
            (λ left f.
              left_or left (for_sources hash now rest) (state_of (receive hash now p s)) k
                (after (state_of (receive hash now p s)) (receive-Shrinks hash now p s) k)))
  ]

  texts-Keep :
      (byte_data : Option (List ℕ)) (s s1 : Sender)
      → (may_read s ≡ true → may_read s1 ≡ true)
      → Within s1
      → Keeps (if may_read s then ready_text byte_data else []) s1
  texts-Keep byte_data s s1 room h = elim (Bool-cases (may_read s)) [
    | inr full ↦ rw full (resend-Keeps s1 h)
    | inl free ↦ rw free (some_text byte_data free)
  ]
    where
      some_text : (b : Option (List ℕ)) → may_read s ≡ true → Keeps (ready_text b) s1
      some_text none free = resend-Keeps s1 h
      some_text (some bs) free = text-Keeps bs s1 (room free) h

  sources-Keep :
      (datagram byte_data : Option (List ℕ)) (s : Sender)
      → Within s
      → Keeps (ready_packet datagram ++ (if may_read s then ready_text byte_data else [])) s
  sources-Keep none byte_data s h = texts-Keep byte_data s s (λ e. e) h
  sources-Keep (some bs) byte_data s h =
      packet-Keeps bs (if may_read s then ready_text byte_data else []) s
        (λ s1 shrinks k. texts-Keep byte_data s s1 (receive_room s s1 shrinks) k) h

run_over-Within :
    (hash : List ℕ → List ℕ) (waiting : List Waiting) (s : Sender)
    → Within s
    → Within (state_of (run_over hash waiting s))
unfolding run_over
run_over-Within hash [] s h = h
run_over-Within hash (w ∷ rest) s h =
    let k = sources-Keep hash w.now w.datagram w.byte_data s h in
    bind-state Within (for_sources hash w.now (select_ready_sources w s))
      (λ left. if left then pure true else run_over hash rest) s k
      (λ left e.
        left_or hash w.now left (run_over hash rest)
          (state_of (for_sources hash w.now (select_ready_sources w s) s)) k
          (run_over-Within hash rest
            (state_of (for_sources hash w.now (select_ready_sources w s) s)) k))

-- However a run of the sender goes, whatever datagrams and data come at whatever times, and also where it
-- ends with an exception, no more packets are in flight than its window holds.
pub run-Within :
    (hash : List ℕ → List ℕ) (waiting : List Waiting) (s : Sender)
    → length s.packets_in_flight ≤ s.sliding_window_size
    → length (state_of (run hash waiting s)).packets_in_flight
      ≤ (state_of (run hash waiting s)).sliding_window_size
unfolding run
run-Within hash waiting s h =
    run_over-Within hash waiting (record s { sent_all_messages = false }) h
