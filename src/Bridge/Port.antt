-- ===== src/Bridge/Port.antt =====
-- 3700Bridge/networks/port.py: a port, the BPDUs that it has seen, and its status.
pub mod Status
use cs.Prelude.{
  ℕ, ◌+◌, ◌-◌, ◌≡◌, Bool, true, false, not, Option, none, some, List, [], ◌∷◌, ◌++◌, map, keep, ltb,
  if◌then◌else◌,
}
use cs.Prelude.Exec.{Exec, Result, ok, pure, lift, gets, modify, ◌>>=◌, ◌>>◌}
use cs.Prelude.Dict.{Dict}
use cs.Prelude.Sort.{sorted_or_raise}
use cs.Prelude.Text.{Text}
use cs.Bridge.Bpdu.{Bpdu, bpdu_lt, MessageType, bpdu_message, Packet, post_init}

pub data PortStatus : Type 0 where
  designated disabled : PortStatus

abbrev pub status_beq : PortStatus → PortStatus → Bool
status_beq designated designated = true
status_beq disabled disabled = true
status_beq _ _ = false

-- `Port`: a seen BPDU has a count and the time, in milliseconds, when it was last seen. `sent` holds
-- what `_send` has put on the wire.
pub record Port : Type 0 where
  pub index : ℕ
  pub port_num : ℕ
  pub message_count : ℕ
  pub last_bpdu_sent : Option Bpdu
  pub seen_bpdus : Dict Bpdu (ℕ × ℕ)
  pub status : PortStatus
  pub sent : List Packet

-- `Port.__init__`
abbrev pub init : ℕ → ℕ → Port
init index port_num = record {
  index = index;
  port_num = port_num;
  message_count = 0;
  last_bpdu_sent = none;
  seen_bpdus = [];
  status = designated;
  sent = [];
}

-- `ALL_LANS_ID`, "ffff"
abbrev pub all_lans_id : Text
all_lans_id = b'f' ∷ b'f' ∷ b'f' ∷ b'f' ∷ []

-- `MESSAGE_SECOND_TIMEOUT`, in milliseconds
abbrev pub message_timeout : ℕ
message_timeout = 500

-- `send_packet` and `_send`
abbrev pub send_packet : Packet → Port → Port
send_packet packet p = record p {
  sent = p.sent ++ (packet ∷ []);
  message_count = p.message_count + 1;
}

-- The packet that `send_bpdu` sends, and the BPDU in it.
abbrev pub sendable : Text → Bpdu → Port → Bpdu
sendable bridge_id bpdu p = record bpdu { id = bridge_id; port = some p.index }

abbrev pub bpdu_packet : Text → Bpdu → Port → Packet
bpdu_packet bridge_id bpdu p = record {
  source = bridge_id;
  dest = all_lans_id;
  msg_id = p.message_count;
  type = MessageType.bridge_protocol_data_unit;
  message = bpdu_message (sendable bridge_id bpdu p);
}

-- `send_bpdu`
unfoldable pub send_bpdu : Text → Bpdu → Exec Port Unit
unfolding post_init
send_bpdu bridge_id bpdu = do
  sendable_bpdu ← gets (sendable bridge_id bpdu)
  built ← gets (λ p. post_init (bpdu_packet bridge_id bpdu p))
  packet ← lift built
  modify (send_packet packet)
  modify (λ (p : Port). record p { last_bpdu_sent = some sendable_bpdu })

-- A BPDU is kept if it was last seen less than two timeouts ago.
abbrev pub is_fresh : ℕ → Bpdu × (ℕ × ℕ) → Bool
is_fresh now (bpdu, (count, last_seen)) = ltb (now - last_seen) (message_timeout + message_timeout)

-- `get_flushed_bpdus`, where the clock reads `now`
abbrev pub get_flushed_bpdus : ℕ → Dict Bpdu (ℕ × ℕ) → Dict Bpdu (ℕ × ℕ)
get_flushed_bpdus now seen = keep (is_fresh now) seen

-- `update_status_change`
abbrev pub update_status_change : PortStatus → Exec Port Bool
update_status_change new p = (ok (not (status_beq new p.status)), record p { status = new })

-- `sorted_bpdus` against `last_bpdu_sent`
abbrev pub decide_status : List Bpdu → Option Bpdu → Exec Port Bool
decide_status [] last = update_status_change designated
decide_status (best ∷ others) none = update_status_change designated
decide_status (best ∷ others) (some last) = do
  better ← lift (bpdu_lt best last)
  if better then update_status_change disabled else update_status_change designated

-- `calculate_status_update`
unfoldable pub calculate_status_update : ℕ → Exec Port Bool
calculate_status_update now = do
  modify (λ (p : Port). record p { seen_bpdus = get_flushed_bpdus now p.seen_bpdus })
  found ← gets (λ (p : Port). sorted_or_raise bpdu_lt (map (λ e. e.0) p.seen_bpdus))
  sorted_bpdus ← lift found
  last ← gets (λ (p : Port). p.last_bpdu_sent)
  decide_status sorted_bpdus last
