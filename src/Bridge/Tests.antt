-- ===== src/Bridge/Tests.antt =====
-- The theorems about the bridge at concrete ports, BPDUs and frames.
use cs.Prelude.{
  ℕ, ◌≡◌, ◌≢◌, ◌⊎◌, refl, sym, ap, ◌∙◌, inl, Bool, true, false, not, Option, none, some, [], ◌∷◌,
  arith,
}
use cs.Prelude.Exec.{Result, ok, state_of}
use cs.Prelude.Dict.{lookup}
use cs.Prelude.Eq.{ℕ_eq, List_eq}
use cs.Prelude.Sort.{sorted_or_raise}
use cs.Prelude.Text.{Text}
use cs.Bridge.Bpdu.{Bpdu, Bpdu_eq, bpdu_lt, MessageType, any_message, Packet}
use cs.Bridge.Port.{Port, designated, disabled, status_beq, calculate_status_update}
use cs.Bridge.Port.Status.{keys, status_for, IsWellFormed, calculate_status_update_lem}
use cs.Bridge.State.{Bridge, launched, default_root_bpdu}
use cs.Bridge.Spanning
use cs.Bridge.Spanning.{handle_on}
use cs.Bridge.Spanning.Seen.{kept, handle_on_lem}
use cs.Bridge.Root.{all_port_bpdus_pairs, calculated_root_changed}
use cs.Bridge.Root.Election.{IsSound, rerooted, Elected, calculated_root_changed_lem}
use cs.Bridge.Root.Stale.{root_port_without_bpdu}
use cs.Bridge.Forwarding
use cs.Bridge.Forwarding.{calculate_forwarding_table}
use cs.Bridge.Forwarding.Table.{calculate_forwarding_table_lem}
use cs.Bridge.Forwarding.Delivery.{forwarded, handle_lem}
use cs.Bridge.Port
use cs.Bridge.Launch.{Accepted, launch}
use cs.Bridge.Launch.Whole.{launch_lem}
use cs.Bridge.Launch.Kept.{IsRunning}
use cs.Bridge.Launch.Round.{EndsRunning}

-- The bridges "a", "b" and "c".
abbrev id_a : Text
id_a = b'a' ∷ []

abbrev id_b : Text
id_b = b'b' ∷ []

abbrev id_c : Text
id_c = b'c' ∷ []

-- Bridge "b" has heard of the root "a" by its port 1, which is disabled.
abbrev from_a : Bpdu
from_a = record { root = id_a; cost = 0; port = some 4; id = id_a }

abbrev own_bpdu : Bpdu
own_bpdu = record { root = id_b; cost = 0; port = some 1; id = id_b }

abbrev quiet_port : Port
quiet_port = record {
  index = 0;
  port_num = 9000;
  message_count = 2;
  last_bpdu_sent = none;
  seen_bpdus = [];
  status = designated;
  sent = [];
}

abbrev root_side : Port
root_side = record {
  index = 1;
  port_num = 9001;
  message_count = 2;
  last_bpdu_sent = some own_bpdu;
  seen_bpdus = (from_a, (1, 100)) ∷ [];
  status = disabled;
  sent = [];
}

abbrev bridge : Bridge
bridge = record {
  identity = id_b;
  ports = quiet_port ∷ root_side ∷ [];
  forwarding_table = [];
  last_sent_bpdu = 0;
  root_port = none;
  root_bpdu = default_root_bpdu id_b;
}

root_side-IsWellFormed : IsWellFormed root_side
root_side-IsWellFormed = (((4, refl), tt), λ b e. (1, ground (arith, e)))

quiet_port-IsWellFormed : IsWellFormed quiet_port
quiet_port-IsWellFormed = (tt, λ b e. cc)

bridge-IsSound : IsSound bridge
bridge-IsSound =
    ((refl, (refl, tt)), (quiet_port-IsWellFormed, (root_side-IsWellFormed, tt)), inl refl)

bridge-IsRunning : IsRunning bridge
bridge-IsRunning = (bridge-IsSound, tt)

abbrev frame : Packet
frame = record {
  source = id_c;
  dest = id_a;
  msg_id = 7;
  type = MessageType.data_message;
  message = any_message [];
}

calculate_status_update_lem_example :
    calculate_status_update 150 root_side
    ≡ (ok false, record root_side { seen_bpdus = (from_a, (1, 100)) ∷ []; status = disabled })
calculate_status_update_lem_example =
    calculate_status_update_lem 150 root_side root_side-IsWellFormed.0 root_side-IsWellFormed.1

handle_on_lem_example :
    (handle_on 300 from_a root_side ≡ (
      ok (
          not
            (status_beq (status_for (some own_bpdu) (keys (kept 300 from_a root_side))) disabled)),
      record root_side {
        seen_bpdus = kept 300 from_a root_side;
        status = status_for (some own_bpdu) (keys (kept 300 from_a root_side));
      },
    ))
    × (lookup from_a (kept 300 from_a root_side) ≡ some (2, 300))
    × IsWellFormed (state_of (handle_on 300 from_a root_side))
handle_on_lem_example = handle_on_lem 300 from_a root_side (4, refl) root_side-IsWellFormed

calculated_root_changed_lem_example :
    (((all_port_bpdus_pairs bridge.ports ≡ [])
        × (calculated_root_changed bridge ≡ rerooted none (default_root_bpdu id_b) bridge))
      ⊎ Elected bridge (calculated_root_changed bridge))
    × IsSound (state_of (calculated_root_changed bridge))
calculated_root_changed_lem_example = calculated_root_changed_lem bridge bridge-IsSound

-- The bridge takes port 1 for its root port.
elects_port : calculated_root_changed bridge ≡ (ok true, record bridge { root_port = some 1 })
unfolding calculated_root_changed bpdu_lt sorted_or_raise
elects_port = refl

abbrev port_1 : Option ℕ
port_1 = some 1

some_port : port_1 ≢ none
some_port = λ e. absurd (ground (arith, e))

port_differs : (state_of (calculated_root_changed bridge)).root_port ≢ bridge.root_port
port_differs e =
    absurd
      (some_port (sym (ap (λ (m : Result Bool × Bridge). (state_of m).root_port) elects_port) ∙ e))

root_port_without_bpdu_example :
    (state_of (calculated_root_changed bridge)).root_bpdu ≡ default_root_bpdu id_b
root_port_without_bpdu_example = root_port_without_bpdu bridge bridge-IsSound port_differs

handle_lem_example :
    Forwarding.handle (0, frame) bridge ≡ (ok tt, forwarded bridge 0 frame quiet_port)
handle_lem_example = handle_lem bridge 0 frame quiet_port (refl, (refl, tt)) tt refl

calculate_forwarding_table_lem_example :
    lookup id_a (calculate_forwarding_table (record bridge { root_port = some 1 })) ≡ some 1
calculate_forwarding_table_lem_example =
    calculate_forwarding_table_lem id_a (record bridge { root_port = some 1 })

-- At time 2000 the BPDU of "a" is forgotten, and the port changes its status.
abbrev from_c : Bpdu
from_c = record { root = id_c; cost = 0; port = some 2; id = id_c }

abbrev after_first : Bridge
after_first = record bridge {
  ports =
      quiet_port
      ∷ record root_side { seen_bpdus = (from_c, (1, 2000)) ∷ []; status = designated }
      ∷ [];
}

first_updates : Spanning.handle 2000 (1, from_c) bridge ≡ (ok true, after_first)
unfolding Spanning.handle handle_on calculate_status_update bpdu_lt sorted_or_raise
first_updates = refl

-- One turn: the BPDU of "a" comes by port 1, and a frame by port 0.
abbrev one_turn : Accepted
one_turn = record { now = 700; spanning = (1, from_a) ∷ []; forwarding = (0, frame) ∷ [] }

launch_lem_example : EndsRunning (launch 5 (one_turn ∷ []) (launched id_b (9000 ∷ 9001 ∷ []) 5))
launch_lem_example =
    launch_lem id_b (9000 ∷ 9001 ∷ []) 5 (one_turn ∷ [])
      (((((Port.init 1 9001, refl), (4, refl)), tt), ((Port.init 0 9000, refl), tt)), tt)
