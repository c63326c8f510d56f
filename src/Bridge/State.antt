-- ===== src/Bridge/State.antt =====
-- 3700Bridge/networks/bridge.py: the state of a bridge, its ports, and the sending of BPDUs.
pub mod Numbering
pub mod Announced
use cs.Prelude.{
  ℕ, zero, suc, ◌+◌, ◌≡◌, Bool, true, false, Option, none, some, List, [], ◌∷◌, get_elem?,
}
use cs.Prelude.Exec.{Exec, Result, ok, err, index_error, pure, modify, ◌>>=◌, ◌>>◌}
use cs.Prelude.Dict.{Dict}
use cs.Prelude.Text.{Text}
use cs.Bridge.Bpdu.{Bpdu}
use cs.Bridge.Port
use cs.Bridge.Port.{Port}

-- `Bridge`: a port is known by its place in `ports`, also in the forwarding table, so that two
-- references to one port see the same object.
pub record Bridge : Type 0 where
  pub identity : Text
  pub ports : List Port
  pub forwarding_table : Dict Text ℕ
  pub last_sent_bpdu : ℕ
  pub root_port : Option ℕ
  pub root_bpdu : Bpdu

-- `DEFAULT_ROOT_BPDU`; `DEFAULT_ROOT_PORT` is `none`.
abbrev pub default_root_bpdu : Text → Bpdu
default_root_bpdu identity = record { root = identity; cost = 0; port = none; id = identity }

-- `launch_bridge`: a port for each number, counted from `index`.
abbrev pub numbered_ports : ℕ → List ℕ → List Port
numbered_ports index [] = []
numbered_ports index (port_num ∷ rest) = Port.init index port_num ∷ numbered_ports (suc index) rest

-- `Bridge.__init__`, with the root that `launch` begins with.
abbrev pub launched : Text → List ℕ → ℕ → Bridge
launched identity port_numbers now = record {
  identity = identity;
  ports = numbered_ports 0 port_numbers;
  forwarding_table = [];
  last_sent_bpdu = now;
  root_port = none;
  root_bpdu = default_root_bpdu identity;
}

abbrev pub set_elem : {A : Type 0} → List A → ℕ → A → List A
set_elem [] i a = []
set_elem (x ∷ xs) zero a = a ∷ xs
set_elem (x ∷ xs) (suc i) a = x ∷ set_elem xs i a

-- A method of the port at a place.
abbrev pub on_port : {A : Type 0} → ℕ → Exec Port A → Exec Bridge A
on_port i method b = elim (get_elem? b.ports i) [
  | none ↦ (err index_error, b)
  | some p ↦ let (r, p') = method p in (r, record b { ports = set_elem b.ports i p' })
]

-- The loop of `send_bpdus`
unfoldable pub send_each : Text → Bpdu → List Port → Result (Unit {0}) × List Port
unfolding Port.send_bpdu
send_each identity bpdu [] = (ok tt, [])
send_each identity bpdu (p ∷ ps) =
    let (r, p') = Port.send_bpdu identity bpdu p in
    let (r', ps') = send_each identity bpdu ps in
    elim r [ err e ↦ (err e, p' ∷ ps) | ok _ ↦ (r', p' ∷ ps') ]

-- `send_bpdus`, where the clock reads `now`
unfoldable pub send_bpdus : ℕ → Exec Bridge Unit
unfolding send_each
send_bpdus now b =
    let (r, ports') = send_each b.identity b.root_bpdu b.ports in
    (r, record b { last_sent_bpdu = now; ports = ports' })
