-- ===== src/Bridge/Spanning.antt =====
-- `SpanningTreeRequest` of 3700Bridge/networks/request_handler.py, and the loop of `launch` over a
-- batch of them.
pub mod Seen
use cs.Prelude.{ℕ, ◌+◌, Bool, true, false, Option, none, some, List, [], ◌∷◌, if◌then◌else◌}
use cs.Prelude.Exec.{Exec, Result, pure, modify, ◌>>=◌, ◌>>◌}
use cs.Prelude.Dict.{Dict, lookup, insert}
use cs.Bridge.Bpdu.{Bpdu, Bpdu_eq}
use cs.Bridge.Port.{Port, calculate_status_update}
use cs.Bridge.State.{Bridge, on_port}

-- The first part of `handle`: count the BPDU, and note when it came.
abbrev pub see : ℕ → Bpdu → Dict Bpdu (ℕ × ℕ) → Dict Bpdu (ℕ × ℕ)
see now bpdu seen = elim (lookup bpdu seen) [
  | some (count, last_time) ↦ insert bpdu (count + 1, now) seen
  | none ↦ insert bpdu (1, now) seen
]

-- `handle`, on the port that the BPDU came in by; all readings of the clock are `now`.
unfoldable pub handle_on : ℕ → Bpdu → Exec Port Bool
unfolding calculate_status_update
handle_on now bpdu = do
  modify (λ (p : Port). record p { seen_bpdus = see now bpdu p.seen_bpdus })
  calculate_status_update now

unfoldable pub handle : ℕ → ℕ × Bpdu → Exec Bridge Bool
handle now (i, bpdu) = on_port i (handle_on now bpdu)

-- The loop: `any_port_updated or spanning_request.handle(self)` does not call `handle` once a port
-- was updated.
unfoldable pub handle_all : ℕ → Bool → List (ℕ × Bpdu) → Exec Bridge Bool
unfolding handle
handle_all now any_port_updated [] = pure any_port_updated
handle_all now any_port_updated (request ∷ rest) =
    let skipped = handle_all now true rest in
    if any_port_updated
    then skipped
    else (do updated ← handle now request; handle_all now updated rest)
