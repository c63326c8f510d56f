-- ===== src/Bridge/State/Announced.antt =====
-- What `send_bpdus` puts on the wire.
use cs.Prelude.{ℕ, ◌≡◌, refl, some, List, [], ◌∷◌, map}
use cs.Prelude.Exec.{ok}
use cs.Prelude.Text.{Text}
use cs.Bridge.Bpdu.{Bpdu, post_init}
use cs.Bridge.Port.{Port, sendable, bpdu_packet, send_packet}
use cs.Bridge.State.{Bridge, send_each, send_bpdus}

-- A port after it has sent the bridge's BPDU under its own number, and has noted it.
abbrev pub announced : Text → Bpdu → Port → Port
announced identity bpdu p = record (send_packet (bpdu_packet identity bpdu p) p) {
  last_bpdu_sent = some (sendable identity bpdu p);
}

send_each_lem :
    (identity : Text) (bpdu : Bpdu) (ps : List Port)
    → send_each identity bpdu ps ≡ (ok tt, map (announced identity bpdu) ps)
unfolding send_each post_init
send_each_lem identity bpdu [] = refl
send_each_lem identity bpdu (p ∷ ps) = rw (send_each_lem identity bpdu ps) refl

-- Every port sends the root BPDU once, with this bridge and its own number in it and its own counter
-- on it, and notes it as its last one. Nothing raises, and apart from the ports only the time of
-- sending changes.
pub send_bpdus_lem :
    (now : ℕ) (b : Bridge)
    → send_bpdus now b ≡ (
      ok tt,
      record b { last_sent_bpdu = now; ports = map (announced b.identity b.root_bpdu) b.ports },
    )
unfolding send_bpdus
send_bpdus_lem now b = rw (send_each_lem b.identity b.root_bpdu b.ports) refl
