-- ===== src/Bridge/Port/Status.antt =====
-- When a port is disabled.
use cs.Prelude.{
  ℕ, ◌-◌, ltb, keep, ◌≡◌, refl, sym, Bool, true, false, not, ◌||◌, inl, inr, Option, none, some,
  List, [], ◌∷◌, map, arith, All, All-In, In, Bool-cases, if◌then◌else◌,
}
use cs.Prelude.Exec.{ok}
use cs.Prelude.Dict.{Dict}
use cs.Prelude.Sort.{sorted, sorted_or_raise-ok, sorted_least}
use cs.Bridge.Bpdu.{Bpdu, bpdu_lt}
use cs.Bridge.Bpdu.Order.{HasPort, bpdu_before, bpdu_lt-bpdu_before, bpdu_before-IsOrder}
use cs.Bridge.Port.{
  Port, PortStatus, designated, disabled, status_beq, get_flushed_bpdus, decide_status,
  calculate_status_update,
}

-- One of the BPDUs is before `last`.
abbrev pub any_before : Bpdu → List Bpdu → Bool
any_before last [] = false
any_before last (b ∷ bs) = bpdu_before b last || any_before last bs

abbrev pub is_beaten : Option Bpdu → List Bpdu → Bool
is_beaten none bs = false
is_beaten (some last) bs = any_before last bs

any_before-In :
    (last b : Bpdu) (bs : List Bpdu)
    → In b bs
    → bpdu_before b last ≡ true
    → any_before last bs ≡ true
any_before-In last b [] m h = absurd m
any_before-In last b (x ∷ bs) (inl e) h =
    let h' : bpdu_before x last ≡ true = rw e at h in ground arith
any_before-In last b (x ∷ bs) (inr m) h = ground (arith, any_before-In last b bs m h)

none_before :
    (last b : Bpdu) (bs : List Bpdu)
    → All (λ z. bpdu_before z b ≡ false) bs
    → bpdu_before b last ≡ false
    → any_before last bs ≡ false
none_before last b [] h k = refl
none_before last b (x ∷ bs) (hx, hs) k =
    rw (bpdu_before-IsOrder.negated_trans last b x k hx, none_before last b bs hs k) refl

-- The best of the BPDUs is before `last` exactly if one of them is.
best_decides :
    (last b : Bpdu) (bs : List Bpdu)
    → In b bs
    → All (λ z. bpdu_before z b ≡ false) bs
    → bpdu_before b last ≡ any_before last bs
best_decides last b bs m least = elim (Bool-cases (bpdu_before b last)) [
  | inl before ↦ rw before (sym (any_before-In last b bs m before))
  | inr behind ↦ rw behind (sym (none_before last b bs least behind))
]

-- The status that the BPDUs of a port call for.
abbrev pub status_for : Option Bpdu → List Bpdu → PortStatus
status_for last bs = if is_beaten last bs then disabled else designated

abbrev pub keys : Dict Bpdu (ℕ × ℕ) → List Bpdu
keys seen = map (λ e. e.0) seen

-- Every BPDU that the port has seen or sent names a port.
abbrev pub IsWellFormed : Port → Type 0
IsWellFormed p =
    All HasPort (keys p.seen_bpdus) × ((b : Bpdu) → p.last_bpdu_sent ≡ some b → HasPort b)

decide_status_lem :
    (p : Port) (last : Option Bpdu) (b : Bpdu) (bs all : List Bpdu)
    → In b all
    → All (λ z. bpdu_before z b ≡ false) all
    → HasPort b
    → ((l : Bpdu) → last ≡ some l → HasPort l)
    → decide_status (b ∷ bs) last p ≡ (
      ok (not (status_beq (status_for last all) p.status)),
      record p { status = status_for last all },
    )
decide_status_lem p none b bs all m least hb hl = refl
decide_status_lem p (some l) b bs all m least hb hl =
    rw (bpdu_lt-bpdu_before b l hb (hl l refl), best_decides l b all m least)
      (elim (Bool-cases (any_before l all)) [
        | inl beaten ↦ rw beaten refl
        | inr best ↦ rw best refl
      ])

decide_sorted :
    (p : Port) (last : Option Bpdu) (all : List Bpdu)
    → All HasPort all
    → ((l : Bpdu) → last ≡ some l → HasPort l)
    → decide_status (sorted bpdu_before all) last p ≡ (
      ok (not (status_beq (status_for last all) p.status)),
      record p { status = status_for last all },
    )
decide_sorted p none [] h hl = unfold sorted in refl
decide_sorted p (some l) [] h hl = unfold sorted in refl
decide_sorted p last (x ∷ xs) h hl =
    let (b, bs, e, m, least) = sorted_least bpdu_before x xs bpdu_before-IsOrder in
    rw e (decide_status_lem p last b bs (x ∷ xs) m least (All-In HasPort b (x ∷ xs) h m) hl)

-- The BPDUs that were last seen less than 1000 milliseconds ago.
abbrev pub recent : ℕ → Dict Bpdu (ℕ × ℕ) → Dict Bpdu (ℕ × ℕ)
recent now seen = keep (λ e. ltb (now - e.1.1) 1000) seen

-- The port forgets the BPDUs that it last saw 1000 milliseconds ago, two timeouts, or more. It is then disabled exactly if one of the
-- others is before the BPDU that it last sent, and designated otherwise; the answer says whether
-- the status has changed, and nothing else changes.
pub calculate_status_update_lem :
    (now : ℕ) (p : Port)
    → All HasPort (keys (recent now p.seen_bpdus))
    → ((b : Bpdu) → p.last_bpdu_sent ≡ some b → HasPort b)
    → calculate_status_update now p ≡ (
        let new = status_for p.last_bpdu_sent (keys (recent now p.seen_bpdus)) in
        (
          ok (not (status_beq new p.status)),
          record p { seen_bpdus = recent now p.seen_bpdus; status = new },
        ))
unfolding calculate_status_update
calculate_status_update_lem now p h hl =
    rw
      (sorted_or_raise-ok HasPort bpdu_lt bpdu_before (keys (get_flushed_bpdus now p.seen_bpdus))
        bpdu_lt-bpdu_before h)
      (decide_sorted (record p { seen_bpdus = get_flushed_bpdus now p.seen_bpdus }) p.last_bpdu_sent
        (keys (get_flushed_bpdus now p.seen_bpdus)) h hl)
