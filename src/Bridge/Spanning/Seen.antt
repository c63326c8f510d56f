-- ===== src/Bridge/Spanning/Seen.antt =====
-- What a port keeps of a received BPDU, and what a batch of BPDUs loses.
use cs.Prelude.{
  ℕ, ◌+◌, ◌≡◌, ◌∙◌, ap, subst, refl, sym, true, false, not, inl, inr, none, some, List, [], ◌∷◌,
  arith, All, Bool-cases, Option-cases,
}
use cs.Prelude.Eq.{◌==◌, eq_self}
use cs.Prelude.Exec.{ok, state_of, bind-ok}
use cs.Prelude.Dict.{Dict, lookup, insert}
use cs.Bridge.Bpdu.{Bpdu, Bpdu_eq}
use cs.Bridge.Bpdu.Order.{HasPort}
use cs.Bridge.Port.{Port, status_beq, is_fresh, get_flushed_bpdus}
use cs.Bridge.Port.Status.{keys, status_for, IsWellFormed, calculate_status_update_lem}
use cs.Bridge.State.{Bridge}
use cs.Bridge.Spanning.{see, handle_on, handle, handle_all}

abbrev Seen : Type 0
Seen = Dict Bpdu (ℕ × ℕ)

lookup-flushed :
    (now count : ℕ) (b : Bpdu) (seen : Seen)
    → lookup b (get_flushed_bpdus now (insert b (count, now) seen)) ≡ some (count, now)
lookup-flushed now count b [] = ground (arith, eq_self b)
lookup-flushed now count b ((c, (n, t)) ∷ seen) =
    ground (arith, eq_self b, lookup-flushed now count b seen)

insert-HasPort :
    (b : Bpdu) (v : ℕ × ℕ) (seen : Seen)
    → HasPort b
    → All HasPort (keys seen)
    → All HasPort (keys (insert b v seen))
insert-HasPort b v [] hb h = (hb, tt)
insert-HasPort b v ((c, w) ∷ seen) hb (hc, hs) = elim (Bool-cases (c == b)) [
  | inl same ↦ rw same (hc, hs)
  | inr other ↦ rw other (hc, insert-HasPort b v seen hb hs)
]

flushed-HasPort :
    (now : ℕ) (seen : Seen)
    → All HasPort (keys seen)
    → All HasPort (keys (get_flushed_bpdus now seen))
flushed-HasPort now [] h = tt
flushed-HasPort now ((c, (n, t)) ∷ seen) (hc, hs) = elim (Bool-cases (is_fresh now (c, (n, t)))) [
  | inl fresh ↦ rw fresh (hc, flushed-HasPort now seen hs)
  | inr old ↦ rw old (flushed-HasPort now seen hs)
]

-- How often the port has seen the BPDU, this time included.
abbrev pub times_seen : Bpdu → Seen → ℕ
times_seen b seen = elim (lookup b seen) [ none ↦ 1 | some (n, t) ↦ n + 1 ]

see-insert :
    (now : ℕ) (b : Bpdu) (seen : Seen) → see now b seen ≡ insert b (times_seen b seen, now) seen
see-insert now b seen = elim (Option-cases (lookup b seen)) [
  | inl new ↦ ground (arith, new)
  | inr ((n, t), known) ↦ ground (arith, known)
]

see-HasPort :
    (now : ℕ) (b : Bpdu) (seen : Seen)
    → HasPort b
    → All HasPort (keys seen)
    → All HasPort (keys (see now b seen))
see-HasPort now b seen hb h =
    subst (λ (t : Seen). All HasPort (keys t)) (sym (see-insert now b seen))
      (insert-HasPort b (times_seen b seen, now) seen hb h)

lookup-see :
    (now : ℕ) (b : Bpdu) (seen : Seen)
    → lookup b (get_flushed_bpdus now (see now b seen)) ≡ some (times_seen b seen, now)
lookup-see now b seen =
    ap (λ (t : Seen). lookup b (get_flushed_bpdus now t)) (see-insert now b seen)
    ∙ lookup-flushed now (times_seen b seen) b seen

-- The BPDUs that the port keeps after it has received `b`.
abbrev pub kept : ℕ → Bpdu → Port → Seen
kept now b p = get_flushed_bpdus now (see now b p.seen_bpdus)

-- A port that receives a BPDU never raises. It keeps that BPDU, with its count and the time, and the
-- others that are not too old; its status is the one that these call for; the answer says whether
-- it has changed; and the port stays well formed.
pub handle_on_lem :
    (now : ℕ) (b : Bpdu) (p : Port)
    → HasPort b
    → IsWellFormed p
    → (handle_on now b p ≡ (
      ok (not (status_beq (status_for p.last_bpdu_sent (keys (kept now b p))) p.status)),
      record p {
        seen_bpdus = kept now b p;
        status = status_for p.last_bpdu_sent (keys (kept now b p));
      },
    ))
      × (lookup b (kept now b p) ≡ some (times_seen b p.seen_bpdus, now))
      × IsWellFormed (state_of (handle_on now b p))
unfolding handle_on
handle_on_lem now b p hb (seen, sent) =
    let named =
      flushed-HasPort now (see now b p.seen_bpdus) (see-HasPort now b p.seen_bpdus hb seen) in
    let done =
      calculate_status_update_lem now (record p { seen_bpdus = see now b p.seen_bpdus }) named
        sent in
    (done, lookup-see now b p.seen_bpdus, rw done (named, sent))

pub skips :
    (now : ℕ) (rest : List (ℕ × Bpdu)) (b : Bridge) → handle_all now true rest b ≡ (ok true, b)
unfolding handle_all
skips now [] b = refl
skips now (request ∷ rest) b = skips now rest b

-- Once a BPDU of a batch has changed the status of its port, the BPDUs after it in the batch are lost:
-- the bridge is left as if it had received the first one alone, whatever the others are.
pub handle_all_drops :
    (now : ℕ) (request : ℕ × Bpdu) (rest : List (ℕ × Bpdu)) (b b' : Bridge)
    → handle now request b ≡ (ok true, b')
    → handle_all now false (request ∷ rest) b ≡ (ok true, b')
unfolding handle_all
handle_all_drops now request rest b b' h =
    bind-ok (handle now request) (λ updated. handle_all now updated rest) b true b' h
    ∙ skips now rest b'
