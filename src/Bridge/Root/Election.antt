-- ===== src/Bridge/Root/Election.antt =====
-- Which BPDU the bridge takes for its root's.
use cs.Prelude.{
  ℕ, ◌+◌, ◌≡◌, ◌≢◌, ◌⊎◌, refl, ◌∙◌, ap, inl, inr, Bool, true, false, not, Option, none, some, List,
  [], ◌∷◌, map, arith, All, All-In, All-append, In, get_elem?, Bool-cases, if◌then◌else◌,
}
use cs.Prelude.Eq.{◌==◌, ℕ_eq, List_eq, Option_eq, list_eq_iff}
use cs.Prelude.Exec.{Result, ok, err, runtime_error, state_of}
use cs.Prelude.Dict.{Dict}
use cs.Prelude.Sort.{IsOrder, sorted, sorted_or_raise-ok, sorted_least}
use cs.Prelude.Text.{Text}
use cs.Bridge.Bpdu.{Bpdu, Bpdu_eq, bpdu_lt}
use cs.Bridge.Bpdu.Order.{
  HasPort, bpdu_before, bpdu_lt-bpdu_before, bpdu_lt-roots, bpdu_before-IsOrder,
}
use cs.Bridge.Port.{Port, disabled, status_beq}
use cs.Bridge.Port.Status.{keys, IsWellFormed}
use cs.Bridge.State.{Bridge, default_root_bpdu}
use cs.Bridge.State.Numbering.{IsNumbered, get_elem?-index}
use cs.Bridge.Root.{
  update_root, port_pairs, all_port_bpdus_pairs, pair_lt, cost_adjusted, adopt, decide_root,
  calculated_root_changed,
}

-- The root's BPDU is the bridge's own, or one for another root that names a port.
abbrev pub RootedIn : Text → Bpdu → Type 0
RootedIn identity bpdu =
    (bpdu ≡ default_root_bpdu identity) ⊎ (HasPort bpdu × (bpdu.root ≢ identity))

abbrev pub IsRooted : Bridge → Type 0
IsRooted b = RootedIn b.identity b.root_bpdu

abbrev pub IsSound : Bridge → Type 0
IsSound b = IsNumbered 0 b.ports × All IsWellFormed b.ports × IsRooted b

-- The order by the BPDU of a pair.
abbrev pub pair_before : ℕ × Bpdu → ℕ × Bpdu → Bool
pair_before (i, a) (j, b) = bpdu_before a b

pair_before-IsOrder : IsOrder pair_before
pair_before-IsOrder = record {
  irreflexive = λ a. bpdu_before-IsOrder.irreflexive a.1;
  asymmetric = λ a b. bpdu_before-IsOrder.asymmetric a.1 b.1;
  negated_trans = λ a b c. bpdu_before-IsOrder.negated_trans a.1 b.1 c.1;
}

abbrev PairHasPort : ℕ × Bpdu → Type 0
PairHasPort (i, b) = HasPort b

seen-PairHasPort :
    (i : ℕ) (seen : Dict Bpdu (ℕ × ℕ))
    → All HasPort (keys seen)
    → All PairHasPort (map (λ e. (i, e.0)) seen)
seen-PairHasPort i [] h = tt
seen-PairHasPort i (e ∷ seen) (h, hs) = (h, seen-PairHasPort i seen hs)

pairs-PairHasPort :
    (ps : List Port) → All IsWellFormed ps → All PairHasPort (all_port_bpdus_pairs ps)
pairs-PairHasPort [] h = tt
pairs-PairHasPort (p ∷ ps) (h, hs) =
    All-append PairHasPort (port_pairs p) (all_port_bpdus_pairs ps)
      (seen-PairHasPort p.index p.seen_bpdus h.0) (pairs-PairHasPort ps hs)

-- The port that a pair comes from.
abbrev Owned : List Port → ℕ × Bpdu → Type 0
Owned ps e = (p : Port) × In p ps × (e.0 ≡ p.index)

seen-Owned :
    (p : Port) (seen : Dict Bpdu (ℕ × ℕ)) (ps : List Port)
    → In p ps
    → All (Owned ps) (map (λ e. (p.index, e.0)) seen)
seen-Owned p [] ps m = tt
seen-Owned p (e ∷ seen) ps m = ((p, m, refl), seen-Owned p seen ps m)

pairs-Owned :
    (ps all : List Port)
    → ((p : Port) → In p ps → In p all)
    → All (Owned all) (all_port_bpdus_pairs ps)
pairs-Owned [] all sub = tt
pairs-Owned (p ∷ ps) all sub =
    All-append (Owned all) (port_pairs p) (all_port_bpdus_pairs ps)
      (seen-Owned p p.seen_bpdus all (sub p (inl refl))) (pairs-Owned ps all (λ q m. sub q (inr m)))

-- The BPDU one hop further.
abbrev pub one_hop : Bpdu → Bpdu
one_hop bpdu = record { root = bpdu.root; cost = bpdu.cost + 1; port = bpdu.port; id = bpdu.id }

-- A bridge whose root port is another one takes it and keeps its BPDU; one whose root port stays the
-- same takes the BPDU.
abbrev pub rerooted : Option ℕ → Bpdu → Bridge → Result Bool × Bridge
rerooted port bpdu b =
    if port == b.root_port
    then (ok (not (bpdu == b.root_bpdu)), record b { root_port = port; root_bpdu = bpdu })
    else (ok true, record b { root_port = port })

update_root-rerooted :
    (port : Option ℕ) (bpdu : Bpdu) (b : Bridge) → update_root port bpdu b ≡ rerooted port bpdu b
update_root-rerooted port bpdu b = elim (Bool-cases (port == b.root_port)) [
  | inl same ↦ rw same refl
  | inr other ↦ rw other refl
]

-- What the bridge does with the best pair, which came in by the port `p`.
abbrev pub outcome : Bridge → Port → ℕ × Bpdu → Result Bool × Bridge
outcome b p (i, best) =
    if best.root == b.identity
    then rerooted none (default_root_bpdu b.identity) b
    else if not (bpdu_before (one_hop best) b.root_bpdu)
    then (ok false, b)
    else if status_beq p.status disabled
    then rerooted (some i) (record (one_hop best) { id = b.identity }) b
    else (err runtime_error, b)

-- The comparison with the current root does not raise.
adjusted_lt :
    (b : Bridge) (best : Bpdu)
    → IsRooted b
    → HasPort best
    → (best.root == b.identity) ≡ false
    → bpdu_lt (cost_adjusted best) b.root_bpdu ≡ ok (bpdu_before (cost_adjusted best) b.root_bpdu)
adjusted_lt b best (inl own) hb other = bpdu_lt-roots (cost_adjusted best) b.root_bpdu (λ same.
    absurd (ground (arith, list_eq_iff best.root b.identity, ap (λ (x : Bpdu). x.root) own, same)))
adjusted_lt b best (inr (hr, _)) hb other =
    bpdu_lt-bpdu_before (cost_adjusted best) b.root_bpdu hb hr

adopt_lem :
    (b : Bridge) (p : Port) (i : ℕ) (best : Bpdu)
    → IsRooted b
    → HasPort best
    → get_elem? b.ports i ≡ some p
    → (best.root == b.identity) ≡ false
    → adopt i best b ≡ outcome b p (i, best)
unfolding adopt
adopt_lem b p i best rooted hb at other = rw (adjusted_lt b best rooted hb other) (
    ground (
      arith,
      at,
      other,
      update_root-rerooted (some i) (record (cost_adjusted best) { id = b.identity }) b,
    ))

decide_root_lem :
    (b : Bridge) (p : Port) (e : ℕ × Bpdu) (others : List (ℕ × Bpdu))
    → IsRooted b
    → HasPort e.1
    → get_elem? b.ports e.0 ≡ some p
    → decide_root b.identity (e ∷ others) b ≡ outcome b p e
unfolding adopt
decide_root_lem b p (i, best) others rooted hb at = elim (Bool-cases (best.root == b.identity)) [
  | inl own ↦ rw own (update_root-rerooted none (default_root_bpdu b.identity) b)
  | inr other ↦ rw other (adopt_lem b p i best rooted hb at other ∙ rw other refl)
]

-- The best pair, the port that it came in by, and what follows from it.
pub record Elected (b : Bridge) (r : Result Bool × Bridge) : Type 0 where
  pub best : ℕ × Bpdu
  pub listed : In best (all_port_bpdus_pairs b.ports)
  pub least : All (λ e. bpdu_before e.1 best.1 ≡ false) (all_port_bpdus_pairs b.ports)
  pub port : Port
  pub came_by : get_elem? b.ports best.0 ≡ some port
  pub outcome_lem : r ≡ outcome b port best

elect :
    (b : Bridge) (x : ℕ × Bpdu) (xs : List (ℕ × Bpdu))
    → IsSound b
    → All PairHasPort (x ∷ xs)
    → All (Owned b.ports) (x ∷ xs)
    → (e : ℕ × Bpdu) × In e (x ∷ xs)
      × All (λ z. bpdu_before z.1 e.1 ≡ false) (x ∷ xs)
      × ((p : Port) × (get_elem? b.ports e.0 ≡ some p)
          × (decide_root b.identity (sorted pair_before (x ∷ xs)) b ≡ outcome b p e))
elect b x xs (numbered, formed, rooted) named owned =
    let (e, others, sorts, m, least) = sorted_least pair_before x xs pair_before-IsOrder in
    let (p, listed, at) = All-In (Owned b.ports) e (x ∷ xs) owned m in
    let here : get_elem? b.ports e.0 ≡ some p = rw at (get_elem?-index p b.ports numbered listed) in
    (
      e,
      m,
      least,
      (
        p,
        here,
        rw sorts (decide_root_lem b p e others rooted (All-In PairHasPort e (x ∷ xs) named m) here),
      ),
    )

rerooted-IsSound :
    (b : Bridge) (port : Option ℕ) (bpdu : Bpdu)
    → IsSound b
    → RootedIn b.identity bpdu
    → IsSound (state_of (rerooted port bpdu b))
rerooted-IsSound b port bpdu (numbered, formed, rooted) new =
    elim (Bool-cases (port == b.root_port)) [
      | inl same ↦ rw same (numbered, formed, new)
      | inr other ↦ rw other (numbered, formed, rooted)
    ]

outcome-IsSound :
    (b : Bridge) (p : Port) (e : ℕ × Bpdu)
    → IsSound b
    → HasPort e.1
    → IsSound (state_of (outcome b p e))
outcome-IsSound b p (i, best) sound named = elim (Bool-cases (best.root == b.identity)) [
  | inl own ↦ rw own (rerooted-IsSound b none (default_root_bpdu b.identity) sound (inl refl))
  | inr other ↦ rw other (elim (Bool-cases (bpdu_before (cost_adjusted best) b.root_bpdu)) [
    | inr worse ↦ rw worse sound
    | inl better ↦ rw better (elim (Bool-cases (status_beq p.status disabled)) [
      | inr enabled ↦ rw enabled sound
      | inl blocked ↦ rw blocked (
          rerooted-IsSound b (some i) (record (cost_adjusted best) { id = b.identity }) sound
            (inr (named, λ same. absurd (ground (arith, list_eq_iff best.root b.identity, same)))))
    ])
  ])
]

-- The sorted pairs, from the ports of a sound bridge.
decide_pairs :
    (b : Bridge) (pairs : List (ℕ × Bpdu))
    → all_port_bpdus_pairs b.ports ≡ pairs
    → IsSound b
    → (((pairs ≡ [])
          × (decide_root b.identity (sorted pair_before pairs) b
              ≡ rerooted none (default_root_bpdu b.identity) b))
        ⊎ Elected b (decide_root b.identity (sorted pair_before pairs) b))
      × IsSound (state_of (decide_root b.identity (sorted pair_before pairs) b))
unfolding sorted
decide_pairs b [] e sound =
    let e2 = update_root-rerooted none (default_root_bpdu b.identity) b in
    (
      inl (refl, e2),
      rw e2 (rerooted-IsSound b none (default_root_bpdu b.identity) sound (inl refl)),
    )
decide_pairs b (x ∷ xs) e sound =
    let named : All PairHasPort (x ∷ xs) = rw e at (pairs-PairHasPort b.ports sound.1) in
    let owned : All (Owned b.ports) (x ∷ xs) = rw e at (pairs-Owned b.ports b.ports (λ p m. m)) in
    let (best, m, least, (p, at, done)) = elect b x xs sound named owned in
    (
      inr (record {
        best = best;
        listed = rw e m;
        least = rw e least;
        port = p;
        came_by = at;
        outcome_lem = done;
      }),
      rw done (outcome-IsSound b p best sound (All-In PairHasPort best (x ∷ xs) named m)),
    )

-- The election on a sound bridge never fails to compare two BPDUs, and leaves the bridge sound. With
-- no BPDU seen, the root port is given up if there is one, and the BPDU of the old root is then kept;
-- without a root port the bridge takes its own BPDU. Otherwise the pair that decides is one that no
-- other BPDU is before: if it names this bridge as the root, the same happens; if one hop more makes it
-- no better than the current root, nothing changes; if its port is disabled, that port becomes the root
-- port, and the BPDU is taken only if it was the root port before; and else the RuntimeError of the code
-- is raised.
pub calculated_root_changed_lem :
    (b : Bridge)
    → IsSound b
    → (((all_port_bpdus_pairs b.ports ≡ [])
          × (calculated_root_changed b ≡ rerooted none (default_root_bpdu b.identity) b))
        ⊎ Elected b (calculated_root_changed b))
      × IsSound (state_of (calculated_root_changed b))
unfolding calculated_root_changed
calculated_root_changed_lem b sound =
    rw
      (sorted_or_raise-ok PairHasPort pair_lt pair_before (all_port_bpdus_pairs b.ports)
        (λ x y hx hy. bpdu_lt-bpdu_before x.1 y.1 hx hy) (pairs-PairHasPort b.ports sound.1))
      (decide_pairs b (all_port_bpdus_pairs b.ports) refl sound)
