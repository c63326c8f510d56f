-- ===== src/Router/Forward/Longest.antt =====
-- The loop of `process` over the forwarding table finds the best matching route.
use mathlib.Core.List.{append-nil, append_assoc}
use cs.Prelude.{
  ◌<◌, ◌≡◌, ◌⊎◌, inl, inr, refl, [], ◌∷◌, ◌++◌, arith, Option-cases, All, All-map, All-append, In,
  In-append_left, In-append_right,
}
use cs.Prelude.Exec.{Result, ok}
use cs.Prelude.Dict.{Dict}
use cs.Router.Address.{IpAddress, mask_length}
use cs.Router.Packet.{UpdateMsg}
use cs.Router.Forward.{Best, route, no_route, matched_subnet, consider, best_step, best_loop}
use cs.Router.Forward.Match.{
  Matches, matched_subnet-some, matched_subnet-none, AtLeast, AtLeast-refl, compare_routes_best,
}

-- `a` has a longer mask than `b`, or an equally long one and is at least as good.
abbrev pub Over : UpdateMsg → UpdateMsg → Type 0
Over a b =
    (mask_length b.netmask < mask_length a.netmask)
    ⊎ ((mask_length b.netmask ≡ mask_length a.netmask) × AtLeast a b)

Over-refl : (a : UpdateMsg) → Over a a
Over-refl a = inr (refl, AtLeast-refl a)

Over-trans : (a b c : UpdateMsg) → Over a b → Over b c → Over a c
Over-trans a b c p q = omega arith

-- No entry of the table matches.
abbrev pub Unrouted : IpAddress → Dict UpdateMsg IpAddress → Type 0
Unrouted d table = All (λ e. ¬ Matches d e.0) table

-- An entry of the table that matches, and that no matching entry beats.
pub record IsBestEntry (d : IpAddress) (table : Dict UpdateMsg IpAddress) (u : UpdateMsg)
    (ip : IpAddress) : Type 0 where
  pub listed : In (u, ip) table
  pub matching : Matches d u
  pub unbeaten : All (λ e. Matches d e.0 → Over u e.0) table

-- What the variables of the loop hold after the entries of `table`.
abbrev pub Found : IpAddress → Dict UpdateMsg IpAddress → Best → Type 0
Found d table b =
    ((b ≡ no_route) × Unrouted d table)
    ⊎ ((u : UpdateMsg) × (ip : IpAddress) × (b ≡ route ip u) × IsBestEntry d table u ip)

consider-no_route :
    (u : UpdateMsg) (ip : IpAddress)
    → consider no_route u ip (mask_length u.netmask) ≡ ok (route ip u)
unfolding consider
consider-no_route u ip = ground arith

-- Against a route that is held, a matching entry is taken or left, and the one kept is over the other.
consider-route :
    (v : UpdateMsg) (v_ip : IpAddress) (u : UpdateMsg) (ip : IpAddress)
    → ((consider (route v_ip v) u ip (mask_length u.netmask) ≡ ok (route v_ip v)) × Over v u)
      ⊎ ((consider (route v_ip v) u ip (mask_length u.netmask) ≡ ok (route ip u)) × Over u v)
unfolding consider
consider-route v v_ip u ip = ground (arith, compare_routes_best v v_ip u ip)

abbrev snoc : Dict UpdateMsg IpAddress → UpdateMsg → IpAddress → Dict UpdateMsg IpAddress
snoc done u ip = done ++ ((u, ip) ∷ [])

-- What one round does to `Found`.
abbrev Steps :
    IpAddress → Dict UpdateMsg IpAddress → Best → UpdateMsg → IpAddress → Result Best → Type 0
Steps d done b u ip r = (b' : Best) × (r ≡ ok b') × Found d (snoc done u ip) b'

first_found :
    (d : IpAddress) (done : Dict UpdateMsg IpAddress) (u : UpdateMsg) (ip : IpAddress)
    → Unrouted d done
    → Matches d u
    → IsBestEntry d (snoc done u ip) u ip
first_found d done u ip h m = record {
  listed = In-append_right (u, ip) done ((u, ip) ∷ []) (inl refl);
  matching = m;
  unbeaten =
      All-append (λ e. Matches d e.0 → Over u e.0) done ((u, ip) ∷ [])
        (All-map (λ e. ¬ Matches d e.0) (λ e. Matches d e.0 → Over u e.0) done
          (λ e no_match match. absurd (no_match match)) h)
        (λ _. Over-refl u, tt);
}

kept_found :
    (d : IpAddress) (done : Dict UpdateMsg IpAddress) (v : UpdateMsg) (v_ip : IpAddress)
    (u : UpdateMsg) (ip : IpAddress)
    → IsBestEntry d done v v_ip
    → (Matches d u → Over v u)
    → IsBestEntry d (snoc done u ip) v v_ip
kept_found d done v v_ip u ip h over = record {
  listed = In-append_left (v, v_ip) done ((u, ip) ∷ []) h.listed;
  matching = h.matching;
  unbeaten = All-append (λ e. Matches d e.0 → Over v e.0) done ((u, ip) ∷ []) h.unbeaten (over, tt);
}

replaced_found :
    (d : IpAddress) (done : Dict UpdateMsg IpAddress) (v : UpdateMsg) (v_ip : IpAddress)
    (u : UpdateMsg) (ip : IpAddress)
    → IsBestEntry d done v v_ip
    → Matches d u
    → Over u v
    → IsBestEntry d (snoc done u ip) u ip
replaced_found d done v v_ip u ip h m over = record {
  listed = In-append_right (u, ip) done ((u, ip) ∷ []) (inl refl);
  matching = m;
  unbeaten =
      All-append (λ e. Matches d e.0 → Over u e.0) done ((u, ip) ∷ [])
        (All-map (λ e. Matches d e.0 → Over v e.0) (λ e. Matches d e.0 → Over u e.0) done
          (λ e below match. Over-trans u v e.0 over (below match)) h.unbeaten)
        (λ _. Over-refl u, tt);
}

step_matched :
    (d : IpAddress) (done : Dict UpdateMsg IpAddress) (b : Best) (u : UpdateMsg) (ip : IpAddress)
    → Found d done b
    → Matches d u
    → Steps d done b u ip (consider b u ip (mask_length u.netmask))
step_matched d done b u ip (inl (e, h)) m =
    (route ip u, rw e (consider-no_route u ip), inr (u, ip, refl, first_found d done u ip h m))
step_matched d done b u ip (inr (v, v_ip, e, h)) m = elim (consider-route v v_ip u ip) [
  | inl (k, over) ↦
      (route v_ip v, rw e k, inr (v, v_ip, refl, kept_found d done v v_ip u ip h (λ _. over)))
  | inr (k, over) ↦
      (route ip u, rw e k, inr (u, ip, refl, replaced_found d done v v_ip u ip h m over))
]

step_unmatched :
    (d : IpAddress) (done : Dict UpdateMsg IpAddress) (b : Best) (u : UpdateMsg) (ip : IpAddress)
    → Found d done b
    → ¬ Matches d u
    → Found d (snoc done u ip) b
step_unmatched d done b u ip (inl (e, h)) no_match =
    inl (e, All-append (λ x. ¬ Matches d x.0) done ((u, ip) ∷ []) h (no_match, tt))
step_unmatched d done b u ip (inr (v, v_ip, e, h)) no_match =
    inr (v, v_ip, e, kept_found d done v v_ip u ip h (λ match. absurd (no_match match)))

best_step-Found :
    (d : IpAddress) (done : Dict UpdateMsg IpAddress) (b : Best) (u : UpdateMsg) (ip : IpAddress)
    → Found d done b
    → Steps d done b u ip (best_step d b u ip)
unfolding best_step
best_step-Found d done b u ip h = elim (Option-cases (matched_subnet d u)) [
  | inl missed ↦
      rw (missed, best_step)
        (b, refl, step_unmatched d done b u ip h (matched_subnet-none d u missed))
  | inr (m, hit) ↦
      let (match, e) = matched_subnet-some d u m hit in
      rw (hit, e, best_step) (step_matched d done b u ip h match)
]

best_loop-Found :
    (d : IpAddress) (done rest : Dict UpdateMsg IpAddress) (b : Best)
    → Found d done b
    → (b' : Best) × (best_loop d rest b ≡ ok b') × Found d (done ++ rest) b'
unfolding best_loop
best_loop-Found d done [] b h = (b, refl, rw append-nil h)
best_loop-Found d done ((u, ip) ∷ rest) b h =
    let (b1, e1, h1) = best_step-Found d done b u ip h in
    let (b2, e2, h2) = best_loop-Found d (snoc done u ip) rest b1 h1 in
    (b2, rw e1 e2, rw append_assoc at h2)

-- The search never raises. It ends with no route exactly where no entry of the table matches the
-- destination, and otherwise with an entry that matches, that has the longest mask among those
-- which match, and that is at least as good (by local preference, own origin and path length) as
-- every other matching entry with that mask.
pub best_loop_lem :
    (d : IpAddress) (table : Dict UpdateMsg IpAddress)
    → (b : Best) × (best_loop d table no_route ≡ ok b) × Found d table b
best_loop_lem d table = best_loop-Found d [] table no_route (inl (refl, tt))
