-- ===== src/Bridge/State/Numbering.antt =====
-- Ports that are numbered by their places.
use cs.Prelude.{
  ℕ, zero, suc, ◌+◌, ◌≡◌, refl, sym, subst, inl, inr, some, List, [], ◌∷◌, ◌∙◌, map, arith, All, In,
  get_elem?,
}
use cs.Bridge.Port.{Port}
use cs.Bridge.State.{numbered_ports, set_elem}

-- The index of each port is its place, counted from `n`.
abbrev pub IsNumbered : ℕ → List Port → Type 0
IsNumbered n [] = Unit
IsNumbered n (p ∷ ps) = (p.index ≡ n) × IsNumbered (suc n) ps

-- `launch_bridge` numbers the ports by their places.
pub numbered_ports-IsNumbered : (n : ℕ) (nums : List ℕ) → IsNumbered n (numbered_ports n nums)
numbered_ports-IsNumbered n [] = tt
numbered_ports-IsNumbered n (x ∷ xs) = (refl, numbered_ports-IsNumbered (suc n) xs)

place_of :
    (n : ℕ) (p : Port) (ps : List Port)
    → IsNumbered n ps
    → In p ps
    → (i : ℕ) × (p.index ≡ n + i) × (get_elem? ps i ≡ some p)
place_of n p [] h m = absurd m
place_of n p (q ∷ ps) (e, h) (inl same) = (0, ground arith, rw same refl)
place_of n p (q ∷ ps) (e, h) (inr m) =
    let (i, at, found) = place_of (suc n) p ps h m in (suc i, omega arith, found)

-- In a list that is numbered from 0, a port stands at its index.
pub get_elem?-index :
    (p : Port) (ps : List Port) → IsNumbered 0 ps → In p ps → get_elem? ps p.index ≡ some p
get_elem?-index p ps h m =
    let (i, at, found) = place_of 0 p ps h m in
    let here : p.index ≡ i = omega arith in
    subst (λ (n : ℕ). get_elem? ps n ≡ some p) (sym here) found

-- There is a port at the place.
abbrev pub HasPlace : List Port → ℕ → Type 0
HasPlace ps i = (p : Port) × (get_elem? ps i ≡ some p)

pub map-IsNumbered :
    (f : Port → Port) (n : ℕ) (ps : List Port)
    → ((p : Port) → (f p).index ≡ p.index)
    → IsNumbered n ps
    → IsNumbered n (map f ps)
map-IsNumbered f n [] same h = tt
map-IsNumbered f n (p ∷ ps) same (e, h) = (same p ∙ e, map-IsNumbered f (suc n) ps same h)

pub map-HasPlace :
    (f : Port → Port) (ps : List Port) (i : ℕ) → HasPlace ps i → HasPlace (map f ps) i
map-HasPlace f [] i (p, e) = cc
map-HasPlace f (q ∷ ps) zero (p, e) = (f q, refl)
map-HasPlace f (q ∷ ps) (suc i) h = map-HasPlace f ps i h

pub set_elem-IsNumbered :
    (n i : ℕ) (p p' : Port) (ps : List Port)
    → get_elem? ps i ≡ some p
    → p'.index ≡ p.index
    → IsNumbered n ps
    → IsNumbered n (set_elem ps i p')
set_elem-IsNumbered n i p p' [] at same h = tt
set_elem-IsNumbered n zero p p' (q ∷ ps) at same (e, h) = (ground (arith, at, same, e), h)
set_elem-IsNumbered n (suc i) p p' (q ∷ ps) at same (e, h) =
    (e, set_elem-IsNumbered (suc n) i p p' ps at same h)

pub set_elem-HasPlace :
    (i j : ℕ) (p' : Port) (ps : List Port) → HasPlace ps j → HasPlace (set_elem ps i p') j
set_elem-HasPlace i j p' [] (p, e) = cc
set_elem-HasPlace zero zero p' (q ∷ ps) h = (p', refl)
set_elem-HasPlace zero (suc j) p' (q ∷ ps) h = h
set_elem-HasPlace (suc i) zero p' (q ∷ ps) h = (q, refl)
set_elem-HasPlace (suc i) (suc j) p' (q ∷ ps) h = set_elem-HasPlace i j p' ps h

pub set_elem-All :
    (P : Port → Type 0) (i : ℕ) (p' : Port) (ps : List Port)
    → P p'
    → All P ps
    → All P (set_elem ps i p')
set_elem-All P i p' [] hp h = tt
set_elem-All P zero p' (q ∷ ps) hp (hq, hs) = (hp, hs)
set_elem-All P (suc i) p' (q ∷ ps) hp (hq, hs) = (hq, set_elem-All P i p' ps hp hs)

pub map-All :
    (P : Port → Type 0) (f : Port → Port) (ps : List Port)
    → ((p : Port) → P p → P (f p))
    → All P ps
    → All P (map f ps)
map-All P f [] step h = tt
map-All P f (p ∷ ps) step (hp, hs) = (step p hp, map-All P f ps step hs)

pub get_elem?-In : (ps : List Port) (i : ℕ) (p : Port) → get_elem? ps i ≡ some p → In p ps
get_elem?-In [] i p e = cc
get_elem?-In (q ∷ ps) zero p e = inl (ground (arith, e))
get_elem?-In (q ∷ ps) (suc i) p e = inr (get_elem?-In ps i p e)
