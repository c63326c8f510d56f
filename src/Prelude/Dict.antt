-- ===== src/Prelude/Dict.antt =====
-- A Python dict in insertion order: an assignment to a key that is there keeps its place.
use mathlib.Core.Path.{◌≡◌, refl}
use mathlib.Core.Logic.{◌≢◌, inl, inr}
use mathlib.Core.Bool.{Bool, true, false}
use mathlib.Core.List.{List, [], ◌∷◌}
use mathlib.Core.Option.{Option, none, some}
use native.Mathlib.Omega.{arith}
use cs.Prelude.Tests.{if◌then◌else◌, Bool-cases}
use cs.Prelude.Lists.{In, All}
use cs.Prelude.Eq.{Eq, ◌==◌}

abbrev pub Dict : Type 0 → Type 0 → Type 0
Dict K V = List (K × V)

module _ {K V : Type 0} ⦃e : Eq K⦄ where
  -- `d.get(k)`
  abbrev pub lookup : K → Dict K V → Option V
  lookup k [] = none
  lookup k ((j, v) ∷ d) = if j == k then some v else lookup k d

  -- `k in d`
  abbrev pub contains : K → Dict K V → Bool
  contains k [] = false
  contains k ((j, v) ∷ d) = if j == k then true else contains k d

  -- `d[k] = v`
  abbrev pub insert : K → V → Dict K V → Dict K V
  insert k v [] = (k, v) ∷ []
  insert k v ((j, w) ∷ d) = if j == k then (j, v) ∷ d else (j, w) ∷ insert k v d

  -- `del d[k]`, where `k` is a key of `d`
  abbrev pub erase : K → Dict K V → Dict K V
  erase k [] = []
  erase k ((j, v) ∷ d) = if j == k then d else (j, v) ∷ erase k d

  -- No key is listed twice.
  abbrev pub Distinct : Dict K V → Type 0
  Distinct [] = Unit
  Distinct ((k, v) ∷ d) = (lookup k d ≡ none) × Distinct d

  pub lookup-insert_self : (k : K) (v : V) (d : Dict K V) → lookup k (insert k v d) ≡ some v
  lookup-insert_self k v [] = ground (arith, e.beq_iff k k)
  lookup-insert_self k v ((j, w) ∷ d) = ground (arith, e.beq_iff k k, lookup-insert_self k v d)

  pub lookup-insert_ne :
      (j k : K) (v : V) (d : Dict K V) → j ≢ k → lookup j (insert k v d) ≡ lookup j d
  lookup-insert_ne j k v [] h = ground (arith, e.beq_iff k j)
  lookup-insert_ne j k v ((i, w) ∷ d) h =
      ground (arith, e.beq_iff k j, e.beq_iff i j, e.beq_iff i k, lookup-insert_ne j k v d h)

  pub lookup-erase_ne : (j k : K) (d : Dict K V) → j ≢ k → lookup j (erase k d) ≡ lookup j d
  lookup-erase_ne j k [] h = refl
  lookup-erase_ne j k ((i, w) ∷ d) h =
      ground (arith, e.beq_iff i j, e.beq_iff i k, lookup-erase_ne j k d h)

  pub lookup-erase_self : (k : K) (d : Dict K V) → Distinct d → lookup k (erase k d) ≡ none
  lookup-erase_self k [] h = refl
  lookup-erase_self k ((i, w) ∷ d) h = ground (arith, e.beq_iff i k, lookup-erase_self k d h.1)

  pub insert-Distinct : (k : K) (v : V) (d : Dict K V) → Distinct d → Distinct (insert k v d)
  insert-Distinct k v [] h = (refl, tt)
  insert-Distinct k v ((i, w) ∷ d) h =
      ground (arith, e.beq_iff i k, lookup-insert_ne i k v d, insert-Distinct k v d h.1)

  pub erase-Distinct : (k : K) (d : Dict K V) → Distinct d → Distinct (erase k d)
  erase-Distinct k [] h = tt
  erase-Distinct k ((i, w) ∷ d) h =
      ground (arith, e.beq_iff i k, lookup-erase_ne i k d, erase-Distinct k d h.1)

  pub lookup-In : (k : K) (v : V) (d : Dict K V) → lookup k d ≡ some v → In (k, v) d
  lookup-In k v [] h = cc
  lookup-In k v ((i, w) ∷ d) h = elim (Bool-cases (i == k)) [
    | inl same ↦ inl (ground (arith, e.beq_iff i k))
    | inr other ↦ inr (lookup-In k v d (ground arith))
  ]

  pub insert-All :
      (P : V → Type 0) (k : K) (v : V) (d : Dict K V)
      → All (λ x. P x.1) d
      → P v
      → All (λ x. P x.1) (insert k v d)
  insert-All P k v [] h p = (p, tt)
  insert-All P k v ((i, w) ∷ d) h p = elim (Bool-cases (i == k)) [
    | inl same ↦ rw same (p, h.1)
    | inr other ↦ rw other (h.0, insert-All P k v d h.1 p)
  ]
