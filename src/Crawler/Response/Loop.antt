-- ===== src/Crawler/Response/Loop.antt =====
-- The loop over the header ends.
use cs.Prelude.{
  ℕ, zero, suc, ◌+◌, ◌≤◌, ◌<◌, ◌≡◌, ◌⊎◌, inl, inr, refl, ap, false, List, [], ◌∷◌, arith, length,
  Bool-cases,
}
use cs.Prelude.Eq.{◌==◌, ℕ_eq, List_eq, list_eq_iff}
use cs.Prelude.Dict.{Dict}
use cs.Prelude.Exec.{Result, ok, err, value_error, bind}
use cs.Prelude.Text.{Text, split_on}
use cs.Prelude.Strings.{partition, partition_lem}
use cs.Crawler.Response.{line_ending, add_field, header_loop, status_entries, parse_header}

abbrev Returns : Result (Dict Text Text × Text) → Type 0
Returns r = (a : Dict Text Text × Text) × (r ≡ ok a)

-- A line that is not all that remains leaves less to read.
line_shortens :
    (t : Text)
    → ((partition line_ending t).0 == t) ≡ false
    → length (partition line_ending t).1 + 2 ≤ length t
line_shortens t h = elim (partition_lem line_ending t) [
  | inl whole ↦ absurd (differ (ap (λ (x : Text × Text). x.0) whole))
  | inr short ↦ omega arith
]
  where
    differ : (partition line_ending t).0 ≡ t → ⊥
    differ e = ground (arith, list_eq_iff (partition line_ending t).0 t)

header_loop_returns :
    (fuel : ℕ) (previous remaining : Text) (header_values : Dict Text Text)
    → length remaining < fuel
    → Returns (header_loop fuel previous remaining header_values)
unfolding header_loop
header_loop_returns zero previous remaining hv h = absurd (omega arith)
header_loop_returns (suc fuel) previous remaining hv h =
    elim (Bool-cases ((partition line_ending remaining).0 == [])) [
      | inl done ↦ rw done ((hv, remaining), refl)
      | inr line ↦ rw line (elim (Bool-cases ((partition line_ending remaining).0 == remaining)) [
        | inl whole ↦ rw whole ((hv, remaining), refl)
        | inr part ↦ rw part (elim (Bool-cases (previous == (partition line_ending remaining).1)) [
          | inl same ↦ rw same ((hv, (partition line_ending remaining).1), refl)
          | inr other ↦ rw other (
              header_loop_returns fuel (partition line_ending remaining).1
                (partition line_ending remaining).1
                (add_field (partition line_ending remaining).0 hv)
                (omega (arith, line_shortens remaining part)))
        ])
      ])
    ]

parsed :
    (parts : List Text) (t : Text)
    → (Returns (bind (status_entries parts) (λ hv. header_loop (length t + 1) [] t hv))
        × (2 ≤ length parts))
      ⊎ ((bind (status_entries parts) (λ hv. header_loop (length t + 1) [] t hv) ≡ err value_error)
          × (length parts < 2))
parsed [] t = inr (refl, omega arith)
parsed (version ∷ []) t = inr (refl, omega arith)
parsed (version ∷ code ∷ status) t =
    inl (header_loop_returns (length t + 1) [] t _ (omega arith), omega arith)

-- The parser of headers ends on every text: it returns where the first line has at least two parts
-- between spaces, and raises a ValueError where it has fewer.
pub parse_header_lem :
    (t : Text)
    → (((a : Dict Text Text × Text) × (parse_header t ≡ ok a))
        × (2 ≤ length (split_on b' ' (partition line_ending t).0)))
      ⊎ ((parse_header t ≡ err value_error)
          × (length (split_on b' ' (partition line_ending t).0) < 2))
unfolding parse_header
parse_header_lem t = parsed (split_on b' ' (partition line_ending t).0) (partition line_ending t).1
