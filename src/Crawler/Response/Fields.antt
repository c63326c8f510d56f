-- ===== src/Crawler/Response/Fields.antt =====
-- A header that is written line by line is read back.
use cs.Prelude.{
  ℕ, zero, suc, ◌+◌, ◌≤◌, ◌<◌, ◌≡◌, ◌⊎◌, inl, inr, refl, ap, ◌∙◌, false, List, [], ◌∷◌, ◌++◌, arith,
  All, length, length-append,
}
use cs.Prelude.Eq.{◌==◌, ℕ_eq, List_eq, list_eq_iff}
use cs.Prelude.Dict.{Dict, insert}
use cs.Prelude.Exec.{ok}
use cs.Prelude.Text.{Text, split_on, lstrip}
use cs.Prelude.Strings.{join, partition-append, upper, Lacks}
use cs.Crawler.Response.{
  version_name, response_code_name, response_status_name, line_ending, add_field, header_loop,
  parse_header,
}

-- One line of the header, as a server writes it.
abbrev pub field_line : Text × Text → Text
field_line (key, value) = key ++ (b':' ∷ b' ' ∷ value)

abbrev pub field_lines : List (Text × Text) → Text → Text
field_lines [] after = after
field_lines (f ∷ fs) after = field_line f ++ (b'\r' ∷ b'\n' ∷ field_lines fs after)

-- The dictionary that the lines stand for: keys in upper case, values without leading space, and the
-- last of two lines with one key counts.
abbrev pub fields_of : List (Text × Text) → Dict Text Text → Dict Text Text
fields_of [] d = d
fields_of ((key, value) ∷ fs) d = fields_of fs (insert (upper key) (lstrip value) d)

-- A line that a server can write.
pub record IsField (f : Text × Text) : Type 0 where
  pub one_line : Lacks b'\r' (field_line f)
  pub plain_key : Lacks b':' f.0

add_field-line :
    (key value : Text) (d : Dict Text Text)
    → Lacks b':' key
    → add_field (field_line (key, value)) d ≡ insert (upper key) (lstrip value) d
unfolding add_field lstrip
add_field-line key value d h =
    ap (λ (parts : Text × Text). insert (upper parts.0) (lstrip parts.1) d)
      (partition-append b':' [] key (b' ' ∷ value) h)

header_loop-line :
    (fuel : ℕ) (previous line after : Text) (d : Dict Text Text)
    → Lacks b'\r' line
    → 0 < length line
    → 0 < length after
    → (previous ≡ []) ⊎ (length after < length previous)
    → header_loop (suc fuel) previous (line ++ (b'\r' ∷ b'\n' ∷ after)) d
      ≡ header_loop fuel after after (add_field line d)
unfolding header_loop
header_loop-line fuel previous line after d lacks some_line some_after before =
    let parts = partition-append b'\r' (b'\n' ∷ []) line after lacks in
    rw parts (
      rw (differ line [] (inr some_line)) (
        rw
          (differ line (line ++ (b'\r' ∷ b'\n' ∷ after))
            (inl (omega (arith, length-append line (b'\r' ∷ b'\n' ∷ after)))))
          (rw (other_after before) refl)))
  where
    differ : (a b : Text) → (length a < length b) ⊎ (length b < length a) → (a == b) ≡ false
    differ a b (inl h) =
        ground (arith, list_eq_iff a b, λ (e : a ≡ b). ap (λ (t : Text). length t) e)
    differ a b (inr h) =
        ground (arith, list_eq_iff a b, λ (e : a ≡ b). ap (λ (t : Text). length t) e)

    other_after : (previous ≡ []) ⊎ (length after < length previous) → (previous == after) ≡ false
    other_after (inl start) = rw start (differ [] after (inl some_after))
    other_after (inr longer) = differ previous after (inr longer)

field_lines-length :
    (fs : List (Text × Text)) (after : Text) → length after ≤ length (field_lines fs after)
field_lines-length [] after = omega arith
field_lines-length (f ∷ fs) after = omega (
  arith,
  length-append (field_line f) (b'\r' ∷ b'\n' ∷ field_lines fs after),
  field_lines-length fs after,
)

-- Between the lines and the content stands an empty line, and the loop stops before it.
header_loop-lines :
    (fs : List (Text × Text)) (fuel : ℕ) (previous content : Text) (d : Dict Text Text)
    → All IsField fs
    → length (field_lines fs (line_ending ++ content)) < fuel
    → (previous ≡ []) ⊎ (previous ≡ field_lines fs (line_ending ++ content))
    → header_loop fuel previous (field_lines fs (line_ending ++ content)) d
      ≡ ok (fields_of fs d, line_ending ++ content)
unfolding header_loop
header_loop-lines fs zero previous content d h enough before = absurd (omega arith)
header_loop-lines [] (suc fuel) previous content d h enough before =
    rw (partition-append b'\r' (b'\n' ∷ []) [] content tt) refl
header_loop-lines ((key, value) ∷ fs) (suc fuel) previous content d (hf, hs) enough before =
    let after = field_lines fs (line_ending ++ content) in
    let line = field_line (key, value) in
    let longer = length-append line (b'\r' ∷ b'\n' ∷ after) in
    header_loop-line fuel previous line after d hf.one_line
      (omega (arith, length-append key (b':' ∷ b' ' ∷ value)))
      (omega (arith, field_lines-length fs (line_ending ++ content)))
      (shorter after (line ++ (b'\r' ∷ b'\n' ∷ after)) (omega arith) before)
    ∙ ap (λ (e : Dict Text Text). header_loop fuel after after e)
        (add_field-line key value d hf.plain_key)
    ∙ header_loop-lines fs fuel after content (insert (upper key) (lstrip value) d) hs (omega arith)
        (inr refl)
  where
    shorter :
        (after all : Text)
        → length after < length all
        → (previous ≡ []) ⊎ (previous ≡ all)
        → (previous ≡ []) ⊎ (length after < length previous)
    shorter after all lt (inl start) = inl start
    shorter after all lt (inr same) = inr (omega (arith, ap (λ (t : Text). length t) same))

-- A response whose first line is cut into a version, a code and the words of a status, and whose
-- further lines are fields, is read as a dictionary with all of these; what remains is the content
-- with the empty line before it, as the loop does not pass over that line.
pub parse_header-lines :
    (version code : Text) (status : List Text) (first : Text) (fs : List (Text × Text))
    (content : Text)
    → Lacks b'\r' first
    → split_on b' ' first ≡ version ∷ code ∷ status
    → All IsField fs
    → parse_header (first ++ (line_ending ++ field_lines fs (line_ending ++ content)))
      ≡ ok (
        fields_of fs (
            (version_name, version)
            ∷ (response_code_name, code)
            ∷ (response_status_name, join (b' ' ∷ []) status)
            ∷ []),
        line_ending ++ content,
      )
unfolding parse_header
parse_header-lines version code status first fs content lacks words h =
    rw (partition-append b'\r' (b'\n' ∷ []) first (field_lines fs (line_ending ++ content)) lacks) (
      rw words (
        header_loop-lines fs (length (field_lines fs (line_ending ++ content)) + 1) [] content _ h
          (omega arith) (inl refl)))
