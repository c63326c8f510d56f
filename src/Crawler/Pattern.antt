-- ===== src/Crawler/Pattern.antt =====
-- The regular expressions of 3700Crawler/networks/constants.py that the crawler uses, and `findall`.
-- Each is a literal, a group `(.*)` and a literal: the group is as long as it can be on its line.
use cs.Prelude.{
  ℕ, zero, suc, ◌+◌, ◌-◌, Option, none, some, List, [], ◌∷◌, length, nat_eq, if◌then◌else◌,
}
use cs.Prelude.Text.{Text}
use cs.Prelude.Strings.{codes, strip_prefix}

abbrev grown : ℕ → Text × Text → Text × Text
grown c (before, after) = (c ∷ before, after)

-- A later place is taken before an earlier one.
abbrev last_place : ℕ → Option Text → Option (Text × Text) → Option (Text × Text)
last_place c here (some later) = some (grown c later)
last_place c (some rest) none = some ([], rest)
last_place c none none = none

-- The text before and after the last place of a literal on this line.
abbrev pub split_last : Text → Text → Option (Text × Text)
split_last literal [] = none
split_last literal (c ∷ cs) =
    let later = split_last literal cs in
    last_place c (strip_prefix literal (c ∷ cs)) (if nat_eq c b'\n' then none else later)

-- What a pattern matches at the start of a text: the group, and how long the match is.
abbrev pub Pattern : Type 0
Pattern = Text → Option (Text × ℕ)

abbrev group_of : ℕ → Option (Text × Text) → Option (Text × ℕ)
group_of around none = none
group_of around (some (group, after)) = some (group, around + length group)

abbrev after_prefix : Option Text → (Text → Option (Text × ℕ)) → Option (Text × ℕ)
after_prefix none f = none
after_prefix (some rest) f = f rest

-- `prefix(.*)suffix`
abbrev pub between : Text → Text → Pattern
between prefix suffix t =
    after_prefix (strip_prefix prefix t)
      λ rest. group_of (length prefix + length suffix) (split_last suffix rest)

abbrev pub header_cookie_pattern : Pattern
header_cookie_pattern = between (codes "csrftoken=") (codes "; expires=")

abbrev pub header_session_pattern : Pattern
header_session_pattern = between (codes "sessionid=") (codes "; expires=")

abbrev pub middleware_cookie_pattern : Pattern
middleware_cookie_pattern =
    between (codes "<input type=\"hidden\" name=\"csrfmiddlewaretoken\" value=\"") (codes "\">")

abbrev link_of : Option (Text × Text) → Option (Text × ℕ)
link_of none = none
link_of (some (inner, after)) = elim (split_last (codes "\">") inner) [
  | none ↦ none
  | some parts ↦ some (parts.0, length (codes "<a href=\"") + length inner + length (codes "</a>"))
]

-- `<a href="(.*)">.*</a>`: the match ends with the last `</a>` of the line, and the group with the last
-- `">` before it.
abbrev pub url_match_pattern : Pattern
url_match_pattern t =
    after_prefix (strip_prefix (codes "<a href=\"") t)
      λ rest. link_of (split_last (codes "</a>") rest)

-- The characters of a match are passed over; `skip` counts those that are left.
unfoldable pub find_from : Pattern → ℕ → Text → List Text
find_from matching skip [] = []
find_from matching (suc skip) (c ∷ cs) = find_from matching skip cs
find_from matching zero (c ∷ cs) = elim (matching (c ∷ cs)) [
  | none ↦ find_from matching zero cs
  | some found ↦ found.0 ∷ find_from matching (found.1 - 1) cs
]

-- `pattern.findall(text)`, for a pattern that matches no empty text
unfoldable pub find_all : Pattern → Text → List Text
unfolding find_from
find_all matching t = find_from matching zero t
