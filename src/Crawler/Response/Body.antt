-- ===== src/Crawler/Response/Body.antt =====
-- The content of a response.
use mathlib.Core.List.{append-nil}
use cs.Prelude.{
  ℕ, zero, suc, ◌+◌, ◌-◌, ◌≤◌, ◌≡◌, inl, inr, refl, sym, ap, ◌∙◌, true, false, some, List, [], ◌∷◌,
  ◌++◌, arith, length, take, drop, ltb, Bool-cases,
}
use cs.Prelude.Eq.{ℕ_eq, List_eq}
use cs.Prelude.Dict.{Dict, lookup}
use cs.Prelude.Exec.{Result, ok, err, bind, bind-ok, result_of, pure, ◌>>=◌}
use cs.Prelude.Text.{Text, int_of_text}
use cs.Prelude.Strings.{decode-ascii, IsAscii}
use cs.Crawler.Socket.{Socket}
use cs.Crawler.Response.{
  HttpResponse, line_ending, content_length_key, assumed_max_package_size, parse_header,
  deserialize_header, read_rest, read_content, deserialize_response,
}

take_all : (n : ℕ) (t : List ℕ) → length t ≤ n → take n t ≡ t
take_all zero [] h = refl
take_all zero (x ∷ t) h = absurd (omega arith)
take_all (suc n) [] h = refl
take_all (suc n) (x ∷ t) h = ap (λ (xs : List ℕ). x ∷ xs) (take_all n t (omega arith))

drop_all : (n : ℕ) (t : List ℕ) → length t ≤ n → drop n t ≡ []
drop_all zero [] h = refl
drop_all zero (x ∷ t) h = absurd (omega arith)
drop_all (suc n) [] h = refl
drop_all (suc n) (x ∷ t) h = drop_all n t (omega arith)

take-IsAscii : (n : ℕ) (t : List ℕ) → IsAscii t → IsAscii (take n t)
take-IsAscii zero t h = tt
take-IsAscii (suc n) [] h = tt
take-IsAscii (suc n) (x ∷ t) (hx, h) = (hx, take-IsAscii n t h)

-- A response that comes in two pieces, of which the first holds the header and the content's first
-- part; the header says how long the content is.
pub record InTwo (head first second : Text) (d : Dict Text Text) : Type 0 where
  pub small : length head ≤ assumed_max_package_size
  pub head_plain : IsAscii head
  pub second_plain : IsAscii second
  pub parsed : parse_header head ≡ ok (d, line_ending ++ first)
  pub digit : ℕ
  pub digits : Text
  pub announced : lookup content_length_key d ≡ some (digit ∷ digits)
  pub true_length :
      int_of_text (digit ∷ digits)
      ≡ some (record { negative = false; magnitude = length first + length second })

-- The socket after the first read.
abbrev waiting : List ℕ → List (List ℕ) → Socket
waiting second sent = record { incoming = second ∷ []; sent = sent }

deserialize_header-two :
    (head first second : Text) (d : Dict Text Text) (sent : List (List ℕ))
    → InTwo head first second d
    → deserialize_header (record { incoming = head ∷ second ∷ []; sent = sent })
      ≡ (ok (d, line_ending ++ first), waiting second sent)
unfolding deserialize_header
deserialize_header-two head first second d sent h =
    rw (take_all assumed_max_package_size head h.small) (
      rw (drop_all assumed_max_package_size head h.small)
        (rw (decode-ascii head h.head_plain) (rw h.parsed refl)))

read_rest-two :
    (first second : Text) (sent : List (List ℕ))
    → IsAscii second
    → result_of (
        read_rest
          (record { negative = false; magnitude = length first + length second })
          (line_ending ++ first)
          (waiting second sent))
      ≡ ok (line_ending ++ (first ++ take (length second - 2) second))
unfolding read_rest
read_rest-two first second sent plain =
    elim (Bool-cases (ltb (length (line_ending ++ first)) (length first + length second))) [
      | inl more ↦ rw more (
          rw (left more) (
            rw
              (decode-ascii (take (length second - 2) second)
                (take-IsAscii (length second - 2) second plain))
              refl))
      | inr enough ↦ rw enough (
          rw (none_left enough) (ap (λ (t : Text). ok (line_ending ++ t)) (sym (append-nil first))))
    ]
  where
    left :
        ltb (length (line_ending ++ first)) (length first + length second) ≡ true
        → length first + length second - suc (suc (length first)) ≡ length second - 2
    left more = omega arith

    none_left :
        ltb (length (line_ending ++ first)) (length first + length second) ≡ false
        → length second - 2 ≡ 0
    none_left enough = ground arith

read_content-two :
    (head first second : Text) (d : Dict Text Text) (sent : List (List ℕ))
    → InTwo head first second d
    → result_of
        (read_content (lookup content_length_key d) (line_ending ++ first) (waiting second sent))
      ≡ ok (line_ending ++ (first ++ take (length second - 2) second))
unfolding read_content
read_content-two head first second d sent h =
    rw h.announced (rw h.true_length (read_rest-two first second sent h.second_plain))

-- Where the header and the first part of the content come in one piece of at most 3200 bytes, whose header
-- the parser reads, and the rest in another, all bytes are ASCII, and the announced length is the true one,
-- the component starts with the line ending of the empty line,
-- and lacks as many of the last bytes of the content as that line ending has: two, or what there is.
pub deserialize_response-two :
    (head first second : Text) (d : Dict Text Text) (sent : List (List ℕ))
    → InTwo head first second d
    → result_of (deserialize_response (record { incoming = head ∷ second ∷ []; sent = sent }))
      ≡ ok (record {
        header_values = d;
        component = line_ending ++ (first ++ take (length second - 2) second);
      })
unfolding deserialize_response
deserialize_response-two head first second d sent h =
    ap (λ (r : Result HttpResponse × Socket). result_of r)
      (bind-ok deserialize_header
        (λ header. (do
          component ← read_content (lookup content_length_key header.0) header.1
          pure (record { header_values = header.0; component = component })))
        (record { incoming = head ∷ second ∷ []; sent = sent }) (d, line_ending ++ first)
        (waiting second sent) (deserialize_header-two head first second d sent h))
    ∙ (completed
        (read_content (lookup content_length_key d) (line_ending ++ first) (waiting second sent))
        (read_content-two head first second d sent h))
  where
    completed :
        (r : Result Text × Socket)
        → result_of r ≡ ok (line_ending ++ (first ++ take (length second - 2) second))
        → result_of (elim r.0 as (λ _. Result HttpResponse × Socket) [
          | ok a ↦ pure (record { header_values = d; component = a }) r.1
          | err e ↦ (err e, r.1)
        ])
          ≡ ok (record {
            header_values = d;
            component = line_ending ++ (first ++ take (length second - 2) second);
          })
    completed (ok a, s) e =
        ap (λ (x : Result Text). bind x (λ c. ok (record { header_values = d; component = c }))) e
    completed (err x, s) e = cc
