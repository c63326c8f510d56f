-- ===== src/Crawler/Request/Form.antt =====
-- A form body is read back as the pairs that it was made of.
use cs.Prelude.{
  ℕ, ◌≡◌, ◌≢◌, ◌<◌, refl, ap, sym, ◌∙◌, inl, inr, List, [], ◌∷◌, ◌++◌, arith, All, All-append, map,
  nat_eq_iff,
}
use cs.Prelude.Dict.{Dict}
use cs.Prelude.Exec.{Result, ok, err, bind}
use cs.Prelude.Text.{Text, split_on}
use cs.Prelude.Strings.{partition, partition-append, join, Lacks, encode}
use cs.Prelude.{length}
use cs.Prelude.Exec.{Error, Result-cases}
use cs.Crawler.Request.{quote_bytes, encoded_pairs, prepare_component_str}
use cs.Crawler.Request.Quote.{
  unquote, unquote-word, IsBytes, unquote-quote_bytes, IsText, encode-IsBytes, quote_bytes-Lacks,
}

-- How a server reads a body: it takes the signs out of the keys and of the values.
abbrev pub parse_form : Text → List (List ℕ × List ℕ)
parse_form body =
    map
      (λ (part : Text).
        let (key, value) = partition (b'=' ∷ []) part in (unquote key, unquote value))
      (split_on b'&' body)

split_on-append :
    (sep : ℕ) (w t : Text) → Lacks sep w → split_on sep (w ++ (sep ∷ t)) ≡ w ∷ split_on sep t
unfolding split_on
split_on-append sep [] t h = ground (arith, nat_eq_iff sep sep)
split_on-append sep (x ∷ w) t (hx, h) = ground (arith, nat_eq_iff x sep, split_on-append sep w t h)

split_on-plain : (sep : ℕ) (w : Text) → Lacks sep w → split_on sep w ≡ w ∷ []
unfolding split_on
split_on-plain sep [] h = refl
split_on-plain sep (x ∷ w) (hx, h) = ground (arith, nat_eq_iff x sep, split_on-plain sep w h)

split_on-join :
    (sep : ℕ) (part : Text) (parts : List Text)
    → All (λ w. Lacks sep w) (part ∷ parts)
    → split_on sep (join (sep ∷ []) (part ∷ parts)) ≡ part ∷ parts
split_on-join sep part [] (h, _) = split_on-plain sep part h
split_on-join sep part (next ∷ parts) (h, hs) =
    split_on-append sep part (join (sep ∷ []) (next ∷ parts)) h
    ∙ ap (λ (ws : List Text). part ∷ ws) (split_on-join sep next parts hs)

-- A pair whose value is a text, and whose key is ASCII and has none of the four signs `&`, `=`, `%` and `+`:
-- the code writes keys as they are.
pub record IsComponent (c : Text × Text) : Type 0 where
  pub no_separator : Lacks b'&' c.0
  pub no_equals : Lacks b'=' c.0
  pub no_percent : Lacks b'%' c.0
  pub no_plus : Lacks b'+' c.0
  pub key_ascii : All (λ x. x < 128) c.0
  pub value_text : IsText c.1

abbrev read_part : Text → List ℕ × List ℕ
read_part part = let (key, value) = partition (b'=' ∷ []) part in (unquote key, unquote value)

-- The pairs with their values in UTF-8; a value that has no such form is a ValueError.
unfoldable pub encoded_values : Dict Text Text → Result (List (Text × List ℕ))
encoded_values [] = ok []
encoded_values ((key, value) ∷ rest) =
    bind (encode value) λ bytes. bind (encoded_values rest) λ others. ok ((key, bytes) ∷ others)

-- The parts of the body and the pairs that they stand for, or the same error.
data Agree (c : Dict Text Text) (ps : Result (List Text)) (vs : Result (List (Text × List ℕ)))
    : Type 0 where
  parts :
      (l : List Text)
      → ps ≡ ok l
      → vs ≡ ok (map read_part l)
      → All (λ w. Lacks b'&' w) l
      → length l ≡ length c
      → Agree c ps vs
  fails : (e : Error) → ps ≡ err e → vs ≡ err e → Agree c ps vs

read_part-pair :
    (key : Text) (bytes : List ℕ)
    → Lacks b'=' key
    → Lacks b'%' key
    → Lacks b'+' key
    → IsBytes bytes
    → read_part (key ++ (b'=' ∷ quote_bytes bytes)) ≡ (key, bytes)
read_part-pair key bytes h percent plus k =
    rw (partition-append b'=' [] key (quote_bytes bytes) h)
      (rw (unquote-word key percent plus, unquote-quote_bytes bytes k) refl)

cons-Agree :
    (key value : Text) (rest : Dict Text Text) (bytes : List ℕ)
    → IsComponent (key, value)
    → encode value ≡ ok bytes
    → Agree rest (encoded_pairs rest) (encoded_values rest)
    → Agree
        ((key, value) ∷ rest)
        (encoded_pairs ((key, value) ∷ rest))
        (encoded_values ((key, value) ∷ rest))
unfolding encoded_pairs encoded_values
cons-Agree key value rest bytes h e (parts l ps vs lacks same) =
    let small = encode-IsBytes value bytes h.value_text e in
    parts ((key ++ (b'=' ∷ quote_bytes bytes)) ∷ l) (rw e (rw ps refl))
      (rw e (
        rw vs (
          ap (λ (p : List ℕ × List ℕ). ok (p ∷ map read_part l))
            (sym (read_part-pair key bytes h.no_equals h.no_percent h.no_plus small)))))
      (
        All-append (λ x. x ≢ b'&') key (b'=' ∷ quote_bytes bytes) h.no_separator
            (omega arith, quote_bytes-Lacks bytes small),
        lacks,
      )
      (omega (arith, same))
cons-Agree key value rest bytes h e (fails x ps vs) =
    fails x (rw e (rw ps refl)) (rw e (rw vs refl))

agreed : (c : Dict Text Text) → All IsComponent c → Agree c (encoded_pairs c) (encoded_values c)
unfolding encoded_pairs encoded_values
agreed [] h = parts [] refl refl tt refl
agreed ((key, value) ∷ rest) (h, hs) = elim (Result-cases (encode value)) [
  | inl (bytes, e) ↦ cons-Agree key value rest bytes h e (agreed rest hs)
  | inr (x, e) ↦ fails x (rw e refl) (rw e refl)
]

-- A server that reads the body of at least one pair, whose keys are ASCII and have none of the signs `&`,
-- `=`, `%` and `+`, gets the pairs back, each value in UTF-8; where a value has no such form the body is not
-- made either.
pub prepare_component_str_lem :
    (c : Dict Text Text)
    → 0 < length c
    → All IsComponent c
    → bind (prepare_component_str c) (λ body. ok (parse_form body)) ≡ encoded_values c
unfolding prepare_component_str
prepare_component_str_lem c some_pair h = read_back (agreed c h)
  where
    read_back :
        Agree c (encoded_pairs c) (encoded_values c)
        → bind
            (bind (encoded_pairs c) (λ pairs. ok (join (b'&' ∷ []) pairs)))
            (λ body. ok (parse_form body))
          ≡ encoded_values c
    read_back (parts [] ps vs lacks same) = absurd (omega arith)
    read_back (parts (p ∷ l) ps vs lacks same) =
        rw ps
          (rw vs (ap (λ (ws : List Text). ok (map read_part ws)) (split_on-join b'&' p l lacks)))
    read_back (fails x ps vs) = rw ps (rw vs refl)
