-- ===== src/Crawler/Response.antt =====
-- 3700Crawler/networks/http_response.py
pub mod Loop
pub mod Fields
pub mod Body
use cs.Prelude.{
  ℕ, zero, suc, ◌+◌, ◌-◌, Bool, true, false, not, ◌&&◌, Option, none, some, List, [], ◌∷◌, ◌++◌,
  length, ltb, if◌then◌else◌,
}
use cs.Prelude.Eq.{◌==◌, ℕ_eq, List_eq}
use cs.Prelude.Dict.{Dict, insert, lookup}
use cs.Prelude.Exec.{Exec, Result, ok, err, value_error, no_fuel, bind, pure, lift, or_raise, ◌>>=◌}
use cs.Prelude.Text.{Text, Signed, split_on, lstrip, int_of_text}
use cs.Prelude.Strings.{codes, partition, join, upper, decode}
use cs.Crawler.Socket.{Socket, recv}

abbrev pub line_ending : Text
line_ending = b'\r' ∷ b'\n' ∷ []

abbrev pub key_val_separator : Text
key_val_separator = b':' ∷ []

abbrev pub version_name : Text
version_name = codes "VERSION_NAME"

abbrev pub response_code_name : Text
response_code_name = codes "RESPONSE_CODE"

abbrev pub response_status_name : Text
response_status_name = codes "RESPONSE_STATUS"

abbrev pub content_length_key : Text
content_length_key = codes "CONTENT-LENGTH"

abbrev pub assumed_max_package_size : ℕ
assumed_max_package_size = 3200

-- `HTTPResponse`
pub record HttpResponse : Type 0 where
  pub header_values : Dict Text Text
  pub component : Text

-- `http_version, response_code, *status = header_line.split(' ')`, and the entries made of them
abbrev pub status_entries : List Text → Result (Dict Text Text)
status_entries [] = err value_error
status_entries (version ∷ []) = err value_error
status_entries (version ∷ response_code ∷ status) = ok (
    (version_name, version)
    ∷ (response_code_name, response_code)
    ∷ (response_status_name, join (b' ' ∷ []) status)
    ∷ [])

-- The entry that a line of the header adds.
unfoldable pub add_field : Text → Dict Text Text → Dict Text Text
add_field line header_values =
    let parts = partition key_val_separator line in
    insert (upper parts.0) (lstrip parts.1) header_values

-- The `while` loop of `deserialize_header`
unfoldable pub header_loop : ℕ → Text → Text → Dict Text Text → Result (Dict Text Text × Text)
unfolding add_field
header_loop zero previous remaining header_values = err no_fuel
header_loop (suc fuel) previous remaining header_values =
    let parts = partition line_ending remaining in
    let rest = header_loop fuel parts.1 parts.1 (add_field parts.0 header_values) in
    if parts.0 == []
    then ok (header_values, remaining)
    else if parts.0 == remaining
    then ok (header_values, remaining)
    else if previous == parts.1
    then ok (header_values, parts.1)
    else rest

-- `deserialize_header` after the read
unfoldable pub parse_header : Text → Result (Dict Text Text × Text)
unfolding header_loop
parse_header response_str =
    let parts = partition line_ending response_str in
    bind (status_entries (split_on b' ' parts.0))
      λ header_values. header_loop (length parts.1 + 1) [] parts.1 header_values

-- `deserialize_header`
unfoldable pub deserialize_header : Exec Socket (Dict Text Text × Text)
unfolding parse_header
deserialize_header = do
  assumed_package_bytes ← recv assumed_max_package_size
  response_str ← lift (decode assumed_package_bytes)
  lift (parse_header response_str)

-- The rest of the content, as long as the header says; the part that is there is measured first.
unfoldable pub read_rest : Signed → Text → Exec Socket Text
read_rest content_size remaining_message =
    if not content_size.negative && ltb (length remaining_message) content_size.magnitude
    then (do
      additional_bytes ← recv (content_size.magnitude - length remaining_message)
      additional_message ← lift (decode additional_bytes)
      pure (remaining_message ++ additional_message))
    else pure remaining_message

-- The content after the header, by the entry for its length.
unfoldable pub read_content : Option Text → Text → Exec Socket Text
unfolding read_rest
read_content none remaining_message = pure remaining_message
read_content (some []) remaining_message = pure remaining_message
read_content (some (c ∷ cs)) remaining_message = do
  content_size ← lift (or_raise value_error (int_of_text (c ∷ cs)))
  read_rest content_size remaining_message

-- `deserialize_response`
unfoldable pub deserialize_response : Exec Socket HttpResponse
unfolding deserialize_header read_content
deserialize_response = do
  header ← deserialize_header
  component ← read_content (lookup content_length_key header.0) header.1
  pure (record { header_values = header.0; component = component })
