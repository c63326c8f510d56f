-- ===== src/Crawler/Request.antt =====
-- The requests of 3700Crawler/networks/crawler.py as texts, and `quote_plus` of urllib.parse.
pub mod Quote
pub mod Form
use cs.Prelude.{
  ℕ, ◌+◌, ◌-◌, ◌/◌, ◌%◌, Bool, true, false, ◌&&◌, ◌||◌, Option, none, some, List, [], ◌∷◌, ◌++◌,
  ltb, leb, nat_eq, length, if◌then◌else◌,
}
use cs.Prelude.Dict.{Dict}
use cs.Prelude.Exec.{Result, ok, bind}
use cs.Prelude.Text.{Text, decimal, is_digit}
use cs.Prelude.Strings.{codes, join, encode}
use cs.Crawler.Response.{line_ending}

-- `str` of a name that is not known yet is "None".
abbrev pub name_text : Option Text → Text
name_text none = codes "None"
name_text (some name) = name

-- `if cookie: header_keys.append(...)`
abbrev pub cookie_line : Option Text → List Text
cookie_line none = []
cookie_line (some []) = []
cookie_line (some (c ∷ cs)) = (codes "Cookie: " ++ (c ∷ cs)) ∷ []

abbrev pub blank_line : Text
blank_line = line_ending ++ line_ending

-- The request of `get`
unfoldable pub get_request : Option Text → Text → Option Text → Text
get_request server_name url cookie =
    join line_ending (
      (codes "GET " ++ (url ++ codes " HTTP/1.1"))
      ∷ (codes "Host: " ++ name_text server_name)
      ∷ codes "Connection: keep-alive"
      ∷ cookie_line cookie)
    ++ blank_line

-- The request of `post`; the length is that of the text
unfoldable pub post_request : Option Text → Text → Text → Option Text → Text
post_request server_name url body cookie =
    join line_ending (
      (codes "POST " ++ (url ++ codes " HTTP/1.1"))
      ∷ (codes "Host: " ++ name_text server_name)
      ∷ codes "Content-Type: application/x-www-form-urlencoded"
      ∷ (codes "Content-Length: " ++ decimal (length body))
      ∷ cookie_line cookie)
    ++ (blank_line ++ body)

-- The characters that `quote` leaves alone
abbrev pub is_safe : ℕ → Bool
is_safe c =
    (leb b'a' c && leb c b'z')
    || ((leb b'A' c && leb c b'Z')
        || (is_digit c || (nat_eq c b'_' || (nat_eq c b'.' || (nat_eq c b'-' || nat_eq c b'~')))))

abbrev pub hex_digit : ℕ → ℕ
hex_digit n = if ltb n 10 then b'0' + n else b'A' + (n - 10)

abbrev pub quote_byte : ℕ → Text
quote_byte b =
    if nat_eq b b' '
    then b'+' ∷ []
    else if is_safe b
    then b ∷ []
    else b'%' ∷ hex_digit (b / 16) ∷ hex_digit (b % 16) ∷ []

abbrev pub quote_bytes : List ℕ → Text
quote_bytes [] = []
quote_bytes (b ∷ bs) = quote_byte b ++ quote_bytes bs

-- `urllib.parse.quote_plus`
abbrev pub quote_plus : Text → Result Text
quote_plus value = bind (encode value) (λ bytes. ok (quote_bytes bytes))

-- The loop of `_prepare_component_str`
unfoldable pub encoded_pairs : Dict Text Text → Result (List Text)
encoded_pairs [] = ok []
encoded_pairs ((key, value) ∷ rest) =
    bind (quote_plus value) λ encoded_value.
      bind (encoded_pairs rest) λ pairs. ok ((key ++ (b'=' ∷ encoded_value)) ∷ pairs)

-- `_prepare_component_str`
unfoldable pub prepare_component_str : Dict Text Text → Result Text
unfolding encoded_pairs
prepare_component_str content_components =
    bind (encoded_pairs content_components) λ pairs. ok (join (b'&' ∷ []) pairs)
