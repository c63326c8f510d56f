-- ===== src/Crawler/Tests.antt =====
-- The theorems about the crawler at concrete responses.
use cs.Prelude.{◌≤◌, ◌<◌, ◌≡◌, ◌⊎◌, refl, false, some, List, [], ◌∷◌, ◌++◌, arith, length}
use cs.Prelude.Eq.{ℕ_eq, List_eq}
use cs.Prelude.Dict.{Dict}
use cs.Prelude.Exec.{ok, err, Error, bind, result_of, state_of, value_error}
use cs.Prelude.Text.{Text, split_on, lstrip, decimal, int_of_text}
use cs.Prelude.Strings.{codes, partition, encode, decode}
use cs.Crawler.Response.{
  HttpResponse, line_ending, version_name, response_code_name, response_status_name, parse_header,
  deserialize_response,
}
use cs.Crawler.Response.Loop.{parse_header_lem}
use cs.Crawler.Response.Fields.{IsField, field_lines, parse_header-lines}
use cs.Crawler.Response.Body.{InTwo, deserialize_response-two}
use cs.Crawler.Request.{get_request, post_request, prepare_component_str}
use cs.Crawler.Request.Form.{parse_form, encoded_values, prepare_component_str_lem}
use cs.Crawler.Session.{
  Crawler, init, read_response, parse_header_cookie, parse_header_session_id,
  parse_middleware_cookie, login, run,
}
use cs.Crawler.Pattern.{find_all}
use cs.Crawler.Session.Login.{LoggedIn, login_lem}
use cs.Crawler.Session.Run.{run-Raises}

abbrev status_line : Text
status_line = codes "HTTP/1.1 200 OK"

parse_header_lem_example :
    (((a : Dict Text Text × Text) × (parse_header (codes "HTTP/1.1 200 OK\r\nServer: x\r\n")
          ≡ ok a))
      × (2
          ≤ length
              (split_on b' ' (partition line_ending (codes "HTTP/1.1 200 OK\r\nServer: x\r\n")).0)))
    ⊎ ((parse_header (codes "HTTP/1.1 200 OK\r\nServer: x\r\n") ≡ err value_error)
        × (length
              (split_on b' ' (partition line_ending (codes "HTTP/1.1 200 OK\r\nServer: x\r\n")).0)
            < 2))
parse_header_lem_example = parse_header_lem (codes "HTTP/1.1 200 OK\r\nServer: x\r\n")

abbrev fields : List (Text × Text)
fields = (codes "Content-length", codes " 6") ∷ (codes "Server", codes "nginx") ∷ []

length_line-IsField : IsField (codes "Content-length", codes " 6")
length_line-IsField = record { one_line = omega arith; plain_key = omega arith }

server_line-IsField : IsField (codes "Server", codes "nginx")
server_line-IsField = record { one_line = omega arith; plain_key = omega arith }

status_words : split_on b' ' status_line ≡ codes "HTTP/1.1" ∷ codes "200" ∷ codes "OK" ∷ []
unfolding split_on
status_words = refl

parse_header-lines_example :
    parse_header (status_line ++ (line_ending ++ field_lines fields (line_ending ++ codes "abc")))
    ≡ ok (
      (version_name, codes "HTTP/1.1")
          ∷ (response_code_name, codes "200")
          ∷ (response_status_name, codes "OK")
          ∷ (codes "CONTENT-LENGTH", codes "6")
          ∷ (codes "SERVER", codes "nginx")
          ∷ [],
      line_ending ++ codes "abc",
    )
unfolding lstrip
parse_header-lines_example =
    parse_header-lines (codes "HTTP/1.1") (codes "200") (codes "OK" ∷ []) status_line fields
      (codes "abc") (omega arith) status_words (length_line-IsField, (server_line-IsField, tt))

abbrev head : Text
head = status_line ++ (line_ending ++ field_lines fields (line_ending ++ codes "abc"))

abbrev header : Dict Text Text
header =
    (version_name, codes "HTTP/1.1")
    ∷ (response_code_name, codes "200")
    ∷ (response_status_name, codes "OK")
    ∷ (codes "CONTENT-LENGTH", codes "6")
    ∷ (codes "SERVER", codes "nginx")
    ∷ []

six : int_of_text (codes "6") ≡ some (record { negative = false; magnitude = 6 })
unfolding int_of_text
six = refl

two_pieces : InTwo head (codes "abc") (codes "def") header
unfolding lstrip
two_pieces = record {
  small = omega arith;
  head_plain = omega arith;
  second_plain = omega arith;
  parsed =
      parse_header-lines (codes "HTTP/1.1") (codes "200") (codes "OK" ∷ []) status_line fields
        (codes "abc") (omega arith) status_words (length_line-IsField, (server_line-IsField, tt));
  digit = b'6';
  digits = [];
  announced = refl;
  true_length = six;
}

-- Of the six characters of the content the last two are missing.
deserialize_response-two_example :
    result_of (deserialize_response (record { incoming = head ∷ codes "def" ∷ []; sent = [] }))
    ≡ ok (record { header_values = header; component = line_ending ++ codes "abcd" })
deserialize_response-two_example =
    deserialize_response-two head (codes "abc") (codes "def") header [] two_pieces

abbrev form : Dict Text Text
form = (codes "username", codes "a b") ∷ (codes "next", []) ∷ []

prepare_component_str_lem_example :
    bind (prepare_component_str form) (λ body. ok (parse_form body)) ≡ encoded_values form
prepare_component_str_lem_example = prepare_component_str_lem form (omega arith) (
  record {
    no_separator = omega arith;
    no_equals = omega arith;
    no_percent = omega arith;
    no_plus = omega arith;
    key_ascii = omega arith;
    value_text = omega arith;
  },
  (
    record {
      no_separator = omega arith;
      no_equals = omega arith;
      no_percent = omega arith;
      no_plus = omega arith;
      key_ascii = omega arith;
      value_text = omega arith;
    },
    tt,
  ),
)

-- A server that answers the two requests of a login.
abbrev login_page : Text
login_page =
    codes "HTTP/1.1 200 OK\r\nSet-Cookie: csrftoken=abc; expires=never\r\n\r\n"
    ++ codes "<input type=\"hidden\" name=\"csrfmiddlewaretoken\" value=\"xyz\">"

abbrev welcome : Text
welcome =
    codes
      "HTTP/1.1 302 Found\r\nSet-Cookie: sessionid=s1; expires=never\r\nLocation: /fakebook/\r\n\r\n"

abbrev crawler : Crawler
crawler =
    record (init (record { incoming = login_page ∷ welcome ∷ []; sent = [] }) (codes "me")
      (codes "secret")) { server_name = some (codes "host") }

abbrev logged_in : Crawler
logged_in = state_of (login crawler)

run-Raises_example : (e : Error) × (result_of (run (codes "10.0.0.1") 443 crawler) ≡ err e)
run-Raises_example = run-Raises (codes "10.0.0.1") 443 crawler

abbrev welcomed : HttpResponse
welcomed = record {
  header_values =
      (version_name, codes "HTTP/1.1")
      ∷ (response_code_name, codes "302")
      ∷ (response_status_name, codes "Found")
      ∷ (codes "SET-COOKIE", codes "sessionid=s1; expires=never")
      ∷ (codes "LOCATION", codes "/fakebook/")
      ∷ [];
  component = line_ending;
}

login_run : login crawler ≡ (ok (codes "abc; sessionid=s1", welcomed), logged_in)
unfolding login encode decode partition get_request post_request deserialize_response read_response
    parse_header_cookie parse_header_session_id parse_middleware_cookie prepare_component_str
    find_all split_on lstrip decimal
login_run = refl

login_lem_example : LoggedIn crawler (codes "abc; sessionid=s1") welcomed logged_in
login_lem_example = login_lem crawler logged_in (codes "abc; sessionid=s1") welcomed login_run
