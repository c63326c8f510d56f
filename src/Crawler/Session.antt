-- ===== src/Crawler/Session.antt =====
-- The class `Crawler` of 3700Crawler/networks/crawler.py.
pub mod Reading
pub mod Login
pub mod Run
use cs.Prelude.{
  ℕ, Bool, true, false, ◌||◌, Option, none, some, List, [], ◌∷◌, ◌++◌, nat_eq, if◌then◌else◌,
}
use cs.Prelude.Eq.{ℕ_eq, List_eq}
use cs.Prelude.Dict.{Dict, lookup}
use cs.Prelude.Exec.{
  Exec, Result, ok, err, value_error, key_error, type_error, bind, or_raise, pure, lift, gets,
  modify, ◌>>=◌, ◌>>◌,
}
use cs.Prelude.Text.{Text, Signed, int_of_text}
use cs.Prelude.Strings.{codes, encode}
use cs.Crawler.Socket.{Socket, send}
use cs.Crawler.Response.{HttpResponse, deserialize_response, response_code_name}
use cs.Crawler.Request.{get_request, post_request, prepare_component_str}
use cs.Crawler.Pattern.{
  Pattern, find_all, header_cookie_pattern, header_session_pattern, middleware_cookie_pattern,
  url_match_pattern,
}

-- `Crawler`
pub record Crawler : Type 0 where
  pub web_socket : Socket
  pub username : Text
  pub password : Text
  pub server_name : Option Text
  pub port_name : Option ℕ

-- `Crawler.__init__`
abbrev pub init : Socket → Text → Text → Crawler
init web_connection username password = record {
  web_socket = web_connection;
  username = username;
  password = password;
  server_name = none;
  port_name = none;
}

-- A call on the socket of the crawler.
abbrev pub on_socket : {A : Type 0} → Exec Socket A → Exec Crawler A
on_socket m c = let (r, s) = m c.web_socket in (r, record c { web_socket = s })

-- `send_request`
unfoldable pub send_request : Text → Exec Crawler Unit
send_request request = do bytes ← lift (encode request); on_socket (send bytes)

-- `read_response`
unfoldable pub read_response : Exec Crawler HttpResponse
read_response = on_socket deserialize_response

-- `get`
unfoldable pub get : Text → Option Text → Exec Crawler HttpResponse
unfolding send_request
get url cookie = do
  request ← gets (λ (c : Crawler). get_request c.server_name url cookie)
  send_request request
  read_response

-- `post`
unfoldable pub post : Text → Text → Option Text → Exec Crawler HttpResponse
unfolding send_request
post url body cookie = do
  request ← gets (λ (c : Crawler). post_request c.server_name url body cookie)
  send_request request
  read_response

-- `x, = found`
abbrev pub the_only : List Text → Result Text
the_only [] = err value_error
the_only (x ∷ []) = ok x
the_only (x ∷ y ∷ rest) = err value_error

abbrev pub login_cookie_key : Text
login_cookie_key = codes "SET-COOKIE"

-- `_parse_header_cookie` and `_parse_header_session_id`, which differ in the pattern: an entry that is
-- missing or empty is a ValueError.
abbrev pub parse_cookie : Pattern → Option Text → Result Text
parse_cookie matching none = err value_error
parse_cookie matching (some []) = err value_error
parse_cookie matching (some (c ∷ cs)) = the_only (find_all matching (c ∷ cs))

unfoldable pub parse_header_cookie : Dict Text Text → Result Text
parse_header_cookie header = parse_cookie header_cookie_pattern (lookup login_cookie_key header)

unfoldable pub parse_header_session_id : Dict Text Text → Result Text
parse_header_session_id header =
    parse_cookie header_session_pattern (lookup login_cookie_key header)

abbrev pub not_empty : Text → Result Text
not_empty [] = err value_error
not_empty (c ∷ cs) = ok (c ∷ cs)

-- `_parse_middleware_cookie`
unfoldable pub parse_middleware_cookie : Text → Result Text
parse_middleware_cookie body = bind (the_only (find_all middleware_cookie_pattern body)) not_empty

abbrev pub login_url : Text
login_url = codes "/accounts/login/?next=/fakebook/"

-- The dictionary that `login` posts
abbrev pub login_form : Text → Crawler → Dict Text Text
login_form middleware_cookie c =
    (codes "username", c.username)
    ∷ (codes "password", c.password)
    ∷ (codes "csrfmiddlewaretoken", middleware_cookie)
    ∷ (codes "next", [])
    ∷ []

-- `login`
unfoldable pub login : Exec Crawler (Text × HttpResponse)
unfolding get post
login = do
  get_response ← get login_url none
  header_cookie ← lift (parse_header_cookie get_response.header_values)
  middleware_cookie ← lift (parse_middleware_cookie get_response.component)
  prepared ← gets (λ (c : Crawler). prepare_component_str (login_form middleware_cookie c))
  post_body ← lift prepared
  post_response ← post login_url post_body (some (codes "csrftoken=" ++ header_cookie))
  session_id ← lift (parse_header_session_id post_response.header_values)
  pure (header_cookie ++ (codes "; sessionid=" ++ session_id), post_response)

-- The URLs that `extract_response_data` finds, by the code of the response.
abbrev pub add_redirect : Signed → HttpResponse → List Text → Result (List Text)
add_redirect response_code response found_urls =
    if response_code.negative
    then ok found_urls
    else if nat_eq response_code.magnitude 302
    then bind (or_raise key_error (lookup (codes "LOCATION") response.header_values))
        (λ url. ok (found_urls ++ (url ∷ [])))
    else if nat_eq response_code.magnitude 404 || nat_eq response_code.magnitude 401
    then ok found_urls
    else if nat_eq response_code.magnitude 500
    then err value_error
    else ok found_urls

unfoldable pub found_urls : HttpResponse → Result (List Text)
found_urls response =
    bind (or_raise key_error (lookup response_code_name response.header_values)) λ raw_code.
      bind (or_raise value_error (int_of_text raw_code)) λ response_code.
        add_redirect response_code response (find_all url_match_pattern response.component)

-- `extract_response_data`: no statement returns what was found, so a call that ends returns None.
unfoldable pub extract_response_data : HttpResponse → Result (Option (Option Text × List Text))
extract_response_data response = bind (found_urls response) (λ urls. ok none)

-- `run`; the name and the port of the peer are arguments. The last line takes the pair apart.
unfoldable pub run : Text → ℕ → Exec Crawler Unit
unfolding login
run peer_name peer_port = do
  modify (λ (c : Crawler). record c { server_name = some peer_name; port_name = some peer_port })
  logged_in ← login
  data_found ← lift (extract_response_data logged_in.1)
  found ← lift (or_raise type_error data_found)
  pure tt
