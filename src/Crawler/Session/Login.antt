-- ===== src/Crawler/Session/Login.antt =====
-- What `login` sends, and what it makes of the responses.
use cs.Prelude.{ℕ, ◌≡◌, subst, refl, ap, sym, ◌∙◌, Option, none, some, List, [], ◌∷◌, ◌++◌}
use cs.Prelude.Eq.{ℕ_eq, List_eq}
use mathlib.Core.List.{append_assoc}
use cs.Prelude.Exec.{Ensures}
use cs.Prelude.Dict.{Dict}
use cs.Prelude.Exec.{Exec, Result, ok, err, bind-inv, state_of, lift, gets, pure, ◌>>=◌, ◌>>◌}
use cs.Prelude.Text.{Text}
use cs.Prelude.Strings.{codes, encode}
use cs.Crawler.Socket.{send}
use cs.Crawler.Response.{HttpResponse}
use cs.Crawler.Request.{get_request, post_request, prepare_component_str}
use cs.Crawler.Session.{
  Crawler, on_socket, send_request, read_response, get, post, login, login_url, login_form,
  parse_header_cookie, parse_header_session_id, parse_middleware_cookie,
}
use cs.Crawler.Session.Reading.{deserialize_response-KeepsSent}

-- The crawler after it has sent some bytes and read something.
pub record Asked (c : Crawler) (bytes : List ℕ) (d : Crawler) : Type 0 where
  pub one_sent : d.web_socket.sent ≡ c.web_socket.sent ++ (bytes ∷ [])
  pub same_username : d.username ≡ c.username
  pub same_password : d.password ≡ c.password
  pub same_server : d.server_name ≡ c.server_name

sent_and_read :
    (bytes : List ℕ) (c : Crawler)
    → Asked c bytes (state_of (read_response (state_of (on_socket (send bytes) c))))
unfolding read_response
sent_and_read bytes c = record {
  one_sent = deserialize_response-KeepsSent (state_of (send bytes c.web_socket));
  same_username = refl;
  same_password = refl;
  same_server = refl;
}

-- A request that was sent and answered.
ask-Asked :
    (request : Text) (c d : Crawler) (response : HttpResponse)
    → (send_request request >> read_response) c ≡ (ok response, d)
    → (bytes : List ℕ) × (encode request ≡ ok bytes) × Asked c bytes d
unfolding send_request
ask-Asked request c d response h =
    let (_, u, asked, answered) =
      bind-inv (send_request request) (λ _. read_response) c response d h in
    let (bytes, v, encoded, sent) =
      bind-inv (lift (encode request)) (λ bytes. on_socket (send bytes)) c tt u asked in
    let same_start = ap (λ (x : Result (List ℕ) × Crawler). x.1) encoded in
    let after_send = ap (λ (x : Result Unit × Crawler). x.1) sent in
    let after_read = ap (λ (x : Result HttpResponse × Crawler). x.1) answered in
    (
      bytes,
      ap (λ (x : Result (List ℕ) × Crawler). x.0) encoded,
      subst (λ (x : Crawler). Asked c bytes x) after_read
          (subst (λ (x : Crawler). Asked c bytes (state_of (read_response x))) after_send
            (subst
              (λ (x : Crawler).
                Asked c bytes (state_of (read_response (state_of (on_socket (send bytes) x)))))
              same_start (sent_and_read bytes c))),
    )

get-Asked :
    (url : Text) (cookie : Option Text) (c d : Crawler) (response : HttpResponse)
    → get url cookie c ≡ (ok response, d)
    → (bytes : List ℕ) × (encode (get_request c.server_name url cookie) ≡ ok bytes)
      × Asked c bytes d
unfolding get
get-Asked url cookie c d response h =
    ask-Asked (get_request c.server_name url cookie) c d response h

post-Asked :
    (url body : Text) (cookie : Option Text) (c d : Crawler) (response : HttpResponse)
    → post url body cookie c ≡ (ok response, d)
    → (bytes : List ℕ) × (encode (post_request c.server_name url body cookie) ≡ ok bytes)
      × Asked c bytes d
unfolding post
post-Asked url body cookie c d response h =
    ask-Asked (post_request c.server_name url body cookie) c d response h

-- What a login has done: two requests are sent, the second with the tokens of the first response.
pub record LoggedIn (c : Crawler) (cookie : Text) (response : HttpResponse) (d : Crawler)
    : Type 0 where
  pub form : HttpResponse
  pub asked : Crawler
  pub first : List ℕ
  pub second : List ℕ
  pub token : Text
  pub middleware_token : Text
  pub session : Text
  pub body : Text
  pub form_got : get login_url none c ≡ (ok form, asked)
  pub token_read : parse_header_cookie form.header_values ≡ ok token
  pub middleware_read : parse_middleware_cookie form.component ≡ ok middleware_token
  pub asks_form : encode (get_request c.server_name login_url none) ≡ ok first
  pub body_made :
      prepare_component_str (
        (codes "username", c.username)
        ∷ (codes "password", c.password)
        ∷ (codes "csrfmiddlewaretoken", middleware_token)
        ∷ (codes "next", [])
        ∷ [])
      ≡ ok body
  pub posts_form :
      encode (post_request c.server_name login_url body (some (codes "csrftoken=" ++ token)))
      ≡ ok second
  pub session_read : parse_header_session_id response.header_values ≡ ok session
  pub two_sent : d.web_socket.sent ≡ c.web_socket.sent ++ (first ∷ second ∷ [])
  pub cookie_made : cookie ≡ token ++ (codes "; sessionid=" ++ session)

abbrev finish_login : Text → HttpResponse → Exec Crawler (Text × HttpResponse)
finish_login token response = do
  session_id ← lift (parse_header_session_id response.header_values)
  pure (token ++ (codes "; sessionid=" ++ session_id), response)

abbrev post_form : Text → Text → Exec Crawler (Text × HttpResponse)
post_form token body = do
  response ← post login_url body (some (codes "csrftoken=" ++ token))
  finish_login token response

abbrev make_form : Text → Text → Exec Crawler (Text × HttpResponse)
make_form token middleware_token = do
  prepared ← gets (λ (c : Crawler). prepare_component_str (login_form middleware_token c))
  body ← lift prepared
  post_form token body

abbrev read_tokens : HttpResponse → Exec Crawler (Text × HttpResponse)
read_tokens response = do
  token ← lift (parse_header_cookie response.header_values)
  middleware_token ← lift (parse_middleware_cookie response.component)
  make_form token middleware_token

lift-inv :
    {A B : Type 0} (r : Result A) (f : A → Exec Crawler B) (c d : Crawler) (b : B)
    → (lift r >>= f) c ≡ (ok b, d)
    → (a : A) × (r ≡ ok a) × (f a c ≡ (ok b, d))
lift-inv (ok a) f c d b h = (a, refl, h)
lift-inv {A} {B} (err e) f c d b h = absurd (never (ap (λ (x : Result B × Crawler). x.0) h))
  where
    never : err e ≡ ok b → ⊥
    never k = cc

form_same :
    (m : Text) (c d : Crawler)
    → d.username ≡ c.username
    → d.password ≡ c.password
    → login_form m d ≡ login_form m c
form_same m c d u p =
    ap (λ (name : Text). login_form m (record d { username = name })) u
    ∙ ap (λ (secret : Text). login_form m (record d { username = c.username; password = secret })) p

value_same : {A : Type 0} (a b : A) → ok a ≡ ok b → a ≡ b
value_same {A} a b e = subst (λ (r : Result A). Ensures (λ v. a ≡ v) r) e refl

-- The second request, and what is made of its response.
posted :
    (token middleware_token cookie : Text) (c d : Crawler) (response : HttpResponse)
    → make_form token middleware_token c ≡ (ok (cookie, response), d)
    → (body : Text) × (second : List ℕ) × (session : Text) × (prepare_component_str
          (login_form middleware_token c)
        ≡ ok body)
      × (encode (post_request c.server_name login_url body (some (codes "csrftoken=" ++ token)))
          ≡ ok second)
      × (parse_header_session_id response.header_values ≡ ok session)
      × (cookie ≡ token ++ (codes "; sessionid=" ++ session))
      × Asked c second d
posted token middleware_token cookie c d response h =
    let (body, made, h1) =
      lift-inv (prepare_component_str (login_form middleware_token c)) (post_form token) c d
        (cookie, response) h in
    let (answer, u, asked, h2) =
      bind-inv (post login_url body (some (codes "csrftoken=" ++ token))) (finish_login token) c
        (cookie, response) d h1 in
    let (second, encoded, after) =
      post-Asked login_url body (some (codes "csrftoken=" ++ token)) c u answer asked in
    let (session, read, h3) =
      lift-inv (parse_header_session_id answer.header_values)
        (λ session_id. pure (token ++ (codes "; sessionid=" ++ session_id), answer)) u d
        (cookie, response) h2 in
    let result =
      value_same (token ++ (codes "; sessionid=" ++ session), answer) (cookie, response)
        (ap (λ (x : Result (Text × HttpResponse) × Crawler). x.0) h3) in
    (
      body,
      second,
      session,
      made,
      encoded,
      subst (λ (r : HttpResponse). parse_header_session_id r.header_values ≡ ok session)
          (ap (λ (x : Text × HttpResponse). x.1) result) read,
      sym (ap (λ (x : Text × HttpResponse). x.0) result),
      subst (λ (x : Crawler). Asked c second x)
          (ap (λ (x : Result (Text × HttpResponse) × Crawler). x.1) h3) after,
    )

pub login_lem :
    (c d : Crawler) (cookie : Text) (response : HttpResponse)
    → login c ≡ (ok (cookie, response), d)
    → LoggedIn c cookie response d
unfolding login
login_lem c d cookie response h =
    let (form, u, got, h1) = bind-inv (get login_url none) read_tokens c (cookie, response) d h in
    let (first, asked_first, after) = get-Asked login_url none c u form got in
    let (token, token_read, h2) =
      lift-inv (parse_header_cookie form.header_values)
        (λ token. (do
          middleware_token ← lift (parse_middleware_cookie form.component)
          make_form token middleware_token))
        u d (cookie, response) h1 in
    let (middleware_token, middleware_read, h3) =
      lift-inv (parse_middleware_cookie form.component) (make_form token) u d (cookie, response)
        h2 in
    let (body, second, session, made, posts, read, cookie_eq, last) =
      posted token middleware_token cookie u d response h3 in
    record {
      form = form;
      asked = u;
      form_got = got;
      token_read = token_read;
      middleware_read = middleware_read;
      first = first;
      second = second;
      token = token;
      middleware_token = middleware_token;
      session = session;
      body = body;
      asks_form = asked_first;
      body_made =
          subst (λ (f : Dict Text Text). prepare_component_str f ≡ ok body)
            (form_same middleware_token c u after.same_username after.same_password) made;
      posts_form =
          subst
            (λ (s : Option Text).
              encode (post_request s login_url body (some (codes "csrftoken=" ++ token)))
              ≡ ok second)
            after.same_server posts;
      session_read = read;
      two_sent =
          last.one_sent
          ∙ ap (λ (x : List (List ℕ)). x ++ (second ∷ [])) after.one_sent
          ∙ append_assoc c.web_socket.sent (first ∷ []) (second ∷ []);
      cookie_made = cookie_eq;
    }
