-- ===== src/Crawler/Session/Run.antt =====
-- How a run of the crawler ends.
use cs.Prelude.{ℕ, ◌≡◌, refl, Option, none, some, List}
use cs.Prelude.Exec.{
  Result, ok, err, Error, type_error, bind, Raises, bind-Raises, result_of, state_of, lift,
  or_raise, pure, ◌>>=◌,
}
use cs.Prelude.Text.{Text}
use cs.Crawler.Response.{HttpResponse}
use cs.Crawler.Session.{Crawler, login, found_urls, extract_response_data, run}

-- A call that returns gives None.
abbrev GivesNone : Result (Option (Option Text × List Text)) → Type 0
GivesNone (ok none) = Unit
GivesNone (ok (some x)) = ⊥
GivesNone (err e) = Unit

extracts_none : (response : HttpResponse) → GivesNone (extract_response_data response)
unfolding extract_response_data
extracts_none response = given (found_urls response)
  where
    given : (r : Result (List Text)) → GivesNone (bind r (λ urls. ok none))
    given (ok urls) = tt
    given (err e) = tt

unpack-Raises :
    (r : Result (Option (Option Text × List Text))) (c : Crawler)
    → GivesNone r
    → Raises
        ((lift r >>= λ data_found. (lift (or_raise type_error data_found) >>= λ found. pure tt)) c)
unpack-Raises (ok none) c h = (type_error, refl)
unpack-Raises (ok (some x)) c h = absurd h
unpack-Raises (err e) c h = (e, refl)

-- Every run of the crawler raises, also where the login succeeds: what `extract_response_data` returns
-- is None, and the run takes it for a pair.
pub run-Raises :
    (peer_name : Text) (peer_port : ℕ) (c : Crawler)
    → (e : Error) × (result_of (run peer_name peer_port c) ≡ err e)
unfolding run
run-Raises peer_name peer_port c =
    bind-Raises login
      (λ logged_in. (do
        data_found ← lift (extract_response_data logged_in.1)
        found ← lift (or_raise type_error data_found)
        pure tt))
      (record c { server_name = some peer_name; port_name = some peer_port })
      (λ logged_in e.
        unpack-Raises (extract_response_data logged_in.1)
          (state_of (login (record c { server_name = some peer_name; port_name = some peer_port })))
          (extracts_none logged_in.1))
