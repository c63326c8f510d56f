-- ===== src/Crawler/Socket.antt =====
-- The TLS socket, as far as the crawler uses it: the bytes of the server come in pieces, and a read
-- returns at most as many bytes as it asks for.
use cs.Prelude.{ℕ, List, [], ◌∷◌, ◌++◌, take, drop}
use cs.Prelude.Exec.{Exec, ok}

pub record Socket : Type 0 where
  pub incoming : List (List ℕ)
  pub sent : List (List ℕ)

-- What is left of a piece is read next.
abbrev pub put_back : List ℕ → List (List ℕ) → List (List ℕ)
put_back [] pieces = pieces
put_back (b ∷ bs) pieces = (b ∷ bs) ∷ pieces

abbrev pub first_piece : List (List ℕ) → List ℕ
first_piece [] = []
first_piece (piece ∷ pieces) = piece

abbrev pub other_pieces : List (List ℕ) → List (List ℕ)
other_pieces [] = []
other_pieces (piece ∷ pieces) = pieces

-- `recv(n)`; with nothing left the connection is closed, and the read returns no bytes
abbrev pub recv : ℕ → Exec Socket (List ℕ)
recv n s = (
  ok (take n (first_piece s.incoming)),
  record s { incoming = put_back (drop n (first_piece s.incoming)) (other_pieces s.incoming) },
)

-- `send(data)`
abbrev pub send : List ℕ → Exec Socket Unit
send bytes s = (ok tt, record s { sent = s.sent ++ (bytes ∷ []) })
