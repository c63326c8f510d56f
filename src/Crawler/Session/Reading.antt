-- ===== src/Crawler/Session/Reading.antt =====
-- Reading a response sends nothing.
use cs.Prelude.{
  ℕ, ◌≡◌, inl, inr, not, ◌&&◌, ◌-◌, take, length, ltb, Bool-cases, refl, Option, none, some, [],
  ◌∷◌, ◌++◌,
}
use cs.Prelude.Eq.{ℕ_eq, List_eq}
use cs.Prelude.Dict.{lookup}
use cs.Prelude.Exec.{Exec, bind-state, state_of, lift, value_error, or_raise, pure, ◌>>=◌}
use cs.Prelude.Text.{Text, Signed, int_of_text}
use cs.Prelude.Strings.{decode}
use cs.Crawler.Socket.{Socket, recv, first_piece}
use cs.Crawler.Response.{
  parse_header, assumed_max_package_size, content_length_key, deserialize_header, read_rest,
  read_content, deserialize_response,
}

abbrev pub KeepsSent : Socket → Socket → Type 0
KeepsSent s t = t.sent ≡ s.sent

-- Reading sends nothing.
read-KeepsSent :
    {A : Type 0} (n : ℕ) (f : Text → Exec Socket A) (s t : Socket)
    → KeepsSent t s
    → ((a : Text) (u : Socket) → KeepsSent t u → KeepsSent t (state_of (f a u)))
    → KeepsSent t (state_of ((recv n >>= λ bytes. (lift (decode bytes) >>= f)) s))
read-KeepsSent {A} n f s t h k =
    bind-state (KeepsSent t) (lift (decode (take n (first_piece s.incoming)))) f
      (state_of (recv n s)) h (λ a e. k a (state_of (recv n s)) h)

deserialize_header-KeepsSent : (s : Socket) → KeepsSent s (state_of (deserialize_header s))
unfolding deserialize_header
deserialize_header-KeepsSent s =
    read-KeepsSent assumed_max_package_size (λ text. lift (parse_header text)) s s refl (λ a u h. h)

read_rest-KeepsSent :
    (n : Signed) (text : Text) (s t : Socket)
    → KeepsSent t s
    → KeepsSent t (state_of (read_rest n text s))
unfolding read_rest
read_rest-KeepsSent n text s t h =
    elim (Bool-cases (not n.negative && ltb (length text) n.magnitude)) [
      | inl more ↦
          rw more
            (read-KeepsSent (n.magnitude - length text) (λ a. pure (text ++ a)) s t h (λ a u k. k))
      | inr enough ↦ rw enough h
    ]

read_content-KeepsSent :
    (o : Option Text) (text : Text) (s t : Socket)
    → KeepsSent t s
    → KeepsSent t (state_of (read_content o text s))
unfolding read_content
read_content-KeepsSent none text s t h = h
read_content-KeepsSent (some []) text s t h = h
read_content-KeepsSent (some (c ∷ cs)) text s t h =
    bind-state (KeepsSent t) (lift (or_raise value_error (int_of_text (c ∷ cs))))
      (λ n. read_rest n text) s h (λ n e. read_rest-KeepsSent n text s t h)

pub deserialize_response-KeepsSent : (s : Socket) → KeepsSent s (state_of (deserialize_response s))
unfolding deserialize_response
deserialize_response-KeepsSent s =
    bind-state (KeepsSent s) deserialize_header
      (λ header. (do
        component ← read_content (lookup content_length_key header.0) header.1
        pure (record { header_values = header.0; component = component })))
      s (deserialize_header-KeepsSent s)
      (λ header e.
        bind-state (KeepsSent s) (read_content (lookup content_length_key header.0) header.1)
          (λ component. pure (record { header_values = header.0; component = component }))
          (state_of (deserialize_header s))
          (read_content-KeepsSent (lookup content_length_key header.0) header.1
            (state_of (deserialize_header s)) s (deserialize_header-KeepsSent s))
          (λ component k.
            read_content-KeepsSent (lookup content_length_key header.0) header.1
              (state_of (deserialize_header s)) s (deserialize_header-KeepsSent s)))
