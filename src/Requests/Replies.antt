-- ===== src/Requests/Replies.antt =====
-- What a request is answered with, from the frames that arrive for it.
use gef_engine.Prelude.{
  ℕ, ◌<◌, ◌^◌, ◌≡◌, refl, sym, ap, subst, ◌∙◌, Bool, true, false, Option, none, some, List, [], ◌∷◌,
  length, ◌==◌, arith, Bool-cases, inl, inr, ==_of_eq,
}
use gef_engine.Codec.{Bytes, to_bytes, of_bytes}
use gef_engine.Codec.Laws.{of_bytes-to_bytes, length-to_bytes}
use gef_engine.Requests.{
  ReqSocket, Sent, Received, accepted, again, wrong_state, broken, frame, nothing, failed,
  NetworkError, no_error, invalid_request_size, handler_error, invalid_response_size, send_failed,
  receive_failed, other, code_of, error_of, is_none, Handler, second_frame, first_frame,
  receive_reply, reconnect, conclude, exchange_sent, validity, fixed_size, send_and_receive,
  send_and_receive_fixed, send_into, send_for_reply, send_fixed,
}

-- An error that an enumerator names.
abbrev pub IsNamed : NetworkError → Type 0
IsNamed (other n) = ⊥
IsNamed error = Unit {0}

error_of-code_of : (error : NetworkError) → IsNamed error → error_of (code_of error) ≡ error
unfolding error_of code_of
error_of-code_of no_error h = refl
error_of-code_of invalid_request_size h = refl
error_of-code_of handler_error h = refl
error_of-code_of invalid_response_size h = refl
error_of-code_of send_failed h = refl
error_of-code_of receive_failed h = refl
error_of-code_of (other n) h = absurd h

code_of-lt : (error : NetworkError) → IsNamed error → code_of error < 256 ^ 4
unfolding code_of
code_of-lt no_error h = omega arith
code_of-lt invalid_request_size h = omega arith
code_of-lt handler_error h = omega arith
code_of-lt invalid_response_size h = omega arith
code_of-lt send_failed h = omega arith
code_of-lt receive_failed h = omega arith
code_of-lt (other n) h = absurd h

-- The four bytes of an error are read back.
pub decoded_error :
    (error : NetworkError)
    → IsNamed error
    → error_of (of_bytes (to_bytes 4 (code_of error))) ≡ error
decoded_error error h =
    ap error_of (of_bytes-to_bytes 4 (code_of error) (code_of-lt error h))
    ∙ error_of-code_of error h

is_none-error_of : (n : ℕ) → is_none (error_of n) ≡ (n == 0)
unfolding is_none error_of
is_none-error_of n = ground arith

module _ (z : ReqSocket) where
  open z use {Net, send, recv}

  -- The frames come in, one recv after another.
  abbrev pub Arrives : List (Bytes × Bool) → Net → Net → Type 0
  Arrives [] n m = n ≡ m
  Arrives ((b, more) ∷ fs) n m = (k : Net) × (recv n ≡ (frame b more, k)) × Arrives fs k m

  -- The two frames of a reply, as the server sends them, are taken for what it sent.
  pub receive_reply_lem :
      (error : NetworkError) (body : Bytes) (n m : Net)
      → IsNamed error
      → Arrives ((to_bytes 4 (code_of error), true) ∷ (body, false) ∷ []) n m
      → receive_reply z n ≡ (some (error, body), m)
  unfolding receive_reply first_frame second_frame
  receive_reply_lem error body n m h (k, e, (l, f, g)) =
      let size : (length (to_bytes 4 (code_of error)) == 4) ≡ true =
        ==_of_eq _ 4 (length-to_bytes 4 (code_of error)) in
      rw (e, first_frame) (rw (size, f, second_frame) (rw (decoded_error error h, g)))

  -- send(msg) gives what the server sent: the body, and whether its error code is None.
  pub send_for_reply_lem :
      (msg : Bytes) (error : NetworkError) (body : Bytes) (h : Handler Net) (n m : Net)
      → IsNamed error
      → send msg h.net ≡ (accepted, n)
      → Arrives ((to_bytes 4 (code_of error), true) ∷ (body, false) ∷ []) n m
      → send_for_reply z msg h ≡ (some (is_none error), body, record h { net = m })
  unfolding send_for_reply send_and_receive exchange_sent conclude
  send_for_reply_lem msg error body h n m named sent a =
      rw (sent, exchange_sent) (rw (receive_reply_lem error body n m named a, conclude))

  -- A request whose reply does not come.
  pub send_into_lost :
      (msg old : Bytes) (h : Handler Net) (n m : Net)
      → send msg h.net ≡ (accepted, n)
      → receive_reply z n ≡ (none, m)
      → send_into z msg old h ≡ (some false, old, reconnect z (record h { net = m }))
  unfolding send_into send_and_receive exchange_sent conclude is_none
  send_into_lost msg old h n m sent lost = rw (sent, exchange_sent) (rw (lost, conclude))

  -- What came in where a reply was received.
  pub record ReplyIn (n : Net) (error : NetworkError) (body : Bytes) : Type 0 where
    pub between : Net
    pub after : Net
    pub head : Bytes
    pub more : Bool
    pub first : recv n ≡ (frame head true, between)
    pub whole : length head ≡ 4
    pub coded : error ≡ error_of (of_bytes head)
    pub second : recv between ≡ (frame body more, after)

  second_frame-eq-some :
      (error : NetworkError) (r : Received × Net) {got : NetworkError} {body : Bytes} {m : Net}
      → second_frame z error r ≡ (some (got, body), m)
      → (more : Bool) × (r ≡ (frame body more, m)) × (got ≡ error)
  unfolding second_frame
  second_frame-eq-some error (frame b more, n) e = (more, cc, cc)
  second_frame-eq-some error (nothing, n) e = absurd cc
  second_frame-eq-some error (failed, n) e = absurd cc

  first_frame-eq-some :
      (n : Net) (r : Received × Net) {error : NetworkError} {body : Bytes} {m : Net}
      → recv n ≡ r
      → first_frame z r ≡ (some (error, body), m)
      → ReplyIn n error body
  unfolding first_frame
  first_frame-eq-some n (frame b more, k) {error} {body} {m} came e =
      elim (Bool-cases (length b == 4)) [
        | inl size ↦ elim (Bool-cases more) [
          | inl on ↦
              let second =
                second_frame-eq-some (error_of (of_bytes b)) (recv k) {got = error} {body = body}
                  {m = m} (ground arith) in
              record {
                between = k;
                after = m;
                head = b;
                more = second.0;
                first = came ∙ ap (λ x. (frame b x, k)) on;
                whole = ground arith;
                coded = second.2;
                second = second.1;
              }
          | inr off ↦ absurd (ground arith)
        ]
        | inr size ↦ absurd (ground arith)
      ]
  first_frame-eq-some n (nothing, k) came e = absurd cc
  first_frame-eq-some n (failed, k) came e = absurd cc

  valid_reply :
      (take : NetworkError → Bytes → NetworkError × Bytes) (old : Bytes) (h : Handler Net) (n : Net)
      (r : Option (NetworkError × Bytes) × Net)
      → receive_reply z n ≡ r
      → is_none (conclude z take old h r).0 ≡ true
      → (error : NetworkError) × (body : Bytes) × (is_none (take error body).0 ≡ true)
        × ((conclude z take old h r).1 ≡ (take error body).1)
        × ReplyIn n error body
  unfolding conclude receive_reply is_none
  valid_reply take old h n (some (error, body), m) e v =
      (error, body, v, refl, first_frame-eq-some n (recv n) refl e)
  valid_reply take old h n (none, m) e v = absurd cc

  is_none-eq : (error : NetworkError) → is_none error ≡ true → error ≡ no_error
  unfolding is_none
  is_none-eq no_error v = refl
  is_none-eq invalid_request_size v = absurd cc
  is_none-eq handler_error v = absurd cc
  is_none-eq invalid_response_size v = absurd cc
  is_none-eq send_failed v = absurd cc
  is_none-eq receive_failed v = absurd cc
  is_none-eq (other n) v = absurd cc

  fixed_size-valid :
      (size : ℕ) (old : Bytes) (error : NetworkError) (body : Bytes)
      → is_none (fixed_size size old error body).0 ≡ true
      → (error ≡ no_error) × (length body ≡ size) × ((fixed_size size old error body).1 ≡ body)
  unfolding fixed_size is_none
  fixed_size-valid size old error body v = elim (Bool-cases (length body == size)) [
    | inl fits ↦
        let w : is_none error ≡ true = rw (fits, fixed_size) at v in
        (is_none-eq error w, ground arith, rw (fits, fixed_size))
    | inr not_fits ↦
        absurd (let w : is_none invalid_response_size ≡ true = rw (not_fits, fixed_size) at v in cc)
  ]

  valid_sent :
      (take : NetworkError → Bytes → NetworkError × Bytes) (old : Bytes) (h : Handler Net)
      (r : Sent × Net)
      → validity (exchange_sent z take old h r).0 ≡ some true
      → (n : Net) × (r ≡ (accepted, n))
        × (is_none (conclude z take old h (receive_reply z n)).0 ≡ true)
  unfolding exchange_sent is_none
  valid_sent take old h (accepted, n) v = (n, refl, cc)
  valid_sent take old h (again, n) v = absurd cc
  valid_sent take old h (wrong_state, n) v = absurd cc
  valid_sent take old h (broken, n) v = absurd cc

  -- A fixed-size send reports a valid reply only if the request was sent, the two frames of a reply
  -- then came in, the first of them four bytes that stand for no error, and the second, which is
  -- what the caller gets, of exactly the size of the reply type.
  pub send_fixed_valid :
      (msg : Bytes) (size : ℕ) (initial : Bytes) (h : Handler Net)
      → (send_fixed z msg size initial h).0 ≡ some true
      → (n : Net) × (send msg h.net ≡ (accepted, n))
        × (length (send_fixed z msg size initial h).1 ≡ size)
        × ReplyIn n no_error (send_fixed z msg size initial h).1
  unfolding send_fixed send_and_receive_fixed exchange_sent
  send_fixed_valid msg size initial h v =
      let take = fixed_size size initial in
      let sent = valid_sent take initial h (send msg h.net) v in
      let got = valid_reply take initial h sent.0 (receive_reply z sent.0) refl sent.2 in
      let fits = fixed_size-valid size initial got.0 got.1 got.2 in
      let reply : (send_fixed z msg size initial h).1 ≡ got.1 =
        ap (λ r. (exchange_sent z take initial h r).1) sent.1 ∙ got.3 ∙ fits.2 in
      (
        sent.0,
        sent.1,
        ap length reply ∙ fits.1,
        subst (λ b. ReplyIn sent.0 no_error b) (sym reply)
            (subst (λ e. ReplyIn sent.0 e got.1) fits.0 got.4),
      )
