-- ===== src/Requests/Usable.antt =====
-- The socket of a requestHandler between calls: each call leaves it ready for the next request.
use gef_engine.Prelude.{
  ℕ, ◌≡◌, ◌≢◌, refl, sym, subst, ◌∙◌, true, false, Option, none, some, length, ◌==◌, arith,
  Bool-cases, inl, inr,
}
use gef_engine.Codec.{Bytes, of_bytes}
use gef_engine.Requests.{
  ReqSocket, Received, frame, nothing, failed, NetworkError, error_of, Handler, ◌⨟◌, second_frame,
  first_frame, receive_reply, request_handler, set_reply_timeout, reconnect, default_reply_timeout,
}
use gef_engine.Requests.Socket.{
  Phase, ready, waiting, reading, ReqLaws, phase_received, is_timeout, TwoFrames,
}

module _ (z : ReqSocket) (L : ReqLaws z) where
  open z use {Net, no_linger, close, make, set_rcvtimeo, connect, send, recv}
  open L use {phase, timeout_of, peer_of, takes}

  -- The socket may send, and has the handler's timeout and endpoint.
  pub record IsUsable (h : Handler Net) : Type 0 where
    pub at_ready : phase h.net ≡ ready
    pub has_timeout : timeout_of h.net ≡ h.timeout
    pub has_peer : peer_of h.net ≡ some h.endpoint
    pub good_timeout : is_timeout h.timeout ≡ true
    pub good_endpoint : takes h.endpoint ≡ true

  -- The same of a socket alone.
  abbrev pub Fit : Phase → ℕ → Bytes → Net → Type 0
  Fit p t e n = (phase n ≡ p) × (timeout_of n ≡ t) × (peer_of n ≡ some e)

  opening-Fit :
      (t : ℕ) (e : Bytes) (n : Net)
      → is_timeout t ≡ true
      → takes e ≡ true
      → Fit ready t e (connect e (set_rcvtimeo t (make n).1).1).1
  opening-Fit t e n ok valid =
      let made = (make n).1 in
      let timed = (set_rcvtimeo t made).1 in
      (
        L.connect_phase e timed ∙ L.set_phase t made ∙ L.make_ready n,
        L.connect_timeout e timed ∙ L.set_timeout t made (L.set_returns t made ok),
        L.connect_peer e timed (L.connect_returns e timed valid),
      )

  -- A new socket after reconnect, whatever became of the old one.
  pub reconnect-IsUsable :
      (h : Handler Net)
      → is_timeout h.timeout ≡ true
      → takes h.endpoint ≡ true
      → IsUsable (reconnect z h)
  unfolding reconnect ◌⨟◌
  reconnect-IsUsable h ok valid =
      let off = (no_linger h.net).1 in
      let shut = (close off).1 in
      let fit = opening-Fit h.timeout h.endpoint shut ok valid in
      ground (
        arith,
        ok,
        valid,
        L.no_linger_returns h.net,
        L.close_returns off,
        L.make_returns shut,
        L.set_returns h.timeout (make shut).1 ok,
        L.connect_returns h.endpoint (set_rcvtimeo h.timeout (make shut).1).1 valid,
        fit,
      )

  pub request_handler-IsUsable :
      (e : Bytes) (n : Net) (h : Handler Net) → request_handler z e n ≡ some h → IsUsable h
  unfolding request_handler ◌⨟◌
  request_handler-IsUsable e n h made =
      let timed = (set_rcvtimeo default_reply_timeout (make n).1).1 in
      elim (Bool-cases (takes e)) [
        | inl valid ↦
            let fit = opening-Fit default_reply_timeout e n refl valid in
            ground (
              arith,
              valid,
              fit,
              made,
              L.make_returns n,
              L.set_returns default_reply_timeout (make n).1 refl,
              L.connect_returns e timed valid,
            )
        | inr invalid ↦ absurd (
            ground (
              arith,
              made,
              L.make_returns n,
              L.set_returns default_reply_timeout (make n).1 refl,
              L.connect_refuses e timed invalid,
            ))
      ]

  pub set_reply_timeout-IsUsable :
      (t : ℕ) (h : Handler Net)
      → is_timeout t ≡ true
      → IsUsable h
      → IsUsable (set_reply_timeout z t h).1
  unfolding set_reply_timeout
  set_reply_timeout-IsUsable t h ok u = record {
    at_ready = L.set_phase t h.net ∙ u.at_ready;
    has_timeout = L.set_timeout t h.net (L.set_returns t h.net ok);
    has_peer = L.set_peer t h.net ∙ u.has_peer;
    good_timeout = ok;
    good_endpoint = u.good_endpoint;
  }

  -- A reply that comes whole leaves the socket ready. What does not come leaves the options.
  abbrev pub Answered : ℕ → Bytes → Option (NetworkError × Bytes) × Net → Type 0
  Answered t e (some reply, n) = Fit ready t e n
  Answered t e (none, n) = Unit {0}

  second_frame-Answered :
      TwoFrames z L
      → (t : ℕ) (e : Bytes) (error : NetworkError) (n : Net) → Fit reading t e n
      → Answered t e (second_frame z error (recv n))
  unfolding second_frame
  second_frame-Answered pair t e error n f =
      let away : phase n ≢ ready = λ p. absurd (let bad : reading ≡ ready = sym f.0 ∙ p in cc) in
      ground (arith, L.recv_phase n away, L.recv_timeout n, L.recv_peer n, pair n f.0)

  first_frame-Answered :
      TwoFrames z L
      → (t : ℕ) (e : Bytes) (r : Received × Net) → (phase r.1 ≡ phase_received r.0 waiting)
      → (timeout_of r.1 ≡ t)
      → (peer_of r.1 ≡ some e)
      → Answered t e (first_frame z r)
  unfolding first_frame
  first_frame-Answered pair t e (frame b false, n) p q r = ground arith
  first_frame-Answered pair t e (frame b true, n) p q r = elim (Bool-cases (length b == 4)) [
    | inl whole ↦
        rw (whole, Answered) (second_frame-Answered pair t e (error_of (of_bytes b)) n (p, q, r))
    | inr wrong ↦ rw (wrong, Answered) tt
  ]
  first_frame-Answered pair t e (nothing, n) p q r = tt
  first_frame-Answered pair t e (failed, n) p q r = tt

  pub receive_reply-Answered :
      TwoFrames z L
      → (t : ℕ) (e : Bytes) (n : Net) → Fit waiting t e n
      → Answered t e (receive_reply z n)
  unfolding receive_reply
  receive_reply-Answered pair t e n f =
      let away : phase n ≢ ready = λ p. absurd (let bad : waiting ≡ ready = sym f.0 ∙ p in cc) in
      first_frame-Answered pair t e (recv n)
        (subst (λ q. phase (recv n).1 ≡ phase_received (recv n).0 q) f.0 (L.recv_phase n away))
        (L.recv_timeout n ∙ f.1) (L.recv_peer n ∙ f.2)

  failed-Answered :
      (t : ℕ) (e : Bytes) (r : Received × Net) → r.0 ≡ failed → Answered t e (first_frame z r)
  unfolding first_frame
  failed-Answered t e (frame b more, n) p = cc
  failed-Answered t e (nothing, n) p = tt
  failed-Answered t e (failed, n) p = tt

  pub refused-Answered :
      (t : ℕ) (e : Bytes) (n : Net) → phase n ≡ ready → Answered t e (receive_reply z n)
  unfolding receive_reply
  refused-Answered t e n p = failed-Answered t e (recv n) (L.recv_refused n p)
