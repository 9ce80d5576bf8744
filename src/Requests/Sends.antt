-- ===== src/Requests/Sends.antt =====
-- Every call of a requestHandler leaves its socket ready for the next request.
use gef_engine.Prelude.{ℕ, ◌≡◌, ◌≢◌, true, Option, none, some, [], arith}
use gef_engine.Codec.{Bytes}
use gef_engine.Requests.{
  ReqSocket, Sent, accepted, again, wrong_state, broken, NetworkError, Handler, receive_reply,
  request_handler, set_reply_timeout, conclude, exchange_sent, send_and_receive, fixed_size,
  send_and_receive_fixed, send_into, send_for_reply, send_fixed, text_of, text_sent, send_string,
  any_size,
}
use gef_engine.Requests.Socket.{ready, waiting, ReqLaws, TwoFrames, is_timeout}
use gef_engine.Requests.Usable.{
  IsUsable, Fit, Answered, reconnect-IsUsable, request_handler-IsUsable, set_reply_timeout-IsUsable,
  receive_reply-Answered, refused-Answered,
}

module _ (z : ReqSocket) (L : ReqLaws z) (pair : TwoFrames z L) where
  open z use {Net, send, recv}
  open L use {phase, timeout_of, peer_of, takes}

  conclude-IsUsable :
      (take : NetworkError → Bytes → NetworkError × Bytes) (old : Bytes) (h : Handler Net)
      (r : Option (NetworkError × Bytes) × Net)
      → is_timeout h.timeout ≡ true
      → takes h.endpoint ≡ true
      → Answered z L h.timeout h.endpoint r
      → IsUsable z L (conclude z take old h r).2
  unfolding conclude
  conclude-IsUsable take old h (some (error, reply), n) ok valid a = record {
    at_ready = a.0;
    has_timeout = a.1;
    has_peer = a.2;
    good_timeout = ok;
    good_endpoint = valid;
  }
  conclude-IsUsable take old h (none, n) ok valid a =
      reconnect-IsUsable z L (record h { net = n }) ok valid

  -- What a send of the socket leaves, if it does not throw.
  abbrev Stands : ℕ → Bytes → Sent × Net → Type 0
  Stands t e (accepted, n) = Fit z L waiting t e n
  Stands t e (again, n) = Fit z L ready t e n
  Stands t e (wrong_state, n) = ⊥
  Stands t e (broken, n) = Fit z L ready t e n

  send-Stands :
      (b : Bytes) (h : Handler Net) → IsUsable z L h → Stands h.timeout h.endpoint (send b h.net)
  send-Stands b h u = ground (
    arith,
    L.send_allowed b h.net u.at_ready,
    L.send_phase b h.net u.at_ready,
    L.send_timeout b h.net,
    L.send_peer b h.net,
  )

  exchange_sent-IsUsable :
      (take : NetworkError → Bytes → NetworkError × Bytes) (old : Bytes) (h : Handler Net)
      (r : Sent × Net)
      → is_timeout h.timeout ≡ true
      → takes h.endpoint ≡ true
      → Stands h.timeout h.endpoint r
      → IsUsable z L (exchange_sent z take old h r).2
  unfolding exchange_sent
  exchange_sent-IsUsable take old h (accepted, n) ok valid s =
      conclude-IsUsable take old h (receive_reply z n) ok valid
        (receive_reply-Answered z L pair h.timeout h.endpoint n s)
  exchange_sent-IsUsable take old h (again, n) ok valid s = record {
    at_ready = s.0;
    has_timeout = s.1;
    has_peer = s.2;
    good_timeout = ok;
    good_endpoint = valid;
  }
  exchange_sent-IsUsable take old h (wrong_state, n) ok valid s = absurd s
  exchange_sent-IsUsable take old h (broken, n) ok valid s = record {
    at_ready = s.0;
    has_timeout = s.1;
    has_peer = s.2;
    good_timeout = ok;
    good_endpoint = valid;
  }

  send_into-IsUsable :
      (msg response : Bytes) (h : Handler Net)
      → IsUsable z L h
      → IsUsable z L (send_into z msg response h).2
  unfolding send_into send_and_receive
  send_into-IsUsable msg response h u =
      exchange_sent-IsUsable any_size response h (send msg h.net) u.good_timeout u.good_endpoint
        (send-Stands msg h u)

  send_for_reply-IsUsable :
      (msg : Bytes) (h : Handler Net) → IsUsable z L h → IsUsable z L (send_for_reply z msg h).2
  unfolding send_for_reply send_and_receive
  send_for_reply-IsUsable msg h u =
      exchange_sent-IsUsable any_size [] h (send msg h.net) u.good_timeout u.good_endpoint
        (send-Stands msg h u)

  send_fixed-IsUsable :
      (msg : Bytes) (size : ℕ) (initial : Bytes) (h : Handler Net)
      → IsUsable z L h
      → IsUsable z L (send_fixed z msg size initial h).2
  unfolding send_fixed send_and_receive_fixed
  send_fixed-IsUsable msg size initial h u =
      exchange_sent-IsUsable (fixed_size size initial) initial h (send msg h.net) u.good_timeout
        u.good_endpoint (send-Stands msg h u)

  text_of-IsUsable :
      (h : Handler Net) (r : Option (NetworkError × Bytes) × Net)
      → is_timeout h.timeout ≡ true
      → takes h.endpoint ≡ true
      → Answered z L h.timeout h.endpoint r
      → IsUsable z L (text_of z h r).1
  unfolding text_of
  text_of-IsUsable h (some (error, reply), n) ok valid a = record {
    at_ready = a.0;
    has_timeout = a.1;
    has_peer = a.2;
    good_timeout = ok;
    good_endpoint = valid;
  }
  text_of-IsUsable h (none, n) ok valid a = reconnect-IsUsable z L (record h { net = n }) ok valid

  text_sent-IsUsable :
      (h : Handler Net) (r : Sent × Net)
      → is_timeout h.timeout ≡ true
      → takes h.endpoint ≡ true
      → Stands h.timeout h.endpoint r
      → IsUsable z L (text_sent z h r).1
  unfolding text_sent
  text_sent-IsUsable h (accepted, n) ok valid s =
      text_of-IsUsable h (receive_reply z n) ok valid
        (receive_reply-Answered z L pair h.timeout h.endpoint n s)
  text_sent-IsUsable h (again, n) ok valid s =
      text_of-IsUsable h (receive_reply z n) ok valid
        (refused-Answered z L h.timeout h.endpoint n s.0)
  text_sent-IsUsable h (wrong_state, n) ok valid s = absurd s
  text_sent-IsUsable h (broken, n) ok valid s = record {
    at_ready = s.0;
    has_timeout = s.1;
    has_peer = s.2;
    good_timeout = ok;
    good_endpoint = valid;
  }

  send_string-IsUsable :
      (msg : Bytes) (h : Handler Net) → IsUsable z L h → IsUsable z L (send_string z msg h).1
  unfolding send_string
  send_string-IsUsable msg h u =
      text_sent-IsUsable h (send msg h.net) u.good_timeout u.good_endpoint (send-Stands msg h u)

  -- What the threads that share a handler do, one call after another.
  pub data Reach : Handler Net → Type 0 where
    created : (e : Bytes) (n : Net) (h : Handler Net) → request_handler z e n ≡ some h → Reach h
    sends_into :
        (msg response : Bytes) {h : Handler Net} → Reach h → Reach (send_into z msg response h).2
    sends_for_reply : (msg : Bytes) {h : Handler Net} → Reach h → Reach (send_for_reply z msg h).2
    sends_fixed :
        (msg : Bytes) (size : ℕ) (initial : Bytes) {h : Handler Net}
        → Reach h
        → Reach (send_fixed z msg size initial h).2
    sends_string : (msg : Bytes) {h : Handler Net} → Reach h → Reach (send_string z msg h).1
    sets_timeout :
        (t : ℕ) {h : Handler Net}
        → is_timeout t ≡ true
        → Reach h
        → Reach (set_reply_timeout z t h).1

  pub Reach-IsUsable : {h : Handler Net} → Reach h → IsUsable z L h
  Reach-IsUsable (created e n h made) = request_handler-IsUsable z L e n h made
  Reach-IsUsable (sends_into msg response r) = send_into-IsUsable msg response _ (Reach-IsUsable r)
  Reach-IsUsable (sends_for_reply msg r) = send_for_reply-IsUsable msg _ (Reach-IsUsable r)
  Reach-IsUsable (sends_fixed msg size initial r) =
      send_fixed-IsUsable msg size initial _ (Reach-IsUsable r)
  Reach-IsUsable (sends_string msg r) = send_string-IsUsable msg _ (Reach-IsUsable r)
  Reach-IsUsable (sets_timeout t ok r) = set_reply_timeout-IsUsable z L t _ ok (Reach-IsUsable r)

  -- After any calls of a handler, among them sends that timed out, were interrupted or got a reply
  -- without its second frame or with an error code of the wrong size, and changes to timeouts that
  -- ZeroMQ takes (-1 or more), its socket waits for the next request: a request is not refused for the state
  -- of the socket, the socket is connected to the handler's endpoint, and a wait for the reply is
  -- bounded by the timeout that was set last, also on a socket that was replaced. The network is
  -- one on which sockets can be made and closed, on which an endpoint that was taken once is taken
  -- again, and whose replies have no third frame.
  pub Reach-sends :
      {h : Handler Net} (msg : Bytes)
      → Reach h
      → ((send msg h.net).0 ≢ wrong_state)
        × (peer_of h.net ≡ some h.endpoint)
        × (timeout_of h.net ≡ h.timeout)
  Reach-sends {h} msg r =
      let u = Reach-IsUsable r in (L.send_allowed msg h.net u.at_ready, u.has_peer, u.has_timeout)
