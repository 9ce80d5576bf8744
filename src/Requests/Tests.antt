-- ===== src/Requests/Tests.antt =====
-- A network with one server, which answers a request of bytes with the same bytes unless the reply
-- is lost, and a handler's requests on it.
use gef_engine.Prelude.{ℕ, ◌≡◌, ◌≢◌, refl, true, false, Option, none, some, [], ◌∷◌, length, arith}
use gef_engine.Codec.{Bytes, of_bytes}
use gef_engine.Requests.{
  ReqSocket, Sent, Received, accepted, wrong_state, frame, nothing, failed, no_error, error_of,
  Handler, send_fixed, request_handler, send_into, set_reply_timeout, send_string,
}
use gef_engine.Requests.Socket.{
  Phase, ready, waiting, reading, ReqLaws, phase_sent, phase_received, is_last,
}
use gef_engine.Requests.Sends.{created, sends_into, sets_timeout, sends_string, Reach-sends}
use gef_engine.Requests.Replies.{ReplyIn, send_fixed_valid}

-- Whether the reply of the next request is lost is decided by the request: the server drops an
-- empty one.
pub record Echo : Type 0 where
  pub at : Phase
  pub body : Bytes
  pub timeout : ℕ
  pub peer : Option Bytes

abbrev new_socket : Echo
new_socket = record { at = ready; body = []; timeout = 0; peer = none }

abbrev echo_send : Phase → Bytes → Echo → Sent × Echo
echo_send ready b n = (accepted, record n { at = waiting; body = b })
echo_send waiting b n = (wrong_state, n)
echo_send reading b n = (wrong_state, n)

abbrev echo_head : Bytes → Echo → Received × Echo
echo_head [] n = (nothing, n)
echo_head (b ∷ bs) n = (frame (0 ∷ 0 ∷ 0 ∷ 0 ∷ []) true, record n { at = reading })

abbrev echo_recv : Phase → Echo → Received × Echo
echo_recv ready n = (failed, n)
echo_recv waiting n = echo_head n.body n
echo_recv reading n = (frame n.body false, record n { at = ready })

abbrev pub echo : ReqSocket
echo = record {
  Net = Echo;
  no_linger = λ n. (true, n);
  close = λ n. (true, n);
  make = λ n. (true, new_socket);
  set_rcvtimeo = λ t n. (true, record n { timeout = t });
  connect = λ e n. (true, record n { peer = some e });
  send = λ b n. echo_send n.at b n;
  recv = λ n. echo_recv n.at n;
}

-- It is a REQ socket.
echo_send_allowed : (b : Bytes) (n : Echo) → n.at ≡ ready → (echo_send n.at b n).0 ≢ wrong_state
echo_send_allowed b n h = ground arith

echo_send_phase :
    (b : Bytes) (n : Echo)
    → n.at ≡ ready
    → (echo_send n.at b n).1.at ≡ phase_sent (echo_send n.at b n).0 n.at
echo_send_phase b n h = ground arith

echo_send_timeout : (b : Bytes) (n : Echo) → (echo_send n.at b n).1.timeout ≡ n.timeout
echo_send_timeout b n = ground arith

echo_send_peer : (b : Bytes) (n : Echo) → (echo_send n.at b n).1.peer ≡ n.peer
echo_send_peer b n = ground arith

echo_recv_phase :
    (n : Echo) → n.at ≢ ready → (echo_recv n.at n).1.at ≡ phase_received (echo_recv n.at n).0 n.at
echo_recv_phase n h = ground arith

echo_recv_refused : (n : Echo) → n.at ≡ ready → (echo_recv n.at n).0 ≡ failed
echo_recv_refused n h = ground arith

echo_recv_timeout : (n : Echo) → (echo_recv n.at n).1.timeout ≡ n.timeout
echo_recv_timeout n = ground arith

echo_recv_peer : (n : Echo) → (echo_recv n.at n).1.peer ≡ n.peer
echo_recv_peer n = ground arith

echo_two_frames : (n : Echo) → n.at ≡ reading → is_last (echo_recv n.at n).0 ≡ true
echo_two_frames n h = ground arith

-- There is no endpoint that it refuses.
echo_refuses : (e : Bytes) (n : Echo) → true ≡ false → true ≡ false
echo_refuses e n h = h

abbrev echo_laws : ReqLaws echo
echo_laws = record {
  phase = λ n. n.at;
  timeout_of = λ n. n.timeout;
  peer_of = λ n. n.peer;
  make_ready = λ n. refl;
  set_phase = λ t n. refl;
  takes = λ e. true;
  set_timeout = λ t n h. refl;
  set_peer = λ t n. refl;
  connect_phase = λ e n. refl;
  connect_timeout = λ e n. refl;
  connect_peer = λ e n h. refl;
  send_allowed = echo_send_allowed;
  send_phase = echo_send_phase;
  send_timeout = echo_send_timeout;
  send_peer = echo_send_peer;
  recv_phase = echo_recv_phase;
  recv_refused = echo_recv_refused;
  recv_timeout = echo_recv_timeout;
  recv_peer = echo_recv_peer;
  no_linger_returns = λ n. refl;
  close_returns = λ n. refl;
  make_returns = λ n. refl;
  set_returns = λ t n h. refl;
  connect_returns = λ e n h. refl;
  connect_refuses = echo_refuses;
}

abbrev a_handler : Handler Echo
a_handler = record {
  net = record { at = ready; body = []; timeout = 1000; peer = some (9 ∷ []) };
  endpoint = 9 ∷ [];
  timeout = 1000;
}

made_handler : request_handler echo (9 ∷ []) new_socket ≡ some a_handler
unfolding request_handler
made_handler = refl

-- A reply is lost, the timeout is changed, and a text is sent.
Reach-sends_example :
    let after = (set_reply_timeout echo 50 (send_into echo [] (7 ∷ []) a_handler).2).1 in
    let last = (send_string echo (1 ∷ 2 ∷ []) after).1 in
    ((echo.send (5 ∷ []) last.net).0 ≢ wrong_state)
    × (last.net.peer ≡ some last.endpoint)
    × (last.net.timeout ≡ last.timeout)
Reach-sends_example = Reach-sends echo echo_laws echo_two_frames (5 ∷ []) (
    sends_string (1 ∷ 2 ∷ []) (
      sets_timeout 50 refl
        (sends_into [] (7 ∷ []) (created (9 ∷ []) new_socket a_handler made_handler))))

lost_reply : (send_into echo [] (7 ∷ []) a_handler).0 ≡ some false
unfolding send_into
lost_reply = refl

valid_echo : (send_fixed echo (3 ∷ 4 ∷ []) 2 (0 ∷ 0 ∷ []) a_handler).0 ≡ some true
unfolding send_fixed error_of of_bytes
valid_echo = refl

send_fixed_valid_example :
    let done = send_fixed echo (3 ∷ 4 ∷ []) 2 (0 ∷ 0 ∷ []) a_handler in
    (n : Echo) × (echo.send (3 ∷ 4 ∷ []) a_handler.net ≡ (accepted, n))
    × (length done.1 ≡ 2)
    × ReplyIn echo n no_error done.1
send_fixed_valid_example = send_fixed_valid echo (3 ∷ 4 ∷ []) 2 (0 ∷ 0 ∷ []) a_handler valid_echo
