-- ===== src/Requests/Socket.antt =====
-- What the documentation of ZeroMQ says of a REQ socket, as laws on a `ReqSocket`, and that the replies
-- on it have two frames, as Responses sends them.
use gef_engine.Prelude.{ℕ, ◌≡◌, ◌≢◌, Bool, true, false, not, Option, some, ltb, ◌==◌, ◌||◌, ◌^◌}
use gef_engine.Codec.{Bytes}
use gef_engine.Requests.{
  ReqSocket, Sent, Received, accepted, again, wrong_state, broken, frame, nothing, failed,
}

-- A REQ socket sends a request, then receives all frames of the reply, then sends again.
pub data Phase : Type 0 where
  ready waiting reading : Phase

abbrev pub phase_sent : Sent → Phase → Phase
phase_sent accepted p = waiting
phase_sent again p = p
phase_sent wrong_state p = p
phase_sent broken p = p

abbrev pub phase_received : Received → Phase → Phase
phase_received (frame b true) p = reading
phase_received (frame b false) p = ready
phase_received nothing p = p
phase_received failed p = p

-- No frame of the same reply follows.
abbrev pub is_last : Received → Bool
is_last (frame b more) = not more
is_last nothing = true
is_last failed = true

-- ZMQ_RCVTIMEO is -1 or more; the number is the bit pattern of an int.
abbrev pub is_timeout : ℕ → Bool
is_timeout t = ltb t (2 ^ 31) || t == 4_294_967_295

pub record ReqLaws (z : ReqSocket) : Type 0 where
  pub phase : z.Net → Phase
  pub timeout_of : z.Net → ℕ
  pub peer_of : z.Net → Option Bytes
  pub make_ready : (n : z.Net) → phase (z.make n).1 ≡ ready
  pub set_phase : (t : ℕ) (n : z.Net) → phase (z.set_rcvtimeo t n).1 ≡ phase n
  -- The endpoints that zmq_connect takes; others it refuses.
  pub takes : Bytes → Bool
  pub set_timeout :
      (t : ℕ) (n : z.Net) → (z.set_rcvtimeo t n).0 ≡ true → timeout_of (z.set_rcvtimeo t n).1 ≡ t
  pub set_peer : (t : ℕ) (n : z.Net) → peer_of (z.set_rcvtimeo t n).1 ≡ peer_of n
  pub connect_phase : (e : Bytes) (n : z.Net) → phase (z.connect e n).1 ≡ phase n
  pub connect_timeout : (e : Bytes) (n : z.Net) → timeout_of (z.connect e n).1 ≡ timeout_of n
  pub connect_peer :
      (e : Bytes) (n : z.Net) → (z.connect e n).0 ≡ true → peer_of (z.connect e n).1 ≡ some e
  pub send_allowed : (b : Bytes) (n : z.Net) → phase n ≡ ready → (z.send b n).0 ≢ wrong_state
  pub send_phase :
      (b : Bytes) (n : z.Net)
      → phase n ≡ ready
      → phase (z.send b n).1 ≡ phase_sent (z.send b n).0 (phase n)
  pub send_timeout : (b : Bytes) (n : z.Net) → timeout_of (z.send b n).1 ≡ timeout_of n
  pub send_peer : (b : Bytes) (n : z.Net) → peer_of (z.send b n).1 ≡ peer_of n
  pub recv_phase :
      (n : z.Net) → phase n ≢ ready → phase (z.recv n).1 ≡ phase_received (z.recv n).0 (phase n)
  pub recv_refused : (n : z.Net) → phase n ≡ ready → (z.recv n).0 ≡ failed
  pub recv_timeout : (n : z.Net) → timeout_of (z.recv n).1 ≡ timeout_of n
  pub recv_peer : (n : z.Net) → peer_of (z.recv n).1 ≡ peer_of n
  -- While the context lives, sockets are closed and made.
  pub no_linger_returns : (n : z.Net) → (z.no_linger n).0 ≡ true
  pub close_returns : (n : z.Net) → (z.close n).0 ≡ true
  pub make_returns : (n : z.Net) → (z.make n).0 ≡ true
  pub set_returns : (t : ℕ) (n : z.Net) → is_timeout t ≡ true → (z.set_rcvtimeo t n).0 ≡ true
  pub connect_returns : (e : Bytes) (n : z.Net) → takes e ≡ true → (z.connect e n).0 ≡ true
  pub connect_refuses : (e : Bytes) (n : z.Net) → takes e ≡ false → (z.connect e n).0 ≡ false

-- What the server sends: a reply has two frames.
abbrev pub TwoFrames : (z : ReqSocket) → ReqLaws z → Type 0
TwoFrames z L = (n : z.Net) → L.phase n ≡ reading → is_last (z.recv n).0 ≡ true
