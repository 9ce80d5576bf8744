-- ===== src/Requests.antt =====
-- src/networking/requestHandler.cpp with include/engine/networking/requestHandler.hpp and
-- networkShared.hpp: the client's half of a request and its reply. The socket belongs to ZeroMQ and
-- is a parameter: a `Net` is the network with the handler's one socket in it, and each call of the
-- socket is a function on it. Each method holds the mutex for its whole body.
pub mod Socket
pub mod Usable
pub mod Sends
pub mod Replies
pub mod Tests
use gef_engine.Prelude.{
  ℕ, Bool, true, false, not, ◌||◌, List, [], length, Option, none, some, ◌==◌, if◌then◌else◌,
}
use gef_engine.Codec.{Bytes, of_bytes}

pub data NetworkError : Type 0 where
  no_error invalid_request_size handler_error : NetworkError
  invalid_response_size send_failed receive_failed : NetworkError
  other : ℕ → NetworkError

-- The value of an enumerator, and the value that `memcpy` puts into a NetworkError.
unfoldable pub code_of : NetworkError → ℕ
code_of no_error = 0
code_of invalid_request_size = 1
code_of handler_error = 2
code_of invalid_response_size = 3
code_of send_failed = 4
code_of receive_failed = 5
code_of (other n) = n

unfoldable pub error_of : ℕ → NetworkError
error_of n =
    if n == 0
    then no_error
    else if n == 1
    then invalid_request_size
    else if n == 2
    then handler_error
    else if n == 3
    then invalid_response_size
    else if n == 4
    then send_failed
    else if n == 5
    then receive_failed
    else other n

-- `error == NetworkError::None`
unfoldable pub is_none : NetworkError → Bool
is_none no_error = true
is_none _ = false

-- What `send` gives: the optional holds a size, it is empty, or the call throws: EFSM, where the
-- socket is not in the state to send, or any other error.
pub data Sent : Type 0 where
  accepted again wrong_state broken : Sent

-- What `recv` gives: a frame and its `more()`, an empty optional, or a zmq::error_t.
pub data Received : Type 0 where
  frame : Bytes → Bool → Received
  nothing failed : Received

-- The calls that give nothing back say whether they returned, or threw.
pub record ReqSocket : Type 1 where
  pub Net : Type 0
  pub no_linger : Net → Bool × Net
  pub close : Net → Bool × Net
  pub make : Net → Bool × Net
  pub set_rcvtimeo : ℕ → Net → Bool × Net
  pub connect : Bytes → Net → Bool × Net
  pub send : Bytes → Net → Sent × Net
  pub recv : Net → Received × Net

-- A requestHandler: `net` stands for `connection_`, the timeout is the bit pattern of an int.
pub record Handler (Net : Type 0) : Type 0 where
  pub net : Net
  pub endpoint : Bytes
  pub timeout : ℕ

abbrev pub default_reply_timeout : ℕ
default_reply_timeout = 1000

-- One call after another in a try block: the second is made only if the first returns.
infixl 5 ◌⨟◌
unfoldable pub ◌⨟◌ : {N : Type 0} → (N → Bool × N) → (N → Bool × N) → N → Bool × N
◌⨟◌ f g n = if (f n).0 then g (f n).1 else (false, (f n).1)

-- What sendAndReceive takes into a `Bytes`: any reply.
abbrev pub any_size : NetworkError → Bytes → NetworkError × Bytes
any_size error reply = (error, reply)

-- What it takes into `size` bytes that hold `old`: a reply of that size only.
unfoldable pub fixed_size : ℕ → Bytes → NetworkError → Bytes → NetworkError × Bytes
fixed_size size old error reply =
    if not (length reply == size) then (invalid_response_size, old) else (error, reply)

abbrev pub validity : Option NetworkError → Option Bool
validity none = none
validity (some error) = some (is_none error)

module _ (z : ReqSocket) where
  open z use {Net, no_linger, close, make, set_rcvtimeo, connect, send, recv}

  -- The second frame of receiveReply.
  unfoldable pub second_frame : NetworkError → Received × Net → Option (NetworkError × Bytes) × Net
  second_frame error (frame reply more, n) = (some (error, reply), n)
  second_frame error (_, n) = (none, n)

  unfoldable pub first_frame : Received × Net → Option (NetworkError × Bytes) × Net
  unfolding second_frame
  first_frame (frame b more, n) =
      if not (length b == 4) || not more
      then (none, n)
      else second_frame (error_of (of_bytes b)) (recv n)
  first_frame (nothing, n) = (none, n)
  first_frame (failed, n) = (none, n)

  -- receiveReply: `none` for false.
  unfoldable pub receive_reply : Net → Option (NetworkError × Bytes) × Net
  unfolding first_frame
  receive_reply n = first_frame (recv n)

  -- The constructor: `none` where it throws.
  unfoldable pub request_handler : Bytes → Net → Option (Handler Net)
  unfolding ◌⨟◌
  request_handler endpoint n =
      let opened = (make ⨟ set_rcvtimeo default_reply_timeout ⨟ connect endpoint) n in
      if opened.0
      then some (record { net = opened.1; endpoint = endpoint; timeout = default_reply_timeout })
      else none

  -- The option is set after the field; what the call throws is thrown on.
  unfoldable pub set_reply_timeout : ℕ → Handler Net → Bool × Handler Net
  set_reply_timeout t h =
      let done = set_rcvtimeo t h.net in (done.0, record h { timeout = t; net = done.1 })

  -- An exception ends the try block and is logged.
  unfoldable pub reconnect : Handler Net → Handler Net
  unfolding ◌⨟◌
  reconnect h = record h {
    net = ((no_linger ⨟ close ⨟ make ⨟ set_rcvtimeo h.timeout ⨟ connect h.endpoint) h.net).1;
  }

  -- The rest of both sendAndReceive, once the request is sent. `take` gives the error code and what
  -- the caller's reply holds, `old` if the reply does not fit.
  unfoldable pub conclude :
      (NetworkError → Bytes → NetworkError × Bytes)
      → Bytes
      → Handler Net
      → Option (NetworkError × Bytes) × Net
      → NetworkError × Bytes × Handler Net
  unfolding reconnect
  conclude take old h (some (error, reply), n) =
      ((take error reply).0, (take error reply).1, record h { net = n })
  conclude take old h (none, n) = (receive_failed, old, reconnect (record h { net = n }))

  -- `none` where the socket's send throws, for nothing catches it.
  unfoldable pub exchange_sent :
      (NetworkError → Bytes → NetworkError × Bytes)
      → Bytes
      → Handler Net
      → Sent × Net
      → Option NetworkError × Bytes × Handler Net
  unfolding conclude receive_reply
  exchange_sent take old h (accepted, n) =
      let done = conclude take old h (receive_reply n) in (some done.0, done.1, done.2)
  exchange_sent take old h (again, n) = (some send_failed, old, record h { net = n })
  exchange_sent take old h (wrong_state, n) = (none, old, record h { net = n })
  exchange_sent take old h (broken, n) = (none, old, record h { net = n })

  unfoldable pub send_and_receive :
      Bytes → Bytes → Handler Net → Option NetworkError × Bytes × Handler Net
  unfolding exchange_sent
  send_and_receive request old h = exchange_sent any_size old h (send request h.net)

  unfoldable pub send_and_receive_fixed :
      Bytes → ℕ → Bytes → Handler Net → Option NetworkError × Bytes × Handler Net
  unfolding exchange_sent fixed_size
  send_and_receive_fixed request size old h =
      exchange_sent (fixed_size size old) old h (send request h.net)

  -- `send(msg, response)`: whether the reply is valid, and the response.
  unfoldable pub send_into : Bytes → Bytes → Handler Net → Option Bool × Bytes × Handler Net
  unfolding send_and_receive is_none
  send_into msg response h =
      let done = send_and_receive msg response h in (validity done.0, done.1, done.2)

  -- `send(msg)`, which starts from an empty reply.
  unfoldable pub send_for_reply : Bytes → Handler Net → Option Bool × Bytes × Handler Net
  unfolding send_and_receive is_none
  send_for_reply msg h = let done = send_and_receive msg [] h in (validity done.0, done.1, done.2)

  -- `send<T, U>(msg)` for a message whose bytes are `msg` and a reply type of `size` bytes, whose
  -- value `T{}` has the bytes `initial`.
  unfoldable pub send_fixed : Bytes → ℕ → Bytes → Handler Net → Option Bool × Bytes × Handler Net
  unfolding send_and_receive_fixed is_none
  send_fixed msg size initial h =
      let done = send_and_receive_fixed msg size initial h in (validity done.0, done.1, done.2)

  unfoldable pub text_of : Handler Net → Option (NetworkError × Bytes) × Net → Bytes × Handler Net
  unfolding reconnect
  text_of h (some (error, reply), n) = (reply, record h { net = n })
  text_of h (none, n) = ([], reconnect (record h { net = n }))

  unfoldable pub text_sent : Handler Net → Sent × Net → Option Bytes × Handler Net
  unfolding receive_reply text_of
  text_sent h (wrong_state, n) = (none, record h { net = n })
  text_sent h (broken, n) = (none, record h { net = n })
  text_sent h (sent, n) = let done = text_of h (receive_reply n) in (some done.0, done.1)

  -- `send(req_string)`: an empty text if no reply comes. It looks at no error code, and not at
  -- whether the request was sent.
  unfoldable pub send_string : Bytes → Handler Net → Option Bytes × Handler Net
  unfolding text_sent
  send_string request h = text_sent h (send request h.net)
