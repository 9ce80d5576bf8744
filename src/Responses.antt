-- ===== src/Responses.antt =====
-- src/networking/responseHandler.cpp with include/engine/networking/responseHandler.hpp: the
-- server's half of a request and its reply. What the socket, which belongs to ZeroMQ, and the other
-- threads do in a round of the loop is a `Round`; frames that go out are values.
pub mod Loop
pub mod Served
pub mod Tests
use gef_engine.Prelude.{
  ℕ, Bool, true, false, not, ◌||◌, List, [], ◌∷◌, ◌++◌, length, Option, none, some, ◌==◌,
  if◌then◌else◌,
}
use gef_engine.Codec.{Bytes, to_bytes}
use gef_engine.Requests.{NetworkError, no_error, invalid_request_size, handler_error, code_of}

pub data ReceivedStatus : Type 0 where
  success no_message invalid_size closed : ReceivedStatus

-- What the socket's recv gives: a request, an empty optional, a zmq::error_t of EINTR, another one.
pub data Heard : Type 0 where
  request : Bytes → Heard
  quiet interrupted shut_down : Heard

-- A frame, and whether another of the same message follows.
abbrev pub Frame : Type 0
Frame = Bytes × Bool

-- A round of the loop: whether another thread calls stop before the loop tests its flag, what is
-- received, and whether each of the two sends returns.
pub record Round : Type 0 where
  pub stopped : Bool
  pub heard : Heard
  pub head_sent : Bool
  pub body_sent : Bool

-- receiveRaw into a `Bytes`, and what it then holds.
unfoldable pub receive_raw : Heard → Bytes → ReceivedStatus × Bytes
receive_raw (request b) old = (success, b)
receive_raw quiet old = (no_message, old)
receive_raw interrupted old = (no_message, old)
receive_raw shut_down old = (closed, old)

unfoldable pub sized : ℕ → Bytes → ReceivedStatus × Bytes → ReceivedStatus × Bytes
sized size old (success, b) = if not (length b == size) then (invalid_size, old) else (success, b)
sized size old (status, b) = (status, old)

-- receiveRaw into `size` bytes that hold `old`.
unfoldable pub receive_raw_sized : ℕ → Heard → Bytes → ReceivedStatus × Bytes
unfolding receive_raw sized
receive_raw_sized size heard old = sized size old (receive_raw heard [])

-- sendRaw: the frames that go out. A call that throws ends the try block.
unfoldable pub send_raw : Bytes → NetworkError → Round → List Frame
send_raw body error r =
    if not r.head_sent
    then []
    else if not r.body_sent
    then (to_bytes 4 (code_of error), true) ∷ []
    else (to_bytes 4 (code_of error), true) ∷ (body, false) ∷ []

-- What a round does behind the receive: `continue`, `break`, or a reply.
pub data Turn : Type 0 where
  carry_on leave : Turn
  reply : Bytes → NetworkError → Turn

-- The bytes of "Hello Client: you sent ".
abbrev pub greeting : Bytes
greeting =
    72 ∷ 101 ∷ 108 ∷ 108 ∷ 111 ∷ 32 ∷ 67 ∷ 108 ∷ 105 ∷ 101 ∷ 110 ∷ 116 ∷ 58 ∷ 32 ∷ 121 ∷ 111 ∷ 117
    ∷ 32 ∷ 115 ∷ 101 ∷ 110 ∷ 116 ∷ 32 ∷ []

unfoldable pub greet : ReceivedStatus × Bytes → Turn
greet (no_message, b) = carry_on
greet (closed, b) = leave
greet (success, b) = reply (greeting ++ b) no_error
greet (invalid_size, b) = reply (greeting ++ b) no_error

-- The result of a handler, `none` where it throws, over a reply that was `initial`.
unfoldable pub handled : Bytes → Option Bytes → Turn
handled initial (some body) = reply body no_error
handled initial none = reply initial handler_error

-- The round of run(func), on texts.
unfoldable pub text_turn : (Bytes → Option Bytes) → ReceivedStatus × Bytes → Turn
unfolding handled
text_turn func (no_message, b) = carry_on
text_turn func (closed, b) = leave
text_turn func (success, b) = handled [] (func b)
text_turn func (invalid_size, b) = handled [] (func b)

-- The round of run<T, U>(func), where `initial` are the bytes of `T{}`.
unfoldable pub typed_turn : Bytes → (Bytes → Option Bytes) → ReceivedStatus × Bytes → Turn
unfolding handled
typed_turn initial func (no_message, b) = carry_on
typed_turn initial func (closed, b) = leave
typed_turn initial func (invalid_size, b) = reply initial invalid_request_size
typed_turn initial func (success, b) = handled initial (func b)

-- The loop: what goes out, and whether it has ended. Where the rounds end and the flag is not set
-- it waits in recv.
unfoldable pub serve : (Heard → Turn) → List Round → Bool → List Frame × Bool
unfolding send_raw
serve turn [] stop = ([], stop)
serve turn (r ∷ rs) stop = elim (stop || r.stopped) [
  | true ↦ ([], true)
  | false ↦ elim (turn r.heard) [
    | carry_on ↦ serve turn rs false
    | leave ↦ ([], true)
    | reply body error ↦ let rest = serve turn rs false in (send_raw body error r ++ rest.0, rest.1)
  ]
]

-- The flags of a responseHandler, which all threads share.
pub record Responder : Type 0 where
  pub running : Bool
  pub stop : Bool

unfoldable pub response_handler : Responder
response_handler = record { running = false; stop = false }

unfoldable pub stop_running : Responder → Responder
stop_running r = record r { stop = true }

-- RunningGuard's destructor, if the loop has ended.
unfoldable pub guarded : Bool → Responder → Responder
guarded true r = record { running = false; stop = false }
guarded false r = record r { running = true }

-- A run: what goes out and the flags afterwards. One that is called while another runs does nothing.
unfoldable pub run : (Heard → Turn) → List Round → Responder → List Frame × Responder
unfolding serve guarded
run turn rounds r =
    if r.running then ([], r) else let done = serve turn rounds r.stop in (done.0, guarded done.1 r)

-- run()
unfoldable pub run_greeting : List Round → Responder → List Frame × Responder
unfolding run greet receive_raw
run_greeting = run λ heard. greet (receive_raw heard [])

-- run(func)
unfoldable pub run_text : (Bytes → Option Bytes) → List Round → Responder → List Frame × Responder
unfolding run text_turn receive_raw
run_text func = run λ heard. text_turn func (receive_raw heard [])

-- run<Bytes, Bytes>(func)
unfoldable pub run_bytes : (Bytes → Option Bytes) → List Round → Responder → List Frame × Responder
unfolding run typed_turn receive_raw
run_bytes func = run λ heard. typed_turn [] func (receive_raw heard [])

-- run<T, U>(func), for trivially copyable types: `initial_reply` and `initial` are the bytes of `T{}`
-- and `U{}`.
unfoldable pub run_sized :
    Bytes → Bytes → (Bytes → Option Bytes) → List Round → Responder → List Frame × Responder
unfolding run typed_turn receive_raw_sized
run_sized initial_reply initial func =
    run λ heard. typed_turn initial_reply func (receive_raw_sized (length initial) heard initial)
