-- ===== src/Responses/Loop.antt =====
-- The loop of a responseHandler: what it answers, and how it ends.
use gef_engine.Prelude.{
  ℕ, ◌≡◌, refl, Bool, true, false, not, Option, none, some, List, [], ◌∷◌, length, All, ◌==◌,
  if◌then◌else◌, arith, Bool-cases, inl, inr,
}
use gef_engine.Codec.{Bytes, to_bytes}
use gef_engine.Requests.{NetworkError, no_error, invalid_request_size, handler_error, code_of}
use gef_engine.Responses.{
  Heard, request, quiet, interrupted, shut_down, Frame, Round, receive_raw, receive_raw_sized,
  send_raw, Turn, carry_on, leave, reply, typed_turn, serve, guarded, run, run_bytes, run_sized,
}

-- The requests that come in before another thread calls stop or the socket is shut down.
abbrev pub requests : List Round → List Bytes
requests [] = []
requests (r ∷ rs) = elim r.stopped [
  | true ↦ []
  | false ↦ elim r.heard [
    | request b ↦ b ∷ requests rs
    | quiet ↦ requests rs
    | interrupted ↦ requests rs
    | shut_down ↦ []
  ]
]

-- Whether a stop or a shut down comes in those rounds.
abbrev pub is_ended : List Round → Bool
is_ended [] = false
is_ended (r ∷ rs) = elim r.stopped [
  | true ↦ true
  | false ↦ elim r.heard [
    | request b ↦ is_ended rs
    | quiet ↦ is_ended rs
    | interrupted ↦ is_ended rs
    | shut_down ↦ true
  ]
]

-- One reply after another, each of two frames.
abbrev pub replies : (Bytes → NetworkError × Bytes) → List Bytes → List Frame
replies answer [] = []
replies answer (b ∷ bs) =
    (to_bytes 4 (code_of (answer b).0), true) ∷ ((answer b).1, false) ∷ replies answer bs

abbrev pub Sends : Round → Type 0
Sends r = (r.head_sent ≡ true) × (r.body_sent ≡ true)

-- A turn that answers each request, goes on without one and leaves at a shut down.
pub record Answers (turn : Heard → Turn) (answer : Bytes → NetworkError × Bytes) : Type 0 where
  pub replies_to : (b : Bytes) → turn (request b) ≡ reply (answer b).1 (answer b).0
  pub waits : turn quiet ≡ carry_on
  pub retries : turn interrupted ≡ carry_on
  pub leaves : turn shut_down ≡ leave

pub send_raw_lem :
    (body : Bytes) (error : NetworkError) (r : Round)
    → Sends r
    → send_raw body error r ≡ (to_bytes 4 (code_of error), true) ∷ (body, false) ∷ []
unfolding send_raw
send_raw_lem body error r s = rw (s.0, s.1)

module _ (turn : Heard → Turn) (answer : Bytes → NetworkError × Bytes)
    (A : Answers turn answer) where
  heard_lem :
      (r : Round) (rs : List Round) (heard : Heard)
      → r.stopped ≡ false
      → r.heard ≡ heard
      → Sends r
      → serve turn rs false ≡ (replies answer (requests rs), is_ended rs)
      → serve turn (r ∷ rs) false ≡ (replies answer (requests (r ∷ rs)), is_ended (r ∷ rs))
  unfolding serve
  heard_lem r rs (request b) e h s ih =
      rw (e, h, A.replies_to b) (rw (ih, send_raw_lem (answer b).1 (answer b).0 r s))
  heard_lem r rs quiet e h s ih = rw (e, h, A.waits) ih
  heard_lem r rs interrupted e h s ih = rw (e, h, A.retries) ih
  heard_lem r rs shut_down e h s ih = rw (e, h, A.leaves)

  pub serve_lem :
      (rounds : List Round)
      → All Sends rounds
      → serve turn rounds false ≡ (replies answer (requests rounds), is_ended rounds)
  unfolding serve
  serve_lem [] s = refl
  serve_lem (r ∷ rs) s = elim (Bool-cases r.stopped) [
    | inl e ↦ rw e
    | inr e ↦ heard_lem r rs r.heard e refl s.0 (serve_lem rs s.1)
  ]

  pub run_lem :
      (rounds : List Round)
      → All Sends rounds
      → run turn rounds (record { running = false; stop = false }) ≡ (
        replies answer (requests rounds),
        record { running = not (is_ended rounds); stop = false },
      )
  unfolding run guarded
  run_lem rounds s = ground (arith, serve_lem rounds s)

-- What a server of requests of `size` bytes answers: an error with the blank reply `blank` for one
-- of another size and for one whose handler throws.
abbrev pub answer_sized : ℕ → Bytes → (Bytes → Option Bytes) → Bytes → NetworkError × Bytes
answer_sized size blank func b =
    if length b == size
    then elim (func b) [ none ↦ (handler_error, blank) | some body ↦ (no_error, body) ]
    else (invalid_request_size, blank)

abbrev pub answer_bytes : (Bytes → Option Bytes) → Bytes → NetworkError × Bytes
answer_bytes func b = elim (func b) [ none ↦ (handler_error, []) | some body ↦ (no_error, body) ]

sized_Answers :
    (blank initial : Bytes) (func : Bytes → Option Bytes)
    → Answers
        (λ heard. typed_turn blank func (receive_raw_sized (length initial) heard initial))
        (answer_sized (length initial) blank func)
unfolding typed_turn receive_raw_sized
sized_Answers blank initial func = record {
  replies_to = λ b. ground arith;
  waits = refl;
  retries = refl;
  leaves = refl;
}

bytes_Answers :
    (func : Bytes → Option Bytes)
    → Answers (λ heard. typed_turn [] func (receive_raw heard [])) (answer_bytes func)
unfolding typed_turn receive_raw
bytes_Answers func = record {
  replies_to = λ b. ground arith;
  waits = refl;
  retries = refl;
  leaves = refl;
}

-- A fixed-size response loop, if no send of it throws, answers every request that comes in before
-- a stop or a shut down, each once and in the order in which they came: one of the right size with
-- the handler's result, one whose handler throws with HandlerError and the blank reply, and one of
-- another size with InvalidRequestSize and the blank reply; a timeout or an interruption is not
-- answered. If a stop or a shut down came, both flags are clear afterwards, so it can run again;
-- otherwise it still runs.
pub run_sized_answers :
    (blank initial : Bytes) (func : Bytes → Option Bytes) (rounds : List Round)
    → All Sends rounds
    → run_sized blank initial func rounds (record { running = false; stop = false }) ≡ (
      replies (answer_sized (length initial) blank func) (requests rounds),
      record { running = not (is_ended rounds); stop = false },
    )
unfolding run_sized
run_sized_answers blank initial func rounds s =
    run_lem _ _ (sized_Answers blank initial func) rounds s

pub run_bytes_lem :
    (func : Bytes → Option Bytes) (rounds : List Round)
    → All Sends rounds
    → run_bytes func rounds (record { running = false; stop = false }) ≡ (
      replies (answer_bytes func) (requests rounds),
      record { running = not (is_ended rounds); stop = false },
    )
unfolding run_bytes
run_bytes_lem func rounds s = run_lem _ _ (bytes_Answers func) rounds s
