-- ===== src/Responses/Tests.antt =====
-- Runs of the response loop.
use gef_engine.Prelude.{
  ◌+◌, ◌≡◌, refl, true, false, not, Option, none, some, List, [], ◌∷◌, ◌==◌, if◌then◌else◌,
}
use gef_engine.Codec.{Bytes, to_bytes}
use gef_engine.Requests.{Handler, send_for_reply, code_of}
use gef_engine.Requests.Replies.{Arrives}
use gef_engine.Requests.Socket.{ready, waiting, reading}
use gef_engine.Requests.Tests.{Echo, echo}
use gef_engine.Responses.{Round, Heard, request, quiet, shut_down, run_sized, run_bytes}
use gef_engine.Responses.Loop.{answer_sized, requests, replies, is_ended, run_sized_answers}
use gef_engine.Responses.Served.{returned, round_trip}

abbrev round : Heard → Round
round heard = record { stopped = false; heard = heard; head_sent = true; body_sent = true }

-- Doubles its byte, and throws at zero.
abbrev double : Bytes → Option Bytes
double [] = none
double (b ∷ bs) = if b == 0 then none else some ((b + b) ∷ [])

-- A request, a timeout, one of the wrong size, one whose handler throws, and the end.
abbrev five : List Round
five =
    round (request (4 ∷ []))
    ∷ round quiet
    ∷ round (request (1 ∷ 2 ∷ []))
    ∷ round (request (0 ∷ []))
    ∷ round shut_down
    ∷ []

run_sized_answers_example :
    run_sized (9 ∷ []) (0 ∷ []) double five (record { running = false; stop = false }) ≡ (
      replies (answer_sized 1 (9 ∷ []) double) (requests five),
      record { running = not (is_ended five); stop = false },
    )
run_sized_answers_example =
    run_sized_answers (9 ∷ []) (0 ∷ []) double five
      ((refl, refl), ((refl, refl), ((refl, refl), ((refl, refl), ((refl, refl), tt)))))

abbrev same : Bytes → Option Bytes
same b = some b

abbrev client : Handler Echo
client = record {
  net = record { at = ready; body = []; timeout = 1000; peer = some (9 ∷ []) };
  endpoint = 9 ∷ [];
  timeout = 1000;
}

abbrev arrived : Echo
arrived = record { at = waiting; body = 6 ∷ []; timeout = 1000; peer = some (9 ∷ []) }

abbrev taken : Echo
taken = record arrived { at = ready }

frames_arrive :
    Arrives echo
      (run_bytes same (round (request (6 ∷ [])) ∷ []) (record { running = false; stop = false })).0
      arrived
      taken
unfolding run_bytes to_bytes code_of
frames_arrive = (record arrived { at = reading }, refl, (taken, refl, refl))

round_trip_example :
    send_for_reply echo (6 ∷ []) client
    ≡ ((returned (same (6 ∷ []))).0, (returned (same (6 ∷ []))).1, record client { net = taken })
round_trip_example =
    round_trip echo same (6 ∷ []) (round (request (6 ∷ []))) client arrived taken refl refl
      (refl, refl) refl frames_arrive
