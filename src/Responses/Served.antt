-- ===== src/Responses/Served.antt =====
-- A request from a requestHandler to a responseHandler that runs on Bytes, and back.
use gef_engine.Prelude.{◌≡◌, refl, ap, ◌∙◌, subst, Bool, true, false, Option, none, some, [], ◌∷◌}
use gef_engine.Codec.{Bytes}
use gef_engine.Requests.{
  ReqSocket, accepted, is_none, Handler, send_for_reply, no_error, handler_error,
}
use gef_engine.Requests.Replies.{Arrives, send_for_reply_lem}
use gef_engine.Responses.{Round, request, run_bytes}
use gef_engine.Responses.Loop.{Sends, answer_bytes, requests, replies, run_bytes_lem}

-- Whether a handler returned, and its result or an empty one.
abbrev pub returned : Option Bytes → Option Bool × Bytes
returned none = (some false, [])
returned (some body) = (some true, body)

module _ (z : ReqSocket) where
  open z use {Net, send, recv}

  -- By the result of the handler.
  answered_lem :
      (func : Bytes → Option Bytes) (msg : Bytes) (result : Option Bytes) (h : Handler Net)
      (n m : Net)
      → func msg ≡ result
      → send msg h.net ≡ (accepted, n)
      → Arrives z (replies (answer_bytes func) (msg ∷ [])) n m
      → send_for_reply z msg h ≡ ((returned result).0, (returned result).1, record h { net = m })
  answered_lem func msg none h n m e sent a =
      subst (λ v. send_for_reply z msg h ≡ (some v, [], record h { net = m }))
        (let t : is_none handler_error ≡ false = unfold is_none in refl in t)
        (send_for_reply_lem z msg handler_error [] h n m tt sent (rw (answer_bytes, e) at a))
  answered_lem func msg (some body) h n m e sent a =
      subst (λ v. send_for_reply z msg h ≡ (some v, body, record h { net = m }))
        (let t : is_none no_error ≡ true = unfold is_none in refl in t)
        (send_for_reply_lem z msg no_error body h n m tt sent (rw (answer_bytes, e) at a))

  -- The frames that the server sends for one request come back to the client that sent it: then
  -- send(msg) gives the handler's result as a valid reply, or an empty invalid one if the handler
  -- throws, and the socket that it used is kept.
  pub round_trip :
      (func : Bytes → Option Bytes) (msg : Bytes) (r : Round) (h : Handler Net) (n m : Net)
      → r.stopped ≡ false
      → r.heard ≡ request msg
      → Sends r
      → send msg h.net ≡ (accepted, n)
      → Arrives z (run_bytes func (r ∷ []) (record { running = false; stop = false })).0 n m
      → send_for_reply z msg h
        ≡ ((returned (func msg)).0, (returned (func msg)).1, record h { net = m })
  round_trip func msg r h n m going heard s sent a =
      let one : requests (r ∷ []) ≡ msg ∷ [] = rw (going, heard) in
      let out : (run_bytes func (r ∷ []) (record { running = false; stop = false })).0
          ≡ replies (answer_bytes func) (msg ∷ []) =
        ap (λ x. x.0) (run_bytes_lem func (r ∷ []) (s, tt))
        ∙ ap (replies (answer_bytes func)) one in
      answered_lem func msg (func msg) h n m refl sent (subst (λ fs. Arrives z fs n m) out a)
