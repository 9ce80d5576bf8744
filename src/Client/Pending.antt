-- ===== src/Client/Pending.antt =====
-- src/networking/sessionClient.cpp: what becomes of a submitted scene, whatever other threads do
-- between the parts of a round of updateLoop.
use gef_engine.Prelude.{
  ℕ, ◌≡◌, refl, inl, inr, Bool, true, Option, none, some, Option-cases, Bool-cases, arith,
  if◌then◌else◌,
}
use gef_engine.Codec.{Bytes}
use gef_engine.Protocol.{ReceivedState, UpdateRequest}
use gef_engine.Protocol.Decode.{decode_update_reply}
use gef_engine.Client.{
  Client, build_request, ExchangeResult, ok, failed, dropped, apply_timeout, apply_reply,
  settle_reply, receive, submit_scene, request_snapshot, send, drain_messages,
}
use gef_engine.Client.Loop.{with_pending, prepare, keep_state, after_failure, conclude}

-- The update loop at work. `in_flight` is the request that is on its way, `submitted` the scene that
-- was submitted last, `delivered` the last one whose exchange succeeded.
pub record Run : Type 0 where
  pub client : Client
  pub in_flight : Option UpdateRequest
  pub running : Bool
  pub submitted : Option ReceivedState
  pub delivered : Option ReceivedState

abbrev pub carried : UpdateRequest → Option ReceivedState
carried req =
    if req.has_state
    then some (record { from = req.id; tick = req.tick; payload = req.state })
    else none

infixr 36 ◌or_else◌
abbrev pub ◌or_else◌ : Option ReceivedState → Option ReceivedState → Option ReceivedState
none or_else b = b
some x or_else b = some x

abbrev carried_by : Option UpdateRequest → Option ReceivedState
carried_by none = none
carried_by (some req) = carried req

abbrev pub delivered_after :
    ExchangeResult → UpdateRequest → Option ReceivedState → Option ReceivedState
delivered_after ok req before = carried req or_else before
delivered_after failed req before = before
delivered_after dropped req before = before

-- The run once the exchange of `req` has ended with `got`.
abbrev pub arrived : Run → UpdateRequest → ExchangeResult × Client → ℕ → ℕ → Run
arrived r req got now last_success = record r {
  client = (conclude got.0 req now last_success got.1).2;
  in_flight = none;
  running = (conclude got.0 req now last_success got.1).0;
  delivered = delivered_after got.0 req r.delivered;
}

pub data Step : Run → Run → Type 0 where
  submit :
      (r : Run) (state : Bytes) (tick : ℕ)
      → Step r (record r {
        client = submit_scene state tick r.client;
        submitted = some (record { from = r.client.id; tick = tick; payload = state });
      })
  poll : (r : Run) (tick : ℕ) → Step r (record r { client = request_snapshot tick r.client })
  message :
      (r : Run) (type : ℕ) (payload : Bytes) (tick : ℕ)
      → Step r (record r { client = send type payload tick r.client })
  drain : (r : Run) → Step r (record r { client = (drain_messages r.client).1 })
  depart :
      (r : Run) (req : UpdateRequest) (c : Client)
      → r.running ≡ true
      → r.in_flight ≡ none
      → prepare r.client ≡ some (req, c)
      → Step r (record r { client = c; in_flight = some req })
  arrive :
      (r : Run) (req : UpdateRequest) (answer : Option Bytes) (now last_success : ℕ)
      → r.in_flight ≡ some req
      → Step r (arrived r req (receive answer (apply_timeout r.client)) now last_success)

pub data Reach (s : Run) : Run → Type 0 where
  start : Reach s s
  next : {t u : Run} → Reach s t → Step t u → Reach s u

abbrev pub idle : Client → Run
idle c = record { client = c; in_flight = none; running = true; submitted = none; delivered = none }

-- The newest scene waits, else is on its way, else was delivered.
abbrev pub newest : Run → Option ReceivedState
newest r = r.client.pending_state or_else (carried_by r.in_flight or_else r.delivered)

pub record IsKept (r : Run) : Type 0 where
  pub own : (p : ReceivedState) → r.client.pending_state ≡ some p → p.from ≡ r.client.id
  pub addressed : (req : UpdateRequest) → r.in_flight ≡ some req → req.id ≡ r.client.id
  pub live : (req : UpdateRequest) → r.in_flight ≡ some req → r.running ≡ true
  pub kept : r.running ≡ true → r.submitted ≡ newest r

settle-pending :
    (answer : Option Bytes) (c : Client)
    → ((receive answer c).1.pending_state ≡ c.pending_state) × ((receive answer c).1.id ≡ c.id)
unfolding receive settle_reply apply_reply
settle-pending none c = (refl, refl)
settle-pending (some bytes) c = elim (Option-cases (decode_update_reply bytes)) [
  | inl e ↦ rw (e, receive) (refl, refl)
  | inr (reply, e) ↦ rw (e, receive) (ground arith, ground arith)
]

receive-pending :
    (answer : Option Bytes) (c : Client)
    → ((receive answer (apply_timeout c)).1.pending_state ≡ c.pending_state)
      × ((receive answer (apply_timeout c)).1.id ≡ c.id)
unfolding apply_timeout
receive-pending answer c =
    let s = settle-pending answer (apply_timeout c) in (ground (arith, s.0), ground (arith, s.1))

depart-IsKept :
    (r : Run) (req : UpdateRequest) (c : Client)
    → r.running ≡ true
    → r.in_flight ≡ none
    → prepare r.client ≡ some (req, c)
    → IsKept r
    → IsKept (record r { client = c; in_flight = some req })
unfolding prepare build_request with_pending
depart-IsKept r req c run idle e k = elim (Bool-cases r.client.stopping) [
  | inl stops ↦ absurd (ground (arith, e))
  | inr runs ↦ elim (Option-cases r.client.pending_state) [
    | inl none_waits ↦ record {
      own = λ p h. ground (arith, e);
      addressed = λ q h. ground (arith, e);
      live = λ q h. run;
      kept = λ h. ground (arith, e, k.kept h);
    }
    | inr (p, waits) ↦ record {
      own = λ q h. ground (arith, e);
      addressed = λ q h. ground (arith, e);
      live = λ q h. run;
      kept = λ h. ground (arith, e, k.kept h, k.own p waits);
    }
  ]
]

conclude-IsKept :
    (result : ExchangeResult) (r : Run) (req : UpdateRequest) (c : Client) (now last_success : ℕ)
    → r.in_flight ≡ some req
    → c.pending_state ≡ r.client.pending_state
    → c.id ≡ r.client.id
    → IsKept r
    → IsKept (arrived r req (result, c) now last_success)
unfolding conclude after_failure keep_state
conclude-IsKept ok r req c now last_success f p i k = record {
  own = λ q h. ground (arith, k.own q);
  addressed = λ q h. ground arith;
  live = λ q h. absurd cc;
  kept = λ h. ground (arith, k.kept (k.live req f));
}
conclude-IsKept dropped r req c now last_success f p i k = record {
  own = λ q h. ground (arith, k.own q);
  addressed = λ q h. ground arith;
  live = λ q h. absurd cc;
  kept = λ h. ground arith;
}
conclude-IsKept failed r req c now last_success f p i k =
    elim (Option-cases r.client.pending_state) [
      | inl none_waits ↦ record {
        own = λ q h. ground (arith, k.addressed req f);
        addressed = λ q h. ground arith;
        live = λ q h. absurd cc;
        kept = λ h. ground (arith, k.kept (k.live req f));
      }
      | inr (w, waits) ↦ record {
        own = λ q h. ground (arith, k.own q);
        addressed = λ q h. ground arith;
        live = λ q h. absurd cc;
        kept = λ h. ground (arith, k.kept (k.live req f));
      }
    ]

Step-IsKept : {r s : Run} → Step r s → IsKept r → IsKept s
unfolding submit_scene request_snapshot send drain_messages
Step-IsKept (submit r state tick) k = record {
  own = λ q h. ground arith;
  addressed = k.addressed;
  live = k.live;
  kept = λ _. refl;
}
Step-IsKept (poll r tick) k = record {
  own = k.own;
  addressed = k.addressed;
  live = k.live;
  kept = k.kept;
}
Step-IsKept (message r type payload tick) k = record {
  own = k.own;
  addressed = k.addressed;
  live = k.live;
  kept = k.kept;
}
Step-IsKept (drain r) k = record {
  own = k.own;
  addressed = k.addressed;
  live = k.live;
  kept = k.kept;
}
Step-IsKept (depart r req c run idle e) k = depart-IsKept r req c run idle e k
Step-IsKept (arrive r req answer now last_success f) k =
    let got = receive answer (apply_timeout r.client) in
    let same = receive-pending answer r.client in
    conclude-IsKept got.0 r req got.1 now last_success f same.0 same.1 k

Reach-IsKept : (c : Client) {r : Run} → c.pending_state ≡ none → Reach (idle c) r → IsKept r
Reach-IsKept c fresh start = record {
  own = λ q h. absurd cc;
  addressed = λ q h. absurd cc;
  live = λ q h. absurd cc;
  kept = λ _. ground arith;
}
Reach-IsKept c fresh (next {t} r s) = Step-IsKept s (Reach-IsKept c fresh r)

-- For a client that starts with no scene waiting, whatever other threads do and however the exchanges
-- end, as long as the update loop runs, the scene
-- that was submitted last waits for the next update, else is on its way in the current one, else
-- was delivered by the last exchange that succeeded with a scene: a failed exchange loses none.
pub submitted_kept :
    (c : Client) (r : Run)
    → c.pending_state ≡ none
    → Reach (idle c) r
    → r.running ≡ true
    → r.submitted ≡ newest r
submitted_kept c r fresh h run = let k = Reach-IsKept c fresh h in k.kept run
