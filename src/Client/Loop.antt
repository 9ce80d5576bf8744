-- ===== src/Client/Loop.antt =====
-- src/networking/sessionClient.cpp: updateLoop, one round in its three parts.
use gef_engine.Prelude.{
  ℕ, ◌-◌, Bool, true, false, ◌||◌, [], ◌∷◌, Option, none, some, if◌then◌else◌, ltb,
}
use gef_engine.Protocol.{ReceivedState, UpdateRequest, update_kind}
use gef_engine.Client.{Client, build_request, ExchangeResult, ok, failed, dropped}

-- The condition that `wake` waits for between two rounds.
unfoldable pub has_work : Client → Bool
has_work c =
    c.stopping
    || ((elim c.pending_state [ none ↦ false | some _ ↦ true ])
        || (c.poll_requested || (elim c.outbox [ [] ↦ false | _ ∷ _ ↦ true ])))

unfoldable pub with_pending : ReceivedState → UpdateRequest → UpdateRequest
with_pending pending req = record req {
  has_state = true;
  tick = pending.tick;
  state = pending.payload;
}

-- The part under the mutex: the request, and the client as it leaves it. `none` where the loop ends.
unfoldable pub prepare : Client → Option (UpdateRequest × Client)
unfolding build_request with_pending
prepare c = if c.stopping then none else (elim c.pending_state [
  | none ↦ some (build_request update_kind c, record c { poll_requested = false })
  | some pending ↦ some (
    with_pending pending (build_request update_kind c),
    record c { poll_requested = false; pending_state = none },
  )
])

-- The state of a failed request is kept, unless a newer one has come.
unfoldable pub keep_state : UpdateRequest → Client → Client
keep_state req c = elim c.pending_state [
  | some _ ↦ c
  | none ↦
      if req.has_state
      then record c {
        pending_state = some (record { from = req.id; tick = req.tick; payload = req.state });
      }
      else c
]

-- kDefaultClientTimeoutMs
abbrev pub silence_limit : ℕ
silence_limit = 2000

-- The part after a failed exchange.
unfoldable pub after_failure : UpdateRequest → ℕ → ℕ → Client → Client
unfolding keep_state
after_failure req now last_success c =
    let kept = keep_state req c in
    if ltb silence_limit (now - last_success) then record kept { connected = false } else kept

-- What follows an exchange: whether the loop goes on, when it last succeeded, and the client.
unfoldable pub conclude : ExchangeResult → UpdateRequest → ℕ → ℕ → Client → Bool × ℕ × Client
unfolding after_failure
conclude ok req now last_success c = (true, now, record c { connected = true })
conclude dropped req now last_success c = (false, last_success, record c { connected = false })
conclude failed req now last_success c = (true, last_success, after_failure req now last_success c)
