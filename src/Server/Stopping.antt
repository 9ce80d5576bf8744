-- ===== src/Server/Stopping.antt =====
-- src/networking/sessionServer.cpp: every history of a server with its threads, until stop returns.
use gef_engine.Prelude.{
  ℕ, ◌≡◌, refl, ap, inl, inr, true, [], Option, find_key, ◌==◌, Bool-cases, Option-cases,
}
use gef_engine.Codec.{Bytes}
use gef_engine.Protocol.Decode.{decode_update_request}
use gef_engine.Server.{Server, handle_join}
use gef_engine.Server.Exchange.{respond, handle_update}
use gef_engine.Server.Methods.{
  set_client_timeout, send, push_to_all, broadcast, drain_messages, drain_roster_events,
  publish_scene, drain_states, take_departed,
}
use gef_engine.Server.Threads.{
  Host, start, watch, join_finished, end_joins, end_watchdog, collect_slots, join_slots,
}
use gef_engine.Server.Valid.{IsValid}
use gef_engine.Server.Handling.{handle_update-IsValid, send-IsValid, broadcast-IsValid}
use gef_engine.Server.Moves.{Moves, same_keys, handle_update-Moves, send-Moves, broadcast-Moves}

-- What clients' threads and the game do to the state, at any time.
pub data Call : Server → Server → Type 0 where
  update : (s : Server) (id now : ℕ) (request : Bytes) → Call s (handle_update id now request s).0
  set_timeout : (s : Server) (milliseconds : ℕ) → Call s (set_client_timeout milliseconds s)
  send_to :
      (s : Server) (to type : ℕ) (payload : Bytes) (tick : ℕ) → Call s (send to type payload tick s)
  send_all :
      (s : Server) (type : ℕ) (payload : Bytes) (tick : ℕ) → Call s (broadcast type payload tick s)
  messages : (s : Server) → Call s (drain_messages s).0
  events : (s : Server) → Call s (drain_roster_events s).0
  publish : (s : Server) (encoded : Bytes) (tick : ℕ) → Call s (publish_scene encoded tick s)
  take_states : (s : Server) → Call s (drain_states s).0
  departures : (s : Server) → Call s (take_departed s).0

-- The threads' steps. A thread acts while it runs, stop's parts follow one another, and the
-- watchdog joins what it has taken before its next round and before it is joined itself.
pub data Step : Host → Host → Type 0 where
  begins : (h : Host) → Step h (start h)
  joins :
      (h : Host) (socket : Option ℕ) (now : ℕ) (request : Bytes)
      → h.join_runs ≡ true
      → Step h (record h { server = (handle_join socket now request h.server).0 })
  calls : (h : Host) (t : Server) → Call h.server t → Step h (record h { server = t })
  watches : (h : Host) (now : ℕ) → h.watchdog_runs ≡ true → h.finished ≡ [] → Step h (watch now h)
  finishes : (h : Host) → Step h (join_finished h)
  stops : (h : Host) → Step h (end_joins h)
  rounds_end : (h : Host) → h.stage ≡ 1 → h.finished ≡ [] → Step h (end_watchdog h)
  collects : (h : Host) → h.stage ≡ 2 → Step h (collect_slots h)
  ends : (h : Host) → h.stage ≡ 3 → Step h (join_slots h)

pub data Reach (g : Host) : Host → Type 0 where
  origin : Reach g g
  next : {h i : Host} → Reach g h → Step h i → Reach g i

pub Call-IsValid : {s t : Server} → Call s t → IsValid s → IsValid t
unfolding set_client_timeout drain_messages drain_roster_events publish_scene drain_states
    take_departed find_key
Call-IsValid (update s id now request) v = handle_update-IsValid id now request s v
Call-IsValid (set_timeout s milliseconds) v = record { book = v.book; live = v.live }
Call-IsValid (send_to s to type payload tick) v = send-IsValid to type payload tick s v
Call-IsValid (send_all s type payload tick) v = broadcast-IsValid type payload tick s v
Call-IsValid (messages s) v = record { book = v.book; live = v.live }
Call-IsValid (events s) v = record { book = v.book; live = v.live }
Call-IsValid (publish s encoded tick) v = record { book = v.book; live = v.live }
Call-IsValid (take_states s) v = record { book = v.book; live = λ k h. refl }
Call-IsValid (departures s) v = record { book = v.book; live = v.live }

pub Call-Moves : {s t : Server} → Call s t → IsValid s → Moves s t
unfolding set_client_timeout drain_messages drain_roster_events publish_scene drain_states
    take_departed
Call-Moves (update s id now request) v = handle_update-Moves id now request s v
Call-Moves (set_timeout s milliseconds) v = same_keys s _ refl refl (λ k h. h)
Call-Moves (send_to s to type payload tick) v = send-Moves to type payload tick s
Call-Moves (send_all s type payload tick) v = broadcast-Moves type payload tick s
Call-Moves (messages s) v = same_keys s _ refl refl (λ k h. h)
Call-Moves (events s) v = same_keys s _ refl refl (λ k h. h)
Call-Moves (publish s encoded tick) v = same_keys s _ refl refl (λ k h. h)
Call-Moves (take_states s) v = same_keys s _ refl refl (λ k h. h)
Call-Moves (departures s) v = same_keys s _ refl refl (λ k h. h)

-- A server without slots gets none from a call.
abbrev pub IsEmpty : Server → Type 0
IsEmpty s = (s.clients ≡ []) × (s.retired ≡ [])

abbrev pub Stays : Server → Server → Type 0
Stays s t = IsEmpty t × (t.next_id ≡ s.next_id)

update-Stays :
    (id now : ℕ) (request : Bytes) (s : Server)
    → IsEmpty s
    → Stays s (handle_update id now request s).0
unfolding handle_update respond find_key
update-Stays id now request s e = elim (Option-cases (decode_update_request request)) [
  | inl bad ↦ rw (bad, handle_update) (e, refl)
  | inr (req, good) ↦
      rw (good, handle_update)
        (elim (Bool-cases (req.id == id)) [
          | inr other ↦ rw (other, respond) (e, refl)
          | inl own ↦ rw (own, e.0, respond) (e, refl)
        ])
]

pub Call-Stays : {s t : Server} → Call s t → IsEmpty s → Stays s t
unfolding set_client_timeout drain_messages drain_roster_events publish_scene drain_states
    take_departed find_key send broadcast push_to_all
Call-Stays (update s id now request) e = update-Stays id now request s e
Call-Stays (set_timeout s milliseconds) e = (e, refl)
Call-Stays (send_to s to type payload tick) e = rw (e.0, send) (e, refl)
Call-Stays (send_all s type payload tick) e = ((ap (push_to_all type payload tick) e.0, e.1), refl)
Call-Stays (messages s) e = (e, refl)
Call-Stays (events s) e = (e, refl)
Call-Stays (publish s encoded tick) e = (e, refl)
Call-Stays (take_states s) e = (e, refl)
Call-Stays (departures s) e = (e, refl)
