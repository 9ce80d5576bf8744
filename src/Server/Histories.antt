-- ===== src/Server/Histories.antt =====
-- Every history of a sessionServer: its threads' operations in any order, from a new server on.
use gef_engine.Prelude.{ℕ, ◌≤◌, refl, Option, find_key, length, arith}
use gef_engine.Codec.{Bytes}
use gef_engine.Server.{Server, init, handle_join}
use gef_engine.Server.Exchange.{handle_update}
use gef_engine.Server.Methods.{
  watchdog_round, set_client_timeout, send, broadcast, drain_messages, drain_roster_events,
  publish_scene, drain_states, take_departed,
}
use gef_engine.Server.Valid.{IsValid, init-IsValid}
use gef_engine.Server.Handling.{
  handle_join-IsValid, handle_update-IsValid, watchdog_round-IsValid, send-IsValid,
  broadcast-IsValid,
}

-- What stop does is no step here. Any bytes may come in, on the join port and on each client's port.
pub data Step : Server → Server → Type 0 where
  join :
      (s : Server) (socket : Option ℕ) (now : ℕ) (request : Bytes)
      → Step s (handle_join socket now request s).0
  update : (s : Server) (id now : ℕ) (request : Bytes) → Step s (handle_update id now request s).0
  watch : (s : Server) (now : ℕ) → Step s (watchdog_round now s).0
  set_timeout : (s : Server) (milliseconds : ℕ) → Step s (set_client_timeout milliseconds s)
  send_to :
      (s : Server) (to type : ℕ) (payload : Bytes) (tick : ℕ) → Step s (send to type payload tick s)
  send_all :
      (s : Server) (type : ℕ) (payload : Bytes) (tick : ℕ) → Step s (broadcast type payload tick s)
  messages : (s : Server) → Step s (drain_messages s).0
  events : (s : Server) → Step s (drain_roster_events s).0
  publish : (s : Server) (encoded : Bytes) (tick : ℕ) → Step s (publish_scene encoded tick s)
  take_states : (s : Server) → Step s (drain_states s).0
  departures : (s : Server) → Step s (take_departed s).0

pub data Reach (s : Server) : Server → Type 0 where
  start : Reach s s
  next : {t u : Server} → Reach s t → Step t u → Reach s u

Step-IsValid : {s t : Server} → Step s t → IsValid s → IsValid t
unfolding set_client_timeout drain_messages drain_roster_events publish_scene drain_states
    take_departed find_key
Step-IsValid (join s socket now request) v = handle_join-IsValid socket now request s v
Step-IsValid (update s id now request) v = handle_update-IsValid id now request s v
Step-IsValid (watch s now) v = watchdog_round-IsValid now s v
Step-IsValid (set_timeout s milliseconds) v = record { book = v.book; live = v.live }
Step-IsValid (send_to s to type payload tick) v = send-IsValid to type payload tick s v
Step-IsValid (send_all s type payload tick) v = broadcast-IsValid type payload tick s v
Step-IsValid (messages s) v = record { book = v.book; live = v.live }
Step-IsValid (events s) v = record { book = v.book; live = v.live }
Step-IsValid (publish s encoded tick) v = record { book = v.book; live = v.live }
Step-IsValid (take_states s) v = record { book = v.book; live = λ k h. refl }
Step-IsValid (departures s) v = record { book = v.book; live = v.live }

-- After any history of a server that runs, which ends when stop takes the clients away, the
-- invariant holds: its clients are in the order of their ids, each
-- under its own; the roster log replays to exactly these clients; and no client that is gone has a
-- state waiting to be applied.
pub Reach-IsValid : (s : Server) → Reach init s → IsValid s
Reach-IsValid s start = init-IsValid
Reach-IsValid s (next r st) = Step-IsValid st (Reach-IsValid _ r)

-- After any history at most 255 ids were given out and the roster log has at most 510 entries, so
-- its size fits the 32 bits in which a reply carries it.
pub Reach-bounded : (s : Server) → Reach init s → (s.next_id ≤ 256) × (length s.roster_log ≤ 510)
Reach-bounded s r = let b = (Reach-IsValid s r).book in (b.last, omega (arith, b.bounded, b.last))
