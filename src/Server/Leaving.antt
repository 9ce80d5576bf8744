-- ===== src/Server/Leaving.antt =====
-- src/networking/sessionServer.cpp: how a client goes, by its own request or by the watchdog.
use gef_engine.Prelude.{
  ℕ, suc, ◌<◌, ◌≡◌, refl, Bool, true, false, ◌||◌, List, [], ◌∷◌, ◌++◌, none, some, Map, find_key,
  From, arith, if◌then◌else◌, ◌==◌, ==_refl, ==_of_eq,
}
use gef_engine.Prelude.MapLaws.{find-put, find-erase}
use gef_engine.Protocol.{ClientId, UpdateRequest, leave_kind, left_change}
use gef_engine.Server.{ClientSlot, Server, retire, retire_slot}
use gef_engine.Server.Exchange.{updated_slot, absorb, answer, exchange, respond}
use gef_engine.Server.Methods.{timed_out, silent, retire_each, watchdog_round}
use gef_engine.Server.Valid.{infos, IsValid}
use gef_engine.Server.Updating.{respond_known, intake_of}

retire_found :
    (id : ℕ) (slot : ClientSlot) (s : Server)
    → find_key id s.clients ≡ some slot
    → retire id s ≡ retire_slot id slot s
unfolding retire
retire_found id slot s e = rw (e, retire)

-- What is left of a client that goes: it and its waiting state are gone, the game will be told by a
-- Left event and by `departed`, and its stopped handler waits to be joined.
pub record IsGone (id : ClientId) (slot : ClientSlot) (s t : Server) : Type 0 where
  pub client : find_key id t.clients ≡ none
  pub state : find_key id t.states ≡ none
  pub departed : t.departed ≡ s.departed ++ (id ∷ [])
  pub event :
      t.roster_events
      ≡ s.roster_events ++ (record { change = left_change; client = slot.info } ∷ [])
  pub gone : ClientSlot
  pub retired : t.retired ≡ s.retired ++ (gone ∷ [])
  pub stopped : gone.stopped ≡ true

retire_slot-IsGone :
    (id : ClientId) (slot : ClientSlot) (s : Server) → IsGone id slot s (retire_slot id slot s)
unfolding retire_slot
retire_slot-IsGone id slot s = record {
  client = rw (find-erase, ==_refl id);
  state = rw (find-erase, ==_refl id);
  departed = refl;
  event = refl;
  gone = record slot { stopped = true };
  retired = refl;
  stopped = refl;
}

exchange_leaving :
    (id now : ℕ) (req : UpdateRequest) (slot : ClientSlot) (s : Server)
    → req.kind ≡ leave_kind
    → (exchange id now req slot s).0
      ≡ retire_slot id
          (updated_slot now req (intake_of id req slot s) slot)
          (absorb id now req slot s)
unfolding exchange answer absorb
exchange_leaving id now req slot s leaving =
    rw (==_of_eq req.kind leave_kind leaving, exchange, answer)
      (retire_found id (updated_slot now req (intake_of id req slot s) slot)
        (absorb id now req slot s) (rw (find-put, ==_refl id)))

-- A leave request removes its client at once.
pub respond_leave :
    (id now : ℕ) (req : UpdateRequest) (slot : ClientSlot) (s : Server)
    → req.id ≡ id
    → find_key id s.clients ≡ some slot
    → req.kind ≡ leave_kind
    → IsGone id slot s (respond id now req s).0
unfolding absorb updated_slot
respond_leave id now req slot s own e leaving =
    let slot' = updated_slot now req (intake_of id req slot s) slot in
    let s' = absorb id now req slot s in
    let g = retire_slot-IsGone id slot' s' in
    rw (respond_known id now req slot s own e, exchange_leaving id now req slot s leaving)
      (record {
        client = g.client;
        state = g.state;
        departed = g.departed;
        event = g.event;
        gone = g.gone;
        retired = g.retired;
        stopped = g.stopped;
      })

abbrev is_in : ℕ → List ℕ → Bool
is_in k [] = false
is_in k (j ∷ js) = k == j || is_in k js

find-retire :
    (k id : ℕ) (s : Server)
    → find_key k (retire id s).clients ≡ (if k == id then none else find_key k s.clients)
unfolding retire retire_slot
find-retire k id s = ground (arith, find-erase k id s.clients)

find-retire_each :
    (k : ℕ) (ids : List ℕ) (s : Server)
    → find_key k (retire_each ids s).clients ≡ (if is_in k ids then none else find_key k s.clients)
unfolding retire_each
find-retire_each k [] s = refl
find-retire_each k (id ∷ ids) s =
    ground (arith, find-retire_each k ids (retire id s), find-retire k id s)

silent_above :
    (k n timeout now : ℕ) (m : Map ClientSlot)
    → From n (infos m)
    → k < n
    → is_in k (silent timeout now m) ≡ false
unfolding silent
silent_above k n timeout now [] f h = refl
silent_above k n timeout now ((j, slot) ∷ m) f h =
    ground (arith, silent_above k (suc j) timeout now m f.1)

is_in-silent :
    (k n timeout now : ℕ) (m : Map ClientSlot) (slot : ClientSlot)
    → From n (infos m)
    → find_key k m ≡ some slot
    → is_in k (silent timeout now m) ≡ timed_out timeout slot.last_seen now
unfolding silent find_key
is_in-silent k n timeout now [] slot f e = cc
is_in-silent k n timeout now ((j, w) ∷ m) slot f e =
    ground (
      arith,
      is_in-silent k (suc j) timeout now m slot f.1,
      silent_above k (suc j) timeout now m f.1,
    )

-- A round of the watchdog removes exactly the clients that were not heard for longer than the
-- timeout, all of them if that is negative, and leaves the others as they were.
pub watchdog_round-clients :
    (k now : ℕ) (slot : ClientSlot) (s : Server)
    → IsValid s
    → find_key k s.clients ≡ some slot
    → find_key k (watchdog_round now s).0.clients
      ≡ (if timed_out s.client_timeout slot.last_seen now then none else some slot)
unfolding watchdog_round
watchdog_round-clients k now slot s v e = ground (
  arith,
  find-retire_each k (silent s.client_timeout now s.clients) s,
  is_in-silent k 1 s.client_timeout now s.clients slot v.book.ordered e,
  e,
)
