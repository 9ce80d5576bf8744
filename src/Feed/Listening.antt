-- ===== src/Feed/Listening.antt =====
-- What a peer's listener makes of the states that the peer publishes.
use gef_engine.Prelude.{
  ℕ, ◌<◌, ◌^◌, ◌≡◌, refl, ap, ◌∙◌, true, false, List, [], ◌∷◌, length, Option, none, some,
}
use gef_engine.Codec.{Bytes}
use gef_engine.Protocol.{ReceivedState, encode_snapshot, server_id}
use gef_engine.Protocol.Decode.{decode_snapshot}
use gef_engine.Protocol.RoundTrip.{decode-encode_snapshot}
use gef_engine.Mailbox.{LatestValue, empty_slot, take_latest, publish as publish_latest}
use gef_engine.Responses.{Frame}
use gef_engine.Feed.{
  publish_frames, part, quiet, Round, listen_loop, listen, publish_each, peer_topic,
}

-- A state that a peer publishes.
pub record State : Type 0 where
  pub tick : ℕ
  pub payload : Bytes

abbrev pub Fits : State → Type 0
Fits s = (s.tick < 2 ^ 64) × (length s.payload < 2 ^ 32)

-- The frames of one message as two calls of recv give them.
abbrev pub arriving : List Frame → Round
arriving ((t, m) ∷ (b, n) ∷ fs) = record { stopped = false; first = part t m; second = part b n }
arriving fs = record { stopped = false; first = quiet; second = quiet }

abbrev pub waiting : Round
waiting = record { stopped = false; first = quiet; second = quiet }

-- What comes in, a round each: a published state, or nothing until the timeout.
abbrev pub rounds_of : List (Option State) → List Round
rounds_of [] = []
rounds_of (none ∷ ds) = waiting ∷ rounds_of ds
rounds_of (some s ∷ ds) =
    arriving (publish_frames true true (encode_snapshot s.tick s.payload) peer_topic).0
    ∷ rounds_of ds

-- The newest of them, and one that came before if there is none.
abbrev pub newest : Option State → List (Option State) → Option State
newest before [] = before
newest before (none ∷ ds) = newest before ds
newest before (some s ∷ ds) = newest (some s) ds

abbrev pub AllFit : List (Option State) → Type 0
AllFit [] = Unit {0}
AllFit (none ∷ ds) = AllFit ds
AllFit (some s ∷ ds) = Fits s × AllFit ds

-- What applyUpdates reads in a slot.
abbrev pub read_slot : Option Bytes → Option ReceivedState
read_slot none = none
read_slot (some b) = decode_snapshot b

abbrev pub as_received : Option State → Option ReceivedState
as_received none = none
as_received (some s) = some (record { from = server_id; tick = s.tick; payload = s.payload })

-- A slot that holds the encoding of a state.
abbrev Holds : Option State → LatestValue Bytes → Type 0
Holds none l = l.slot ≡ none
Holds (some s) l = (l.slot ≡ some (encode_snapshot s.tick s.payload)) × Fits s

listen_Holds :
    (ds : List (Option State)) (held : Bytes) (before : Option State) (l : LatestValue Bytes)
    → AllFit ds
    → Holds before l
    → Holds (newest before ds) (publish_each (listen_loop (rounds_of ds) held).0 l)
unfolding listen_loop publish_each publish_frames publish_latest
listen_Holds [] held before l f h = h
listen_Holds (none ∷ ds) held before l f h = listen_Holds ds held before l f h
listen_Holds (some s ∷ ds) held before l f h =
    listen_Holds ds (encode_snapshot s.tick s.payload) (some s)
      (publish_latest (encode_snapshot s.tick s.payload) l) f.1 (refl, f.0)

read_Holds :
    (s : Option State) (l : LatestValue Bytes)
    → Holds s l
    → read_slot (take_latest l).0 ≡ as_received s
unfolding take_latest
read_Holds none l h = ap read_slot h
read_Holds (some s) l h = ap read_slot h.0 ∙ decode-encode_snapshot s.tick s.payload h.1.0 h.1.1

-- The states that a peer publishes and that its listener here receives, with timeouts among them:
-- what the next applyUpdates takes from the peer's slot is the newest of them, with its tick and its
-- payload as they were published, or nothing if none came in; the states are of a size that a
-- snapshot can have.
pub listened_state :
    (ds : List (Option State))
    → AllFit ds
    → read_slot (take_latest (publish_each (listen true (rounds_of ds)).0 empty_slot)).0
      ≡ as_received (newest none ds)
unfolding listen
listened_state ds f =
    let l = publish_each (listen_loop (rounds_of ds) []).0 empty_slot in
    read_Holds (newest none ds) l (listen_Holds ds [] none empty_slot f refl)
