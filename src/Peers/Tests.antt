-- ===== src/Peers/Tests.antt =====
-- A run of a peerSession's roster events.
use gef_engine.Prelude.{◌≡◌, false, List, [], ◌∷◌, find_key}
use gef_engine.Protocol.{RosterEvent}
use gef_engine.Roster.{replay}
use gef_engine.Replicator.Tests.{second, scene}
use gef_engine.Peers.{PeerSession, follow_events}
use gef_engine.Peers.Tuned.{IsTuned, follow_events-IsTuned}

abbrev alone : PeerSession
alone = record { peers = []; roster = []; left = false }

alone-IsTuned : IsTuned 2 alone
unfolding find_key
alone-IsTuned = record { listed = λ k slot f. absurd cc; reached = λ k info f o r. absurd cc }

-- Clients 2 and 3 join, and 3 leaves.
abbrev three_events : List RosterEvent
three_events =
    record { change = 0; client = record { id = 2; hello = []; peer_endpoint = 1 ∷ [] } }
    ∷ record { change = 0; client = record { id = 3; hello = []; peer_endpoint = 2 ∷ [] } }
    ∷ record { change = 1; client = record { id = 3; hello = []; peer_endpoint = 2 ∷ [] } }
    ∷ []

follow_events-IsTuned_example :
    IsTuned 2 (follow_events 2 three_events (alone, (second, scene))).0
    × ((follow_events 2 three_events (alone, (second, scene))).0.roster ≡ replay three_events [])
follow_events-IsTuned_example =
    follow_events-IsTuned 2 three_events (alone, (second, scene)) alone-IsTuned
