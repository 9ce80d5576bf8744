-- ===== src/Feed/Tests.antt =====
-- A listener between two published states.
use gef_engine.Prelude.{◌≡◌, true, List, [], ◌∷◌, Option, none, some, arith}
use gef_engine.Mailbox.{empty_slot, take_latest}
use gef_engine.Feed.{listen, publish_each}
use gef_engine.Feed.Listening.{State, rounds_of, newest, read_slot, as_received, listened_state}

abbrev states : List (Option State)
states =
    some (record { tick = 4; payload = 1 ∷ [] })
    ∷ none
    ∷ some (record { tick = 5; payload = 2 ∷ 3 ∷ [] })
    ∷ none
    ∷ []

listened_state_example :
    read_slot (take_latest (publish_each (listen true (rounds_of states)).0 empty_slot)).0
    ≡ as_received (newest none states)
listened_state_example =
    listened_state states ((omega arith, omega arith), ((omega arith, omega arith), tt))
