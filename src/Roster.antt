-- ===== src/Roster.antt =====
-- src/networking/peerSession.cpp: the roster that applyUpdates keeps from the events of a session.
use gef_engine.Prelude.{
  ◌≡◌, refl, List, [], ◌∷◌, ◌++◌, Map, put_key, erase_key, if◌then◌else◌, ◌==◌,
}
use gef_engine.Protocol.{ClientInfo, RosterEvent, joined_change}

-- Any change but Joined removes the client.
unfoldable pub apply_event : RosterEvent → Map ClientInfo → Map ClientInfo
apply_event e known =
    if e.change == joined_change
    then put_key e.client.id e.client known
    else erase_key e.client.id known

unfoldable pub replay : List RosterEvent → Map ClientInfo → Map ClientInfo
replay [] known = known
replay (e ∷ es) known = replay es (apply_event e known)

pub replay-append :
    (xs ys : List RosterEvent) (known : Map ClientInfo)
    → replay (xs ++ ys) known ≡ replay ys (replay xs known)
unfolding replay
replay-append [] ys known = refl
replay-append (x ∷ xs) ys known = replay-append xs ys (apply_event x known)
