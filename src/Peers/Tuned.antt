-- ===== src/Peers/Tuned.antt =====
-- src/networking/peerSession.cpp: the peers are those that the roster names.
use gef_engine.Prelude.{
  ◌≡◌, ◌≢◌, refl, sym, ap, ◌∙◌, subst, inl, inr, true, false, ◌||◌, List, [], ◌∷◌, none, some,
  find_key, has_key, arith, Bool-cases, ◌==◌,
}
use gef_engine.Prelude.MapLaws.{find-put, find-erase}
use gef_engine.Codec.{Bytes}
use gef_engine.Protocol.{ClientId, ClientInfo, RosterEvent, joined_change}
use gef_engine.Mailbox.{empty_slot}
use gef_engine.Roster.{apply_event, replay}
use gef_engine.Scene.{Scene}
use gef_engine.Replicator.{Replicator}
use gef_engine.Peers.{
  PeerSlot, PeerSession, is_empty_text, connect, disconnect, follow_event, follow_events,
}

-- A peer is on the roster and is not this one, and everybody else on the roster who can be reached is
-- a peer.
pub record IsTuned (self : ClientId) (s : PeerSession) : Type 0 where
  pub listed :
      (k : ClientId) (slot : PeerSlot)
      → find_key k s.peers ≡ some slot
      → (k ≢ self) × (find_key k s.roster ≢ none)
  pub reached :
      (k : ClientId) (info : ClientInfo)
      → find_key k s.roster ≡ some info
      → k ≢ self
      → is_empty_text info.peer_endpoint ≡ false
      → has_key k s.peers ≡ true

module _ (self : ClientId) (e : RosterEvent) (s : PeerSession) (t : IsTuned self s) where
  own-IsTuned : e.client.id ≡ self → IsTuned self (record s { roster = apply_event e s.roster })
  unfolding apply_event
  own-IsTuned own = record {
    listed = λ k slot f. (
      (t.listed k slot f).0,
      λ g. (t.listed k slot f).1 (
          ground (
            arith,
            g,
            (t.listed k slot f).0,
            find-put k e.client.id e.client s.roster,
            find-erase k e.client.id s.roster,
          )),
    );
    reached = λ k info f other reach.
        t.reached k info
          (ground
            (arith, f, find-put k e.client.id e.client s.roster, find-erase k e.client.id s.roster))
          other reach;
  }

  joined-IsTuned :
      e.client.id ≢ self
      → (e.change == joined_change) ≡ true
      → IsTuned self (
          connect e.client.id e.client.peer_endpoint (record s { roster = apply_event e s.roster }))
  unfolding apply_event connect
  joined-IsTuned other change =
      let id = e.client.id in
      let fresh : PeerSlot = record { endpoint = e.client.peer_endpoint; latest = empty_slot } in
      elim (Bool-cases (is_empty_text e.client.peer_endpoint || has_key id s.peers)) [
        | inl skip ↦
            rw (change, skip, connect)
              (record {
                listed = λ k slot f. (
                  (t.listed k slot f).0,
                  λ g. (t.listed k slot f).1 (ground (arith, g, find-put k id e.client s.roster)),
                );
                reached = λ k info f o reach.
                    ground (arith, f, skip, find-put k id e.client s.roster, t.reached k info);
              })
        | inr new ↦
            rw (change, new, connect)
              (record {
                listed = λ k slot f. elim (Bool-cases (k == id)) [
                  | inl same ↦ (
                    λ g. other (ground (arith, g, same)),
                    λ g. absurd (ground (arith, g, same, find-put k id e.client s.roster)),
                  )
                  | inr apart ↦
                      let old =
                        t.listed k slot (ground (arith, f, apart, find-put k id fresh s.peers)) in
                      (
                        old.0,
                        λ g. old.1 (ground (arith, g, apart, find-put k id e.client s.roster)),
                      )
                ];
                reached = λ k info f o reach. ground (
                  arith,
                  f,
                  find-put k id e.client s.roster,
                  find-put k id fresh s.peers,
                  t.reached k info,
                );
              })
      ]

  left-IsTuned :
      e.client.id ≢ self
      → (e.change == joined_change) ≡ false
      → IsTuned self (disconnect e.client.id (record s { roster = apply_event e s.roster }))
  unfolding apply_event disconnect
  left-IsTuned other change = rw change (record {
    listed = λ k slot f.
        let old = t.listed k slot (ground (arith, f, find-erase k e.client.id s.peers)) in
        (
          old.0,
          λ g. old.1 (
              ground
                (arith, g, f, find-erase k e.client.id s.peers, find-erase k e.client.id s.roster)),
        );
    reached = λ k info f o reach. ground (
      arith,
      f,
      find-erase k e.client.id s.roster,
      find-erase k e.client.id s.peers,
      t.reached k info,
    );
  })

follow_event_joined :
    (self : ClientId) (e : RosterEvent) (s : PeerSession) (world : Replicator × Scene)
    → (e.client.id == self) ≡ false
    → (e.change == joined_change) ≡ true
    → (follow_event self e (s, world)).0
      ≡ connect e.client.id e.client.peer_endpoint (record s { roster = apply_event e s.roster })
unfolding follow_event
follow_event_joined self e s world other joins = rw (other, joins)

follow_event_left :
    (self : ClientId) (e : RosterEvent) (s : PeerSession) (world : Replicator × Scene)
    → (e.client.id == self) ≡ false
    → (e.change == joined_change) ≡ false
    → (follow_event self e (s, world)).0
      ≡ disconnect e.client.id (record s { roster = apply_event e s.roster })
unfolding follow_event
follow_event_left self e s world other leaves = rw (other, leaves)

connect-roster :
    (id : ClientId) (endpoint : Bytes) (s : PeerSession) → (connect id endpoint s).roster ≡ s.roster
unfolding connect
connect-roster id endpoint s = elim (Bool-cases (is_empty_text endpoint || has_key id s.peers)) [
  | inl e ↦ rw (e, connect)
  | inr e ↦ rw (e, connect)
]

follow_event-IsTuned :
    (self : ClientId) (e : RosterEvent) (w : PeerSession × (Replicator × Scene))
    → IsTuned self w.0
    → IsTuned self (follow_event self e w).0
      × ((follow_event self e w).0.roster ≡ apply_event e w.0.roster)
unfolding follow_event connect disconnect
follow_event-IsTuned self e (s, world) t = elim (Bool-cases (e.client.id == self)) [
  | inl own ↦ rw own (own-IsTuned self e s t (ground arith), refl)
  | inr other ↦ elim (Bool-cases (e.change == joined_change)) [
    | inl joins ↦
        let known : PeerSession = record s { roster = apply_event e s.roster } in
        let same = follow_event_joined self e s world other joins in
        (
          subst (IsTuned self) (sym same) (joined-IsTuned self e s t (ground arith) joins),
          ap (λ (q : PeerSession). q.roster) same
              ∙ connect-roster e.client.id e.client.peer_endpoint known,
        )
    | inr leaves ↦
        let same = follow_event_left self e s world other leaves in
        (
          subst (IsTuned self) (sym same) (left-IsTuned self e s t (ground arith) leaves),
          ap (λ (q : PeerSession). q.roster) same,
        )
  ]
]

-- Whatever roster events come to a session of which this holds already, such as one without peers and
-- roster: the roster is what the events say,
-- every connected peer is on it and is not this client, and every other client on it that has an
-- endpoint is a connected peer.
pub follow_events-IsTuned :
    (self : ClientId) (es : List RosterEvent) (w : PeerSession × (Replicator × Scene))
    → IsTuned self w.0
    → IsTuned self (follow_events self es w).0
      × ((follow_events self es w).0.roster ≡ replay es w.0.roster)
unfolding follow_events replay
follow_events-IsTuned self [] w t = (t, refl)
follow_events-IsTuned self (e ∷ es) w t =
    let one = follow_event-IsTuned self e w t in
    let rest = follow_events-IsTuned self es (follow_event self e w) one.0 in
    (rest.0, rest.1 ∙ ap (replay es) one.1)
