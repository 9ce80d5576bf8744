-- ===== src/Server/Joining.antt =====
-- src/networking/sessionServer.cpp: what handleJoin promises.
use gef_engine.Prelude.{
  ℕ, ◌+◌, ◌<◌, ◌≤◌, ◌≡◌, ◌≢◌, refl, sym, ap, subst, ◌∙◌, inl, inr, true, false, [], ◌∷◌, ◌++◌,
  Option, none, some, Map, Under, All, All-map, ◌⊎◌, arith, ltb, Bool-cases, Option-cases,
}
use gef_engine.Prelude.MapLaws.{put_last}
use gef_engine.Protocol.{JoinRequest, JoinReply, ok_status, rejected_join}
use gef_engine.Server.{ClientSlot, Server, find_token, add_client, admit, accepted_join, new_slot}
use gef_engine.Server.Valid.{infos, IsValid}

find_token-append :
    (token : ℕ) (m : Map ClientSlot) (id : ℕ) (slot : ClientSlot)
    → find_token token m ≡ none
    → slot.token ≡ token
    → find_token token (m ++ ((id, slot) ∷ [])) ≡ some (id, slot)
unfolding find_token
find_token-append token [] id slot e h = ground arith
find_token-append token ((j, w) ∷ m) id slot e h = ground (arith, find_token-append token m id slot)

Under-infos : (n : ℕ) (m : Map ClientSlot) → Under n (infos m) → Under n m
Under-infos n [] u = tt
Under-infos n ((j, w) ∷ m) u = (u.0, Under-infos n m u.1)

-- A client that is added is found by its token.
add_client-find_token :
    (port now : ℕ) (req : JoinRequest) (s : Server)
    → IsValid s
    → find_token req.token s.clients ≡ none
    → find_token req.token (add_client port now req s).0.clients
      ≡ some (s.next_id, new_slot s.next_id port now req)
unfolding add_client
add_client-find_token port now req s v e =
    let slot = new_slot s.next_id port now req in
    rw (put_last s.next_id slot s.clients (Under-infos s.next_id s.clients v.book.below))
      (find_token-append req.token s.clients s.next_id slot e refl)

admit_known :
    (socket : Option ℕ) (now : ℕ) (req : JoinRequest) (s : Server) (id : ℕ) (slot : ClientSlot)
    → find_token req.token s.clients ≡ some (id, slot)
    → admit socket now req s ≡ (s, accepted_join id slot.port)
unfolding admit
admit_known socket now req s id slot e = rw (e, admit)

admit_full :
    (socket : Option ℕ) (now : ℕ) (req : JoinRequest) (s : Server)
    → find_token req.token s.clients ≡ none
    → ltb 255 s.next_id ≡ true
    → admit socket now req s ≡ (s, rejected_join)
unfolding admit
admit_full socket now req s e full = rw (e, full, admit)

admit_unbound :
    (now : ℕ) (req : JoinRequest) (s : Server)
    → find_token req.token s.clients ≡ none
    → admit none now req s ≡ (s, rejected_join)
unfolding admit
admit_unbound now req s e = ground (arith, e)

pub admit_added :
    (port now : ℕ) (req : JoinRequest) (s : Server)
    → find_token req.token s.clients ≡ none
    → ltb 255 s.next_id ≡ false
    → admit (some port) now req s ≡ add_client port now req s
unfolding admit
admit_added port now req s e free = rw (e, free, admit)

abbrev Retried : JoinRequest → Server × JoinReply → Type 0
Retried req r =
    r.1.status ≡ ok_status → (socket : Option ℕ) (now : ℕ) → admit socket now req r.0 ≡ (r.0, r.1)

rejected_Retried : (req : JoinRequest) (s : Server) → Retried req (s, rejected_join)
rejected_Retried req s ok = absurd (omega arith)

pub add_client-reply :
    (port now : ℕ) (req : JoinRequest) (s : Server)
    → (add_client port now req s).1 ≡ accepted_join s.next_id port
unfolding add_client
add_client-reply port now req s = refl

add_client-Retried :
    (port now : ℕ) (req : JoinRequest) (s : Server)
    → IsValid s
    → find_token req.token s.clients ≡ none
    → Retried req (add_client port now req s)
add_client-Retried port now req s v e ok socket' now' =
    admit_known socket' now' req (add_client port now req s).0 s.next_id
      (new_slot s.next_id port now req) (add_client-find_token port now req s v e)
    ∙ ap (λ r. ((add_client port now req s).0, r)) (sym (add_client-reply port now req s))

-- A join that was accepted may be retried, with any socket: until another operation comes in between
-- it gets the same id and port, and the server stays as the first one left it.
pub admit_retried :
    (socket : Option ℕ) (now : ℕ) (req : JoinRequest) (s : Server)
    → IsValid s
    → (admit socket now req s).1.status ≡ ok_status
    → (socket' : Option ℕ) (now' : ℕ)
    → admit socket' now' req (admit socket now req s).0
      ≡ ((admit socket now req s).0, (admit socket now req s).1)
admit_retried socket now req s v = elim (Option-cases (find_token req.token s.clients)) [
  | inr ((id, slot), e) ↦
      subst (Retried req) (sym (admit_known socket now req s id slot e))
        (λ ok socket' now'. admit_known socket' now' req s id slot e)
  | inl e ↦ elim (Bool-cases (ltb 255 s.next_id)) [
    | inl full ↦
        subst (Retried req) (sym (admit_full socket now req s e full)) (rejected_Retried req s)
    | inr free ↦ elim (Option-cases socket) [
      | inl bad ↦
          rw bad (subst (Retried req) (sym (admit_unbound now req s e)) (rejected_Retried req s))
      | inr (port, good) ↦ rw good (
          subst (Retried req) (sym (admit_added port now req s e free))
            (add_client-Retried port now req s v e))
    ]
  ]
]

add_client-next_id :
    (port now : ℕ) (req : JoinRequest) (s : Server)
    → s.next_id ≤ 255
    → (add_client port now req s).0.next_id ≡ s.next_id + 1
unfolding add_client
add_client-next_id port now req s h = omega arith

-- A token that no client has gets a new client exactly when an id is left and its socket can be
-- bound. The id is the next one, which no event of the roster log ever named; otherwise the reply is
-- a rejection and the server is unchanged.
pub admit_new :
    (socket : Option ℕ) (now : ℕ) (req : JoinRequest) (s : Server)
    → IsValid s
    → find_token req.token s.clients ≡ none
    → ((port : ℕ) × (socket ≡ some port)
        × (s.next_id ≤ 255)
        × ((admit socket now req s).1 ≡ accepted_join s.next_id port)
        × ((admit socket now req s).0.next_id ≡ s.next_id + 1)
        × All (λ e. e.client.id ≢ s.next_id) s.roster_log)
      ⊎ (((socket ≡ none) ⊎ (255 < s.next_id)) × (admit socket now req s ≡ (s, rejected_join)))
admit_new socket now req s v e = elim (Bool-cases (ltb 255 s.next_id)) [
  | inl full ↦ inr (inr (ground arith), admit_full socket now req s e full)
  | inr free ↦ elim (Option-cases socket) [
    | inl bad ↦ inr (inl bad, rw bad (admit_unbound now req s e))
    | inr (port, good) ↦
        let added = admit_added port now req s e free in
        inl (
          port,
          good,
          ground arith,
          rw (good, added) (add_client-reply port now req s),
          rw (good, added) (add_client-next_id port now req s (ground arith)),
          All-map (λ x. x.client.id < s.next_id) (λ x. x.client.id ≢ s.next_id) (λ x h. omega arith)
              s.roster_log v.book.logged,
        )
  ]
]
