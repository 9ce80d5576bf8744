-- ===== src/Server/Moves.antt =====
-- src/networking/sessionServer.cpp: no operation on the state loses a slot. A client that was
-- there is there afterwards, or waits in `retired` for its thread to be joined.
use gef_engine.Prelude.{
  ℕ, ◌<◌, ◌≤◌, ◌≡◌, ◌⊎◌, refl, sym, subst, inl, inr, true, List, [], ◌∷◌, ◌++◌, Option, some, Map,
  find_key, put_key, has_key, arith, ltb, ◌==◌, Bool-cases, Option-cases,
}
use gef_engine.Prelude.MapLaws.{find-put, find-erase}
use gef_engine.Codec.{Bytes}
use gef_engine.Channel.{take_in}
use gef_engine.Protocol.{ClientId, JoinRequest, UpdateRequest, leave_kind}
use gef_engine.Protocol.Decode.{decode_join_request, decode_update_request}
use gef_engine.Server.{
  ClientSlot, Server, retire, retire_slot, find_token, add_client, admit, handle_join, new_slot,
}
use gef_engine.Server.Exchange.{
  updated_slot, absorb, snapshot_due, mark_sent, attach_snapshot, answer, exchange, respond,
  handle_update,
}
use gef_engine.Server.Methods.{
  silent, retire_each, watchdog_round, push_message, send, push_to_all, broadcast,
}
use gef_engine.Server.Valid.{infos, IsValid, Keyed-find}
use gef_engine.Server.Steps.{find-infos, retire-IsValid}
use gef_engine.Server.Handling.{absorb-IsValid}

abbrev pub Filed : ClientId → List ClientSlot → Type 0
Filed k [] = ⊥
Filed k (slot ∷ slots) = (slot.info.id ≡ k) ⊎ Filed k slots

pub Filed-left : (k : ClientId) (a b : List ClientSlot) → Filed k a → Filed k (a ++ b)
Filed-left k [] b h = absurd h
Filed-left k (slot ∷ a) b (inl e) = inl e
Filed-left k (slot ∷ a) b (inr h) = inr (Filed-left k a b h)

pub Filed-right : (k : ClientId) (a b : List ClientSlot) → Filed k b → Filed k (a ++ b)
Filed-right k [] b h = h
Filed-right k (slot ∷ a) b h = inr (Filed-right k a b h)

abbrev pub Held : ClientId → Server → Type 0
Held k s = (has_key k s.clients ≡ true) ⊎ Filed k s.retired

pub record Moves (s t : Server) : Type 0 where
  pub up : s.next_id ≤ t.next_id
  pub held : (k : ClientId) → Held k s → Held k t
  pub born : (k : ClientId) → s.next_id ≤ k → k < t.next_id → Held k t

pub Moves-refl : (s : Server) → Moves s s
Moves-refl s = record { up = omega arith; held = λ k h. h; born = λ k a b. absurd (omega arith) }

pub Moves-trans : {s t u : Server} → Moves s t → Moves t u → Moves s u
Moves-trans {s} {t} {u} a b = record {
  up = omega (arith, a.up, b.up);
  held = λ k h. b.held k (a.held k h);
  born = λ k l h. elim (Bool-cases (ltb k t.next_id)) [
    | inl e ↦ b.held k (a.born k l (ground (arith, e)))
    | inr e ↦ b.born k (ground (arith, e)) h
  ];
}

-- A slot is changed, or the clients are left alone.
pub same_keys :
    (s t : Server)
    → t.next_id ≡ s.next_id
    → t.retired ≡ s.retired
    → ((k : ClientId) → has_key k s.clients ≡ true → has_key k t.clients ≡ true)
    → Moves s t
same_keys s t e r h = record {
  up = omega (arith, e);
  held = λ k x. elim x [
    | inl there ↦ inl (h k there)
    | inr filed ↦ inr (subst (Filed k) (sym r) filed)
  ];
  born = λ k a b. absurd (omega (arith, e));
}

put_keeps :
    (id : ClientId) (slot : ClientSlot) (m : Map ClientSlot) (k : ClientId)
    → has_key k m ≡ true
    → has_key k (put_key id slot m) ≡ true
put_keeps id slot m k h = ground (arith, h, find-put k id slot m)

retire_slot-Moves :
    (id : ClientId) (slot : ClientSlot) (s : Server)
    → slot.info.id ≡ id
    → Moves s (retire_slot id slot s)
unfolding retire_slot
retire_slot-Moves id slot s e =
    let gone = record slot { stopped = true } ∷ [] in
    record {
      up = omega arith;
      held = λ k h. elim h [
        | inl there ↦ elim (Bool-cases (k == id)) [
          | inl own ↦ inr (Filed-right k s.retired gone (inl (ground (arith, own, e))))
          | inr other ↦ inl (ground (arith, other, there, find-erase k id s.clients))
        ]
        | inr filed ↦ inr (Filed-left k s.retired gone filed)
      ];
      born = λ k a b. absurd (omega arith);
    }

pub retire-Moves : (id : ClientId) (s : Server) → IsValid s → Moves s (retire id s)
unfolding retire
retire-Moves id s v = elim (Option-cases (find_key id s.clients)) [
  | inl e ↦ rw (e, retire) (Moves-refl s)
  | inr (slot, e) ↦
      rw (e, retire)
        (retire_slot-Moves id slot s
          (Keyed-find id slot.info (infos s.clients) v.book.keyed (find-infos id slot s.clients e)))
]

retire_each-Moves : (ids : List ClientId) (s : Server) → IsValid s → Moves s (retire_each ids s)
unfolding retire_each
retire_each-Moves [] s v = Moves-refl s
retire_each-Moves (id ∷ ids) s v =
    Moves-trans (retire-Moves id s v) (retire_each-Moves ids (retire id s) (retire-IsValid id s v))

-- The watchdog takes the retired slots with it.
pub watchdog_round-Moves :
    (now : ℕ) (s : Server)
    → IsValid s
    → Moves s (record (watchdog_round now s).0 { retired = (watchdog_round now s).1 })
unfolding watchdog_round
watchdog_round-Moves now s v =
    let m = retire_each-Moves (silent s.client_timeout now s.clients) s v in
    record { up = m.up; held = m.held; born = m.born }

add_client-Moves :
    (port now : ℕ) (req : JoinRequest) (s : Server)
    → s.next_id ≤ 255
    → Moves s (add_client port now req s).0
unfolding add_client
add_client-Moves port now req s h =
    let slot = new_slot s.next_id port now req in
    record {
      up = omega arith;
      held = λ k x. elim x [
        | inl there ↦ inl (put_keeps s.next_id slot s.clients k there)
        | inr filed ↦ inr filed
      ];
      born = λ k a b.
          let same : k ≡ s.next_id = omega arith in
          inl (ground (arith, same, find-put k s.next_id slot s.clients));
    }

admit-Moves :
    (socket : Option ℕ) (now : ℕ) (req : JoinRequest) (s : Server)
    → Moves s (admit socket now req s).0
unfolding admit
admit-Moves socket now req s = elim (Option-cases (find_token req.token s.clients)) [
  | inr (found, e) ↦ rw (e, admit) (Moves-refl s)
  | inl e ↦ elim (Bool-cases (ltb 255 s.next_id)) [
    | inl full ↦ rw (e, full, admit) (Moves-refl s)
    | inr free ↦ elim (Option-cases socket) [
      | inl bad ↦ rw (e, free, bad, admit) (Moves-refl s)
      | inr (port, good) ↦
          rw (e, free, good, admit) (add_client-Moves port now req s (ground arith))
    ]
  ]
]

pub handle_join-Moves :
    (socket : Option ℕ) (now : ℕ) (request : Bytes) (s : Server)
    → Moves s (handle_join socket now request s).0
unfolding handle_join
handle_join-Moves socket now request s = elim (Option-cases (decode_join_request request)) [
  | inl e ↦ rw (e, handle_join) (Moves-refl s)
  | inr (req, e) ↦ rw (e, handle_join) (admit-Moves socket now req s)
]

answer-Moves :
    (id : ClientId) (req : UpdateRequest) (slot : ClientSlot) (s : Server)
    → IsValid s
    → Moves s (answer id req slot s).0
unfolding answer attach_snapshot
answer-Moves id req slot s v = elim (Bool-cases (req.kind == leave_kind)) [
  | inl leaving ↦ rw (leaving, answer) (retire-Moves id s v)
  | inr staying ↦ elim (Bool-cases (snapshot_due slot s)) [
    | inl due ↦
        rw (staying, due, answer, attach_snapshot)
          (same_keys s (record s { clients = put_key id (mark_sent slot s) s.clients }) refl refl
            (put_keeps id (mark_sent slot s) s.clients))
    | inr not_due ↦ rw (staying, not_due, answer, attach_snapshot) (Moves-refl s)
  ]
]

exchange-Moves :
    (id now : ℕ) (req : UpdateRequest) (slot : ClientSlot) (s : Server)
    → find_key id s.clients ≡ some slot
    → IsValid s
    → Moves s (exchange id now req slot s).0
unfolding exchange absorb
exchange-Moves id now req slot s e v =
    let intake =
      take_in id req.messages (record { last = slot.last_received_seq; inbox = s.inbox }) in
    let slot' = updated_slot now req intake slot in
    Moves-trans (same_keys s (absorb id now req slot s) refl refl (put_keeps id slot' s.clients))
      (answer-Moves id req slot' (absorb id now req slot s) (absorb-IsValid id now req slot s v e))

pub handle_update-Moves :
    (id now : ℕ) (request : Bytes) (s : Server)
    → IsValid s
    → Moves s (handle_update id now request s).0
unfolding handle_update respond
handle_update-Moves id now request s v = elim (Option-cases (decode_update_request request)) [
  | inl bad ↦ rw (bad, handle_update) (Moves-refl s)
  | inr (req, good) ↦
      rw (good, handle_update)
        (elim (Bool-cases (req.id == id)) [
          | inr other ↦ rw (other, respond) (Moves-refl s)
          | inl own ↦ elim (Option-cases (find_key id s.clients)) [
            | inl e ↦ rw (own, e, respond) (Moves-refl s)
            | inr (slot, e) ↦ rw (own, e, respond) (exchange-Moves id now req slot s e v)
          ]
        ])
]

pub send-Moves :
    (to type : ℕ) (payload : Bytes) (tick : ℕ) (s : Server) → Moves s (send to type payload tick s)
unfolding send
send-Moves to type payload tick s = elim (Option-cases (find_key to s.clients)) [
  | inl e ↦ rw (e, send) (Moves-refl s)
  | inr (slot, e) ↦
      let slot' = push_message type payload tick slot in
      rw (e, send)
        (same_keys s (record s { clients = put_key to slot' s.clients }) refl refl
          (put_keeps to slot' s.clients))
]

push_to_all_keeps :
    (type : ℕ) (payload : Bytes) (tick : ℕ) (m : Map ClientSlot) (k : ClientId)
    → has_key k m ≡ true
    → has_key k (push_to_all type payload tick m) ≡ true
unfolding push_to_all find_key
push_to_all_keeps type payload tick [] k h = h
push_to_all_keeps type payload tick ((id, slot) ∷ m) k h =
    ground (arith, h, push_to_all_keeps type payload tick m k)

pub broadcast-Moves :
    (type : ℕ) (payload : Bytes) (tick : ℕ) (s : Server) → Moves s (broadcast type payload tick s)
unfolding broadcast
broadcast-Moves type payload tick s =
    same_keys s (record s { clients = push_to_all type payload tick s.clients }) refl refl
      (push_to_all_keeps type payload tick s.clients)
