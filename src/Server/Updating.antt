-- ===== src/Server/Updating.antt =====
-- src/networking/sessionServer.cpp: what handleUpdate does to messages, states and membership.
use gef_engine.Prelude.{
  ℕ, ◌%◌, ◌^◌, ◌≡◌, ◌≢◌, refl, ◌⊎◌, inl, inr, none, some, find_key, arith, ◌==◌, ==_refl, ==_of_ne,
  length, Bool-cases, Option-cases,
}
use gef_engine.Prelude.MapLaws.{find-put}
use gef_engine.Channel.{Intake, take_in, drop_acked}
use gef_engine.Protocol.{
  ClientId, UpdateRequest, blank_reply, ok_status, rejected_status, unknown_client_status,
  leave_kind,
}
use gef_engine.Server.{ClientSlot, Server, retire, retire_slot}
use gef_engine.Server.Exchange.{
  updated_slot, absorb, roster_since, base_reply, snapshot_due, mark_sent, attach_snapshot, answer,
  exchange, respond,
}

-- The intake of a client's messages into the server's inbox.
abbrev pub intake_of : ClientId → UpdateRequest → ClientSlot → Server → Intake
intake_of id req slot s =
    take_in id req.messages (record { last = slot.last_received_seq; inbox = s.inbox })

pub respond_known :
    (id now : ℕ) (req : UpdateRequest) (slot : ClientSlot) (s : Server)
    → req.id ≡ id
    → find_key id s.clients ≡ some slot
    → respond id now req s ≡ exchange id now req slot s
unfolding respond
respond_known id now req slot s own e = ground (arith, e, own)

-- The fields of a reply that the snapshot and a departure leave alone.
pub answer-reply :
    (id : ℕ) (req : UpdateRequest) (slot : ClientSlot) (s : Server)
    → ((answer id req slot s).1.status ≡ ok_status)
      × ((answer id req slot s).1.ack_seq ≡ slot.last_received_seq)
      × ((answer id req slot s).1.messages ≡ slot.outbox)
      × ((answer id req slot s).1.roster_version ≡ length s.roster_log % 2 ^ 32)
      × ((answer id req slot s).1.roster_events ≡ roster_since req.roster_version s)
unfolding answer base_reply attach_snapshot
answer-reply id req slot s = elim (Bool-cases (req.kind == leave_kind)) [
  | inl leaving ↦ rw (leaving, answer) (refl, refl, refl, refl, refl)
  | inr staying ↦ elim (Bool-cases (snapshot_due slot s)) [
    | inl due ↦ rw (staying, due, answer) (refl, refl, refl, refl, refl)
    | inr idle ↦ rw (staying, idle, answer) (refl, refl, refl, refl, refl)
  ]
]

retire-inbox : (id : ℕ) (s : Server) → (retire id s).inbox ≡ s.inbox
unfolding retire retire_slot
retire-inbox id s = ground arith

answer-inbox :
    (id : ℕ) (req : UpdateRequest) (slot : ClientSlot) (s : Server)
    → (answer id req slot s).0.inbox ≡ s.inbox
unfolding answer attach_snapshot
answer-inbox id req slot s = ground (arith, retire-inbox id s)

-- A client that stays keeps the slot that the exchange made, but for the snapshot's marks.
answer-slot :
    (id : ℕ) (req : UpdateRequest) (slot : ClientSlot) (s : Server)
    → req.kind ≢ leave_kind
    → find_key id s.clients ≡ some slot
    → (slot' : ClientSlot) × (find_key id (answer id req slot s).0.clients ≡ some slot')
      × (slot'.last_received_seq ≡ slot.last_received_seq)
      × (slot'.next_send_seq ≡ slot.next_send_seq)
      × (slot'.outbox ≡ slot.outbox)
unfolding answer attach_snapshot mark_sent
answer-slot id req slot s stay e = elim (Bool-cases (snapshot_due slot s)) [
  | inl due ↦
      rw (==_of_ne req.kind leave_kind stay, due, answer)
        (mark_sent slot s, rw (find-put, ==_refl id), refl, refl, refl)
  | inr idle ↦ rw (==_of_ne req.kind leave_kind stay, idle, answer) (slot, e, refl, refl, refl)
]

-- Which of the requests that can be decoded are refused, and that a refusal changes nothing: `Rejected` for one that carries
-- another client's id, `UnknownClient` for a client that is not there (never joined, left or timed
-- out). Every other such request is answered `Ok`.
pub respond_status :
    (id now : ℕ) (req : UpdateRequest) (s : Server)
    → ((req.id ≢ id)
        × (respond id now req s ≡ (s, record blank_reply { status = rejected_status })))
      ⊎ ((req.id ≡ id)
          × (find_key id s.clients ≡ none)
          × (respond id now req s ≡ (s, record blank_reply { status = unknown_client_status })))
      ⊎ ((req.id ≡ id)
          × ((slot : ClientSlot) × (find_key id s.clients ≡ some slot))
          × ((respond id now req s).1.status ≡ ok_status))
respond_status id now req s = elim (Bool-cases (req.id == id)) [
  | inr other ↦ inl (ground arith, unfold respond in rw other)
  | inl own ↦ elim (Option-cases (find_key id s.clients)) [
    | inl e ↦ inr (inl (ground arith, e, unfold respond in rw (own, e, respond)))
    | inr (slot, e) ↦ inr (
        inr (
          ground arith,
          (slot, e),
          rw (respond_known id now req slot s (ground arith) e)
              (unfold exchange in (answer-reply id req _ (absorb id now req slot s)).0),
        ))
  ]
]

-- An exchange takes messages as the receiving end of a link does: the inbox and the acknowledgement
-- are those of `take_in`. It sends as the sending end does: the reply carries what is left of the
-- outbox behind the acknowledgement. And the reply carries the size of the roster log.
pub respond_messages :
    (id now : ℕ) (req : UpdateRequest) (slot : ClientSlot) (s : Server)
    → req.id ≡ id
    → find_key id s.clients ≡ some slot
    → ((respond id now req s).0.inbox ≡ (intake_of id req slot s).inbox)
      × ((respond id now req s).1.ack_seq ≡ (intake_of id req slot s).last)
      × ((respond id now req s).1.messages ≡ drop_acked req.ack_seq slot.outbox)
      × ((respond id now req s).1.roster_version ≡ length s.roster_log % 2 ^ 32)
unfolding exchange absorb updated_slot
respond_messages id now req slot s own e =
    let slot' = updated_slot now req (intake_of id req slot s) slot in
    let s' = absorb id now req slot s in
    let reply = answer-reply id req slot' s' in
    rw (respond_known id now req slot s own e)
      (answer-inbox id req slot' s', reply.1, reply.2, reply.3)

-- A client that does not leave keeps a slot with the number reached, the acknowledged messages gone
-- from its outbox, and the number of its next message as it was.
pub respond_slot :
    (id now : ℕ) (req : UpdateRequest) (slot : ClientSlot) (s : Server)
    → req.id ≡ id
    → find_key id s.clients ≡ some slot
    → req.kind ≢ leave_kind
    → (slot' : ClientSlot) × (find_key id (respond id now req s).0.clients ≡ some slot')
      × (slot'.last_received_seq ≡ (intake_of id req slot s).last)
      × (slot'.next_send_seq ≡ slot.next_send_seq)
      × (slot'.outbox ≡ drop_acked req.ack_seq slot.outbox)
unfolding exchange absorb updated_slot
respond_slot id now req slot s own e stay = rw (respond_known id now req slot s own e) (
    answer-slot id req (updated_slot now req (intake_of id req slot s) slot)
      (absorb id now req slot s) stay (rw (find-put, ==_refl id)))
