-- ===== src/Server/Handling.antt =====
-- src/networking/sessionServer.cpp: the handlers, the watchdog and the methods keep the invariant.
use gef_engine.Prelude.{
  ℕ, ◌≡◌, refl, sym, ap, subst, inl, inr, List, [], ◌∷◌, Option, some, Map, find_key, arith, ◌==◌,
  ==_refl, Bool-cases, Option-cases,
}
use gef_engine.Prelude.MapLaws.{find-put}
use gef_engine.Codec.{Bytes}
use gef_engine.Channel.{take_in}
use gef_engine.Protocol.{ClientId, UpdateRequest, UpdateReply, leave_kind}
use gef_engine.Protocol.Decode.{decode_join_request, decode_update_request}
use gef_engine.Server.{ClientSlot, Server, retire, handle_join}
use gef_engine.Server.Exchange.{
  updated_slot, absorb, base_reply, snapshot_due, mark_sent, attach_snapshot, answer, exchange,
  respond, handle_update,
}
use gef_engine.Server.Methods.{
  silent, retire_each, watchdog_round, push_message, send, push_to_all, broadcast,
}
use gef_engine.Server.Valid.{infos, IsBook, IsValid, infos-put}
use gef_engine.Server.Steps.{find-infos, admit-IsValid, retire-IsValid, slot-IsValid}

pub absorb-IsValid :
    (id now : ℕ) (req : UpdateRequest) (slot : ClientSlot) (s : Server)
    → IsValid s
    → find_key id s.clients ≡ some slot
    → IsValid (absorb id now req slot s)
unfolding absorb
absorb-IsValid id now req slot s v e =
    let intake =
      take_in id req.messages (record { last = slot.last_received_seq; inbox = s.inbox }) in
    let there = slot-IsValid id slot (updated_slot now req intake slot) s v e refl in
    record {
      book = there.book;
      live = λ k h. ground (
        arith,
        there.live k h,
        h,
        infos-put id slot (updated_slot now req intake slot) s.clients v.book.ordered e refl,
        find-infos id slot s.clients e,
        find-put k id (record { from = id; tick = req.tick; payload = req.state }) s.states,
      );
    }

attach_snapshot-IsValid :
    (id : ClientId) (slot : ClientSlot) (reply : UpdateReply) (s : Server)
    → find_key id s.clients ≡ some slot
    → IsValid s
    → IsValid (attach_snapshot id slot reply s).0
unfolding attach_snapshot
attach_snapshot-IsValid id slot reply s e v = elim (Bool-cases (snapshot_due slot s)) [
  | inl due ↦ rw (due, attach_snapshot) (slot-IsValid id slot (mark_sent slot s) s v e refl)
  | inr not_due ↦ rw (not_due, attach_snapshot) v
]

answer-IsValid :
    (id : ClientId) (req : UpdateRequest) (slot : ClientSlot) (s : Server)
    → find_key id s.clients ≡ some slot
    → IsValid s
    → IsValid (answer id req slot s).0
unfolding answer
answer-IsValid id req slot s e v = elim (Bool-cases (req.kind == leave_kind)) [
  | inl leaving ↦ rw (leaving, answer) (retire-IsValid id s v)
  | inr staying ↦
      rw (staying, answer) (attach_snapshot-IsValid id slot (base_reply req slot s) s e v)
]

-- The slot that `exchange` goes on with is the one that `absorb` filed.
pub find-absorb :
    (id now : ℕ) (req : UpdateRequest) (slot : ClientSlot) (s : Server)
    → find_key id (absorb id now req slot s).clients
      ≡ some (
          updated_slot now req
            (take_in id req.messages (record { last = slot.last_received_seq; inbox = s.inbox }))
            slot)
unfolding absorb
find-absorb id now req slot s = rw (find-put, ==_refl id)

exchange-IsValid :
    (id now : ℕ) (req : UpdateRequest) (slot : ClientSlot) (s : Server)
    → find_key id s.clients ≡ some slot
    → IsValid s
    → IsValid (exchange id now req slot s).0
unfolding exchange
exchange-IsValid id now req slot s e v =
    answer-IsValid id req _ (absorb id now req slot s) (find-absorb id now req slot s)
      (absorb-IsValid id now req slot s v e)

pub respond-IsValid :
    (id now : ℕ) (req : UpdateRequest) (s : Server) → IsValid s → IsValid (respond id now req s).0
unfolding respond
respond-IsValid id now req s v = elim (Bool-cases (req.id == id)) [
  | inr other ↦ rw (other, respond) v
  | inl own ↦ elim (Option-cases (find_key id s.clients)) [
    | inl e ↦ rw (own, e, respond) v
    | inr (slot, e) ↦ rw (own, e, respond) (exchange-IsValid id now req slot s e v)
  ]
]

pub handle_join-IsValid :
    (socket : Option ℕ) (now : ℕ) (request : Bytes) (s : Server)
    → IsValid s
    → IsValid (handle_join socket now request s).0
unfolding handle_join
handle_join-IsValid socket now request s v = elim (Option-cases (decode_join_request request)) [
  | inl e ↦ rw (e, handle_join) v
  | inr (req, e) ↦ rw (e, handle_join) (admit-IsValid socket now req s v)
]

pub handle_update-IsValid :
    (id now : ℕ) (request : Bytes) (s : Server)
    → IsValid s
    → IsValid (handle_update id now request s).0
unfolding handle_update
handle_update-IsValid id now request s v = elim (Option-cases (decode_update_request request)) [
  | inl e ↦ rw (e, handle_update) v
  | inr (req, e) ↦ rw (e, handle_update) (respond-IsValid id now req s v)
]

pub retire_each-IsValid :
    (ids : List ClientId) (s : Server) → IsValid s → IsValid (retire_each ids s)
unfolding retire_each
retire_each-IsValid [] s v = v
retire_each-IsValid (id ∷ ids) s v = retire_each-IsValid ids (retire id s) (retire-IsValid id s v)

pub watchdog_round-IsValid : (now : ℕ) (s : Server) → IsValid s → IsValid (watchdog_round now s).0
unfolding watchdog_round
watchdog_round-IsValid now s v =
    let swept = retire_each-IsValid (silent s.client_timeout now s.clients) s v in
    record { book = swept.book; live = swept.live }

pub send-IsValid :
    (to type : ℕ) (payload : Bytes) (tick : ℕ) (s : Server)
    → IsValid s
    → IsValid (send to type payload tick s)
unfolding send
send-IsValid to type payload tick s v = elim (Option-cases (find_key to s.clients)) [
  | inl e ↦ rw (e, send) v
  | inr (slot, e) ↦
      rw (e, send) (slot-IsValid to slot (push_message type payload tick slot) s v e refl)
]

infos-push_to_all :
    (type : ℕ) (payload : Bytes) (tick : ℕ) (m : Map ClientSlot)
    → infos (push_to_all type payload tick m) ≡ infos m
unfolding push_to_all push_message
infos-push_to_all type payload tick [] = refl
infos-push_to_all type payload tick ((id, slot) ∷ m) =
    ap (◌∷◌ (id, slot.info)) (infos-push_to_all type payload tick m)

pub broadcast-IsValid :
    (type : ℕ) (payload : Bytes) (tick : ℕ) (s : Server)
    → IsValid s
    → IsValid (broadcast type payload tick s)
unfolding broadcast
broadcast-IsValid type payload tick s v =
    let kept = infos-push_to_all type payload tick s.clients in
    record {
      book = subst (λ k. IsBook k s.next_id s.roster_log) (sym kept) v.book;
      live = λ k h. v.live k (rw kept at h);
    }
