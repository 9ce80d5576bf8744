-- ===== src/Channel/Delivery.antt =====
-- What a link delivers, however the network behaves.
use gef_engine.Prelude.{
  ℕ, ◌≤◌, ◌≡◌, refl, ap, ◌∙◌, List, [], ◌++◌, length, take, drop, All, arith, append-nil, take_all,
  drop_all,
}
use gef_engine.Protocol.{ClientId}
use gef_engine.Channel.{take_in, drop_acked}
use gef_engine.Channel.Numbering.{receive_all}
use gef_engine.Channel.Link.{
  Elem, here, there, Link, Step, Reach, start, next, fresh, send, transmit, deliver, acknowledge,
  drain,
}
use gef_engine.Channel.Stretch.{IsStretch, IsSound, outbox-IsStretch, stretch_taken}
use gef_engine.Channel.Lossy.{send-IsSound, deliver-IsSound, acknowledge-IsSound, drop_acked-outbox}

All-Elem : {A : Type 0} (P : A → Type 0) {a : A} {xs : List A} → Elem a xs → All P xs → P a
All-Elem P here h = h.0
All-Elem P (there e) h = All-Elem P e h.1

fresh-IsSound : (from : ClientId) → IsSound from fresh
fresh-IsSound from = record {
  numbered = tt;
  room = omega arith;
  next = omega arith;
  acked = 0;
  acked_le = omega arith;
  kept = refl;
  last_le = omega arith;
  arrived = refl;
  stretches = tt;
  heard = tt;
}

Step-IsSound : (from : ClientId) {l m : Link} → Step from l m → IsSound from l → IsSound from m
Step-IsSound from (send l type payload tick h) s = send-IsSound from l type payload tick h s
Step-IsSound from (transmit l) s = record {
  numbered = s.numbered;
  room = s.room;
  next = s.next;
  acked = s.acked;
  acked_le = s.acked_le;
  kept = s.kept;
  last_le = s.last_le;
  arrived = s.arrived;
  stretches = (outbox-IsStretch from l s, s.stretches);
  heard = s.heard;
}
Step-IsSound from (deliver l ms e) s =
    deliver-IsSound from l ms (All-Elem (IsStretch l.receiver.last l.sent) e s.stretches) s
Step-IsSound from (acknowledge l ack e) s =
    acknowledge-IsSound from l ack (All-Elem (λ a. a ≤ l.receiver.last) e s.heard) s
Step-IsSound from (drain l) s = record {
  numbered = s.numbered;
  room = s.room;
  next = s.next;
  acked = s.acked;
  acked_le = s.acked_le;
  kept = s.kept;
  last_le = s.last_le;
  arrived = append-nil (l.taken ++ l.receiver.inbox) ∙ s.arrived;
  stretches = s.stretches;
  heard = s.heard;
}

pub Reach-IsSound : (from : ClientId) {l : Link} → Reach from fresh l → IsSound from l
Reach-IsSound from start = fresh-IsSound from
Reach-IsSound from (next r st) = Step-IsSound from st (Reach-IsSound from r)

-- As long as one direction of a session carries fewer than 2 ^ 32 - 2 messages, so that their numbers
-- do not wrap: however exchanges are lost, repeated, delayed or reordered, what the receiving game has drained or
-- finds in its inbox is a beginning of what was sent: in order, each message once, none left out.
-- What has not been received is still in the sender's outbox.
pub delivered_in_order :
    (from : ClientId) (l : Link)
    → Reach from fresh l
    → (l.taken ++ l.receiver.inbox ≡ receive_all from (take l.receiver.last l.sent))
      × (l.receiver.last ≤ length l.sent)
      × ((k : ℕ) × (k ≤ l.receiver.last) × (l.sender.outbox ≡ drop k l.sent))
delivered_in_order from l r =
    let s = Reach-IsSound from r in (s.arrived, s.last_le, (s.acked, s.acked_le, s.kept))

-- From every state that is reached with fewer than 2 ^ 32 - 2 messages sent, one exchange that gets through delivers all that was sent, and its
-- acknowledgement empties the outbox.
pub one_exchange_delivers :
    (from : ClientId) (l : Link)
    → Reach from fresh l
    → let after = take_in from l.sender.outbox l.receiver in
      (l.taken ++ after.inbox ≡ receive_all from l.sent)
      × (after.last ≡ length l.sent)
      × (drop_acked after.last l.sender.outbox ≡ [])
unfolding outbox-IsStretch
one_exchange_delivers from l r =
    let s = Reach-IsSound from r in
    let st = outbox-IsStretch from l s in
    let now = deliver-IsSound from l l.sender.outbox st s in
    let done = stretch_taken from l l.sender.outbox s st in
    let last : (take_in from l.sender.outbox l.receiver).last ≡ length l.sent =
      omega (arith, done.0, s.acked_le, s.last_le) in
    (
      now.arrived ∙ ap (receive_all from) (take_all _ l.sent (omega (arith, last))),
      last,
      drop_acked-outbox from l s _ ∙ drop_all _ l.sent (omega (arith, last)),
    )
