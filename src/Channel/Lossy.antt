-- ===== src/Channel/Lossy.antt =====
-- Each step of a link keeps its invariant.
use gef_engine.Prelude.{
  ℕ, suc, ◌+◌, ◌-◌, ◌^◌, ◌<◌, ◌≤◌, ◌≡◌, sym, ap, subst, ◌∙◌, List, [], ◌∷◌, ◌++◌, length, take,
  drop, All-map, arith, length-append, append_assoc, map-append, drop-append_le, take-append_le,
  drop-add,
}
use gef_engine.Codec.{Bytes}
use gef_engine.Protocol.{ClientId, WireMessage}
use gef_engine.Channel.{take_in, received, enqueue, drop_acked}
use gef_engine.Channel.Numbering.{
  Numbered, Numbered-append, Numbered-drop, receive_all, drop_acked-Numbered,
}
use gef_engine.Channel.Link.{Link, numbered_as}
use gef_engine.Channel.Stretch.{
  IsStretch, IsSound, IsStretch-sent, IsStretch-last, stretch_taken, stretch_continues,
}

pub send-IsSound :
    (from : ClientId) (l : Link) (type : ℕ) (payload : Bytes) (tick : ℕ)
    → length l.sent + 2 < 2 ^ 32
    → IsSound from l
    → IsSound from (record l {
      sender = enqueue type payload tick l.sender;
      sent = l.sent ++ (numbered_as l.sender type payload tick ∷ []);
    })
unfolding enqueue
send-IsSound from l type payload tick h s =
    let m = numbered_as l.sender type payload tick in
    let grown = length-append l.sent (m ∷ []) in
    record {
      numbered = Numbered-append 1 l.sent (m ∷ []) s.numbered (omega (arith, s.next), tt);
      room = omega (arith, grown);
      next = omega (arith, grown, s.next, h);
      acked = s.acked;
      acked_le = s.acked_le;
      kept =
          ap (λ ms. ms ++ (m ∷ [])) s.kept
          ∙ sym (drop-append_le s.acked l.sent (m ∷ []) (omega (arith, s.acked_le, s.last_le)));
      last_le = omega (arith, grown, s.last_le);
      arrived =
          s.arrived
          ∙ ap (receive_all from) (sym (take-append_le l.receiver.last l.sent (m ∷ []) s.last_le));
      stretches =
          All-map (IsStretch l.receiver.last l.sent) _
            (λ ms. IsStretch-sent l.receiver.last l.sent (m ∷ []) ms) l.batches s.stretches;
      heard = s.heard;
    }

pub deliver-IsSound :
    (from : ClientId) (l : Link) (ms : List WireMessage)
    → IsStretch l.receiver.last l.sent ms
    → IsSound from l
    → IsSound from (record l {
      receiver = take_in from ms l.receiver;
      acks = (take_in from ms l.receiver).last ∷ l.acks;
    })
deliver-IsSound from l ms st s =
    let done = stretch_taken from l ms s st in
    let later : l.receiver.last ≤ (take_in from ms l.receiver).last = omega (arith, done.0) in
    record {
      numbered = s.numbered;
      room = s.room;
      next = s.next;
      acked = s.acked;
      acked_le = omega (arith, later, s.acked_le);
      kept = s.kept;
      last_le = omega (arith, done.0, s.last_le, st.covered);
      arrived =
          ap (◌++◌ l.taken) done.1
          ∙ sym (append_assoc l.taken l.receiver.inbox _)
          ∙ ap (λ x. x ++ receive_all from (drop (l.receiver.last - st.from) ms)) s.arrived
          ∙ sym (map-append (received from) (take l.receiver.last l.sent) _)
          ∙ ap (receive_all from) (stretch_continues l.receiver.last l.sent ms st)
          ∙ ap (λ k. receive_all from (take k l.sent)) (sym done.0);
      stretches =
          All-map (IsStretch l.receiver.last l.sent) _
            (λ xs. IsStretch-last l.receiver.last _ l.sent xs later) l.batches s.stretches;
      heard = (
        omega arith,
        All-map (λ a. a ≤ l.receiver.last) (λ a. a ≤ (take_in from ms l.receiver).last)
            (λ a h. omega (arith, later)) l.acks s.heard,
      );
    }

-- An acknowledgement leaves what was sent from the later of two points on.
pub drop_acked-outbox :
    (from : ClientId) (l : Link) (s : IsSound from l) (ack : ℕ)
    → drop_acked ack l.sender.outbox ≡ drop (s.acked + (ack - s.acked)) l.sent
drop_acked-outbox from l s ack =
    let e : 1 + s.acked ≡ suc s.acked = omega arith in
    let num : Numbered (suc s.acked) (drop s.acked l.sent) =
      subst (λ n. Numbered n (drop s.acked l.sent)) e (Numbered-drop 1 s.acked l.sent s.numbered) in
    ap (drop_acked ack) s.kept
    ∙ drop_acked-Numbered s.acked ack (drop s.acked l.sent) num
    ∙ drop-add s.acked (ack - s.acked) l.sent

pub acknowledge-IsSound :
    (from : ClientId) (l : Link) (ack : ℕ)
    → ack ≤ l.receiver.last
    → IsSound from l
    → IsSound from (record l {
      sender = record { next_seq = l.sender.next_seq; outbox = drop_acked ack l.sender.outbox };
    })
acknowledge-IsSound from l ack h s = record {
  numbered = s.numbered;
  room = s.room;
  next = s.next;
  acked = s.acked + (ack - s.acked);
  acked_le = omega (arith, s.acked_le);
  kept = drop_acked-outbox from l s ack;
  last_le = s.last_le;
  arrived = s.arrived;
  stretches = s.stretches;
  heard = s.heard;
}
