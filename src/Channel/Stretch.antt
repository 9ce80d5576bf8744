-- ===== src/Channel/Stretch.antt =====
-- The invariant of a link, and what a batch is: a stretch of what was sent.
use gef_engine.Prelude.{
  ℕ, suc, ◌+◌, ◌-◌, ◌^◌, ◌<◌, ◌≤◌, ◌≡◌, sym, ap, subst, ◌∙◌, List, ◌++◌, length, take, drop, max,
  All, arith, length-append, length-drop, length-take, drop-append_le, take-append_le, take_all,
  take-add, drop-take, drop-add,
}
use gef_engine.Protocol.{ClientId, WireMessage}
use gef_engine.Channel.{take_in}
use gef_engine.Channel.Numbering.{
  Numbered, Numbered-drop, Numbered-take, receive_all, take_in-Takes,
}
use gef_engine.Channel.Link.{Link}

-- A batch is a stretch of what was sent, with nothing missing before it.
pub record IsStretch (last : ℕ) (sent ms : List WireMessage) : Type 0 where
  pub from : ℕ
  pub count : ℕ
  pub reached : from ≤ last
  pub covered : from + count ≤ length sent
  pub is : ms ≡ take count (drop from sent)

pub record IsSound (from : ClientId) (l : Link) : Type 0 where
  pub numbered : Numbered 1 l.sent
  pub room : length l.sent + 1 < 2 ^ 32
  pub next : l.sender.next_seq ≡ length l.sent + 1
  pub acked : ℕ
  pub acked_le : acked ≤ l.receiver.last
  pub kept : l.sender.outbox ≡ drop acked l.sent
  pub last_le : l.receiver.last ≤ length l.sent
  pub arrived : l.taken ++ l.receiver.inbox ≡ receive_all from (take l.receiver.last l.sent)
  pub stretches : All (IsStretch l.receiver.last l.sent) l.batches
  pub heard : All (λ a. a ≤ l.receiver.last) l.acks

pub IsStretch-sent :
    (last : ℕ) (sent more ms : List WireMessage)
    → IsStretch last sent ms
    → IsStretch last (sent ++ more) ms
IsStretch-sent last sent more ms s = record {
  from = s.from;
  count = s.count;
  reached = s.reached;
  covered = omega (arith, length-append sent more, s.covered);
  is =
      s.is
      ∙ sym (
          ap (take s.count) (drop-append_le s.from sent more (omega (arith, s.covered)))
          ∙ take-append_le s.count (drop s.from sent) more
              (omega (arith, length-drop s.from sent, s.covered)));
}

pub IsStretch-last :
    (last later : ℕ) (sent ms : List WireMessage)
    → last ≤ later
    → IsStretch last sent ms
    → IsStretch later sent ms
IsStretch-last last later sent ms h s = record {
  from = s.from;
  count = s.count;
  reached = omega (arith, s.reached);
  covered = s.covered;
  is = s.is;
}

unfoldable pub outbox-IsStretch :
    (from : ClientId) (l : Link) → IsSound from l → IsStretch l.receiver.last l.sent l.sender.outbox
outbox-IsStretch from l s = record {
  from = s.acked;
  count = length l.sent - s.acked;
  reached = s.acked_le;
  covered = omega (arith, s.acked_le, s.last_le);
  is =
      s.kept
      ∙ sym (
          take_all (length l.sent - s.acked) (drop s.acked l.sent)
            (omega (arith, length-drop s.acked l.sent)));
}

-- What a stretch does to the receiver: it then holds all that was sent up to the stretch's end.
pub stretch_taken :
    (from : ClientId) (l : Link) (ms : List WireMessage)
    → IsSound from l
    → (st : IsStretch l.receiver.last l.sent ms)
    → ((take_in from ms l.receiver).last ≡ max l.receiver.last (st.from + st.count))
      × ((take_in from ms l.receiver).inbox
          ≡ l.receiver.inbox ++ receive_all from (drop (l.receiver.last - st.from) ms))
stretch_taken from l ms s st =
    let len : length ms ≡ st.count =
      ap length st.is
      ∙ length-take st.count (drop st.from l.sent)
          (omega (arith, length-drop st.from l.sent, st.covered)) in
    let num : Numbered (1 + st.from) ms = subst (Numbered (1 + st.from)) (sym st.is) (
      Numbered-take (1 + st.from) st.count (drop st.from l.sent)
        (Numbered-drop 1 st.from l.sent s.numbered)) in
    let e : 1 + st.from ≡ suc st.from = omega arith in
    let done =
      take_in-Takes from st.from ms l.receiver (subst (λ n. Numbered n ms) e num) st.reached
        (omega (arith, len, st.covered, s.room)) (omega (arith, s.last_le, s.room)) in
    (omega (arith, done.0, len), done.1)

-- The new part of a stretch goes on where the receiver stands.
pub stretch_continues :
    (last : ℕ) (sent ms : List WireMessage) (st : IsStretch last sent ms)
    → take last sent ++ drop (last - st.from) ms ≡ take (max last (st.from + st.count)) sent
stretch_continues last sent ms st =
    let gap : st.from + (last - st.from) ≡ last = omega (arith, st.reached) in
    let total : last + (st.count - (last - st.from)) ≡ max last (st.from + st.count) =
      omega (arith, st.reached) in
    ap (◌++◌ (take last sent)) (
      ap (drop (last - st.from)) st.is
      ∙ drop-take (last - st.from) st.count (drop st.from sent)
      ∙ ap (take (st.count - (last - st.from)))
          (drop-add st.from (last - st.from) sent ∙ ap (λ k. drop k sent) gap))
    ∙ take-add last (st.count - (last - st.from)) sent
    ∙ ap (λ k. take k sent) total
