-- ===== src/Channel/Tests.antt =====
-- Runs of Channel on small links.
use gef_engine.Prelude.{ℕ, ◌≤◌, ◌≡◌, refl, [], ◌∷◌, ◌++◌, length, take, drop, arith}
use gef_engine.Protocol.{WireMessage}
use gef_engine.Channel.{take_in, take_one, received, enqueue, drop_acked}
use gef_engine.Channel.Numbering.{receive_all}
use gef_engine.Channel.Link.{here, there, Link, Reach, start, next, fresh, send, transmit, deliver}
use gef_engine.Channel.Delivery.{delivered_in_order, one_exchange_delivers}

abbrev first_message : WireMessage
first_message = record { seq = 1; type = 7; tick = 10; payload = 5 ∷ [] }

abbrev second_message : WireMessage
second_message = record { seq = 2; type = 8; tick = 11; payload = [] }

-- The first message is put on the network twice, with the second one the second time, and the second
-- batch is delivered before a copy of the first one; the acknowledgement is lost.
abbrev resent : Link
resent = record {
  sender = record { next_seq = 3; outbox = first_message ∷ second_message ∷ [] };
  receiver = record { last = 2; inbox = received 4 first_message ∷ received 4 second_message ∷ [] };
  batches = (first_message ∷ second_message ∷ []) ∷ (first_message ∷ []) ∷ [];
  acks = 2 ∷ 2 ∷ [];
  sent = first_message ∷ second_message ∷ [];
  taken = [];
}

resent-Reach : Reach 4 fresh resent
unfolding enqueue take_in take_one
resent-Reach =
    next
      (next
        (next
          (next (next (next start (send fresh 7 (5 ∷ []) 10 (omega arith))) (transmit _))
            (send _ 8 [] 11 (omega arith)))
          (transmit _))
        (deliver _ (first_message ∷ second_message ∷ []) here))
      (deliver _ (first_message ∷ []) (there here))

delivered_in_order_example :
    (resent.taken ++ resent.receiver.inbox ≡ receive_all 4 (take 2 resent.sent))
    × (resent.receiver.last ≤ length resent.sent)
    × ((k : ℕ) × (k ≤ resent.receiver.last) × (resent.sender.outbox ≡ drop k resent.sent))
delivered_in_order_example = delivered_in_order 4 resent resent-Reach

one_exchange_delivers_example :
    let after = take_in 4 resent.sender.outbox resent.receiver in
    (resent.taken ++ after.inbox ≡ receive_all 4 resent.sent)
    × (after.last ≡ length resent.sent)
    × (drop_acked after.last resent.sender.outbox ≡ [])
one_exchange_delivers_example = one_exchange_delivers 4 resent resent-Reach

-- A batch that starts too far ahead is not taken.
gap_dropped :
    take_in 4 (second_message ∷ []) (record { last = 0; inbox = [] })
    ≡ record { last = 0; inbox = [] }
unfolding take_in take_one
gap_dropped = refl
