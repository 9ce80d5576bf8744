-- ===== src/Channel.antt =====
-- The reliable messages of a session: the loops over `messages` and `outbox` that
-- src/networking/sessionServer.cpp and sessionClient.cpp both run, one at each end.
pub mod Numbering
pub mod Link
pub mod Stretch
pub mod Lossy
pub mod Delivery
pub mod Tests
use gef_engine.Prelude.{ℕ, ◌+◌, ◌%◌, ◌^◌, List, [], ◌∷◌, ◌++◌, if◌then◌else◌, ◌==◌, leb}
use gef_engine.Codec.{Bytes}
use gef_engine.Protocol.{ClientId, WireMessage, ReceivedMessage}

-- What the inbox holds for a message.
unfoldable pub received : ClientId → WireMessage → ReceivedMessage
received from m = record { from = from; type = m.type; tick = m.tick; payload = m.payload }

-- The receiving end: the highest number received in order, and the inbox.
pub record Intake : Type 0 where
  pub last : ℕ
  pub inbox : List ReceivedMessage

-- Only the next number is taken; anything else is a resend.
unfoldable pub take_one : ClientId → WireMessage → Intake → Intake
take_one from m s =
    if m.seq == (s.last + 1) % 2 ^ 32
    then record { last = m.seq; inbox = s.inbox ++ (received from m ∷ []) }
    else s

unfoldable pub take_in : ClientId → List WireMessage → Intake → Intake
take_in from [] s = s
take_in from (m ∷ ms) s = take_in from ms (take_one from m s)

-- The sending end: the next number, and what the receiver has not acknowledged.
pub record Outlet : Type 0 where
  pub next_seq : ℕ
  pub outbox : List WireMessage

-- `send`: the message is numbered by `nextSendSeq++`.
unfoldable pub enqueue : ℕ → Bytes → ℕ → Outlet → Outlet
enqueue type payload tick o = record {
  next_seq = (o.next_seq + 1) % 2 ^ 32;
  outbox =
      o.outbox ++ (record { seq = o.next_seq; type = type; tick = tick; payload = payload } ∷ []);
}

-- `while(!outbox.empty() && outbox.front().seq <= ack) {outbox.pop_front();}`
unfoldable pub drop_acked : ℕ → List WireMessage → List WireMessage
drop_acked ack [] = []
drop_acked ack (m ∷ ms) = let rest = drop_acked ack ms in if leb m.seq ack then rest else m ∷ ms
