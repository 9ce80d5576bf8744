-- ===== src/Channel/Link.antt =====
-- One direction of a session over a network that may lose, repeat, delay and reorder exchanges:
-- the operations of Channel as the steps of a system.
use gef_engine.Prelude.{ℕ, ◌+◌, ◌^◌, ◌<◌, List, [], ◌∷◌, ◌++◌, length}
use gef_engine.Codec.{Bytes}
use gef_engine.Protocol.{ClientId, WireMessage, ReceivedMessage}
use gef_engine.Channel.{Intake, take_in, Outlet, enqueue, drop_acked}

pub data Elem {A : Type 0} (a : A) : List A → Type 0 where
  here : {xs : List A} → Elem a (a ∷ xs)
  there : {x : A} {xs : List A} → Elem a xs → Elem a (x ∷ xs)

-- Both ends, and what the network may still deliver: every batch and every acknowledgement that was
-- ever put on it. `sent` is all that was ever handed to `send`, `taken` all that the receiving game
-- ever drained.
pub record Link : Type 0 where
  pub sender : Outlet
  pub receiver : Intake
  pub batches : List (List WireMessage)
  pub acks : List ℕ
  pub sent : List WireMessage
  pub taken : List ReceivedMessage

abbrev pub numbered_as : Outlet → ℕ → Bytes → ℕ → WireMessage
numbered_as o type payload tick = record {
  seq = o.next_seq;
  type = type;
  tick = tick;
  payload = payload;
}

pub data Step (from : ClientId) : Link → Link → Type 0 where
  -- Numbers stay below 2 ^ 32 - 1: one session sends fewer messages than that.
  send :
      (l : Link) (type : ℕ) (payload : Bytes) (tick : ℕ)
      → length l.sent + 2 < 2 ^ 32
      → Step from l (record l {
        sender = enqueue type payload tick l.sender;
        sent = l.sent ++ (numbered_as l.sender type payload tick ∷ []);
      })
  transmit : (l : Link) → Step from l (record l { batches = l.sender.outbox ∷ l.batches })
  deliver :
      (l : Link) (ms : List WireMessage)
      → Elem ms l.batches
      → Step from l (record l {
        receiver = take_in from ms l.receiver;
        acks = (take_in from ms l.receiver).last ∷ l.acks;
      })
  acknowledge :
      (l : Link) (ack : ℕ)
      → Elem ack l.acks
      → Step from l (record l {
        sender = record { next_seq = l.sender.next_seq; outbox = drop_acked ack l.sender.outbox };
      })
  -- `drainMessages` swaps the inbox out.
  drain :
      (l : Link)
      → Step from l (record l {
        receiver = record { last = l.receiver.last; inbox = [] };
        taken = l.taken ++ l.receiver.inbox;
      })

pub data Reach (from : ClientId) (s : Link) : Link → Type 0 where
  start : Reach from s s
  next : {t u : Link} → Reach from s t → Step from t u → Reach from s u

abbrev pub fresh : Link
fresh = record {
  sender = record { next_seq = 1; outbox = [] };
  receiver = record { last = 0; inbox = [] };
  batches = [];
  acks = [];
  sent = [];
  taken = [];
}
