-- ===== src/Protocol/Reading.antt =====
-- The bytes of each message, and that the readers of Protocol/Decode read them.
use gef_engine.Prelude.{
  ℕ, ◌%◌, ◌^◌, ◌<◌, ◌≡◌, refl, sym, ◌∙◌, Bool, true, false, not, List, [], ◌∷◌, ◌++◌, length, All,
  if◌then◌else◌, ◌==◌, arith, append_assoc, append-nil,
}
use gef_engine.Codec.{Bytes, to_bytes, Reader, get}
use gef_engine.Codec.Laws.{
  Reads, At, run_image, get-Reads, get_bytes-Reads, get_string-Reads, bind-Reads, result-Reads,
}
use gef_engine.Protocol.{WireMessage, RosterEvent, flag}
use gef_engine.Protocol.Decode.{
  get_message, get_message_loop, get_messages, get_event, get_event_loop, get_bytes_if, get_if,
}
use native.Mathlib.Nat.{mod-eq_of_lt}

-- The fields fit their types.
pub record MessageFits (m : WireMessage) : Type 0 where
  pub seq : m.seq < 2 ^ 32
  pub type : m.type < 2 ^ 16
  pub tick : m.tick < 2 ^ 64
  pub payload : length m.payload < 2 ^ 32

pub record EventFits (e : RosterEvent) : Type 0 where
  pub change : e.change < 2 ^ 32
  pub id : e.client.id < 2 ^ 32
  pub hello : length e.client.hello < 2 ^ 32
  pub peer_endpoint : length e.client.peer_endpoint < 2 ^ 32

unfoldable pub message_image : WireMessage → Bytes
message_image m =
    to_bytes 4 m.seq ++ (to_bytes 2 m.type ++ (to_bytes 8 m.tick ++ run_image m.payload))

pub get_message-Reads : (m : WireMessage) → MessageFits m → Reads get_message (message_image m) m
unfolding get_message message_image
get_message-Reads m h = bind-Reads _ (get-Reads 4 0 m.seq h.seq) (
    bind-Reads _ (get-Reads 2 0 m.type h.type) (
      bind-Reads _ (get-Reads 8 0 m.tick h.tick)
        (result-Reads _ (get_bytes-Reads [] m.payload h.payload))))

unfoldable pub messages_image : List WireMessage → Bytes
messages_image [] = []
messages_image (m ∷ ms) = message_image m ++ messages_image ms

get_message_loop-run :
    (ms acc : List WireMessage)
    → All MessageFits ms
    → (r : Reader) (rest : Bytes) → At r (messages_image ms ++ rest)
    → ((get_message_loop (length ms) acc r).0 ≡ acc ++ ms)
      × At (get_message_loop (length ms) acc r).1 rest
unfolding get_message_loop messages_image
get_message_loop-run [] acc h r rest a = (sym (append-nil acc), a)
get_message_loop-run (m ∷ ms) acc h r rest a =
    let first =
      (get_message-Reads m h.0).run r (messages_image ms ++ rest)
        (rw (← append_assoc (message_image m) (messages_image ms) rest) a) in
    let others = get_message_loop-run ms (acc ++ (m ∷ [])) h.1 (get_message r).1 rest first.1 in
    rw (a.good, first.0) (others.0 ∙ append_assoc acc (m ∷ []) ms, others.1)

-- The messages behind their count.
unfoldable pub counted_messages : List WireMessage → Bytes
counted_messages ms = to_bytes 4 (length ms % 2 ^ 32) ++ messages_image ms

pub get_messages-Reads :
    (old ms : List WireMessage)
    → length ms < 2 ^ 32
    → All MessageFits ms
    → Reads (get_messages old) (counted_messages ms) ms
unfolding get_messages counted_messages
get_messages-Reads old ms n h = record {
  run = λ r rest a.
      let count =
        (get-Reads 4 0 (length ms % 2 ^ 32) (omega arith)).run r (messages_image ms ++ rest)
          (rw (← append_assoc (to_bytes 4 (length ms % 2 ^ 32)) (messages_image ms) rest) a) in
      rw (count.1.good, count.0, mod-eq_of_lt n)
        (get_message_loop-run ms [] h (get 4 0 r).1 rest count.1);
}

unfoldable pub event_image : RosterEvent → Bytes
event_image e =
    to_bytes 4 e.change
    ++ (to_bytes 4 e.client.id ++ (run_image e.client.hello ++ run_image e.client.peer_endpoint))

pub get_event-Reads : (e : RosterEvent) → EventFits e → Reads get_event (event_image e) e
unfolding get_event event_image
get_event-Reads e h = bind-Reads _ (get-Reads 4 0 e.change h.change) (
    bind-Reads _ (get-Reads 4 0 e.client.id h.id) (
      bind-Reads _ (get_bytes-Reads [] e.client.hello h.hello)
        (result-Reads _ (get_string-Reads [] e.client.peer_endpoint h.peer_endpoint))))

unfoldable pub events_image : List RosterEvent → Bytes
events_image [] = []
events_image (e ∷ es) = event_image e ++ events_image es

get_event_loop-run :
    (es acc : List RosterEvent)
    → All EventFits es
    → (r : Reader) (rest : Bytes) → At r (events_image es ++ rest)
    → ((get_event_loop (length es) acc r).0 ≡ acc ++ es)
      × At (get_event_loop (length es) acc r).1 rest
unfolding get_event_loop events_image
get_event_loop-run [] acc h r rest a = (sym (append-nil acc), a)
get_event_loop-run (e ∷ es) acc h r rest a =
    let first =
      (get_event-Reads e h.0).run r (events_image es ++ rest)
        (rw (← append_assoc (event_image e) (events_image es) rest) a) in
    let others = get_event_loop-run es (acc ++ (e ∷ [])) h.1 (get_event r).1 rest first.1 in
    rw (a.good, first.0) (others.0 ∙ append_assoc acc (e ∷ []) es, others.1)

pub get_event_loop-Reads :
    (es : List RosterEvent)
    → All EventFits es
    → Reads (get_event_loop (length es) []) (events_image es) es
get_event_loop-Reads es h = record { run = get_event_loop-run es [] h }

-- A run that is there only if the flag before it says so.
abbrev pub run_image_if : Bool → Bytes → Bytes
run_image_if wanted bs = if wanted then run_image bs else []

pub get_bytes_if-Reads :
    (wanted : Bool) (bs : Bytes)
    → length bs < 2 ^ 32
    → (wanted ≡ false → bs ≡ [])
    → Reads (get_bytes_if (not (flag wanted == 0))) (run_image_if wanted bs) bs
unfolding get_bytes_if
get_bytes_if-Reads true bs h e = record { run = (get_bytes-Reads [] bs h).run }
get_bytes_if-Reads false bs h e = record { run = λ r rest a. (sym (e refl), a) }

abbrev pub word_image_if : Bool → ℕ → ℕ → Bytes
word_image_if wanted n v = if wanted then to_bytes n v else []

pub get_if-Reads :
    (wanted : Bool) (n v : ℕ)
    → v < 256 ^ n
    → (wanted ≡ false → v ≡ 0)
    → Reads (get_if (not (flag wanted == 0)) n 0) (word_image_if wanted n v) v
unfolding get_if
get_if-Reads true n v h e = record { run = (get-Reads n 0 v h).run }
get_if-Reads false n v h e = record { run = λ r rest a. (sym (e refl), a) }
