-- ===== src/Protocol/Writing.antt =====
-- What the writers of the protocol append to the buffer.
use gef_engine.Prelude.{
  ℕ, ◌%◌, ◌^◌, ◌<◌, ◌≡◌, refl, sym, ap, ◌∙◌, ◌⊎◌, Bool, true, false, not, ◌&&◌, List, [], ◌∷◌, ◌++◌,
  length, All, Option, none, some, if◌then◌else◌, ◌==◌, arith, append_assoc, append-nil,
}
use gef_engine.Codec.{Bytes, put, put_bytes, put_string}
use gef_engine.Protocol.{
  WireMessage, RosterEvent, put_message, put_message_loop, put_messages, put_event, put_event_loop,
}
use gef_engine.Protocol.Reading.{
  message_image, messages_image, counted_messages, event_image, events_image,
}

pub put_message-image : (m : WireMessage) (out : Bytes) → put_message m out ≡ out ++ message_image m
unfolding put_message message_image put put_bytes
put_message-image m out = simp append_assoc

pub put_message_loop-image :
    (ms : List WireMessage) (out : Bytes) → put_message_loop ms out ≡ out ++ messages_image ms
unfolding put_message_loop messages_image
put_message_loop-image [] out = sym (append-nil out)
put_message_loop-image (m ∷ ms) out =
    put_message_loop-image ms (put_message m out)
    ∙ rw put_message-image (append_assoc out (message_image m) (messages_image ms))

pub put_messages-image :
    (ms : List WireMessage) (out : Bytes) → put_messages ms out ≡ out ++ counted_messages ms
unfolding put_messages counted_messages put
put_messages-image ms out = simp (put_message_loop-image, append_assoc)

pub put_event-image : (e : RosterEvent) (out : Bytes) → put_event e out ≡ out ++ event_image e
unfolding put_event event_image put put_bytes put_string
put_event-image e out = simp append_assoc

pub put_event_loop-image :
    (es : List RosterEvent) (out : Bytes) → put_event_loop es out ≡ out ++ events_image es
unfolding put_event_loop events_image
put_event_loop-image [] out = sym (append-nil out)
put_event_loop-image (e ∷ es) out =
    put_event_loop-image es (put_event e out)
    ∙ rw put_event-image (append_assoc out (event_image e) (events_image es))

pub ruleset images = (put_messages-image, put_event_loop-image, append_assoc)
