-- ===== src/Protocol/Updates.antt =====
-- Decoding gives back what was encoded, for the requests and replies of an update exchange.
use gef_engine.Prelude.{
  ◌%◌, ◌^◌, ◌<◌, ◌≡◌, refl, ◌⊎◌, inl, inr, Bool-cases, Bool, true, false, not, [], ◌++◌, length,
  All, some, ◌==◌, arith, append-nil,
}
use gef_engine.Codec.{Bytes, to_bytes, put, put_bytes}
use gef_engine.Codec.Laws.{Reads, get-Reads, bind-Reads, result-Reads}
use gef_engine.Protocol.{
  UpdateRequest, UpdateReply, flag, update_kind, leave_kind, encode_update_request,
  encode_update_reply,
}
use gef_engine.Protocol.Decode.{
  any_value, read_update_request, decode_update_request, read_update_reply, decode_update_reply,
  is_update,
}
use gef_engine.Protocol.Reading.{
  MessageFits, EventFits, counted_messages, events_image, run_image_if, word_image_if,
  get_messages-Reads, get_event_loop-Reads, get_bytes_if-Reads, get_if-Reads,
}
use gef_engine.Protocol.Writing.{images}
use gef_engine.Protocol.RoundTrip.{accept-Reads}
use native.Mathlib.Nat.{mod-eq_of_lt}

pub record UpdateRequestFits (r : UpdateRequest) : Type 0 where
  pub kind : (r.kind ≡ update_kind) ⊎ (r.kind ≡ leave_kind)
  pub id : r.id < 2 ^ 32
  pub tick : r.tick < 2 ^ 64
  pub ack_seq : r.ack_seq < 2 ^ 32
  pub roster_version : r.roster_version < 2 ^ 32
  pub state : length r.state < 2 ^ 32
  pub no_state : r.has_state ≡ false → r.state ≡ []
  pub count : length r.messages < 2 ^ 32
  pub messages : All MessageFits r.messages

update_request_image : UpdateRequest → Bytes
update_request_image r =
    to_bytes 1 r.kind
    ++ (to_bytes 4 r.id
        ++ (to_bytes 8 r.tick
            ++ (to_bytes 4 r.ack_seq
                ++ (to_bytes 4 r.roster_version
                    ++ (to_bytes 1 (flag r.has_state)
                        ++ (run_image_if r.has_state r.state ++ counted_messages r.messages))))))

encode_update_request-image : (r : UpdateRequest) → encode_update_request r ≡ update_request_image r
unfolding encode_update_request update_request_image put put_bytes
encode_update_request-image r = elim (Bool-cases r.has_state) [
  | inl e ↦ rw e (simp images)
  | inr e ↦ rw e (simp images)
]

flag-nonzero : (b : Bool) → not (flag b == 0) ≡ b
flag-nonzero true = refl
flag-nonzero false = refl

flag-lt : (b : Bool) → flag b < 256
flag-lt true = omega arith
flag-lt false = omega arith

read_update_request-Reads :
    (r : UpdateRequest)
    → UpdateRequestFits r
    → Reads read_update_request
        (update_request_image r)
        (record r { has_state = not (flag r.has_state == 0) })
unfolding read_update_request update_request_image
read_update_request-Reads r h = bind-Reads _ (get-Reads 1 _ r.kind (ground (arith, h.kind))) (
    bind-Reads _ (get-Reads 4 _ r.id h.id) (
      bind-Reads _ (get-Reads 8 0 r.tick h.tick) (
        bind-Reads _ (get-Reads 4 0 r.ack_seq h.ack_seq) (
          bind-Reads _ (get-Reads 4 0 r.roster_version h.roster_version) (
            bind-Reads _ (get-Reads 1 0 (flag r.has_state) (flag-lt r.has_state)) (
              bind-Reads _ (get_bytes_if-Reads r.has_state r.state h.state h.no_state)
                (result-Reads _ (get_messages-Reads [] r.messages h.count h.messages))))))))

-- An update or leave request whose fields fit their types, and that has no state bytes unless it
-- says so, is decoded to itself.
pub decode-encode_update_request :
    (r : UpdateRequest)
    → UpdateRequestFits r
    → decode_update_request (encode_update_request r) ≡ some r
unfolding decode_update_request
decode-encode_update_request r h = rw (encode_update_request-image r) (
    accept-Reads is_update read_update_request (update_request_image r) r
      (rw (flag-nonzero r.has_state) at (read_update_request-Reads r h)) (ground (arith, h.kind)))

pub record UpdateReplyFits (r : UpdateReply) : Type 0 where
  pub status : r.status < 2 ^ 8
  pub ack_seq : r.ack_seq < 2 ^ 32
  pub roster_version : r.roster_version < 2 ^ 32
  pub event_count : length r.roster_events < 2 ^ 32
  pub roster_events : All EventFits r.roster_events
  pub count : length r.messages < 2 ^ 32
  pub messages : All MessageFits r.messages
  pub snapshot_tick : r.snapshot_tick < 2 ^ 64
  pub snapshot : length r.snapshot < 2 ^ 32
  pub no_tick : r.has_snapshot ≡ false → r.snapshot_tick ≡ 0
  pub no_snapshot : r.has_snapshot ≡ false → r.snapshot ≡ []

update_reply_image : UpdateReply → Bytes
update_reply_image r =
    to_bytes 1 r.status
    ++ (to_bytes 4 r.ack_seq
        ++ (to_bytes 4 r.roster_version
            ++ (to_bytes 4 (length r.roster_events % 2 ^ 32)
                ++ (events_image r.roster_events
                    ++ (counted_messages r.messages
                        ++ (to_bytes 1 (flag r.has_snapshot)
                            ++ (word_image_if r.has_snapshot 8 r.snapshot_tick
                                ++ run_image_if r.has_snapshot r.snapshot)))))))

encode_update_reply-image : (r : UpdateReply) → encode_update_reply r ≡ update_reply_image r
unfolding encode_update_reply update_reply_image put put_bytes
encode_update_reply-image r = elim (Bool-cases r.has_snapshot) [
  | inl e ↦ rw e (simp images)
  | inr e ↦ rw e (simp (images, append-nil))
]

read_update_reply-Reads :
    (r : UpdateReply)
    → UpdateReplyFits r
    → Reads read_update_reply
        (update_reply_image r)
        (record r { has_snapshot = not (flag r.has_snapshot == 0) })
unfolding read_update_reply update_reply_image
read_update_reply-Reads r h = bind-Reads _ (get-Reads 1 _ r.status h.status) (
    bind-Reads _ (get-Reads 4 0 r.ack_seq h.ack_seq) (
      bind-Reads _ (get-Reads 4 0 r.roster_version h.roster_version) (
        bind-Reads _ (get-Reads 4 0 (length r.roster_events % 2 ^ 32) (omega arith)) (
          bind-Reads _
            (rw (mod-eq_of_lt h.event_count) (get_event_loop-Reads r.roster_events h.roster_events))
            (bind-Reads _ (get_messages-Reads [] r.messages h.count h.messages) (
              bind-Reads _ (get-Reads 1 0 (flag r.has_snapshot) (flag-lt r.has_snapshot)) (
                bind-Reads _
                  (get_if-Reads r.has_snapshot 8 r.snapshot_tick h.snapshot_tick h.no_tick)
                  (result-Reads _
                    (get_bytes_if-Reads r.has_snapshot r.snapshot h.snapshot h.no_snapshot)))))))))

-- A reply whose fields fit their types, and that has no snapshot or tick of one unless it says so,
-- is decoded to itself, roster events and messages included.
pub decode-encode_update_reply :
    (r : UpdateReply) → UpdateReplyFits r → decode_update_reply (encode_update_reply r) ≡ some r
unfolding decode_update_reply
decode-encode_update_reply r h = rw (encode_update_reply-image r) (
    accept-Reads any_value read_update_reply (update_reply_image r) r
      (rw (flag-nonzero r.has_snapshot) at (read_update_reply-Reads r h)) refl)
