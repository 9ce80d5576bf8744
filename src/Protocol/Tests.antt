-- ===== src/Protocol/Tests.antt =====
-- Runs of the wire format on small messages.
use gef_engine.Prelude.{◌≡◌, refl, true, [], ◌∷◌, inl, some, arith}
use gef_engine.Protocol.{
  WireMessage, RosterEvent, JoinRequest, JoinReply, UpdateRequest, UpdateReply, blank_reply,
  encode_update_request, encode_update_reply,
}
use gef_engine.Protocol.Decode.{decode_update_request, decode_update_reply}
use gef_engine.Protocol.Updates.{
  UpdateRequestFits, UpdateReplyFits, decode-encode_update_request, decode-encode_update_reply,
}

abbrev small_message : WireMessage
small_message = record { seq = 300; type = 2; tick = 20; payload = 1 ∷ 2 ∷ [] }

abbrev small_join : JoinRequest
small_join = record { token = 0x0102030405; hello = 9 ∷ []; peer_endpoint = [] }

abbrev small_join_reply : JoinReply
small_join_reply = record { status = 0; id = 3; update_port = 49152 }

abbrev small_request : UpdateRequest
small_request = record {
  kind = 2;
  id = 3;
  tick = 100;
  ack_seq = 4;
  roster_version = 2;
  has_state = true;
  state = 7 ∷ [];
  messages = small_message ∷ small_message ∷ [];
}

small_request-Fits : UpdateRequestFits small_request
small_request-Fits = record {
  kind = inl refl;
  id = omega arith;
  tick = omega arith;
  ack_seq = omega arith;
  roster_version = omega arith;
  state = omega arith;
  no_state = λ e. cc;
  count = omega arith;
  messages = omega arith;
}

decode-encode_update_request_example :
    decode_update_request (encode_update_request small_request) ≡ some small_request
decode-encode_update_request_example = decode-encode_update_request small_request small_request-Fits

abbrev small_event : RosterEvent
small_event = record {
  change = 1;
  client = record { id = 2; hello = 1 ∷ []; peer_endpoint = 116 ∷ [] };
}

abbrev small_reply : UpdateReply
small_reply = record blank_reply {
  ack_seq = 4;
  roster_version = 5;
  roster_events = small_event ∷ [];
  messages = small_message ∷ [];
  has_snapshot = true;
  snapshot_tick = 60;
  snapshot = 1 ∷ 0 ∷ 0 ∷ 0 ∷ 0 ∷ [];
}

small_reply-Fits : UpdateReplyFits small_reply
small_reply-Fits = record {
  status = omega arith;
  ack_seq = omega arith;
  roster_version = omega arith;
  event_count = omega arith;
  roster_events = omega arith;
  count = omega arith;
  messages = omega arith;
  snapshot_tick = omega arith;
  snapshot = omega arith;
  no_tick = λ e. cc;
  no_snapshot = λ e. cc;
}

decode-encode_update_reply_example :
    decode_update_reply (encode_update_reply small_reply) ≡ some small_reply
decode-encode_update_reply_example = decode-encode_update_reply small_reply small_reply-Fits
