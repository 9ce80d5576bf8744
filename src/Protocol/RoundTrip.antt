-- ===== src/Protocol/RoundTrip.antt =====
-- Decoding what `encode` wrote gives the message back, for every message of the protocol.
use gef_engine.Prelude.{
  ℕ, ◌^◌, ◌<◌, ◌≡◌, refl, Bool, true, [], ◌++◌, length, some, arith, append_assoc, append-nil,
}
use gef_engine.Codec.{Bytes, to_bytes, reader, Read, put, put_bytes, put_string}
use gef_engine.Codec.Laws.{
  Reads, get-Reads, get_bytes-Reads, get_string-Reads, bind-Reads, result-Reads, reader-At,
  finished, run_image,
}
use gef_engine.Protocol.{
  JoinRequest, JoinReply, server_id, join_kind, encode_join_request, encode_join_reply,
  encode_snapshot,
}
use gef_engine.Protocol.Decode.{
  accept, any_value, read_join_request, decode_join_request, read_join_reply, decode_join_reply,
  read_snapshot, decode_snapshot, is_join,
}

pub accept-Reads :
    {A : Type 0} (test : A → Bool) (m : Read A) (bs : Bytes) (a : A)
    → Reads m bs a
    → test a ≡ true
    → accept test (m (reader bs)) ≡ some a
unfolding accept
accept-Reads test m bs a h t =
    let end = h.run (reader bs) [] (rw (append-nil bs) (reader-At bs)) in
    let done = finished (m (reader bs)).1 end.1 in rw (end.0, t) (ground (arith, done))

pub record JoinRequestFits (r : JoinRequest) : Type 0 where
  pub token : r.token < 2 ^ 64
  pub hello : length r.hello < 2 ^ 32
  pub peer_endpoint : length r.peer_endpoint < 2 ^ 32

join_request_image : JoinRequest → Bytes
join_request_image r =
    to_bytes 1 join_kind ++ (to_bytes 8 r.token ++ (run_image r.hello ++ run_image r.peer_endpoint))

encode_join_request-image : (r : JoinRequest) → encode_join_request r ≡ join_request_image r
unfolding encode_join_request join_request_image put put_bytes put_string
encode_join_request-image r = simp append_assoc

read_join_request-Reads :
    (r : JoinRequest)
    → JoinRequestFits r
    → Reads read_join_request (join_request_image r) (join_kind, r)
unfolding read_join_request join_request_image
read_join_request-Reads r h = bind-Reads _ (get-Reads 1 0 join_kind (omega arith)) (
    bind-Reads _ (get-Reads 8 0 r.token h.token) (
      bind-Reads _ (get_bytes-Reads [] r.hello h.hello)
        (result-Reads _ (get_string-Reads [] r.peer_endpoint h.peer_endpoint))))

-- A join request whose fields fit their types is decoded to itself.
pub decode-encode_join_request :
    (r : JoinRequest) → JoinRequestFits r → decode_join_request (encode_join_request r) ≡ some r
unfolding decode_join_request
decode-encode_join_request r h = rw (
  encode_join_request-image r,
  accept-Reads is_join read_join_request (join_request_image r) (join_kind, r)
      (read_join_request-Reads r h) refl,
)

pub record JoinReplyFits (r : JoinReply) : Type 0 where
  pub status : r.status < 2 ^ 8
  pub id : r.id < 2 ^ 32
  pub update_port : r.update_port < 2 ^ 32

join_reply_image : JoinReply → Bytes
join_reply_image r = to_bytes 1 r.status ++ (to_bytes 4 r.id ++ to_bytes 4 r.update_port)

encode_join_reply-image : (r : JoinReply) → encode_join_reply r ≡ join_reply_image r
unfolding encode_join_reply join_reply_image put
encode_join_reply-image r = simp append_assoc

read_join_reply-Reads :
    (r : JoinReply) → JoinReplyFits r → Reads read_join_reply (join_reply_image r) r
unfolding read_join_reply join_reply_image
read_join_reply-Reads r h = bind-Reads _ (get-Reads 1 _ r.status h.status) (
    bind-Reads _ (get-Reads 4 _ r.id h.id)
      (result-Reads _ (get-Reads 4 0 r.update_port h.update_port)))

-- A join reply whose fields fit their types is decoded to itself.
pub decode-encode_join_reply :
    (r : JoinReply) → JoinReplyFits r → decode_join_reply (encode_join_reply r) ≡ some r
unfolding decode_join_reply
decode-encode_join_reply r h =
    rw (encode_join_reply-image r) (
      accept-Reads any_value read_join_reply (join_reply_image r) r (read_join_reply-Reads r h)
        refl)

-- A peer's published state is decoded to its tick and its payload, attributed to the server.
pub decode-encode_snapshot :
    (tick : ℕ) (payload : Bytes)
    → tick < 2 ^ 64
    → length payload < 2 ^ 32
    → decode_snapshot (encode_snapshot tick payload)
      ≡ some (record { from = server_id; tick = tick; payload = payload })
unfolding decode_snapshot encode_snapshot read_snapshot put put_bytes
decode-encode_snapshot tick payload ht hp = rw append_assoc (
    accept-Reads any_value read_snapshot _ _
      (bind-Reads _ (get-Reads 8 0 tick ht) (result-Reads _ (get_bytes-Reads [] payload hp))) refl)
