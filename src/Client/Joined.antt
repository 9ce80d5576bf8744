-- ===== src/Client/Joined.antt =====
-- src/networking/sessionClient.cpp: join against src/networking/sessionServer.cpp.
use gef_engine.Prelude.{
  ℕ, ◌^◌, ◌<◌, ◌≤◌, ◌≡◌, sym, ap, subst, ◌∙◌, true, Option, none, some, arith, ◌==◌,
}
use gef_engine.Codec.{Bytes}
use gef_engine.Protocol.{server_id, JoinRequest, JoinReply, encode_join_request, encode_join_reply}
use gef_engine.Protocol.RoundTrip.{
  JoinRequestFits, JoinReplyFits, decode-encode_join_request, decode-encode_join_reply,
}
use gef_engine.Client.{Client, join}
use gef_engine.Server.{Server, find_token, admit, accepted_join, handle_join}
use gef_engine.Server.Valid.{IsValid}
use gef_engine.Server.Joining.{admit_added, add_client-reply, admit_retried}

abbrev pub join_request : Client → JoinRequest
join_request c = record { token = c.token; hello = c.hello; peer_endpoint = c.peer_endpoint }

-- The client once the server has accepted it.
abbrev pub joined : ℕ → ℕ → Client → Client
joined id port c = record c { update_port = port; replicator = some id; id = id }

join_accepted :
    (c : Client) (network : Bytes → Option Bytes) (id port : ℕ)
    → c.id ≡ server_id
    → network (encode_join_request (join_request c))
      ≡ some (encode_join_reply (accepted_join id port))
    → id < 2 ^ 32
    → port < 2 ^ 32
    → join network c ≡ (true, joined id port c)
unfolding join
join_accepted c network id port fresh answer i p =
    let fits : JoinReplyFits (accepted_join id port) = record {
      status = omega arith;
      id = i;
      update_port = p;
    } in
    let own : (c.id == server_id) ≡ true = ground arith in
    rw (own, answer, decode-encode_join_reply (accepted_join id port) fits, join)

handle_decoded :
    (socket : Option ℕ) (now : ℕ) (req : JoinRequest) (s : Server)
    → JoinRequestFits req
    → handle_join socket now (encode_join_request req) s
      ≡ ((admit socket now req s).0, encode_join_reply (admit socket now req s).1)
unfolding handle_join
handle_decoded socket now req s fits = rw (decode-encode_join_request req fits, handle_join)

-- A client that is not in yet and whose request fits its fields, on a valid server that does not know
-- its token, has an id left and can bind a socket to `port`: the join succeeds with the server's next id and that port. Had the reply been
-- lost, a second join would end in the same, whatever socket the server could bind by then, and
-- the server would not have changed any more.
pub join_retried :
    (c : Client) (s : Server) (port now : ℕ) (socket : Option ℕ) (later : ℕ)
    → IsValid s
    → JoinRequestFits (join_request c)
    → c.id ≡ server_id
    → find_token c.token s.clients ≡ none
    → s.next_id ≤ 255
    → port < 2 ^ 32
    → let request = encode_join_request (join_request c) in
      let s' = (handle_join (some port) now request s).0 in
      (join (λ bytes. some (handle_join (some port) now bytes s).1) c
        ≡ (true, joined s.next_id port c))
      × (join (λ bytes. some (handle_join socket later bytes s').1) c
          ≡ (true, joined s.next_id port c))
      × ((handle_join socket later request s').0 ≡ s')
join_retried c s port now socket later v fits fresh absent room small =
    let req = join_request c in
    let first = handle_decoded (some port) now req s fits in
    let s' = (handle_join (some port) now (encode_join_request req) s).0 in
    let a = admit (some port) now req s in
    let accepted : a.1 ≡ accepted_join s.next_id port =
      ap (λ r. r.1) (admit_added port now req s absent (ground arith))
      ∙ add_client-reply port now req s in
    let ok : a.1.status ≡ 0 = ap (λ (r : JoinReply). r.status) accepted in
    let again = admit_retried (some port) now req s v ok socket later in
    let same : s' ≡ a.0 = ap (λ r. r.0) first in
    let second : handle_join socket later (encode_join_request req) s'
        ≡ (a.0, encode_join_reply (accepted_join s.next_id port)) =
      subst
        (λ t.
          handle_join socket later (encode_join_request req) t
          ≡ (a.0, encode_join_reply (accepted_join s.next_id port)))
        (sym same)
        (handle_decoded socket later req a.0 fits
          ∙ ap (λ (r : Server × JoinReply). (r.0, encode_join_reply r.1)) again
          ∙ ap (λ r. (a.0, encode_join_reply r)) accepted) in
    (
      join_accepted c (λ bytes. some (handle_join (some port) now bytes s).1) s.next_id port fresh
          (ap (λ (r : Server × Bytes). some r.1) first
            ∙ ap (λ r. some (encode_join_reply r)) accepted)
          (omega arith) small,
      join_accepted c (λ bytes. some (handle_join socket later bytes s').1) s.next_id port fresh
          (ap (λ (r : Server × Bytes). some r.1) second) (omega arith) small,
      ap (λ (r : Server × Bytes). r.0) second ∙ sym same,
    )
