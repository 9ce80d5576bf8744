-- ===== src/Client/Tests.antt =====
-- Runs of sessionClient, some of them against sessionServer.
use gef_engine.Prelude.{
  ◌⊎◌, ◌≡◌, refl, true, false, [], ◌∷◌, Option, none, some, find_key, put_key, arith,
}
use gef_engine.Codec.{Bytes}
use gef_engine.Channel.{take_in, take_one, enqueue, drop_acked}
use gef_engine.Protocol.{UpdateRequest, encode_join_request, encode_update_request}
use gef_engine.Protocol.Updates.{UpdateRequestFits, UpdateReplyFits}
use gef_engine.Roster.{replay}
use gef_engine.Client.{
  Client, client, ok, exchange, join, start, build_request, submit_scene, apply_timeout, receive,
  send,
}
use gef_engine.Client.Loop.{prepare, with_pending, conclude, after_failure}
use gef_engine.Client.Lifecycle
use gef_engine.Client.Lifecycle.{leave-leave}
use gef_engine.Client.Pending
use gef_engine.Client.Pending.{
  Run, Reach, idle, newest, submit, depart, arrive, next, submitted_kept,
}
use gef_engine.Client.Joined.{join_request, joined, join_retried}
use gef_engine.Client.Exchanges.{exchange_links, exchange_roster}
use gef_engine.Server.{ClientSlot, find_token, handle_join}
use gef_engine.Server.Exchange.{respond, handle_update}
use gef_engine.Server.Valid.{infos}
use gef_engine.Server.Tests.{one_client, first_slot, one_client-IsValid, found}

abbrev silent : Bytes → Option Bytes
silent bytes = none

abbrev newcomer : Client
newcomer = client 99 (7 ∷ []) []

-- Client 1 of `one_client`, which has sent a message and heard nothing yet.
abbrev first_client : Client
first_client = send 5 (4 ∷ []) 12 (joined 1 5001 (client 77 (1 ∷ []) []))

abbrev first_request : UpdateRequest
first_request = record {
  kind = 2;
  id = 1;
  tick = 0;
  ack_seq = 0;
  roster_version = 0;
  has_state = false;
  state = [];
  messages = record { seq = 1; type = 5; tick = 12; payload = 4 ∷ [] } ∷ [];
}

first_request_made : build_request 2 first_client ≡ first_request
unfolding build_request send client enqueue
first_request_made = refl

first_request-Fits : UpdateRequestFits first_request
first_request-Fits = record {
  kind = omega arith;
  id = omega arith;
  tick = omega arith;
  ack_seq = omega arith;
  roster_version = omega arith;
  state = omega arith;
  no_state = λ e. refl;
  count = omega arith;
  messages = omega arith;
}

first_reply-Fits : UpdateReplyFits (respond 1 1500 first_request one_client).1
unfolding respond take_in take_one drop_acked find_key put_key
first_reply-Fits = record {
  status = omega arith;
  ack_seq = omega arith;
  roster_version = omega arith;
  event_count = omega arith;
  roster_events = omega arith;
  count = omega arith;
  messages = omega arith;
  snapshot_tick = omega arith;
  snapshot = omega arith;
  no_tick = λ e. absurd cc;
  no_snapshot = λ e. absurd cc;
}

exchange_links_example :
    ((exchange first_request
        (λ bytes. some (handle_update first_client.id 1500 bytes one_client).1)
        first_client).0
      ≡ ok)
    × ((handle_update first_client.id 1500 (encode_update_request first_request) one_client).0.inbox
        ≡ (take_in first_client.id first_request.messages (record { last = 0; inbox = [] })).inbox)
    × ((exchange first_request
          (λ bytes. some (handle_update first_client.id 1500 bytes one_client).1)
          first_client).1.outbox
        ≡ drop_acked
            (take_in first_client.id first_request.messages (record { last = 0; inbox = [] })).last
            first_client.outbox)
    × ((exchange first_request
          (λ bytes. some (handle_update first_client.id 1500 bytes one_client).1)
          first_client).1.inbox
        ≡ (take_in 0
            (drop_acked 0 first_slot.outbox)
            (record { last = first_client.last_received_seq; inbox = first_client.inbox })).inbox)
    × ((exchange first_request
          (λ bytes. some (handle_update first_client.id 1500 bytes one_client).1)
          first_client).1.last_received_seq
        ≡ (take_in 0
            (drop_acked 0 first_slot.outbox)
            (record { last = first_client.last_received_seq; inbox = first_client.inbox })).last)
    × (((first_request.kind ≡ 3)
          × (find_key 1
                (handle_update first_client.id 1500
                  (encode_update_request first_request)
                  one_client).0.clients
              ≡ none))
        ⊎ ((slot' : ClientSlot) × (find_key 1
                (handle_update first_client.id 1500
                  (encode_update_request first_request)
                  one_client).0.clients
              ≡ some slot')
            × (slot'.last_received_seq
                ≡ (take_in 1 first_request.messages (record { last = 0; inbox = [] })).last)
            × (slot'.next_send_seq ≡ first_slot.next_send_seq)
            × (slot'.outbox ≡ drop_acked 0 first_slot.outbox)))
unfolding send client
exchange_links_example =
    exchange_links first_client one_client first_slot 1500 first_request refl found
      first_request-Fits first_reply-Fits

exchange_roster_example :
    (replay
        (exchange first_request
          (λ bytes. some (handle_update first_client.id 1500 bytes one_client).1)
          first_client).1.roster_events
        []
      ≡ infos one_client.clients)
    × ((exchange first_request
          (λ bytes. some (handle_update first_client.id 1500 bytes one_client).1)
          first_client).1.roster_version
        ≡ 1)
unfolding send client
exchange_roster_example =
    exchange_roster first_client one_client first_slot 1500 first_request refl found
      first_request-Fits first_reply-Fits [] one_client-IsValid refl

join_retried_example :
    (join (λ bytes. some (handle_join (some 5002) 1600 bytes one_client).1) newcomer
      ≡ (true, joined 2 5002 newcomer))
    × (join
          (λ bytes.
            some
              (handle_join none 1700 bytes
                (handle_join
                  (some 5002)
                  1600
                  (encode_join_request (join_request newcomer))
                  one_client).0).1)
          newcomer
        ≡ (true, joined 2 5002 newcomer))
    × ((handle_join none 1700
          (encode_join_request (join_request newcomer))
          (handle_join
            (some 5002)
            1600
            (encode_join_request (join_request newcomer))
            one_client).0).0
        ≡ (handle_join (some 5002) 1600 (encode_join_request (join_request newcomer)) one_client).0)
unfolding client find_token
join_retried_example =
    join_retried newcomer one_client 5002 1600 none 1700 one_client-IsValid
      (record { token = omega arith; hello = omega arith; peer_endpoint = omega arith }) refl refl
      (omega arith) (omega arith)

-- A scene is submitted, its exchange fails, and it waits again.
abbrev submitted : Run
submitted = record (idle first_client) {
  client = submit_scene (6 ∷ []) 30 first_client;
  submitted = some (record { from = 1; tick = 30; payload = 6 ∷ [] });
}

-- On its way.
abbrev departed : Run
departed = record submitted {
  client = record submitted.client { pending_state = none; poll_requested = false };
  in_flight = some (
      with_pending (record { from = 1; tick = 30; payload = 6 ∷ [] })
        (build_request 2 submitted.client));
}

abbrev arrived_back : Run
arrived_back = record departed { client = submitted.client; in_flight = none }

submitted_kept_example : arrived_back.submitted ≡ newest arrived_back
unfolding send client submit_scene prepare with_pending build_request receive conclude apply_timeout
    after_failure
submitted_kept_example =
    submitted_kept first_client arrived_back refl
      (next
        (next (next Pending.start (submit (idle first_client) (6 ∷ []) 30))
          (depart submitted _ _ refl refl refl))
        (arrive departed _ none 1000 500 refl))
      refl
