-- ===== src/Client/Exchanges.antt =====
-- src/networking/sessionClient.cpp: exchange against src/networking/sessionServer.cpp.
use gef_engine.Prelude.{
  ◌⊎◌, none, Bool-cases, ◌==◌, ℕ, ◌≡◌, ap, ◌∙◌, inl, inr, List, [], ◌++◌, ap₂, Option, some, Map,
  find_key, length, take, arith,
}
use gef_engine.Codec.{Bytes}
use gef_engine.Channel.{Intake, take_in, drop_acked}
use gef_engine.Protocol.{
  server_id, ClientInfo, WireMessage, ReceivedMessage, UpdateRequest, UpdateReply, ok_status,
  leave_kind, encode_update_request, encode_update_reply,
}
use gef_engine.Protocol.Updates.{
  UpdateRequestFits, UpdateReplyFits, decode-encode_update_request, decode-encode_update_reply,
}
use gef_engine.Roster.{replay, replay-append}
use gef_engine.Client.{
  Client, ExchangeResult, ok, apply_timeout, apply_reply, settle_reply, receive, exchange,
}
use gef_engine.Server.{ClientSlot, Server}
use gef_engine.Server.Exchange.{respond, handle_update}
use gef_engine.Server.Valid.{infos, IsValid}
use gef_engine.Server.Roster.{respond_roster}
use gef_engine.Server.Updating.{respond_status, respond_messages, respond_slot}
use gef_engine.Server.Leaving.{respond_leave}

intake_cong :
    {ms ns : List WireMessage} {l k : ℕ} {i j : List ReceivedMessage}
    → ms ≡ ns
    → l ≡ k
    → i ≡ j
    → take_in server_id ms (record { last = l; inbox = i })
      ≡ take_in server_id ns (record { last = k; inbox = j })
intake_cong a b c = cc

-- The parts of a client that an exchange reads.
apply_timeout-parts :
    (c : Client)
    → ((apply_timeout c).outbox ≡ c.outbox)
      × ((apply_timeout c).inbox ≡ c.inbox)
      × ((apply_timeout c).last_received_seq ≡ c.last_received_seq)
      × ((apply_timeout c).roster_events ≡ c.roster_events)
unfolding apply_timeout
apply_timeout-parts c = (ground arith, ground arith, ground arith, ground arith)

exchange_answered :
    (req : UpdateRequest) (network : Bytes → Option Bytes) (c : Client) (reply : UpdateReply)
    → network (encode_update_request req) ≡ some (encode_update_reply reply)
    → UpdateReplyFits reply
    → reply.status ≡ ok_status
    → exchange req network c ≡ (ok, apply_reply reply (apply_timeout c))
unfolding exchange receive settle_reply
exchange_answered req network c reply answer fits good =
    rw (answer, decode-encode_update_reply reply fits, good, receive)

handle_decoded :
    (id now : ℕ) (req : UpdateRequest) (s : Server)
    → UpdateRequestFits req
    → handle_update id now (encode_update_request req) s
      ≡ ((respond id now req s).0, encode_update_reply (respond id now req s).1)
unfolding handle_update
handle_decoded id now req s fits = rw (decode-encode_update_request req fits, handle_update)

-- A client and the server that it is on: `req` is a request of the client's, and it and the reply
-- fit their fields.
module _ (c : Client) (s : Server) (slot : ClientSlot) (now : ℕ) (req : UpdateRequest)
    (own : req.id ≡ c.id) (known : find_key c.id s.clients ≡ some slot)
    (fits : UpdateRequestFits req) (reply_fits : UpdateReplyFits (respond c.id now req s).1) where
  abbrev after_exchange : ExchangeResult × Client
  after_exchange = exchange req (λ bytes. some (handle_update c.id now bytes s).1) c

  respond_ok : (respond c.id now req s).1.status ≡ ok_status
  respond_ok = elim (respond_status c.id now req s) [
    | inl refused ↦ absurd (refused.0 own)
    | inr (inl unknown) ↦ absurd (ground (arith, unknown.1))
    | inr (inr good) ↦ good.2
  ]

  exchange_served : after_exchange ≡ (ok, apply_reply (respond c.id now req s).1 (apply_timeout c))
  exchange_served =
      exchange_answered req (λ bytes. some (handle_update c.id now bytes s).1) c
        (respond c.id now req s).1
        (ap (λ (r : Server × Bytes). some r.1) (handle_decoded c.id now req s fits)) reply_fits
        respond_ok

  -- The server's end of both links.
  served_slot :
      ((req.kind ≡ leave_kind)
        × (find_key c.id (handle_update c.id now (encode_update_request req) s).0.clients ≡ none))
      ⊎ ((slot' : ClientSlot) × (find_key c.id
              (handle_update c.id now (encode_update_request req) s).0.clients
            ≡ some slot')
          × (slot'.last_received_seq
              ≡ (take_in c.id req.messages
                  (record { last = slot.last_received_seq; inbox = s.inbox })).last)
          × (slot'.next_send_seq ≡ slot.next_send_seq)
          × (slot'.outbox ≡ drop_acked req.ack_seq slot.outbox))
  served_slot =
      let same : (handle_update c.id now (encode_update_request req) s).0
          ≡ (respond c.id now req s).0 =
        ap (λ (r : Server × Bytes). r.0) (handle_decoded c.id now req s fits) in
      elim (Bool-cases (req.kind == leave_kind)) [
        | inl leaving ↦
            let gone = respond_leave c.id now req slot s own known (ground (arith, leaving)) in
            inl (ground (arith, leaving), rw same gone.client)
        | inr staying ↦
            let kept = respond_slot c.id now req slot s own known (ground (arith, staying)) in
            inr (kept.0, rw same kept.1, kept.2, kept.3, kept.4)
      ]

  -- For a client that the server knows, a request under its id, and a request and a reply that fit
  -- their fields, an exchange is one step of a link each way:
  -- the server takes in the client's messages, the client drops what the server then has, and it
  -- takes in what the server still holds for it behind the client's acknowledgement. The server's
  -- end of both links moves on: unless the client leaves, and is then gone, its slot has the number
  -- reached, the unacknowledged rest of the outbox and the same next number.
  pub exchange_links :
      (after_exchange.0 ≡ ok)
      × ((handle_update c.id now (encode_update_request req) s).0.inbox
          ≡ (take_in c.id req.messages
              (record { last = slot.last_received_seq; inbox = s.inbox })).inbox)
      × (after_exchange.1.outbox
          ≡ drop_acked
              (take_in c.id req.messages
                (record { last = slot.last_received_seq; inbox = s.inbox })).last
              c.outbox)
      × (after_exchange.1.inbox
          ≡ (take_in server_id
              (drop_acked req.ack_seq slot.outbox)
              (record { last = c.last_received_seq; inbox = c.inbox })).inbox)
      × (after_exchange.1.last_received_seq
          ≡ (take_in server_id
              (drop_acked req.ack_seq slot.outbox)
              (record { last = c.last_received_seq; inbox = c.inbox })).last)
      × (((req.kind ≡ leave_kind)
            × (find_key c.id (handle_update c.id now (encode_update_request req) s).0.clients
                ≡ none))
          ⊎ ((slot' : ClientSlot) × (find_key c.id
                  (handle_update c.id now (encode_update_request req) s).0.clients
                ≡ some slot')
              × (slot'.last_received_seq
                  ≡ (take_in c.id req.messages
                      (record { last = slot.last_received_seq; inbox = s.inbox })).last)
              × (slot'.next_send_seq ≡ slot.next_send_seq)
              × (slot'.outbox ≡ drop_acked req.ack_seq slot.outbox)))
  unfolding apply_reply
  exchange_links =
      let m = respond_messages c.id now req slot s own known in
      let p = apply_timeout-parts c in
      let got = intake_cong m.2 p.2 p.1 in
      (
        ap (λ (r : ExchangeResult × Client). r.0) exchange_served,
        ap (λ (r : Server × Bytes). r.0.inbox) (handle_decoded c.id now req s fits) ∙ m.0,
        ap (λ (r : ExchangeResult × Client). r.1.outbox) exchange_served ∙ ap₂ drop_acked m.1 p.0,
        ap (λ (r : ExchangeResult × Client). r.1.inbox) exchange_served
            ∙ ap (λ (i : Intake). i.inbox) got,
        ap (λ (r : ExchangeResult × Client). r.1.last_received_seq) exchange_served
            ∙ ap (λ (i : Intake). i.last) got,
        served_slot,
      )

  -- A client that a valid server knows, whose game has drained the roster events before those that
  -- wait, and a request under its id, the request and the reply fitting their fields: if
  -- the events so far replay to the roster of the version that the request reports, then after the
  -- exchange they replay to exactly the server's clients, and the client's version is the newest.
  pub exchange_roster :
      (drained : Map ClientInfo)
      → IsValid s
      → replay c.roster_events drained ≡ replay (take req.roster_version s.roster_log) []
      → (replay after_exchange.1.roster_events drained ≡ infos s.clients)
        × (after_exchange.1.roster_version ≡ length s.roster_log)
  unfolding apply_reply
  exchange_roster drained v upto =
      let m = respond_roster c.id now req slot s v own known in
      let p = apply_timeout-parts c in
      let events = (respond c.id now req s).1.roster_events in
      (
        ap (λ (r : ExchangeResult × Client). replay r.1.roster_events drained) exchange_served
            ∙ (ap (λ l. replay (l ++ events) drained) p.3
                ∙ (replay-append c.roster_events events drained ∙ (ap (replay events) upto ∙ m.0))),
        ap (λ (r : ExchangeResult × Client). r.1.roster_version) exchange_served ∙ m.1,
      )
