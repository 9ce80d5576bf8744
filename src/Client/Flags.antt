-- ===== src/Client/Flags.antt =====
-- src/networking/sessionClient.cpp: the flags of a client, and how join, start and leave keep them.
use gef_engine.Prelude.{
  ℕ, ◌≡◌, ◌≢◌, refl, sym, subst, inl, inr, Bool, true, false, Option, none, some, Bool-cases,
  Option-cases, arith, ◌==◌, ◌||◌,
}
use gef_engine.Codec.{Bytes}
use gef_engine.Protocol.{
  ClientId, server_id, UpdateRequest, encode_join_request, encode_update_request, leave_kind,
  ok_status,
}
use gef_engine.Protocol.Decode.{decode_join_reply, decode_update_reply}
use gef_engine.Client.{
  Client, apply_timeout, apply_reply, settle_reply, receive, exchange, join, start, stop_updates,
  leave, build_request, has_updater,
}

-- What the calls go by.
pub record Flags : Type 0 where
  pub id : ClientId
  pub replicator : Option ClientId
  pub updater : Option ℕ
  pub applied : ℕ
  pub stopping : Bool
  pub connected : Bool
  pub started : Bool
  pub left : Bool

abbrev pub flags : Client → Flags
flags c = record {
  id = c.id;
  replicator = c.replicator;
  updater = c.updater;
  applied = c.applied_reply_timeout;
  stopping = c.stopping;
  connected = c.connected;
  started = c.started;
  left = c.left;
}

pub record IsSettled (f : Flags) : Type 0 where
  pub started : f.started ≡ true → f.id ≢ server_id
  pub left : f.left ≡ true → (f.id ≢ server_id) × (f.stopping ≡ true)
  pub bare : f.started ≡ false → f.left ≡ false → f.updater ≡ none
  pub timed : (t : ℕ) → f.updater ≡ some t → t ≡ f.applied
  pub untimed : f.updater ≡ none → f.applied ≡ 1000
  pub owner : (r : ClientId) → f.replicator ≡ some r → r ≡ f.id

abbrev pub Connects : Flags → Type 0
Connects f = f.connected ≡ true → (f.started ≡ true) × (f.left ≡ false) × (f.updater ≢ none)

pub join-IsSettled :
    (c : Client) (network : Bytes → Option Bytes)
    → IsSettled (flags c)
    → IsSettled (flags (join network c).1)
unfolding join
join-IsSettled c network o = elim (Bool-cases (c.id == server_id)) [
  | inr e ↦ rw (e, join) o
  | inl e ↦
      let req =
        encode_join_request
          (record { token = c.token; hello = c.hello; peer_endpoint = c.peer_endpoint }) in
      elim (Option-cases (network req)) [
        | inl silent ↦ rw (e, silent, join) o
        | inr (bytes, sent) ↦ elim (Option-cases (decode_join_reply bytes)) [
          | inl bad ↦ rw (e, sent, bad, join) o
          | inr (reply, good) ↦ elim (Bool-cases (reply.status == ok_status)) [
            | inr no_ok ↦ rw (e, sent, good, no_ok, join) o
            | inl is_ok ↦
                rw (e, sent, good, is_ok, join)
                  (record {
                    started = λ h. absurd (ground (arith, e, o.started h));
                    left = λ h. absurd (ground (arith, e, o.left h));
                    bare = o.bare;
                    timed = o.timed;
                    untimed = o.untimed;
                    owner = λ r h. ground arith;
                  })
          ]
        ]
      ]
]

pub start-IsSettled :
    (made : Bool) (c : Client) → IsSettled (flags c) → IsSettled (flags (start made c))
unfolding start
start-IsSettled false c o = elim (Bool-cases (c.id == server_id || (c.started || c.left))) [
  | inl e ↦ rw (e, start) o
  | inr e ↦
      rw (e, start)
        (record {
          started = λ h. ground (arith, e);
          left = o.left;
          bare = λ h. absurd cc;
          timed = o.timed;
          untimed = o.untimed;
          owner = o.owner;
        })
]
start-IsSettled true c o = elim (Bool-cases (c.id == server_id || (c.started || c.left))) [
  | inl e ↦ rw (e, start) o
  | inr e ↦
      let idle : (c.started ≡ false) × (c.left ≡ false) = (ground (arith, e), ground (arith, e)) in
      rw (e, start)
        (record {
          started = λ h. ground (arith, e);
          left = λ h. absurd (ground (arith, e, h));
          bare = λ h. absurd cc;
          timed = λ t h. ground (arith, o.untimed (o.bare idle.0 idle.1));
          untimed = λ h. absurd cc;
          owner = o.owner;
        })
]

pub receive-flags : (answer : Option Bytes) (c : Client) → flags (receive answer c).1 ≡ flags c
unfolding receive settle_reply apply_reply
receive-flags none c = refl
receive-flags (some bytes) c = elim (Option-cases (decode_update_reply bytes)) [
  | inl e ↦ rw (e, receive)
  | inr (reply, e) ↦ rw (e, receive) (ground arith)
]

-- A socket is there, so a new timeout reaches it.
pub timeout-IsSettled :
    (c : Client) → c.updater ≢ none → IsSettled (flags c) → IsSettled (flags (apply_timeout c))
unfolding apply_timeout
timeout-IsSettled c u o = elim (Bool-cases (c.reply_timeout == c.applied_reply_timeout)) [
  | inl e ↦ rw (e, apply_timeout) o
  | inr e ↦
      rw (e, apply_timeout)
        (record {
          started = o.started;
          left = o.left;
          bare = λ h k. absurd (u (o.bare h k));
          timed = λ t h. ground arith;
          untimed = λ h. absurd cc;
          owner = o.owner;
        })
]

pub connected-IsSettled :
    (b : Bool) (c : Client) → IsSettled (flags c) → IsSettled (flags (record c { connected = b }))
connected-IsSettled b c o = record {
  started = o.started;
  left = o.left;
  bare = o.bare;
  timed = o.timed;
  untimed = o.untimed;
  owner = o.owner;
}

exchange-IsSettled :
    (request : UpdateRequest) (network : Bytes → Option Bytes) (c : Client)
    → c.updater ≢ none
    → IsSettled (flags c)
    → IsSettled (flags (exchange request network c).1)
unfolding exchange
exchange-IsSettled request network c u o =
    subst IsSettled
      (sym (receive-flags (network (encode_update_request request)) (apply_timeout c)))
      (timeout-IsSettled c u o)

stop_updates-updater : (c : Client) → (stop_updates c).updater ≢ none
unfolding stop_updates
stop_updates-updater c = elim (Option-cases c.updater) [
  | inl e ↦ λ h. absurd (ground (arith, h))
  | inr (t, e) ↦ λ h. absurd (ground (arith, h))
]

-- leave with an update socket, the client's own or a new one.
left-IsSettled :
    (c : Client) (network : Bytes → Option Bytes)
    → (c.id == server_id || c.left) ≡ false
    → IsSettled (flags c)
    → IsSettled (
        flags
          (record (exchange
            (build_request leave_kind (stop_updates c))
            network
            (stop_updates c)).1 { connected = false }))
unfolding stop_updates
left-IsSettled c network e o =
    let stopped = stop_updates c in
    let ready : IsSettled (flags stopped) = elim (Option-cases c.updater) [
      | inl bare ↦ record {
        started = λ h. ground (arith, e);
        left = λ h. (ground (arith, e), refl);
        bare = λ h k. absurd cc;
        timed = λ t h. ground (arith, o.untimed bare);
        untimed = λ h. absurd (ground arith);
        owner = o.owner;
      }
      | inr (t, has) ↦ record {
        started = λ h. ground (arith, e);
        left = λ h. (ground (arith, e), refl);
        bare = λ h k. absurd cc;
        timed = λ t' h. ground (arith, o.timed t has);
        untimed = λ h. absurd (ground arith);
        owner = o.owner;
      }
    ] in
    connected-IsSettled false (exchange (build_request leave_kind stopped) network stopped).1 (
      exchange-IsSettled (build_request leave_kind stopped) network stopped (stop_updates-updater c)
        ready)

pub leave-IsSettled :
    (made : Bool) (c : Client) (network : Bytes → Option Bytes)
    → IsSettled (flags c)
    → IsSettled (flags (leave made network c))
unfolding leave
leave-IsSettled made c network o = elim (Bool-cases (c.id == server_id || c.left)) [
  | inl e ↦ rw (e, leave) o
  | inr e ↦ elim (Bool-cases (made || has_updater c.updater)) [
    | inl socket ↦ rw (e, socket, leave) (left-IsSettled c network e o)
    | inr none_made ↦
        rw (e, none_made, leave)
          (record {
            started = o.started;
            left = λ h. (ground (arith, e), refl);
            bare = λ h k. absurd cc;
            timed = o.timed;
            untimed = o.untimed;
            owner = o.owner;
          })
  ]
]

pub apply_timeout-flags :
    (c : Client)
    → ((apply_timeout c).started ≡ c.started)
      × ((apply_timeout c).left ≡ c.left)
      × ((apply_timeout c).connected ≡ c.connected)
      × (c.updater ≢ none → (apply_timeout c).updater ≢ none)
unfolding apply_timeout
apply_timeout-flags c = (ground arith, ground arith, ground arith, λ h. ground (arith, h))
