-- ===== src/Client/Lifecycle.antt =====
-- src/networking/sessionClient.cpp: join, start and leave, and the flags that they keep.
use gef_engine.Prelude.{
  ℕ, ◌≡◌, ◌≢◌, ap, ◌∙◌, inl, inr, Bool, none, true, false, Option, Bool-cases, arith, ◌==◌, ◌||◌,
}
use gef_engine.Codec.{Bytes}
use gef_engine.Protocol.{server_id, UpdateRequest, encode_update_request, leave_kind}
use gef_engine.Client.{
  Client, apply_timeout, receive, exchange, join, start, stop_updates, leave, set_reply_timeout,
  build_request, has_updater,
}
use gef_engine.Client.Loop.{conclude}
use gef_engine.Client.Flags.{Flags, flags, IsSettled, Connects, receive-flags, apply_timeout-flags}

-- The owner's calls, and the parts of the update loop, which runs from `start` to `leave` only.
pub data Step : Client → Client → Type 0 where
  try_join : (c : Client) (network : Bytes → Option Bytes) → Step c (join network c).1
  begin : (c : Client) (made : Bool) → Step c (start made c)
  finish :
      (c : Client) (made : Bool) (network : Bytes → Option Bytes) → Step c (leave made network c)
  retime : (c : Client) (milliseconds : ℕ) → Step c (set_reply_timeout milliseconds c)
  arrive :
      (c : Client) (req : UpdateRequest) (answer : Option Bytes) (now last_success : ℕ)
      → c.started ≡ true
      → c.left ≡ false
      → c.updater ≢ none
      → Step c
          (conclude
            (receive answer (apply_timeout c)).0
            req
            now
            last_success
            (receive answer (apply_timeout c)).1).2

pub data Reach (s : Client) : Client → Type 0 where
  origin : Reach s s
  next : {t u : Client} → Reach s t → Step t u → Reach s u

pub record IsOrderly (c : Client) : Type 0 where
  pub settled : IsSettled (flags c)
  pub connects : Connects (flags c)

leave_guarded :
    (made : Bool) (network : Bytes → Option Bytes) (c : Client)
    → (c.id == server_id || c.left) ≡ true
    → leave made network c ≡ c
unfolding leave
leave_guarded made network c e = rw (e, leave)

leave-left :
    (made : Bool) (network : Bytes → Option Bytes) (c : Client)
    → c.id ≢ server_id
    → (leave made network c).left ≡ true
unfolding leave exchange stop_updates
leave-left made network c own = elim (Bool-cases (c.id == server_id || c.left)) [
  | inl e ↦ rw (leave_guarded made network c e) (ground (arith, e))
  | inr e ↦ elim (Bool-cases (made || has_updater c.updater)) [
    | inl socket ↦
        let stopped = stop_updates c in
        let request = encode_update_request (build_request leave_kind stopped) in
        rw (e, socket, leave)
          (ap (λ (f : Flags). f.left) (receive-flags (network request) (apply_timeout stopped))
            ∙ (apply_timeout-flags stopped).1)
    | inr none_made ↦ rw (e, none_made, leave)
  ]
]

start_left : (made : Bool) (c : Client) → c.left ≡ true → start made c ≡ c
unfolding start
start_left made c e = elim (Bool-cases (c.id == server_id || (c.started || c.left))) [
  | inl guarded ↦ rw (guarded, start)
  | inr free ↦ absurd (ground (arith, free))
]

-- After a leave, whatever the network did to it, a client that has an id can neither leave nor
-- start once more: both calls change nothing.
pub leave-leave :
    (c : Client) (made made' : Bool) (first second : Bytes → Option Bytes)
    → c.id ≢ server_id
    → (leave made' second (leave made first c) ≡ leave made first c)
      × (start made' (leave made first c) ≡ leave made first c)
leave-leave c made made' first second own =
    let gone = leave-left made first c own in
    (
      leave_guarded made' second (leave made first c) (ground (arith, gone)),
      start_left made' (leave made first c) gone,
    )
