-- ===== src/Server/Hosted.antt =====
-- src/networking/sessionServer.cpp: where every slot is while a server runs and stops.
use gef_engine.Prelude.{
  ℕ, ◌<◌, ◌≤◌, ◌≡◌, ◌⊎◌, refl, sym, subst, ap, inl, inr, if◌then◌else◌, true, false, List, [], ◌∷◌,
  ◌++◌, some, Map, find_key, has_key, arith, ltb, ◌==◌, Bool-cases,
}
use gef_engine.Protocol.{ClientId}
use gef_engine.Server.{ClientSlot, Server}
use gef_engine.Server.Methods.{watchdog_round}
use gef_engine.Server.Threads.{Host, start, join_each, watch, slots_of}
use gef_engine.Server.Valid.{IsValid}
use gef_engine.Server.Handling.{watchdog_round-IsValid}
use gef_engine.Server.Moves.{Filed, Held, Moves, watchdog_round-Moves}
use gef_engine.Server.Stopping.{Stays}

-- A slot of the client whose handler was stopped and whose thread was joined.
abbrev pub Joined : ClientId → List ClientSlot → Type 0
Joined k [] = ⊥
Joined k (slot ∷ slots) = ((slot.info.id ≡ k) × (slot.stopped ≡ true)) ⊎ Joined k slots

-- Where the slot of the client `k` is.
abbrev pub Placed : ClientId → Host → Type 0
Placed k h = Held k h.server ⊎ (Filed k h.finished ⊎ (Filed k h.slots ⊎ Joined k h.joined))

pub record IsHosted (h : Host) : Type 0 where
  pub valid : h.stage < 3 → IsValid h.server
  pub begun : 1 ≤ h.stage → (h.started ≡ true) × (h.stopped ≡ true) × (h.join_runs ≡ false)
  pub going : h.stage ≡ 0 → h.stopped ≡ false
  pub quiet : 2 ≤ h.stage → (h.watchdog_runs ≡ false) × (h.finished ≡ [])
  pub empty : 3 ≤ h.stage → (h.server.clients ≡ []) × (h.server.retired ≡ [])
  pub unused : h.stage < 3 → h.slots ≡ []
  pub over : h.stage ≡ 4 → h.slots ≡ []
  pub upto : h.stage ≤ 4
  pub first : 1 ≤ h.server.next_id
  pub placed : (k : ClientId) → 1 ≤ k → k < h.server.next_id → Placed k h

pub Joined-left : (k : ClientId) (a b : List ClientSlot) → Joined k a → Joined k (a ++ b)
Joined-left k [] b h = absurd h
Joined-left k (slot ∷ a) b (inl e) = inl e
Joined-left k (slot ∷ a) b (inr h) = inr (Joined-left k a b h)

-- Slots that are joined behind those that were before.
pub join_each-Joined :
    (k : ClientId) (a slots : List ClientSlot) → Filed k slots → Joined k (a ++ join_each slots)
unfolding join_each
join_each-Joined k [] [] h = absurd h
join_each-Joined k [] (slot ∷ slots) (inl e) = inl (e, refl)
join_each-Joined k [] (slot ∷ slots) (inr h) = inr (join_each-Joined k [] slots h)
join_each-Joined k (x ∷ a) slots h = inr (join_each-Joined k a slots h)

pub Filed-slots_of :
    (k : ClientId) (m : Map ClientSlot)
    → has_key k m ≡ true
    → ((slot : ClientSlot) → find_key k m ≡ some slot → slot.info.id ≡ k)
    → Filed k (slots_of m)
unfolding slots_of find_key
Filed-slots_of k [] h own = absurd cc
Filed-slots_of k ((id, slot) ∷ m) h own = elim (Bool-cases (k == id)) [
  | inl e ↦ inl (own slot (ground (arith, e)))
  | inr e ↦ inr (Filed-slots_of k m (ground (arith, e, h)) (λ x f. own x (ground (arith, e, f))))
]

-- A part that changes the server only.
pub server-IsHosted :
    (h : Host) (t : Server)
    → IsHosted h
    → (IsValid h.server → IsValid t)
    → (IsValid h.server → Moves h.server t)
    → (3 ≤ h.stage → Stays h.server t)
    → IsHosted (record h { server = t })
unfolding find_key
server-IsHosted h t v valid moves stays = record {
  valid = λ lt. valid (v.valid lt);
  begun = v.begun;
  going = v.going;
  quiet = v.quiet;
  empty = λ le. (stays le).0;
  unused = v.unused;
  over = v.over;
  upto = v.upto;
  first = elim (Bool-cases (ltb h.stage 3)) [
    | inl e ↦ omega (arith, v.first, (moves (v.valid (ground (arith, e)))).up)
    | inr e ↦ omega (arith, v.first, (stays (ground (arith, e))).1)
  ];
  placed = λ k l lt. elim (Bool-cases (ltb h.stage 3)) [
    | inl e ↦
        let m = moves (v.valid (ground (arith, e))) in
        elim (Bool-cases (ltb k h.server.next_id)) [
          | inl old ↦ elim (v.placed k l (ground (arith, old))) [
            | inl held ↦ inl (m.held k held)
            | inr rest ↦ inr rest
          ]
          | inr new ↦ inl (m.born k (ground (arith, new)) lt)
        ]
    | inr e ↦
        let s = stays (ground (arith, e)) in
        let gone = v.empty (ground (arith, e)) in
        elim (v.placed k l (omega (arith, s.1, lt))) [
          | inl held ↦ absurd (elim held [
            | inl there ↦ absurd (ground (arith, gone.0, there))
            | inr filed ↦ subst (Filed k) gone.1 filed
          ])
          | inr rest ↦ inr rest
        ]
  ];
}

abbrev begun_host : Host → Host
begun_host h = record h { started = true; join_runs = true; watchdog_runs = true }

pub start-IsHosted : (h : Host) → IsHosted h → IsHosted (start h)
unfolding start
start-IsHosted h v = elim (Bool-cases h.started) [
  | inl e ↦ subst IsHosted (sym (ap (λ b. if b then h else begun_host h) e)) v
  | inr e ↦
      rw (e, start)
        (record {
          valid = v.valid;
          begun = λ le. absurd (ground (arith, e, v.begun le));
          going = v.going;
          quiet = λ le. absurd (ground (arith, e, v.begun (omega (arith, le))));
          empty = v.empty;
          unused = v.unused;
          over = v.over;
          upto = v.upto;
          first = v.first;
          placed = v.placed;
        })
]

pub watch-IsHosted :
    (h : Host) (now : ℕ)
    → h.watchdog_runs ≡ true
    → h.finished ≡ []
    → IsHosted h
    → IsHosted (watch now h)
unfolding watch watchdog_round
watch-IsHosted h now runs none_left v =
    let early : h.stage < 2 = elim (Bool-cases (ltb h.stage 2)) [
      | inl e ↦ ground (arith, e)
      | inr e ↦ absurd (ground (arith, runs, v.quiet (ground (arith, e))))
    ] in
    let valid = v.valid (omega (arith, early)) in
    let m = watchdog_round-Moves now h.server valid in
    record {
      valid = λ lt. watchdog_round-IsValid now h.server valid;
      begun = v.begun;
      going = v.going;
      quiet = λ le. absurd (omega (arith, early, le));
      empty = λ le. absurd (omega (arith, early, le));
      unused = v.unused;
      over = v.over;
      upto = v.upto;
      first = omega (arith, v.first, m.up);
      placed = λ k l lt.
          let moved : Held k (record (watchdog_round now h.server).0 {
            retired = (watchdog_round now h.server).1;
          })
              → Placed k (watch now h) =
            λ held. elim held [ inl there ↦ inl (inl there) | inr filed ↦ inr (inl filed) ] in
          elim (Bool-cases (ltb k h.server.next_id)) [
            | inl old ↦ elim (v.placed k l (ground (arith, old))) [
              | inl held ↦ moved (m.held k held)
              | inr (inl filed) ↦ absurd (subst (Filed k) none_left filed)
              | inr (inr rest) ↦ inr (inr rest)
            ]
            | inr new ↦ moved (m.born k (ground (arith, new)) lt)
          ];
    }
