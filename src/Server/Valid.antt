-- ===== src/Server/Valid.antt =====
-- The invariant of sessionServer. What it says of the clients it says of their infos, which most
-- operations leave alone.
use gef_engine.Prelude.{
  ℕ, ◌+◌, ◌*◌, ◌%◌, ◌^◌, ◌<◌, ◌≤◌, ◌≡◌, refl, ap, ◌∙◌, List, [], ◌∷◌, ◌++◌, none, some, Map,
  find_key, put_key, erase_key, From, Under, length, All, All-append, All-map, arith, length-append,
}
use gef_engine.Prelude.MapLaws.{
  map_values, map_values-put, find-map_values, put_same, put_last, From-append, Under-append,
  Under-mono, erase-From, erase-Under, length-erase_found,
}
use gef_engine.Protocol.{ClientId, ClientInfo, RosterEvent, joined_change, left_change}
use gef_engine.Roster.{apply_event, replay, replay-append}
use gef_engine.Server.{ClientSlot, Server, init}

abbrev pub infos : Map ClientSlot → Map ClientInfo
infos = map_values (λ (slot : ClientSlot). slot.info)

-- Every client is filed under its own id.
abbrev pub Keyed : Map ClientInfo → Type 0
Keyed [] = Unit {0}
Keyed ((id, info) ∷ m) = (info.id ≡ id) × Keyed m

-- The clients, the next id and the log belong together: the log replays to the clients, and it has
-- two entries at most for each id that was given out.
pub record IsBook (known : Map ClientInfo) (next_id : ℕ) (log : List RosterEvent) : Type 0 where
  pub ordered : From 1 known
  pub below : Under next_id known
  pub first : 1 ≤ next_id
  pub last : next_id ≤ 256
  pub keyed : Keyed known
  pub replayed : replay log [] ≡ known
  pub logged : All (λ e. e.client.id < next_id) log
  pub bounded : length log + length known + 2 ≤ 2 * next_id

-- A state that waits to be applied belongs to a client that is there.
pub record IsValid (s : Server) : Type 0 where
  pub book : IsBook (infos s.clients) s.next_id s.roster_log
  pub live : (k : ClientId) → find_key k (infos s.clients) ≡ none → find_key k s.states ≡ none

Keyed-append :
    (k : ℕ) (v : ClientInfo) (m : Map ClientInfo) → v.id ≡ k → Keyed m → Keyed (m ++ ((k, v) ∷ []))
Keyed-append k v [] e h = (e, tt)
Keyed-append k v ((j, w) ∷ m) e h = (h.0, Keyed-append k v m e h.1)

Keyed-erase : (k : ℕ) (m : Map ClientInfo) → Keyed m → Keyed (erase_key k m)
unfolding erase_key
Keyed-erase k [] h = tt
Keyed-erase k ((j, w) ∷ m) h = ground (arith, Keyed-erase k m h.1)

pub Keyed-find :
    (k : ℕ) (v : ClientInfo) (m : Map ClientInfo) → Keyed m → find_key k m ≡ some v → v.id ≡ k
unfolding find_key
Keyed-find k v [] h e = cc
Keyed-find k v ((j, w) ∷ m) h e = ground (arith, Keyed-find k v m h.1)

found_below :
    (k : ℕ) (v : ClientInfo) (m : Map ClientInfo) (n : ℕ)
    → Under n m
    → find_key k m ≡ some v
    → k < n
unfolding find_key
found_below k v [] n u e = cc
found_below k v ((j, w) ∷ m) n u e = ground (arith, found_below k v m n u.1)

pub init-IsValid : IsValid init
unfolding init replay find_key
init-IsValid = record {
  book = record {
    ordered = tt;
    below = tt;
    first = omega arith;
    last = omega arith;
    keyed = tt;
    replayed = refl;
    logged = tt;
    bounded = omega arith;
  };
  live = λ k h. refl;
}

-- A client joins under the next id.
pub join-IsBook :
    (known : Map ClientInfo) (next_id : ℕ) (log : List RosterEvent) (info : ClientInfo)
    → IsBook known next_id log
    → info.id ≡ next_id
    → next_id ≤ 255
    → IsBook
        (put_key next_id info known)
        ((next_id + 1) % 2 ^ 32)
        (log ++ (record { change = joined_change; client = info } ∷ []))
unfolding replay apply_event
join-IsBook known next_id log info b e h =
    let event : RosterEvent = record { change = joined_change; client = info } in
    let last = put_last next_id info known b.below in
    let up : (next_id + 1) % 2 ^ 32 ≡ next_id + 1 = omega arith in
    rw (up, last)
      (record {
        ordered = From-append 1 next_id info known b.ordered b.below b.first;
        below =
            Under-append (next_id + 1) next_id info known
              (Under-mono next_id (next_id + 1) known b.below (omega arith)) (omega arith);
        first = omega arith;
        last = omega arith;
        keyed = Keyed-append next_id info known e b.keyed;
        replayed =
            replay-append log (event ∷ []) []
            ∙ ap (apply_event event) b.replayed
            ∙ ap (λ k. put_key k info known) e
            ∙ last;
        logged =
            All-append (λ x. x.client.id < next_id + 1) log (event ∷ [])
              (All-map (λ x. x.client.id < next_id) (λ x. x.client.id < next_id + 1)
                (λ x h. omega arith) log b.logged)
              (omega arith, tt);
        bounded = omega (
          arith,
          length-append log (event ∷ []),
          length-append known ((next_id, info) ∷ []),
          b.bounded,
        );
      })

-- A client leaves.
pub leave-IsBook :
    (known : Map ClientInfo) (next_id : ℕ) (log : List RosterEvent) (id : ClientId)
    (info : ClientInfo)
    → IsBook known next_id log
    → find_key id known ≡ some info
    → IsBook
        (erase_key id known)
        next_id
        (log ++ (record { change = left_change; client = info } ∷ []))
unfolding replay apply_event
leave-IsBook known next_id log id info b f =
    let event : RosterEvent = record { change = left_change; client = info } in
    record {
      ordered = erase-From 1 id known b.ordered;
      below = erase-Under next_id id known b.below;
      first = b.first;
      last = b.last;
      keyed = Keyed-erase id known b.keyed;
      replayed =
          replay-append log (event ∷ []) []
          ∙ ap (apply_event event) b.replayed
          ∙ ap (λ k. erase_key k known) (Keyed-find id info known b.keyed f);
      logged =
          All-append (λ x. x.client.id < next_id) log (event ∷ []) b.logged
            (
              omega (
                arith,
                Keyed-find id info known b.keyed f,
                found_below id info known next_id b.below f,
              ),
              tt,
            );
      bounded =
          omega
            (arith, length-append log (event ∷ []), length-erase_found id info known f, b.bounded);
    }

-- A slot whose info stays as it was.
pub infos-put :
    (id : ClientId) (slot slot' : ClientSlot) (m : Map ClientSlot)
    → From 1 (infos m)
    → find_key id m ≡ some slot
    → slot'.info ≡ slot.info
    → infos (put_key id slot' m) ≡ infos m
infos-put id slot slot' m f found e =
    map_values-put (λ s. s.info) id slot' m
    ∙ ap (λ x. put_key id x (infos m)) e
    ∙ put_same 1 id slot.info (infos m) f (find-map_values (λ s. s.info) id m ∙ rw found)
