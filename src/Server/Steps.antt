-- ===== src/Server/Steps.antt =====
-- Every operation of sessionServer keeps its invariant, in any order.
use gef_engine.Prelude.{
  ℕ, ◌+◌, ◌%◌, ◌^◌, ◌≤◌, ◌≡◌, refl, sym, subst, ◌∙◌, inl, inr, [], ◌∷◌, ◌++◌, Option, some, Map,
  find_key, put_key, arith, ltb, Bool-cases, Option-cases,
}
use gef_engine.Prelude.MapLaws.{
  map_values-put, map_values-erase, find-map_values, find-erase, find-put,
}
use gef_engine.Protocol.{ClientId, JoinRequest, joined_change, left_change}
use gef_engine.Server.{
  ClientSlot, Server, retire, retire_slot, find_token, add_client, admit, new_slot,
}
use gef_engine.Server.Valid.{infos, IsBook, IsValid, join-IsBook, leave-IsBook, infos-put}

pub find-infos :
    (id : ClientId) (slot : ClientSlot) (m : Map ClientSlot)
    → find_key id m ≡ some slot
    → find_key id (infos m) ≡ some slot.info
find-infos id slot m e = find-map_values (λ s. s.info) id m ∙ rw e

add_client-IsValid :
    (port now : ℕ) (req : JoinRequest) (s : Server)
    → IsValid s
    → s.next_id ≤ 255
    → IsValid (add_client port now req s).0
unfolding add_client
add_client-IsValid port now req s v h =
    let slot = new_slot s.next_id port now req in
    let grown = map_values-put (λ (x : ClientSlot). x.info) s.next_id slot s.clients in
    record {
      book =
          subst
            (λ k.
              IsBook k ((s.next_id + 1) % 2 ^ 32)
                (s.roster_log ++ (record { change = joined_change; client = slot.info } ∷ [])))
            (sym grown)
            (join-IsBook (infos s.clients) s.next_id s.roster_log slot.info v.book refl h);
      live = λ k e.
          v.live k (ground (arith, e, grown, find-put k s.next_id slot.info (infos s.clients)));
    }

pub admit-IsValid :
    (socket : Option ℕ) (now : ℕ) (req : JoinRequest) (s : Server)
    → IsValid s
    → IsValid (admit socket now req s).0
unfolding admit
admit-IsValid socket now req s v = elim (Option-cases (find_token req.token s.clients)) [
  | inr (found, e) ↦ rw (e, admit) v
  | inl e ↦ elim (Bool-cases (ltb 255 s.next_id)) [
    | inl full ↦ rw (e, full, admit) v
    | inr free ↦ elim (Option-cases socket) [
      | inl bad ↦ rw (e, free, bad, admit) v
      | inr (port, good) ↦
          rw (e, free, good, admit) (add_client-IsValid port now req s v (ground arith))
    ]
  ]
]

retire_slot-IsValid :
    (id : ClientId) (slot : ClientSlot) (s : Server)
    → find_key id s.clients ≡ some slot
    → IsValid s
    → IsValid (retire_slot id slot s)
unfolding retire_slot
retire_slot-IsValid id slot s e v =
    let shrunk = map_values-erase (λ (x : ClientSlot). x.info) id s.clients in
    record {
      book =
          subst
            (λ k.
              IsBook k s.next_id
                (s.roster_log ++ (record { change = left_change; client = slot.info } ∷ [])))
            (sym shrunk)
            (leave-IsBook (infos s.clients) s.next_id s.roster_log id slot.info v.book
              (find-infos id slot s.clients e));
      live = λ k h.
          ground (
            arith,
            h,
            shrunk,
            find-erase k id (infos s.clients),
            find-erase k id s.states,
            v.live k,
          );
    }

pub retire-IsValid : (id : ClientId) (s : Server) → IsValid s → IsValid (retire id s)
unfolding retire
retire-IsValid id s v = elim (Option-cases (find_key id s.clients)) [
  | inl e ↦ rw (e, retire) v
  | inr (slot, e) ↦ rw (e, retire) (retire_slot-IsValid id slot s e v)
]

-- A change of one slot that keeps its info.
pub slot-IsValid :
    (id : ClientId) (slot slot' : ClientSlot) (s : Server)
    → IsValid s
    → find_key id s.clients ≡ some slot
    → slot'.info ≡ slot.info
    → IsValid (record s { clients = put_key id slot' s.clients })
slot-IsValid id slot slot' s v e same =
    let kept = infos-put id slot slot' s.clients v.book.ordered e same in
    record {
      book = subst (λ k. IsBook k s.next_id s.roster_log) (sym kept) v.book;
      live = λ k h. v.live k (rw kept at h);
    }
