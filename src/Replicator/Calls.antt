-- ===== src/Replicator/Calls.antt =====
-- The calls of a replicator other than apply, and what they keep.
use gef_engine.Prelude.{
  ℕ, ◌+◌, ◌^◌, ◌<◌, ◌≡◌, ◌≢◌, refl, sym, subst, ◌∙◌, inl, inr, List, [], ◌∷◌, Map, find_key,
  erase_key, arith, Bool-cases, Option-cases, ◌==◌,
}
use gef_engine.Prelude.MapLaws.{
  find-erase, find_over, put-Under, Under-mono, map_values, find-map_values,
}
use gef_engine.Protocol.{ClientId}
use gef_engine.Scene.{EntityId, NetId, owner_of, Scene, default_transform, create_entity}
use gef_engine.Scene.Sound.{create_entity_lem}
use gef_engine.Replicator.{
  Replicator, IdSet, track, track_new, untrack, bind, bind_pair, unbind_id, unbind_entity, forget,
}
use gef_engine.Replicator.Receiving.{owned_by, drop_each, drop_owner, ids_from}
use gef_engine.Replicator.Paired.{IsPaired, grow-IsPaired}
use gef_engine.Replicator.Applying.{IsWorld, Remote, forget-Spares}
use gef_engine.Replicator.Safety.{forget-IsWorld}

Remote-erase : (self id : ℕ) (ids : IdSet) → Remote self ids → Remote self (erase_key id ids)
unfolding erase_key
Remote-erase self id [] h = tt
Remote-erase self id ((j, x) ∷ ids) h = ground (arith, h, Remote-erase self id ids h.1)

pub Remote-erased :
    (self id other : ℕ) (received : Map IdSet)
    → Remote self (ids_from other received)
    → Remote self (ids_from other (map_values (erase_key id) received))
Remote-erased self id other received h = elim (Option-cases (find_key other received)) [
  | inl e ↦
      let same : ids_from other (map_values (erase_key id) received) ≡ [] =
        ground (arith, e, find-map_values (erase_key {V = Unit {0}} id) other received) in
      subst (Remote self) (sym same) tt
  | inr (ids, e) ↦
      let same : ids_from other (map_values (erase_key id) received) ≡ erase_key id ids =
        ground (arith, e, find-map_values (erase_key {V = Unit {0}} id) other received) in
      subst (Remote self) (sym same)
        (Remote-erase self id ids (subst (Remote self) (ground (arith, e)) h))
]

abbrev pub AllOthers : ClientId → List NetId → Type 0
AllOthers self [] = Unit {0}
AllOthers self (id ∷ ids) = (owner_of id ≢ self) × AllOthers self ids

-- The calls that only pair ids with entities leave the rest alone.
abbrev pub SameBase : Replicator → Replicator → Type 0
SameBase p q = (q.self ≡ p.self) × (q.received_from ≡ p.received_from)

pub track-SameBase : (e : EntityId) (p : Replicator) → SameBase p (track e p).1
unfolding track track_new
track-SameBase e p = elim (Option-cases (find_key e p.net_ids)) [
  | inl free ↦ rw (free, track) (refl, refl)
  | inr (id, there) ↦ rw (there, track) (refl, refl)
]

pub untrack-SameBase : (e : EntityId) (p : Replicator) → SameBase p (untrack e p)
unfolding untrack
untrack-SameBase e p = elim (Option-cases (find_key e p.net_ids)) [
  | inl free ↦ rw (free, untrack) (refl, refl)
  | inr (id, there) ↦ rw (there, untrack) (refl, refl)
]

unbind_id-SameBase : (id : NetId) (p : Replicator) → SameBase p (unbind_id id p)
unfolding unbind_id
unbind_id-SameBase id p = elim (Option-cases (find_key id p.entities)) [
  | inl free ↦ rw (free, unbind_id) (refl, refl)
  | inr (old, there) ↦ rw (there, unbind_id) (refl, refl)
]

unbind_entity-SameBase : (e : EntityId) (p : Replicator) → SameBase p (unbind_entity e p)
unfolding unbind_entity
unbind_entity-SameBase e p = elim (Option-cases (find_key e p.net_ids)) [
  | inl free ↦ rw (free, unbind_entity) (refl, refl)
  | inr (old, there) ↦ rw (there, unbind_entity) (refl, refl)
]

pub bind-SameBase : (id : NetId) (e : EntityId) (p : Replicator) → SameBase p (bind id e p)
unfolding bind bind_pair
bind-SameBase id e p =
    let a = unbind_id-SameBase id p in
    let b = unbind_entity-SameBase e (unbind_id id p) in (b.0 ∙ a.0, b.1 ∙ a.1)

pub repaired :
    (p q : Replicator) (s : Scene) → SameBase p q → IsPaired q s → IsWorld p s → IsWorld q s
repaired p q s b k w = record {
  paired = k;
  below = w.below;
  remote = λ from.
      subst (λ self. Remote self (ids_from from q.received_from)) (sym b.0)
        (subst (λ received. Remote p.self (ids_from from received)) (sym b.1) (w.remote from));
}

pub owned_by-others :
    (self owner : ClientId) (m : Map EntityId) → owner ≢ self → AllOthers self (owned_by owner m)
unfolding owned_by
owned_by-others self owner [] o = tt
owned_by-others self owner ((id, e) ∷ m) o = ground (arith, o, owned_by-others self owner m o)

drop_each-IsWorld :
    (ids : List NetId) (p : Replicator) (s : Scene)
    → AllOthers p.self ids
    → IsWorld p s
    → IsWorld (drop_each ids (p, s)).0 (drop_each ids (p, s)).1
      × ((drop_each ids (p, s)).0.self ≡ p.self)
unfolding drop_each
drop_each-IsWorld [] p s h w = (w, refl)
drop_each-IsWorld (id ∷ ids) p s h w =
    let q = (forget id (p, s)).0 in
    let t = (forget id (p, s)).1 in
    let v = forget-IsWorld id p s w in
    let kept = (forget-Spares id p s h.0 w.paired).self in
    let rest =
      drop_each-IsWorld ids (record q { received_from = map_values (erase_key id) q.received_from })
        t (subst (λ self. AllOthers self ids) (sym kept) h.1)
        (record {
          paired = record {
            back = v.paired.back;
            forth = v.paired.forth;
            known = v.paired.known;
            used = v.paired.used;
          };
          below = v.below;
          remote = λ from. Remote-erased q.self id from q.received_from (v.remote from);
        }) in
    (rest.0, rest.1 ∙ kept)

Remote-dropped :
    (self owner from : ClientId) (received : Map IdSet)
    → Remote self (ids_from from received)
    → Remote self (ids_from from (erase_key owner received))
Remote-dropped self owner from received h = elim (Bool-cases (from == owner)) [
  | inl e ↦
      let same : ids_from from (erase_key owner received) ≡ [] =
        ground (arith, e, find-erase from owner received) in
      subst (Remote self) (sym same) tt
  | inr e ↦
      let same : ids_from from (erase_key owner received) ≡ ids_from from received =
        ground (arith, e, find-erase from owner received) in
      subst (Remote self) (sym same) h
]

pub drop_owner-IsWorld :
    (owner : ClientId) (p : Replicator) (s : Scene)
    → IsWorld p s
    → IsWorld (drop_owner owner (p, s)).0 (drop_owner owner (p, s)).1
unfolding drop_owner
drop_owner-IsWorld owner p s w = elim (Bool-cases (owner == p.self)) [
  | inl e ↦ rw e w
  | inr e ↦
      let d =
        (drop_each-IsWorld (owned_by owner p.entities) p s
          (owned_by-others p.self owner p.entities (ground arith)) w).0 in
      rw e (record {
        paired = record {
          back = d.paired.back;
          forth = d.paired.forth;
          known = d.paired.known;
          used = d.paired.used;
        };
        below = d.below;
        remote = λ from.
            Remote-dropped (drop_each (owned_by owner p.entities) (p, s)).0.self owner from
              (drop_each (owned_by owner p.entities) (p, s)).0.received_from (d.remote from);
      })
]

pub create-IsWorld :
    (p : Replicator) (s : Scene)
    → s.next_id + 1 < 2 ^ 32
    → IsWorld p s
    → IsWorld p (create_entity s).1
create-IsWorld p s room w =
    let n = s.next_id in
    let born = create_entity_lem s (find_over n n s.transforms w.below (omega arith)) room in
    subst (IsWorld p) (sym born) (record {
      paired = grow-IsPaired p s w.paired _ p.next_local (omega arith) (omega arith);
      below =
          put-Under (n + 1) n default_transform s.transforms
            (Under-mono n (n + 1) s.transforms w.below (omega arith)) (omega arith);
      remote = w.remote;
    })
