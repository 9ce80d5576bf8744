-- ===== src/Replicator/Spared.antt =====
-- src/networking/sceneReplicator.cpp: what apply and dropOwner leave of the scene and its ids.
use gef_engine.Prelude.{
  ℕ, ◌+◌, ◌^◌, ◌<◌, ◌≤◌, ◌≡◌, refl, sym, subst, ◌∙◌, inl, inr, Bool, List, [], ◌∷◌, Option, none,
  some, length, erase_key, has_key, arith, Bool-cases, Option-cases, find_key, ◌==◌, false, true,
}
use gef_engine.Prelude.MapLaws.{map_values}
use gef_engine.Codec.{Bytes}
use gef_engine.Protocol.{ClientId}
use gef_engine.Scene.{NetId, Scene, destroy_entity}
use gef_engine.Snapshot.{EntityRecord}
use gef_engine.Replicator.{Replicator, IdSet, forget, forget_entity}
use gef_engine.Replicator.Receiving.{
  despawn, ids_from, settle, parse, apply, owned_by, drop_each, drop_owner,
}
use gef_engine.Replicator.Applying.{IsWorld, Spares, Spares-refl, Spares-trans, forget-Spares}
use gef_engine.Replicator.Safety.{forget-IsWorld}
use gef_engine.Replicator.Calls.{AllOthers, owned_by-others, Remote-erased}
use gef_engine.Replicator.Loop.{apply_records_lem}

forget-next_id :
    (id : NetId) (p : Replicator) (s : Scene) → (forget id (p, s)).1.next_id ≡ s.next_id
unfolding forget forget_entity destroy_entity
forget-next_id id p s = elim (Option-cases (find_key id p.entities)) [
  | inl e ↦ rw (e, forget) refl
  | inr (k, e) ↦ rw (e, forget) refl
]

despawn-next_id :
    (previous seen : IdSet) (p : Replicator) (s : Scene)
    → (despawn previous seen (p, s)).1.next_id ≡ s.next_id
unfolding despawn
despawn-next_id [] seen p s = refl
despawn-next_id ((id, x) ∷ previous) seen p s = elim (Bool-cases (has_key id seen)) [
  | inl e ↦ rw e (despawn-next_id previous seen p s)
  | inr e ↦ rw e (
      despawn-next_id previous seen (forget id (p, s)).0 (forget id (p, s)).1
      ∙ forget-next_id id p s)
]

-- The records that a snapshot holds, none if it is malformed.
abbrev pub record_count : Option (List EntityRecord) → ℕ
record_count none = 0
record_count (some rs) = length rs

-- apply does not throw, and makes an entity for each record at most.
pub apply_within :
    (read_json : Bytes → Option (List EntityRecord)) (snapshot : Bytes) (from : ClientId)
    (p : Replicator) (s : Scene)
    → IsWorld p s
    → s.next_id + record_count (parse read_json snapshot) < 2 ^ 32
    → (done : Bool) × (q : Replicator) × (t : Scene) × (apply read_json snapshot from (p, s)
        ≡ some (done, (q, t)))
      × (t.next_id ≤ s.next_id + record_count (parse read_json snapshot))
unfolding apply settle
apply_within read_json snapshot from p s w room = elim (Option-cases (parse read_json snapshot)) [
  | inl bad ↦ (false, p, s, rw (bad, apply) refl, omega arith)
  | inr (rs, good) ↦
      let a =
        apply_records_lem rs [] p s (subst (λ o. s.next_id + record_count o < 2 ^ 32) good room) tt
          w in
      (
        true,
        (settle from a.0 (a.1, a.2)).0,
        (settle from a.0 (a.1, a.2)).1,
        rw (good, a.3, apply) refl,
        rw good (omega (arith, a.7, despawn-next_id (ids_from from a.1.received_from) a.0 a.1 a.2)),
      )
]

drop_each-Spares :
    (ids : List NetId) (p : Replicator) (s : Scene)
    → AllOthers p.self ids
    → IsWorld p s
    → Spares p s (drop_each ids (p, s)).0 (drop_each ids (p, s)).1
unfolding drop_each
drop_each-Spares [] p s h w = Spares-refl p s
drop_each-Spares (id ∷ ids) p s h w =
    let q = (forget id (p, s)).0 in
    let t = (forget id (p, s)).1 in
    let v = forget-IsWorld id p s w in
    let one = forget-Spares id p s h.0 w.paired in
    let rest =
      drop_each-Spares ids (record q { received_from = map_values (erase_key id) q.received_from })
        t (subst (λ self. AllOthers self ids) (sym one.self) h.1)
        (record {
          paired = record {
            back = v.paired.back;
            forth = v.paired.forth;
            known = v.paired.known;
            used = v.paired.used;
          };
          below = v.below;
          remote = λ from. Remote-erased q.self id from q.received_from (v.remote from);
        }) in
    Spares-trans one (record {
      self = rest.self;
      later = rest.later;
      own = rest.own;
      still = rest.still;
      kept = rest.kept;
    })

pub drop_owner-Spares :
    (owner : ClientId) (p : Replicator) (s : Scene)
    → IsWorld p s
    → Spares p s (drop_owner owner (p, s)).0 (drop_owner owner (p, s)).1
unfolding drop_owner
drop_owner-Spares owner p s w = elim (Bool-cases (owner == p.self)) [
  | inl e ↦ rw e (Spares-refl p s)
  | inr e ↦
      let d =
        drop_each-Spares (owned_by owner p.entities) p s
          (owned_by-others p.self owner p.entities (ground arith)) w in
      rw e (record { self = d.self; later = d.later; own = d.own; still = d.still; kept = d.kept })
]
