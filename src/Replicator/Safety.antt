-- ===== src/Replicator/Safety.antt =====
-- apply as a whole, and the other calls: what holds after every one.
use gef_engine.Prelude.{
  ◌+◌, ◌^◌, ◌<◌, ◌≡◌, refl, sym, subst, ◌⊎◌, inl, inr, Bool, true, false, List, [], ◌∷◌, Option,
  none, some, Map, find_key, put_key, has_key, length, arith, Bool-cases, Option-cases, ◌==◌,
}
use gef_engine.Prelude.MapLaws.{find-put, erase-Under}
use gef_engine.Codec.{Bytes}
use gef_engine.Protocol.{ClientId}
use gef_engine.Scene.{NetId, Scene, destroy_entity}
use gef_engine.Snapshot.{EntityRecord}
use gef_engine.Replicator.{Replicator, IdSet, forget_entity, forget}
use gef_engine.Replicator.Receiving.{despawn, ids_from, settle, parse, apply}
use gef_engine.Replicator.Paired.{forget-IsPaired}
use gef_engine.Replicator.Applying.{
  IsWorld, Remote, Spares, Spares-refl, Spares-trans, forget-Spares,
}
use gef_engine.Replicator.Loop.{apply_records_lem}

pub forget-IsWorld :
    (id : NetId) (p : Replicator) (s : Scene)
    → IsWorld p s
    → IsWorld (forget id (p, s)).0 (forget id (p, s)).1
unfolding forget forget_entity destroy_entity
forget-IsWorld id p s w =
    let k = forget-IsPaired id p s w.paired in
    elim (Option-cases (find_key id p.entities)) [
      | inl e ↦ record {
        paired = k;
        below = rw (e, forget) w.below;
        remote = rw (e, forget) w.remote;
      }
      | inr (entity, e) ↦ record {
        paired = k;
        below = rw (e, forget) (erase-Under s.next_id entity s.transforms w.below);
        remote = rw (e, forget) w.remote;
      }
    ]

despawn_lem :
    (previous seen : IdSet) (p : Replicator) (s : Scene)
    → Remote p.self previous
    → IsWorld p s
    → IsWorld (despawn previous seen (p, s)).0 (despawn previous seen (p, s)).1
      × Spares p s (despawn previous seen (p, s)).0 (despawn previous seen (p, s)).1
unfolding despawn
despawn_lem [] seen p s h w = (w, Spares-refl p s)
despawn_lem ((id, x) ∷ previous) seen p s h w = elim (Bool-cases (has_key id seen)) [
  | inl e ↦ rw e (despawn_lem previous seen p s h.1 w)
  | inr e ↦
      let one = forget-Spares id p s h.0 w.paired in
      let q = (forget id (p, s)).0 in
      let t = (forget id (p, s)).1 in
      let rest =
        despawn_lem previous seen q t (subst (λ self. Remote self previous) (sym one.self) h.1)
          (forget-IsWorld id p s w) in
      rw e (rest.0, Spares-trans one rest.1)
]

Remote-settled :
    (self from other : ClientId) (seen : IdSet) (received : Map IdSet)
    → Remote self seen
    → Remote self (ids_from other received)
    → Remote self (ids_from other (put_key from seen received))
Remote-settled self from other seen received h k = elim (Bool-cases (other == from)) [
  | inl e ↦
      let same : ids_from other (put_key from seen received) ≡ seen =
        ground (arith, e, find-put other from seen received) in
      subst (Remote self) (sym same) h
  | inr e ↦
      let same : ids_from other (put_key from seen received) ≡ ids_from other received =
        ground (arith, e, find-put other from seen received) in
      subst (Remote self) (sym same) k
]

settle_lem :
    (from : ClientId) (seen : IdSet) (p : Replicator) (s : Scene)
    → Remote p.self seen
    → IsWorld p s
    → IsWorld (settle from seen (p, s)).0 (settle from seen (p, s)).1
      × Spares p s (settle from seen (p, s)).0 (settle from seen (p, s)).1
unfolding settle
settle_lem from seen p s h w =
    let d = despawn_lem (ids_from from p.received_from) seen p s (w.remote from) w in
    let q = (despawn (ids_from from p.received_from) seen (p, s)).0 in
    (
      record {
        paired = record {
          back = d.0.paired.back;
          forth = d.0.paired.forth;
          known = d.0.paired.known;
          used = d.0.paired.used;
        };
        below = d.0.below;
        remote = λ other.
            Remote-settled q.self from other seen q.received_from
              (subst (λ self. Remote self seen) (sym d.1.self) h) (d.0.remote other);
      },
      record {
        self = d.1.self;
        later = d.1.later;
        own = d.1.own;
        still = d.1.still;
        kept = d.1.kept;
      },
    )

-- On a replicator and a scene that belong together, applying a snapshot does not throw, as long as
-- the scene has ids left for its records. The two maps stay inverse to each other; the ids of this owner stand for the entities
-- that they stood for; no entity of this process, with an id of this owner's or with none, loses
-- or gains or changes a component, whatever the snapshot says; and a malformed one changes nothing.
pub apply-Spares :
    (read_json : Bytes → Option (List EntityRecord)) (snapshot : Bytes) (from : ClientId)
    (p : Replicator) (s : Scene)
    → IsWorld p s
    → ((rs : List EntityRecord)
        → parse read_json snapshot ≡ some rs
        → s.next_id + length rs < 2 ^ 32)
    → (done : Bool) × (q : Replicator) × (t : Scene) × (apply read_json snapshot from (p, s)
        ≡ some (done, (q, t)))
      × IsWorld q t
      × Spares p s q t
      × (((done ≡ false) × (parse read_json snapshot ≡ none) × (q ≡ p) × (t ≡ s))
          ⊎ ((done ≡ true) × ((rs : List EntityRecord) × (parse read_json snapshot ≡ some rs))))
unfolding apply
apply-Spares read_json snapshot from p s w room = elim (Option-cases (parse read_json snapshot)) [
  | inl bad ↦ (false, p, s, rw (bad, apply), w, Spares-refl p s, inl (refl, bad, refl, refl))
  | inr (rs, good) ↦
      let a = apply_records_lem rs [] p s (room rs good) tt w in
      let b = settle_lem from a.0 a.1 a.2 a.4 a.5 in
      (
        true,
        (settle from a.0 (a.1, a.2)).0,
        (settle from a.0 (a.1, a.2)).1,
        rw (good, a.3, apply),
        b.0,
        Spares-trans a.6 b.1,
        inr (refl, (rs, good)),
      )
]
