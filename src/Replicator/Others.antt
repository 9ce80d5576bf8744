-- ===== src/Replicator/Others.antt =====
-- src/networking/sceneReplicator.cpp: what a record or a despawn leaves as it is, for the entity of
-- any other id.
use gef_engine.Prelude.{
  ◌+◌, ◌^◌, ◌<◌, ◌≡◌, ◌≢◌, refl, sym, ap, subst, ◌∙◌, inl, inr, true, false, [], ◌∷◌, some,
  find_key, erase_key, has_key, arith, Bool-cases, Option-cases,
}
use gef_engine.Prelude.MapLaws.{find-put, find-erase}
use gef_engine.Scene.{
  EntityId, NetId, owner_of, Scene, default_transform, has_entity, create_entity, destroy_entity,
  store_of,
}
use gef_engine.Scene.Sound.{store_of-erase}
use gef_engine.Snapshot.{EntityRecord}
use gef_engine.Replicator.{Replicator, IdSet, forget, forget_entity}
use gef_engine.Replicator.Receiving.{spawn, entity_for, shape_of, give_extra, despawn}
use gef_engine.Replicator.Applying.{
  IsWorld, Remote, IsKept, IsKept-trans, IsKept-refl, born, given, forget-Spares,
}
use gef_engine.Replicator.Safety.{forget-IsWorld}

-- The id stands for the same entity afterwards, which has what it had, and has the same extra bytes.
pub record SameFor (i : NetId) (p : Replicator) (s : Scene) (q : Replicator) (t : Scene)
    : Type 0 where
  pub bound : (e : EntityId) → find_key i p.entities ≡ some e → find_key i q.entities ≡ some e
  pub kept : (e : EntityId) → find_key i p.entities ≡ some e → IsKept e s t
  pub extra : find_key i q.extras ≡ find_key i p.extras

pub SameFor-refl : (i : NetId) (p : Replicator) (s : Scene) → SameFor i p s p s
SameFor-refl i p s = record { bound = λ e b. b; kept = λ e b. IsKept-refl e s; extra = refl }

pub SameFor-trans :
    {i : NetId} {p q r : Replicator} {s t u : Scene}
    → SameFor i p s q t
    → SameFor i q t r u
    → SameFor i p s r u
SameFor-trans a b = record {
  bound = λ e h. b.bound e (a.bound e h);
  kept = λ e h. IsKept-trans (a.kept e h) (b.kept e (a.bound e h));
  extra = b.extra ∙ a.extra;
}

module _ (i id : NetId) (apart : i ≢ id) (p : Replicator) (s : Scene) (w : IsWorld p s) where
  -- Two ids do not stand for one entity.
  not_shared :
      (e k : EntityId) → find_key i p.entities ≡ some e → find_key id p.entities ≡ some k → e ≢ k
  not_shared e k a b same = apart (
      let f = w.paired.back i e a in
      let g = w.paired.back id k b in
      let h : some i ≡ some id = sym f ∙ (ap (λ x. find_key x p.net_ids) same ∙ g) in cc)

  spawned-SameFor :
      (other : owner_of id ≢ p.self) (room : s.next_id + 1 < 2 ^ 32) (m : Replicator)
      → m.entities ≡ p.entities
      → m.extras ≡ p.extras
      → SameFor i p s (spawn id (m, s)).1.0 (spawn id (m, s)).1.1
  unfolding spawn create_entity
  spawned-SameFor other room m same extras =
      let n = s.next_id in
      record {
        bound = λ e b. ground (arith, same, b, apart, find-put i id n m.entities);
        kept = λ e b.
            let below : e < n = w.paired.known e i (w.paired.back i e b) in
            record {
              transform =
                  ap (λ (t : Scene). find_key e t.transforms) (born id p s other room w)
                  ∙ ground (arith, below, find-put e n default_transform s.transforms);
              body = refl;
              collider = refl;
              shape = refl;
              other = λ type. refl;
            };
        extra = ap (find_key i) extras;
      }

  pub given-SameFor :
      (r : EntityRecord) (k : EntityId)
      → r.id ≡ id
      → find_key id p.entities ≡ some k
      → SameFor i p s (give_extra r p) (given r k s)
  unfolding give_extra
  given-SameFor r k e b = record {
    bound = λ x a. a;
    kept = λ x a.
        let away = not_shared x k a b in
        record {
          transform = ground (arith, away, find-put x k r.transform s.transforms);
          body = ground (
            arith,
            away,
            find-put x k r.rigid_body s.rigid_bodies,
            find-erase x k s.rigid_bodies,
          );
          collider =
              ground (arith, away, find-put x k r.collider s.colliders, find-erase x k s.colliders);
          shape =
              ground (arith, away, find-put x k (shape_of r k s) s.shapes, find-erase x k s.shapes);
          other = λ type. refl;
        };
    extra = ground (arith, e, apart, find-put i r.id r.extra p.extras, find-erase i r.id p.extras);
  }

  forget-SameFor : SameFor i p s (forget id (p, s)).0 (forget id (p, s)).1
  unfolding forget forget_entity destroy_entity
  forget-SameFor = elim (Option-cases (find_key id p.entities)) [
    | inl e ↦
        rw (e, forget)
          (record {
            bound = λ x a. a;
            kept = λ x a. IsKept-refl x s;
            extra = ground (arith, apart, find-erase i id p.extras);
          })
    | inr (k, b) ↦
        rw (b, forget)
          (record {
            bound = λ x a. ground (arith, a, apart, find-erase i id p.entities);
            kept = λ x a.
                let away = not_shared x k a b in
                record {
                  transform = ground (arith, away, find-erase x k s.transforms);
                  body = ground (arith, away, find-erase x k s.rigid_bodies);
                  collider = ground (arith, away, find-erase x k s.colliders);
                  shape = ground (arith, away, find-erase x k s.shapes);
                  other = λ type. ground (
                    arith,
                    away,
                    store_of-erase type k s.others,
                    find-erase x k (store_of type s.others),
                  );
                };
            extra = ground (arith, apart, find-erase i id p.extras);
          })
  ]

  pub entity_for-SameFor :
      owner_of id ≢ p.self
      → s.next_id + 1 < 2 ^ 32
      → SameFor i p s (entity_for id (p, s)).1.0 (entity_for id (p, s)).1.1
  unfolding entity_for has_entity
  entity_for-SameFor other room = elim (Option-cases (find_key id p.entities)) [
    | inl e ↦ rw (e, entity_for) (spawned-SameFor other room p refl refl)
    | inr (k, b) ↦ elim (Bool-cases (has_key k s.transforms)) [
      | inl there ↦ rw (b, there, entity_for) (SameFor-refl i p s)
      | inr gone ↦
          rw (b, gone, entity_for)
            (spawned-SameFor other room (record p { net_ids = erase_key k p.net_ids }) refl refl)
    ]
  ]

-- The entities of ids that the snapshot has are not despawned.
pub despawn-SameFor :
    (i : NetId) (previous seen : IdSet) (p : Replicator) (s : Scene)
    → has_key i seen ≡ true
    → Remote p.self previous
    → IsWorld p s
    → SameFor i p s (despawn previous seen (p, s)).0 (despawn previous seen (p, s)).1
unfolding despawn
despawn-SameFor i [] seen p s h r w = SameFor-refl i p s
despawn-SameFor i ((id, x) ∷ previous) seen p s h r w = elim (Bool-cases (has_key id seen)) [
  | inl e ↦ rw e (despawn-SameFor i previous seen p s h r.1 w)
  | inr e ↦
      let apart : i ≢ id =
        λ q. absurd (let bad : true ≡ false = sym h ∙ (ap (λ j. has_key j seen) q ∙ e) in cc) in
      let one = forget-SameFor i id apart p s w in
      let self = (forget-Spares id p s r.0 w.paired).self in
      let rest =
        despawn-SameFor i previous seen (forget id (p, s)).0 (forget id (p, s)).1 h
          (subst (λ self. Remote self previous) (sym self) r.1) (forget-IsWorld id p s w) in
      rw e (SameFor-trans one rest)
]
