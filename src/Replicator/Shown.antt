-- ===== src/Replicator/Shown.antt =====
-- src/networking/sceneReplicator.cpp: what the records of a snapshot show once they are applied.
use gef_engine.Prelude.{
  ℕ, suc, ◌+◌, ◌^◌, ◌<◌, ◌≤◌, ◌≡◌, ◌≢◌, refl, sym, ap, subst, ◌∙◌, Bool, true, false, not, List, [],
  ◌∷◌, none, some, Option, find_key, put_key, has_key, length, All, arith, ◌==◌, if◌then◌else◌,
}
use gef_engine.Prelude.MapLaws.{find-put, find-erase}
use gef_engine.Scene.{EntityId, NetId, owner_of, Scene, Shape, Vec2, Color}
use gef_engine.Snapshot.{EntityRecord, has_bit}
use gef_engine.Replicator.{Replicator, IdSet}
use gef_engine.Replicator.Receiving.{entity_for, shape_of, give_extra, apply_record, apply_records}
use gef_engine.Replicator.Applying.{
  IsWorld, Remote, Spares, Spares-trans, given, give_components_lem,
}
use gef_engine.Replicator.Records.{entity_for-IsFound, given-IsApplied}
use gef_engine.Replicator.Loop.{Remote-put}
use gef_engine.Replicator.Others.{
  SameFor, SameFor-refl, SameFor-trans, given-SameFor, entity_for-SameFor,
}

-- What a snapshot has of a shape: all but its texture.
abbrev pub seen_shape : Option Shape → Option (Vec2 × Color × Bool)
seen_shape none = none
seen_shape (some x) = some (x.size, x.color, x.tiled)

-- The record's id stands for an entity with exactly the components of the record.
pub record Shown (r : EntityRecord) (q : Replicator) (t : Scene) : Type 0 where
  pub entity : EntityId
  pub bound : find_key r.id q.entities ≡ some entity
  pub place : find_key entity t.transforms ≡ some r.transform
  pub body : find_key entity t.rigid_bodies ≡ (if has_bit r.mask 1 then some r.rigid_body else none)
  pub collider : find_key entity t.colliders ≡ (if has_bit r.mask 2 then some r.collider else none)
  pub shape : seen_shape (find_key entity t.shapes) ≡ (
      if has_bit r.mask 4
      then some (r.shape_size, r.shape_color, not (r.shape_tiled == 0))
      else none)
  pub extra : find_key r.id q.extras ≡ (if has_bit r.mask 8 then some r.extra else none)

pub Shown-SameFor :
    {r : EntityRecord} {p q : Replicator} {s t : Scene}
    → Shown r p s
    → SameFor r.id p s q t
    → Shown r q t
Shown-SameFor h k =
    let still = k.kept h.entity h.bound in
    record {
      entity = h.entity;
      bound = k.bound h.entity h.bound;
      place = still.transform ∙ h.place;
      body = still.body ∙ h.body;
      collider = still.collider ∙ h.collider;
      shape = ap seen_shape still.shape ∙ h.shape;
      extra = k.extra ∙ h.extra;
    }

given-Shown :
    (r : EntityRecord) (k : EntityId) (p : Replicator) (s : Scene)
    → find_key r.id p.entities ≡ some k
    → Shown r (give_extra r p) (given r k s)
unfolding give_extra
given-Shown r k p s b = record {
  entity = k;
  bound = b;
  place = ground (arith, find-put k k r.transform s.transforms);
  body = ground (arith, find-put k k r.rigid_body s.rigid_bodies, find-erase k k s.rigid_bodies);
  collider = ground (arith, find-put k k r.collider s.colliders, find-erase k k s.colliders);
  shape = ground (arith, find-put k k (shape_of r k s) s.shapes, find-erase k k s.shapes);
  extra = ground (arith, find-put r.id r.id r.extra p.extras, find-erase r.id r.id p.extras);
}

-- One record applied: it is shown, and every other id shows what it did.
record IsShown (r : EntityRecord) (p : Replicator) (s : Scene) : Type 0 where
  pub after : Replicator
  pub scene : Scene
  pub ran : apply_record r (p, s) ≡ some (after, scene)
  pub world : IsWorld after scene
  pub spares : Spares p s after scene
  pub few : scene.next_id ≤ s.next_id + 1
  pub shown : Shown r after scene
  pub others : (i : NetId) → i ≢ r.id → SameFor i p s after scene

apply_record-IsShown :
    (r : EntityRecord) (p : Replicator) (s : Scene)
    → owner_of r.id ≢ p.self
    → s.next_id + 1 < 2 ^ 32
    → IsWorld p s
    → IsShown r p s
unfolding apply_record
apply_record-IsShown r p s other room w =
    let out = entity_for r.id (p, s) in
    let f = entity_for-IsFound r.id p s other room w in
    let q = out.1.0 in
    let t = out.1.1 in
    let a = given-IsApplied r out.0 q t (λ e. other (e ∙ f.spares.self)) f.world f.bound in
    record {
      after = give_extra r q;
      scene = given r out.0 t;
      ran = rw (give_components_lem r out.0 t f.there, apply_record);
      world = a.world;
      spares = Spares-trans f.spares a.spares;
      few = f.few;
      shown = given-Shown r out.0 q t f.bound;
      others = λ i apart.
          SameFor-trans (entity_for-SameFor i r.id apart p s w other room)
            (given-SameFor i r.id apart q t f.world r out.0 refl f.bound);
    }

-- The ids of the records climb from `n` on.
abbrev pub Rising : ℕ → List EntityRecord → Type 0
Rising n [] = Unit {0}
Rising n (r ∷ rs) = (n ≤ r.id) × Rising (suc r.id) rs

Rising-ne : (n i : ℕ) (rs : List EntityRecord) → Rising n rs → i < n → All (λ r. i ≢ r.id) rs
Rising-ne n i [] h lt = tt
Rising-ne n i (r ∷ rs) h lt =
    ((λ e. absurd (omega (arith, h.0, e))), Rising-ne (suc r.id) i rs h.1 (omega (arith, h.0)))

-- Whether an id is among those seen.
abbrev pub Seen : IdSet → EntityRecord → Type 0
Seen seen r = has_key r.id seen ≡ true

seen-put : (i id : ℕ) (seen : IdSet) → has_key i seen ≡ true → has_key i (put_key id tt seen) ≡ true
seen-put i id seen h = ground (arith, h, find-put i id tt seen)

seen_now : (id : ℕ) (seen : IdSet) → has_key id (put_key id tt seen) ≡ true
seen_now id seen = ground (arith, find-put id id tt seen)

-- All records applied.
pub record AllShown (rs : List EntityRecord) (seen : IdSet) (p : Replicator) (s : Scene)
    : Type 0 where
  pub seen_after : IdSet
  pub after : Replicator
  pub scene : Scene
  pub ran : apply_records rs seen (p, s) ≡ some (seen_after, (after, scene))
  pub world : IsWorld after scene
  pub remote : Remote after.self seen_after
  pub self : after.self ≡ p.self
  pub shown : All (λ r. Shown r after scene × Seen seen_after r) rs
  pub others : (i : NetId) → All (λ r. i ≢ r.id) rs → SameFor i p s after scene
  pub stays : (i : NetId) → has_key i seen ≡ true → has_key i seen_after ≡ true

apply_records_more :
    (r : EntityRecord) (rs : List EntityRecord) (seen : IdSet) (p q : Replicator) (s t : Scene)
    → owner_of r.id ≢ p.self
    → apply_record r (p, s) ≡ some (q, t)
    → apply_records (r ∷ rs) seen (p, s) ≡ apply_records rs (put_key r.id tt seen) (q, t)
unfolding apply_records
apply_records_more r rs seen p q s t other e =
    let off : (owner_of r.id == p.self) ≡ false = ground (arith, other) in rw (off, e)

pub apply_records-AllShown :
    (n : ℕ) (rs : List EntityRecord) (seen : IdSet) (p : Replicator) (s : Scene)
    → Rising n rs
    → All (λ r. owner_of r.id ≢ p.self) rs
    → s.next_id + length rs < 2 ^ 32
    → Remote p.self seen
    → IsWorld p s
    → AllShown rs seen p s
unfolding apply_records
apply_records-AllShown n [] seen p s o f room h w = record {
  seen_after = seen;
  after = p;
  scene = s;
  ran = refl;
  world = w;
  remote = h;
  self = refl;
  shown = tt;
  others = λ i a. SameFor-refl i p s;
  stays = λ i k. k;
}
apply_records-AllShown n (r ∷ rs) seen p s o f room h w =
    let one = apply_record-IsShown r p s f.0 (omega arith) w in
    let self = one.spares.self in
    let rest =
      apply_records-AllShown (suc r.id) rs (put_key r.id tt seen) one.after one.scene o.1
        (subst (λ me. All (λ r. owner_of r.id ≢ me) rs) (sym self) f.1) (omega (arith, one.few))
        (subst (λ me. Remote me (put_key r.id tt seen)) (sym self)
          (Remote-put p.self r.id seen f.0 h))
        one.world in
    record {
      seen_after = rest.seen_after;
      after = rest.after;
      scene = rest.scene;
      ran = apply_records_more r rs seen p one.after s one.scene f.0 one.ran ∙ rest.ran;
      world = rest.world;
      remote = rest.remote;
      self = rest.self ∙ self;
      shown = (
        (
          Shown-SameFor one.shown
              (rest.others r.id (Rising-ne (suc r.id) r.id rs o.1 (omega arith))),
          rest.stays r.id (seen_now r.id seen),
        ),
        rest.shown,
      );
      others = λ i a. SameFor-trans (one.others i a.0) (rest.others i a.1);
      stays = λ i k. rest.stays i (seen-put i r.id seen k);
    }
