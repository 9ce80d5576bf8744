-- ===== src/Replicator/Sending.antt =====
-- src/networking/sceneReplicator.cpp: the records that encode collects, and what they say of the scene.
use gef_engine.Prelude.{
  ℕ, suc, ◌≤◌, ◌≡◌, sym, ap, subst, ◌∙◌, inl, inr, true, not, List, [], ◌∷◌, none, some, Map, From,
  find_key, All, arith, Bool-cases, Option-cases, ◌==◌, if◌then◌else◌,
}
use gef_engine.Scene.{EntityId, NetId, owner_of, Scene, Transform}
use gef_engine.Snapshot.{EntityRecord, has_bit, blank_record}
use gef_engine.Replicator.{Replicator}
use gef_engine.Replicator.Encoding.{
  record_body, record_collider, record_shape, record_extra, record_of, collect,
}
use gef_engine.Replicator.Shown.{seen_shape, Shown, Rising}

-- The record of an entity that is there.
module _ (id : NetId) (entity : EntityId) (p : Replicator) (s : Scene) (x : Transform) where
  abbrev pub full : EntityRecord
  full = record_extra id p (
      record_shape entity s (
        record_collider entity s
          (record_body entity s (record blank_record { id = id; transform = x }))))

  -- It has the entity's components.
  record Reflects (r : EntityRecord) : Type 0 where
    pub same_id : r.id ≡ id
    pub place : r.transform ≡ x
    pub body :
        (if has_bit r.mask 1 then some r.rigid_body else none) ≡ find_key entity s.rigid_bodies
    pub collider :
        (if has_bit r.mask 2 then some r.collider else none) ≡ find_key entity s.colliders
    pub shape :
        (if has_bit r.mask 4
          then some (r.shape_size, r.shape_color, not (r.shape_tiled == 0))
          else none)
        ≡ seen_shape (find_key entity s.shapes)
    pub extra : (if has_bit r.mask 8 then some r.extra else none) ≡ find_key id p.extras

  full-Reflects : Reflects full
  unfolding record_body record_collider record_shape record_extra blank_record has_bit
  full-Reflects = record {
    same_id = ground arith;
    place = ground arith;
    body = ground arith;
    collider = ground arith;
    shape = ground arith;
    extra = ground arith;
  }

  pub record_of-full :
      owner_of id ≡ p.self
      → find_key entity s.transforms ≡ some x
      → record_of true id entity p s ≡ some full
  unfolding record_of
  record_of-full own there = ground (arith, own, there)

-- The records of a snapshot are of the sender's own ids, which climb.
record_of-id :
    (id : NetId) (entity : EntityId) (p : Replicator) (s : Scene) (r : EntityRecord)
    → record_of true id entity p s ≡ some r
    → (r.id ≡ id) × (owner_of r.id ≡ p.self)
unfolding record_of
record_of-id id entity p s r e = elim (Bool-cases (owner_of id == p.self)) [
  | inr other ↦ absurd (ground (arith, other, e))
  | inl own ↦ elim (Option-cases (find_key entity s.transforms)) [
    | inl gone ↦ absurd (ground (arith, own, gone, e))
    | inr (x, there) ↦
        let mine : owner_of id ≡ p.self = ground arith in
        let same : full id entity p s x ≡ r =
          (let q : some (full id entity p s x) ≡ some r =
              sym (record_of-full id entity p s x mine there) ∙ e in
            cc) in
        let k : r.id ≡ id =
          subst (λ (y : EntityRecord). y.id ≡ id) same (full-Reflects id entity p s x).same_id in
        (k, ap owner_of k ∙ mine)
  ]
]

collect-some :
    (id : NetId) (entity : EntityId) (m : Map EntityId) (p : Replicator) (s : Scene)
    (r : EntityRecord)
    → record_of true id entity p s ≡ some r
    → collect true ((id, entity) ∷ m) p s ≡ r ∷ collect true m p s
unfolding collect
collect-some id entity m p s r e = rw (e, collect)

collect-none :
    (id : NetId) (entity : EntityId) (m : Map EntityId) (p : Replicator) (s : Scene)
    → record_of true id entity p s ≡ none
    → collect true ((id, entity) ∷ m) p s ≡ collect true m p s
unfolding collect
collect-none id entity m p s e = rw (e, collect)

Rising-mono : (n k : ℕ) (rs : List EntityRecord) → Rising k rs → n ≤ k → Rising n rs
Rising-mono n k [] h le = tt
Rising-mono n k (r ∷ rs) h le = (omega (arith, h.0), h.1)

pub collect-Rising :
    (n : ℕ) (m : Map EntityId) (p : Replicator) (s : Scene)
    → From n m
    → Rising n (collect true m p s)
unfolding collect
collect-Rising n [] p s o = tt
collect-Rising n ((id, entity) ∷ m) p s o =
    let rest = collect-Rising (suc id) m p s o.1 in
    elim (Option-cases (record_of true id entity p s)) [
      | inl e ↦
          subst (Rising n) (sym (collect-none id entity m p s e))
            (Rising-mono n (suc id) (collect true m p s) rest (omega (arith, o.0)))
      | inr (r, e) ↦
          let same = (record_of-id id entity p s r e).0 in
          subst (Rising n) (sym (collect-some id entity m p s r e)) (
            omega (arith, same, o.0),
            subst (λ k. Rising (suc k) (collect true m p s)) (sym same) rest,
          )
    ]

pub collect-own :
    (m : Map EntityId) (p : Replicator) (s : Scene)
    → All (λ (r : EntityRecord). owner_of r.id ≡ p.self) (collect true m p s)
unfolding collect
collect-own [] p s = tt
collect-own ((id, entity) ∷ m) p s = elim (Option-cases (record_of true id entity p s)) [
  | inl e ↦
      subst (All (λ (r : EntityRecord). owner_of r.id ≡ p.self))
        (sym (collect-none id entity m p s e)) (collect-own m p s)
  | inr (r, e) ↦
      subst (All (λ (r : EntityRecord). owner_of r.id ≡ p.self))
        (sym (collect-some id entity m p s r e))
        ((record_of-id id entity p s r e).1, collect-own m p s)
]

-- What holds of all records holds of that of an entity that has one.
pub collect_found :
    (P : EntityRecord → Type 0) (id : NetId) (entity : EntityId) (r : EntityRecord)
    (m : Map EntityId) (p : Replicator) (s : Scene)
    → All P (collect true m p s)
    → find_key id m ≡ some entity
    → record_of true id entity p s ≡ some r
    → P r
unfolding find_key
collect_found P id entity r [] p s all there e = absurd cc
collect_found P id entity r ((j, k) ∷ m) p s all there e = elim (Bool-cases (id == j)) [
  | inl same ↦
      let at : id ≡ j = ground arith in
      let is : k ≡ entity = (let q : some k ≡ some entity = rw same at there in cc) in
      let here : record_of true j k p s ≡ some r =
        ap (λ i. record_of true i k p s) (sym at) ∙ (ap (λ y. record_of true id y p s) is ∙ e) in
      (subst (All P) (collect-some j k m p s r here) all).0
  | inr other ↦
      let rest : find_key id m ≡ some entity = rw other at there in
      elim (Option-cases (record_of true j k p s)) [
        | inl none' ↦
            collect_found P id entity r m p s (subst (All P) (collect-none j k m p s none') all)
              rest e
        | inr (r', some') ↦
            collect_found P id entity r m p s
              (subst (All P) (collect-some j k m p s r' some') all).1 rest e
      ]
]

-- The entity of the sender, under its id, has a copy at the receiver: the same place, components and
-- extra bytes, less the texture of its shape.
pub record Mirrored (id : NetId) (entity : EntityId) (p : Replicator) (s : Scene) (q : Replicator)
    (t : Scene) : Type 0 where
  pub copy : EntityId
  pub bound : find_key id q.entities ≡ some copy
  pub place : find_key copy t.transforms ≡ find_key entity s.transforms
  pub body : find_key copy t.rigid_bodies ≡ find_key entity s.rigid_bodies
  pub collider : find_key copy t.colliders ≡ find_key entity s.colliders
  pub shape : seen_shape (find_key copy t.shapes) ≡ seen_shape (find_key entity s.shapes)
  pub extra : find_key id q.extras ≡ find_key id p.extras

pub Shown-Mirrored :
    (id : NetId) (entity : EntityId) (p : Replicator) (s : Scene) (x : Transform) (q : Replicator)
    (t : Scene)
    → find_key entity s.transforms ≡ some x
    → Shown (full id entity p s x) q t
    → Mirrored id entity p s q t
Shown-Mirrored id entity p s x q t there h =
    let r = full-Reflects id entity p s x in
    record {
      copy = h.entity;
      bound = ap (λ i. find_key i q.entities) (sym r.same_id) ∙ h.bound;
      place = h.place ∙ (ap some r.place ∙ sym there);
      body = h.body ∙ r.body;
      collider = h.collider ∙ r.collider;
      shape = h.shape ∙ r.shape;
      extra = ap (λ i. find_key i q.extras) (sym r.same_id) ∙ (h.extra ∙ r.extra);
    }
