-- ===== src/Physics/Moving.antt =====
-- src/physics.cpp: what a step does to a scene.
use gef_engine.Prelude.{
  ℕ, suc, ◌<◌, ◌≡◌, refl, sym, ap, subst, ◌∙◌, true, false, [], ◌∷◌, Option, none, some, Map,
  find_key, put_key, From, has_key, Under, arith, ◌==◌, Bool-cases, Option-cases, inl, inr,
  lt_or_ge,
}
use gef_engine.Prelude.MapLaws.{find-put, find_absent, find_over, put-Under}
use gef_engine.Scene.{Transform, RigidBody, Collider, Shape, Scene, store_of}
use gef_engine.Scene.Sound.{IsSound, Follows}
use gef_engine.Physics.{Floats, PhysicsSystem, fall, drift, step_body, step_bodies, step}

module _ (f : Floats) (p : PhysicsSystem) (delta : ℕ) where
  -- Gravity adds to the velocity downwards, and the new velocity to the place, each times the step.
  abbrev pub fell : RigidBody → RigidBody
  fell body = record {
    velocity = record { x = body.velocity.x; y = f.add body.velocity.y (f.mul p.gravity delta) };
  }

  abbrev pub drifted : RigidBody → Transform → Transform
  drifted body t = record t {
    position = record {
      x = f.add t.position.x (f.mul body.velocity.x delta);
      y = f.add t.position.y (f.mul body.velocity.y delta);
    };
  }

  -- Where an entity is that may have a body.
  abbrev pub moved : Option RigidBody → Option Transform → Option Transform
  moved none t = t
  moved (some body) none = none
  moved (some body) (some t) = some (drifted (fell body) t)

  abbrev pub fallen : Option RigidBody → Option RigidBody → Option RigidBody
  fallen none old = old
  fallen (some body) old = some (fell body)

  -- Every entity of the store has a transform.
  abbrev pub Placed : Map RigidBody → Map Transform → Type 0
  Placed [] ts = Unit {0}
  Placed ((id, body) ∷ bodies) ts = (has_key id ts ≡ true) × Placed bodies ts

  -- What a walk over `bodies` makes of a scene.
  pub record Stepped (bodies : Map RigidBody) (s t : Scene) : Type 0 where
    pub bodies_fall :
        (k : ℕ) → find_key k t.rigid_bodies ≡ fallen (find_key k bodies) (find_key k s.rigid_bodies)
    pub places :
        (k : ℕ) → find_key k t.transforms ≡ moved (find_key k bodies) (find_key k s.transforms)
    pub same_colliders : t.colliders ≡ s.colliders
    pub same_shapes : t.shapes ≡ s.shapes
    pub same_others : t.others ≡ s.others
    pub same_id : t.next_id ≡ s.next_id
    pub keeps_under : (n : ℕ) → Under n s.transforms → Under n t.transforms

  Placed-put :
      (bodies : Map RigidBody) (ts : Map Transform) (id : ℕ) (x : Transform)
      → Placed bodies ts
      → Placed bodies (put_key id x ts)
  Placed-put [] ts id x h = tt
  Placed-put ((k, body) ∷ bodies) ts id x h =
      (ground (arith, h.0, find-put k id x ts), Placed-put bodies ts id x h.1)

  step_body_lem :
      (id : ℕ) (body : RigidBody) (s : Scene) (x : Transform)
      → find_key id s.transforms ≡ some x
      → step_body f p delta id body s
        ≡ some (record s {
          rigid_bodies = put_key id (fell body) s.rigid_bodies;
          transforms = put_key id (drifted (fell body) x) s.transforms;
        })
  unfolding step_body fall drift
  step_body_lem id body s x e = ground (arith, e)

  found :
      (id : ℕ) (ts : Map Transform)
      → has_key id ts ≡ true
      → (x : Transform) × (find_key id ts ≡ some x)
  found id ts h = elim (Option-cases (find_key id ts)) [
    | inl e ↦ absurd (let q : false ≡ true = rw (has_key, e) at h in cc)
    | inr there ↦ there
  ]

  key_lt :
      (id n : ℕ) (x : Transform) (ts : Map Transform)
      → find_key id ts ≡ some x
      → Under n ts
      → id < n
  key_lt id n x ts e u = elim (lt_or_ge id n) [
    | inl less ↦ less
    | inr over ↦ absurd (let q : none ≡ some x = sym (find_over id n ts u over) ∙ e in cc)
  ]

  -- The first body, then the others.
  module _ (id : ℕ) (body : RigidBody) (bodies : Map RigidBody) (o : From (suc id) bodies) where
    first_falls :
        (k : ℕ) (old : Map RigidBody)
        → fallen (find_key k bodies) (find_key k (put_key id (fell body) old))
          ≡ fallen (find_key k ((id, body) ∷ bodies)) (find_key k old)
    unfolding find_key
    first_falls k old =
        ground (arith, find-put k id (fell body) old, find_absent k (suc id) bodies o)

    first_moves :
        (k : ℕ) (old : Map Transform) (x : Transform)
        → find_key id old ≡ some x
        → moved (find_key k bodies) (find_key k (put_key id (drifted (fell body) x) old))
          ≡ moved (find_key k ((id, body) ∷ bodies)) (find_key k old)
    unfolding find_key
    first_moves k old x e = elim (Bool-cases (k == id)) [
      | inl same ↦
          let q : k ≡ id = ground arith in
          ground (
            arith,
            q,
            e,
            ap (λ j. find_key j old) q,
            find-put k id (drifted (fell body) x) old,
            find_absent k (suc id) bodies o,
          )
      | inr other ↦ ground (arith, other, find-put k id (drifted (fell body) x) old)
    ]

    one_step :
        (s t : Scene)
        → step_body f p delta id body s ≡ some t
        → step_bodies f p delta ((id, body) ∷ bodies) s ≡ step_bodies f p delta bodies t
    unfolding step_bodies
    one_step s t e = rw (e, step_bodies)

  step_bodies_lem :
      (n : ℕ) (bodies : Map RigidBody) (s : Scene)
      → From n bodies
      → Placed bodies s.transforms
      → (t : Scene) × (step_bodies f p delta bodies s ≡ some t) × Stepped bodies s t
  unfolding step_bodies find_key
  step_bodies_lem n [] s o h = (
    s,
    refl,
    record {
      bodies_fall = λ k. refl;
      places = λ k. refl;
      same_colliders = refl;
      same_shapes = refl;
      same_others = refl;
      same_id = refl;
      keeps_under = λ n u. u;
    },
  )
  step_bodies_lem n ((id, body) ∷ bodies) s o h =
      let (x, there) = found id s.transforms h.0 in
      let s' = record s {
        rigid_bodies = put_key id (fell body) s.rigid_bodies;
        transforms = put_key id (drifted (fell body) x) s.transforms;
      } in
      let placed = Placed-put bodies s.transforms id (drifted (fell body) x) h.1 in
      let (t, ran, rest) = step_bodies_lem (suc id) bodies s' o.1 placed in
      (
        t,
        one_step id body bodies o.1 s s' (step_body_lem id body s x there) ∙ ran,
        record {
          bodies_fall = λ k. rest.bodies_fall k ∙ first_falls id body bodies o.1 k s.rigid_bodies;
          places = λ k. rest.places k ∙ first_moves id body bodies o.1 k s.transforms x there;
          same_colliders = rest.same_colliders;
          same_shapes = rest.same_shapes;
          same_others = rest.same_others;
          same_id = rest.same_id;
          keeps_under = λ m u. rest.keeps_under m (
              put-Under m id (drifted (fell body) x) s.transforms u
                (key_lt id m x s.transforms there u));
        },
      )

  Follows-Placed :
      (n : ℕ) (bodies : Map RigidBody) (ts : Map Transform)
      → From n bodies
      → Follows bodies ts
      → Placed bodies ts
  unfolding find_key
  Follows-Placed n [] ts o h = tt
  Follows-Placed n ((id, body) ∷ bodies) ts o h = (
    ground (arith, h id),
    Follows-Placed (suc id) bodies ts o.1
        λ k e. ground (arith, h k e, find_absent k (suc id) bodies o.1),
  )

  -- The stores of a stepped scene still follow its transforms.
  bodies-Follows :
      (s t : Scene)
      → Follows s.rigid_bodies s.transforms
      → Stepped s.rigid_bodies s t
      → Follows t.rigid_bodies t.transforms
  bodies-Follows s t h st = λ k e. ground (arith, e, h k, st.bodies_fall k, st.places k)

  kept-Follows :
      {V : Type 0} (m : Map V) (s t : Scene)
      → Follows m s.transforms
      → Stepped s.rigid_bodies s t
      → Follows m t.transforms
  kept-Follows m s t h st = λ k e. h k (ground (arith, e, st.places k))

  -- A step of a sound scene does not throw: gravity times the step is added to the vertical velocity
  -- of every body, every entity with a body moves by its new velocity times the step, and every other transform, every collider, shape and other component stays as it
  -- is; the scene is sound afterwards. The bodies are those of a map, whose keys climb.
  pub step_moves :
      (s : Scene)
      → IsSound s
      → From 0 s.rigid_bodies
      → (t : Scene) × (step f p delta s ≡ some t) × Stepped s.rigid_bodies s t × IsSound t
  unfolding step
  step_moves s h o =
      let (t, ran, st) =
        step_bodies_lem 0 s.rigid_bodies s o
          (Follows-Placed 0 s.rigid_bodies s.transforms o h.bodies) in
      (
        t,
        ran,
        st,
        record {
          below =
              subst (λ n. Under n t.transforms) (sym st.same_id) (st.keeps_under s.next_id h.below);
          bodies = bodies-Follows s t h.bodies st;
          colliders =
              subst (λ (m : Map Collider). Follows m t.transforms) (sym st.same_colliders)
                (kept-Follows s.colliders s t h.colliders st);
          shapes =
              subst (λ (m : Map Shape). Follows m t.transforms) (sym st.same_shapes)
                (kept-Follows s.shapes s t h.shapes st);
          others = λ type.
              subst (λ (m : Map (Map ℕ)). Follows (store_of type m) t.transforms)
                (sym st.same_others) (kept-Follows (store_of type s.others) s t (h.others type) st);
        },
      )
