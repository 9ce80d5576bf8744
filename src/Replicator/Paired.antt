-- ===== src/Replicator/Paired.antt =====
-- What holds of a replicator and its scene between any two calls.
use gef_engine.Prelude.{
  ℕ, ◌+◌, ◌%◌, ◌^◌, ◌<◌, ◌≤◌, ◌≡◌, ◌≢◌, sym, ◌∙◌, inl, inr, none, some, Map, find_key, put_key,
  erase_key, Under, arith, Option-cases,
}
use gef_engine.Prelude.MapLaws.{find-put, find-erase, find_over}
use gef_engine.Scene.{
  EntityId, NetId, make_net_id, owner_of, local_of, Scene, create_entity, destroy_entity,
}
use gef_engine.Replicator.{Replicator, track_new, track, untrack, forget_entity, forget}
use gef_engine.Replicator.Receiving.{spawn}

-- The two maps are inverse to each other, entities are the scene's, and a local part that this owner
-- has in use lies below the next one.
pub record IsPaired (p : Replicator) (s : Scene) : Type 0 where
  pub back : (id e : ℕ) → find_key id p.entities ≡ some e → find_key e p.net_ids ≡ some id
  pub forth : (e id : ℕ) → find_key e p.net_ids ≡ some id → find_key id p.entities ≡ some e
  pub known : (e id : ℕ) → find_key e p.net_ids ≡ some id → e < s.next_id
  pub used :
      (id e : ℕ)
      → find_key id p.entities ≡ some e
      → owner_of id ≡ p.self
      → local_of id < p.next_local

module _ (p : Replicator) (s : Scene) (h : IsPaired p s) where
  pub erase_pair-IsPaired :
      (id e : ℕ)
      → find_key id p.entities ≡ some e
      → IsPaired
          (record p { entities = erase_key id p.entities; net_ids = erase_key e p.net_ids })
          s
  erase_pair-IsPaired id e f = record {
    back = λ i x g. ground (
      arith,
      g,
      find-erase i id p.entities,
      find-erase x e p.net_ids,
      h.back i x,
      h.back id e f,
      h.forth x i,
    );
    forth = λ x i g. ground (
      arith,
      g,
      find-erase i id p.entities,
      find-erase x e p.net_ids,
      h.forth x i,
      h.back id e f,
    );
    known = λ x i g. ground (arith, g, find-erase x e p.net_ids, h.known x i);
    used = λ i x g. ground (arith, g, find-erase i id p.entities, h.used i x);
  }

  pub put_pair-IsPaired :
      (id e : ℕ)
      → find_key id p.entities ≡ none
      → find_key e p.net_ids ≡ none
      → e < s.next_id
      → (owner_of id ≡ p.self → local_of id < p.next_local)
      → IsPaired
          (record p { entities = put_key id e p.entities; net_ids = put_key e id p.net_ids })
          s
  put_pair-IsPaired id e f g lt u = record {
    back = λ i x k.
        ground (arith, k, find-put i id e p.entities, find-put x e id p.net_ids, h.back i x);
    forth = λ x i k.
        ground (arith, k, find-put i id e p.entities, find-put x e id p.net_ids, h.forth x i);
    known = λ x i k. ground (arith, k, find-put x e id p.net_ids, h.known x i);
    used = λ i x k. ground (arith, k, u, find-put i id e p.entities, h.used i x);
  }

  -- More room in the scene, and a later local part.
  pub grow-IsPaired :
      (t : Scene) (next_local : ℕ)
      → s.next_id ≤ t.next_id
      → p.next_local ≤ next_local
      → IsPaired (record p { next_local = next_local }) t
  grow-IsPaired t next_local le more = record {
    back = h.back;
    forth = h.forth;
    known = λ x i k. omega (arith, le, h.known x i k);
    used = λ i x k o. omega (arith, more, h.used i x k o);
  }

  pub replaced-IsPaired :
      (m : Map EntityId)
      → ((i : ℕ) → find_key i m ≡ find_key i p.entities)
      → IsPaired (record p { entities = m }) s
  replaced-IsPaired m same = record {
    back = λ i x k. h.back i x (sym (same i) ∙ k);
    forth = λ x i k. same i ∙ h.forth x i k;
    known = h.known;
    used = λ i x k o. h.used i x (sym (same i) ∙ k) o;
  }

  -- An entity that is not the scene's yet has no id.
  unborn : (e : ℕ) → s.next_id ≤ e → find_key e p.net_ids ≡ none
  unborn e le = elim (Option-cases (find_key e p.net_ids)) [
    | inl gone ↦ gone
    | inr (id, there) ↦ absurd (omega (arith, le, h.known e id there))
  ]

pub put_over_erase :
    (i id e : ℕ) (m : Map ℕ)
    → find_key i (put_key id e m) ≡ find_key i (put_key id e (erase_key id m))
put_over_erase i id e m =
    ground (arith, find-put i id e m, find-put i id e (erase_key id m), find-erase i id m)

pub track-IsPaired :
    (p : Replicator) (s : Scene) (entity : EntityId)
    → p.self ≤ 255
    → p.next_local < 2 ^ 24
    → entity < s.next_id
    → IsPaired p s
    → IsPaired (track entity p).1 s
unfolding track track_new make_net_id owner_of local_of
track-IsPaired p s entity own room lt h = elim (Option-cases (find_key entity p.net_ids)) [
  | inr (id, there) ↦ rw (there, track) h
  | inl free ↦
      let id = make_net_id p.self p.next_local in
      let wrap : (p.next_local + 1) % 2 ^ 32 ≡ p.next_local + 1 = omega arith in
      let grown = grow-IsPaired p s h s (p.next_local + 1) (omega arith) (omega arith) in
      let unused : find_key id p.entities ≡ none = elim (Option-cases (find_key id p.entities)) [
        | inl e ↦ e
        | inr (e, there) ↦ absurd (omega (arith, h.used id e there (omega arith)))
      ] in
      rw (free, wrap, track)
        (put_pair-IsPaired (record p { next_local = p.next_local + 1 }) s grown id entity unused
          free lt (λ _. omega arith))
]

pub untrack-IsPaired :
    (p : Replicator) (s : Scene) (entity : EntityId) → IsPaired p s → IsPaired (untrack entity p) s
unfolding untrack
untrack-IsPaired p s entity h = elim (Option-cases (find_key entity p.net_ids)) [
  | inl e ↦ rw (e, untrack) h
  | inr (id, there) ↦
      let k = erase_pair-IsPaired p s h id entity (h.forth entity id there) in
      rw (there, untrack)
        (record { back = k.back; forth = k.forth; known = k.known; used = k.used })
]

pub forget-IsPaired :
    (id : NetId) (p : Replicator) (s : Scene)
    → IsPaired p s
    → IsPaired (forget id (p, s)).0 (forget id (p, s)).1
unfolding forget forget_entity destroy_entity
forget-IsPaired id p s h = elim (Option-cases (find_key id p.entities)) [
  | inl e ↦
      rw (e, forget) (record { back = h.back; forth = h.forth; known = h.known; used = h.used })
  | inr (entity, there) ↦
      let k = erase_pair-IsPaired p s h id entity there in
      rw (there, forget) (record { back = k.back; forth = k.forth; known = k.known; used = k.used })
]

pub spawn-IsPaired :
    (id : NetId) (p : Replicator) (s : Scene)
    → owner_of id ≢ p.self
    → Under s.next_id s.transforms
    → s.next_id + 1 < 2 ^ 32
    → IsPaired p s
    → find_key id p.entities ≡ none
    → IsPaired (spawn id (p, s)).1.0 (spawn id (p, s)).1.1
unfolding spawn create_entity
spawn-IsPaired id p s other below room h absent =
    let fresh = find_over s.next_id s.next_id s.transforms below (omega arith) in
    let s' = (create_entity s).1 in
    let more : s'.next_id ≡ s.next_id + 1 = omega arith in
    let grown = grow-IsPaired p s h s' p.next_local (omega (arith, more)) (omega arith) in
    put_pair-IsPaired p s' grown id s.next_id absent (unborn p s h s.next_id (omega arith))
      (omega (arith, more)) (λ o. absurd (other o))
