-- ===== src/Replicator/Binding.antt =====
-- bind keeps the two maps inverse to each other.
use gef_engine.Prelude.{
  ℕ, ◌+◌, ◌<◌, ◌≡◌, refl, sym, ap, subst, ◌∙◌, inl, inr, none, some, ◌&&◌, Map, find_key, put_key,
  erase_key, arith, Option-cases, ◌==◌, if◌then◌else◌, leb,
}
use gef_engine.Prelude.MapLaws.{find-put, find-erase}
use gef_engine.Scene.{EntityId, NetId, owner_of, local_of, Scene}
use gef_engine.Replicator.{Replicator, unbind_id, unbind_entity, bind_pair, bind}
use gef_engine.Replicator.Paired.{
  IsPaired, erase_pair-IsPaired, put_pair-IsPaired, grow-IsPaired, put_over_erase,
}

-- What bind makes of a replicator in which neither the id nor the entity stands for anything, up to
-- how its maps are written.
bound-IsPaired :
    (q : Replicator) (s : Scene) (id entity : ℕ) (m n : Map ℕ)
    → IsPaired q s
    → find_key id q.entities ≡ none
    → find_key entity q.net_ids ≡ none
    → entity < s.next_id
    → ((i : ℕ) → find_key i m ≡ find_key i (put_key id entity q.entities))
    → ((i : ℕ) → find_key i n ≡ find_key i (put_key entity id q.net_ids))
    → IsPaired
        (record q {
          entities = m;
          net_ids = n;
          next_local =
              if owner_of id == q.self && leb q.next_local (local_of id)
              then local_of id + 1
              else q.next_local;
        })
        s
bound-IsPaired q s id entity m n h no_id no_entity lt em en =
    let next =
      if owner_of id == q.self && leb q.next_local (local_of id)
      then local_of id + 1
      else q.next_local in
    let grown = grow-IsPaired q s h s next (omega arith) (ground arith) in
    let k =
      put_pair-IsPaired (record q { next_local = next }) s grown id entity no_id no_entity lt
        (λ o. ground (arith, o)) in
    record {
      back = λ i x e. en x ∙ k.back i x (sym (em i) ∙ e);
      forth = λ x i e. em i ∙ k.forth x i (sym (en x) ∙ e);
      known = λ x i e. k.known x i (sym (en x) ∙ e);
      used = λ i x e. k.used i x (sym (em i) ∙ e);
    }

-- What bind comes to, once its two lookups are known.
bind_parts :
    (id : NetId) (entity : EntityId) (p q r : Replicator) (s : Scene)
    → unbind_id id p ≡ q
    → unbind_entity entity q ≡ r
    → IsPaired (bind_pair id entity r) s
    → IsPaired (bind id entity p) s
unfolding bind
bind_parts id entity p q r s e f h =
    subst (λ x. IsPaired (bind_pair id entity x) s) (sym (ap (unbind_entity entity) e ∙ f)) h

unbind_id-none : (id : NetId) (p : Replicator) → find_key id p.entities ≡ none → unbind_id id p ≡ p
unfolding unbind_id
unbind_id-none id p e = rw (e, unbind_id)

unbind_id-some :
    (id old : ℕ) (p : Replicator)
    → find_key id p.entities ≡ some old
    → unbind_id id p ≡ record p { net_ids = erase_key old p.net_ids }
unfolding unbind_id
unbind_id-some id old p e = rw (e, unbind_id)

unbind_entity-none :
    (entity : EntityId) (p : Replicator)
    → find_key entity p.net_ids ≡ none
    → unbind_entity entity p ≡ p
unfolding unbind_entity
unbind_entity-none entity p e = rw (e, unbind_entity)

unbind_entity-some :
    (entity old : ℕ) (p : Replicator)
    → find_key entity p.net_ids ≡ some old
    → unbind_entity entity p ≡ record p { entities = erase_key old p.entities }
unfolding unbind_entity
unbind_entity-some entity old p e = rw (e, unbind_entity)

pub bind-IsPaired :
    (p : Replicator) (s : Scene) (id : NetId) (entity : EntityId)
    → entity < s.next_id
    → IsPaired p s
    → IsPaired (bind id entity p) s
unfolding bind_pair
bind-IsPaired p s id entity lt h = elim (Option-cases (find_key id p.entities)) [
  | inl no_id ↦ elim (Option-cases (find_key entity p.net_ids)) [
    | inl no_entity ↦
        bind_parts id entity p p p s (unbind_id-none id p no_id)
          (unbind_entity-none entity p no_entity)
          (bound-IsPaired p s id entity (put_key id entity p.entities) (put_key entity id p.net_ids)
            h no_id no_entity lt (λ i. refl) (λ i. refl))
    | inr (old, bound) ↦
        let there = h.forth entity old bound in
        let q = erase_pair-IsPaired p s h old entity there in
        bind_parts id entity p p (record p { entities = erase_key old p.entities }) s
          (unbind_id-none id p no_id) (unbind_entity-some entity old p bound)
          (bound-IsPaired
            (record p { entities = erase_key old p.entities; net_ids = erase_key entity p.net_ids })
            s id entity (put_key id entity (erase_key old p.entities)) (put_key entity id p.net_ids)
            q (ground (arith, no_id, find-erase id old p.entities))
            (ground (arith, find-erase entity entity p.net_ids)) lt (λ i. refl)
            (λ i. put_over_erase i entity id p.net_ids))
  ]
  | inr (e, taken) ↦
      let p' : Replicator = record p {
        entities = erase_key id p.entities;
        net_ids = erase_key e p.net_ids;
      } in
      let parted : Replicator = record p { net_ids = erase_key e p.net_ids } in
      let q = erase_pair-IsPaired p s h id e taken in
      elim (Option-cases (find_key entity (erase_key e p.net_ids))) [
        | inl no_entity ↦
            bind_parts id entity p parted parted s (unbind_id-some id e p taken)
              (unbind_entity-none entity parted no_entity)
              (bound-IsPaired p' s id entity (put_key id entity p.entities)
                (put_key entity id (erase_key e p.net_ids)) q
                (ground (arith, find-erase id id p.entities)) no_entity lt
                (λ i. put_over_erase i id entity p.entities) (λ i. refl))
        | inr (old, bound) ↦
            let there = q.forth entity old bound in
            let q' = erase_pair-IsPaired p' s q old entity there in
            bind_parts id entity p parted (record parted { entities = erase_key old p.entities }) s
              (unbind_id-some id e p taken) (unbind_entity-some entity old parted bound)
              (bound-IsPaired
                (record p {
                  entities = erase_key old (erase_key id p.entities);
                  net_ids = erase_key entity (erase_key e p.net_ids);
                })
                s id entity (put_key id entity (erase_key old p.entities))
                (put_key entity id (erase_key e p.net_ids)) q'
                (ground
                  (arith, find-erase id id p.entities, find-erase id old (erase_key id p.entities)))
                (ground (arith, find-erase entity entity (erase_key e p.net_ids))) lt
                (λ i. ground (
                  arith,
                  find-put i id entity (erase_key old p.entities),
                  find-put i id entity (erase_key old (erase_key id p.entities)),
                  find-erase i old p.entities,
                  find-erase i old (erase_key id p.entities),
                  find-erase i id p.entities,
                ))
                (λ i. put_over_erase i entity id (erase_key e p.net_ids)))
      ]
]
