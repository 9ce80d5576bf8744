-- ===== src/Replicator/Dropped.antt =====
-- src/networking/sceneReplicator.cpp: dropOwner leaves nothing of the owner and spares the rest.
use gef_engine.Prelude.{
  ℕ, ◌≡◌, ◌≢◌, ◌⊎◌, refl, sym, ap, subst, ◌∙◌, inl, inr, true, false, List, [], ◌∷◌, none, some,
  Map, find_key, erase_key, arith, Bool-cases, Option-cases, ◌==◌,
}
use gef_engine.Prelude.MapLaws.{find-erase, map_values}
use gef_engine.Protocol.{ClientId}
use gef_engine.Scene.{EntityId, NetId, owner_of, Scene}
use gef_engine.Replicator.{Replicator, forget, forget_entity}
use gef_engine.Replicator.Receiving.{owned_by, drop_each, drop_owner}

abbrev pub In : ℕ → List ℕ → Type 0
In i [] = ⊥
In i (j ∷ js) = (i ≡ j) ⊎ In i js

forget-none :
    (i id : NetId) (p : Replicator) (s : Scene)
    → find_key i p.entities ≡ none
    → find_key i (forget id (p, s)).0.entities ≡ none
unfolding forget forget_entity
forget-none i id p s h = elim (Option-cases (find_key id p.entities)) [
  | inl e ↦ rw (e, forget) h
  | inr (k, e) ↦ rw (e, forget) (ground (arith, h, find-erase i id p.entities))
]

forget-gone :
    (id : NetId) (p : Replicator) (s : Scene) → find_key id (forget id (p, s)).0.entities ≡ none
unfolding forget forget_entity
forget-gone id p s = elim (Option-cases (find_key id p.entities)) [
  | inl e ↦ rw (e, forget) e
  | inr (k, e) ↦ rw (e, forget) (ground (arith, find-erase id id p.entities))
]

forget-self : (id : NetId) (p : Replicator) (s : Scene) → (forget id (p, s)).0.self ≡ p.self
unfolding forget forget_entity
forget-self id p s = elim (Option-cases (find_key id p.entities)) [
  | inl e ↦ rw (e, forget) refl
  | inr (k, e) ↦ rw (e, forget) refl
]

-- The replicator that the next round of the loop works on.
abbrev struck : NetId → Replicator → Scene → Replicator
struck id p s = record (forget id (p, s)).0 {
  received_from = map_values (erase_key id) (forget id (p, s)).0.received_from;
}

drop_each-none :
    (i : NetId) (ids : List NetId) (p : Replicator) (s : Scene)
    → find_key i p.entities ≡ none
    → find_key i (drop_each ids (p, s)).0.entities ≡ none
unfolding drop_each
drop_each-none i [] p s h = h
drop_each-none i (id ∷ ids) p s h =
    drop_each-none i ids (struck id p s) (forget id (p, s)).1 (forget-none i id p s h)

drop_each-gone :
    (i : NetId) (ids : List NetId) (p : Replicator) (s : Scene)
    → In i ids
    → find_key i (drop_each ids (p, s)).0.entities ≡ none
unfolding drop_each
drop_each-gone i [] p s h = absurd h
drop_each-gone i (id ∷ ids) p s (inl e) =
    drop_each-none i ids (struck id p s) (forget id (p, s)).1
      (subst (λ j. find_key j (forget id (p, s)).0.entities ≡ none) (sym e) (forget-gone id p s))
drop_each-gone i (id ∷ ids) p s (inr h) =
    drop_each-gone i ids (struck id p s) (forget id (p, s)).1 h

drop_each-self :
    (ids : List NetId) (p : Replicator) (s : Scene) → (drop_each ids (p, s)).0.self ≡ p.self
unfolding drop_each
drop_each-self [] p s = refl
drop_each-self (id ∷ ids) p s =
    drop_each-self ids (struck id p s) (forget id (p, s)).1 ∙ forget-self id p s

owned_by-In :
    (i : NetId) (owner : ClientId) (m : Map EntityId) (e : EntityId)
    → find_key i m ≡ some e
    → owner_of i ≡ owner
    → In i (owned_by owner m)
unfolding owned_by find_key
owned_by-In i owner [] e h o = absurd cc
owned_by-In i owner ((j, k) ∷ m) e h o = elim (Bool-cases (i == j)) [
  | inl same ↦
      let at : i ≡ j = ground arith in
      let mine : (owner_of j == owner) ≡ true = ground (arith, ap owner_of at, o) in
      rw (mine, owned_by) (inl at)
  | inr other ↦
      let rest = owned_by-In i owner m e (rw other at h) o in
      elim (Bool-cases (owner_of j == owner)) [
        | inl mine ↦ rw (mine, owned_by) (inr rest)
        | inr not_mine ↦ rw (not_mine, owned_by) rest
      ]
]

pub drop_owner-self :
    (owner : ClientId) (p : Replicator) (s : Scene) → (drop_owner owner (p, s)).0.self ≡ p.self
unfolding drop_owner
drop_owner-self owner p s = elim (Bool-cases (owner == p.self)) [
  | inl own ↦ rw (own, drop_owner) refl
  | inr other ↦ rw (other, drop_owner) (drop_each-self (owned_by owner p.entities) p s)
]

pub drop_owner-none :
    (i : NetId) (owner : ClientId) (p : Replicator) (s : Scene)
    → find_key i p.entities ≡ none
    → find_key i (drop_owner owner (p, s)).0.entities ≡ none
unfolding drop_owner
drop_owner-none i owner p s h = elim (Bool-cases (owner == p.self)) [
  | inl own ↦ rw (own, drop_owner) h
  | inr other ↦ rw (other, drop_owner) (drop_each-none i (owned_by owner p.entities) p s h)
]

pub drop_owner-gone :
    (i : NetId) (owner : ClientId) (p : Replicator) (s : Scene)
    → owner ≢ p.self
    → owner_of i ≡ owner
    → find_key i (drop_owner owner (p, s)).0.entities ≡ none
unfolding drop_owner
drop_owner-gone i owner p s other o =
    let off : (owner == p.self) ≡ false = ground (arith, other) in
    rw (off, drop_owner)
      (elim (Option-cases (find_key i p.entities)) [
        | inl e ↦ drop_each-none i (owned_by owner p.entities) p s e
        | inr (k, e) ↦
            drop_each-gone i (owned_by owner p.entities) p s (owned_by-In i owner p.entities k e o)
      ])
