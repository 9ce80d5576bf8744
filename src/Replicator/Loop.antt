-- ===== src/Replicator/Loop.antt =====
-- src/networking/sceneReplicator.cpp: the loop of apply over the records.
use gef_engine.Prelude.{
  ℕ, ◌+◌, ◌^◌, ◌<◌, ◌≤◌, ◌≡◌, ◌≢◌, refl, sym, subst, inl, inr, List, [], ◌∷◌, some, put_key, length,
  arith, Bool-cases, ◌==◌,
}
use gef_engine.Scene.{owner_of, Scene}
use gef_engine.Snapshot.{EntityRecord}
use gef_engine.Replicator.{Replicator, IdSet}
use gef_engine.Replicator.Receiving.{apply_records}
use gef_engine.Replicator.Applying.{IsWorld, Remote, Spares, Spares-refl, Spares-trans}
use gef_engine.Replicator.Records.{apply_record_lem}

pub Remote-put :
    (self id : ℕ) (ids : IdSet)
    → owner_of id ≢ self
    → Remote self ids
    → Remote self (put_key id tt ids)
unfolding put_key
Remote-put self id [] o h = (o, tt)
Remote-put self id ((j, x) ∷ ids) o h = ground (arith, o, h, Remote-put self id ids o h.1)

-- The loop over the records does not throw, and makes an entity for each at most.
pub apply_records_lem :
    (rs : List EntityRecord) (seen : IdSet) (p : Replicator) (s : Scene)
    → s.next_id + length rs < 2 ^ 32
    → Remote p.self seen
    → IsWorld p s
    → (seen' : IdSet) × (q : Replicator) × (t : Scene) × (apply_records rs seen (p, s)
        ≡ some (seen', (q, t)))
      × Remote q.self seen'
      × IsWorld q t
      × Spares p s q t
      × (t.next_id ≤ s.next_id + length rs)
unfolding apply_records
apply_records_lem [] seen p s room h w = (seen, p, s, refl, h, w, Spares-refl p s, omega arith)
apply_records_lem (r ∷ rs) seen p s room h w = elim (Bool-cases (owner_of r.id == p.self)) [
  | inl own ↦
      let rest = apply_records_lem rs seen p s (omega arith) h w in
      (rest.0, rest.1, rest.2, rw own rest.3, rest.4, rest.5, rest.6, omega (arith, rest.7))
  | inr other ↦
      let away : owner_of r.id ≢ p.self = ground arith in
      let one = apply_record_lem r p s away (omega arith) w in
      let rest =
        apply_records_lem rs (put_key r.id tt seen) one.0 one.1 (omega (arith, one.3.few))
          (subst (λ self. Remote self (put_key r.id tt seen)) (sym one.3.spares.self)
            (Remote-put p.self r.id seen away h))
          one.3.world in
      (
        rest.0,
        rest.1,
        rest.2,
        rw (other, one.2) rest.3,
        rest.4,
        rest.5,
        Spares-trans one.3.spares rest.6,
        omega (arith, rest.7, one.3.few),
      )
]
