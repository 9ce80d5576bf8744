-- ===== src/Replicator/Mirror.antt =====
-- src/networking/sceneReplicator.cpp: a scene that one side encodes and the other applies.
use gef_engine.Prelude.{
  ◌+◌, ◌^◌, ◌<◌, ◌≡◌, ◌≢◌, refl, sym, ap, subst, ◌∙◌, true, false, List, [], some, Option, From,
  find_key, has_key, length, All, All-map, arith, if◌then◌else◌,
}
use gef_engine.Codec.{Bytes, to_bytes}
use gef_engine.Protocol.{ClientId}
use gef_engine.Scene.{EntityId, NetId, owner_of, Scene, Transform}
use gef_engine.Snapshot.{EntityRecord, write_binary, read_binary}
use gef_engine.Snapshot.RoundTrip.{RecordFits, read-write_binary, write_binary-image}
use gef_engine.Replicator.{Replicator, IdSet}
use gef_engine.Replicator.Encoding.{collect, encode}
use gef_engine.Replicator.Receiving.{parse, apply_records, settle, ids_from, apply}
use gef_engine.Replicator.Applying.{IsWorld}
use gef_engine.Replicator.Others.{despawn-SameFor}
use gef_engine.Replicator.Shown.{Shown, Seen, apply_records-AllShown, Shown-SameFor}
use gef_engine.Replicator.Sending.{
  full, record_of-full, Mirrored, Shown-Mirrored, collect-Rising, collect-own, collect_found,
}

settled-Shown :
    (r : EntityRecord) (from : ClientId) (seen : IdSet) (q : Replicator) (t : Scene)
    → Shown r q t
    → has_key r.id seen ≡ true
    → IsWorld q t
    → Shown r (settle from seen (q, t)).0 (settle from seen (q, t)).1
unfolding settle
settled-Shown r from seen q t h there w =
    let k = despawn-SameFor r.id (ids_from from q.received_from) seen q t there (w.remote from) w in
    Shown-SameFor h (record { bound = k.bound; kept = k.kept; extra = k.extra })

-- A binary snapshot is not taken for JSON.
parse-write_binary :
    (read_json : Bytes → Option (List EntityRecord)) (rs : List EntityRecord)
    → parse read_json (write_binary rs) ≡ read_binary (write_binary rs)
unfolding parse to_bytes
parse-write_binary read_json rs =
    subst (λ bs. parse read_json bs ≡ read_binary bs) (sym (write_binary-image rs)) refl

apply_parsed :
    (read_json : Bytes → Option (List EntityRecord)) (snapshot : Bytes) (from : ClientId)
    (q : Replicator) (t : Scene) (rs : List EntityRecord) (seen : IdSet) (q' : Replicator)
    (t' : Scene)
    → parse read_json snapshot ≡ some rs
    → apply_records rs [] (q, t) ≡ some (seen, (q', t'))
    → apply read_json snapshot from (q, t) ≡ some (true, settle from seen (q', t'))
unfolding apply
apply_parsed read_json snapshot from q t rs seen q' t' e k = rw (e, k, apply)

encode_binary :
    (write_json : List EntityRecord → Bytes) (p : Replicator) (s : Scene)
    → p.json ≡ false
    → encode write_json true p s ≡ write_binary (collect true p.entities p s)
unfolding encode
encode_binary write_json p s e =
    let rs = collect true p.entities p s in ap (λ b. if b then write_json rs else write_binary rs) e

-- A binary snapshot that encodeOwned made of one side's scene, applied at another one with a
-- different owner id: apply succeeds, and every entity that the sender owns there is then mirrored
-- under its id, with the same transform, the same rigid body, collider, shape but for its texture,
-- and extra bytes, or without one where the sender's has none, whatever the receiver had under that
-- id before. The records that the sender encodes fit the wire, and the receiver's entity ids do not run out.
pub apply-encode_owned :
    (write_json : List EntityRecord → Bytes) (read_json : Bytes → Option (List EntityRecord))
    (p : Replicator) (s : Scene) (q : Replicator) (t : Scene)
    → p.json ≡ false
    → p.self ≢ q.self
    → From 0 p.entities
    → All RecordFits (collect true p.entities p s)
    → t.next_id + length (collect true p.entities p s) < 2 ^ 32
    → IsWorld q t
    → (q' : Replicator) × (t' : Scene) × (apply read_json (encode write_json true p s) p.self (q, t)
        ≡ some (true, (q', t')))
      × ((id : NetId) (entity : EntityId) (x : Transform)
          → find_key id p.entities ≡ some entity
          → owner_of id ≡ p.self
          → find_key entity s.transforms ≡ some x
          → Mirrored id entity p s q' t')
apply-encode_owned write_json read_json p s q t binary apart o fits room w =
    let rs = collect true p.entities p s in
    let foreign =
      All-map (λ (r : EntityRecord). owner_of r.id ≡ p.self)
        (λ (r : EntityRecord). owner_of r.id ≢ q.self) (λ r own e. apart (sym own ∙ e)) rs
        (collect-own p.entities p s) in
    let out =
      apply_records-AllShown 0 rs [] q t (collect-Rising 0 p.entities p s o) foreign room tt w in
    let parsed = parse-write_binary read_json rs ∙ read-write_binary rs fits (omega arith) in
    let after = settle p.self out.seen_after (out.after, out.scene) in
    (
      after.0,
      after.1,
      ap (λ bs. apply read_json bs p.self (q, t)) (encode_binary write_json p s binary)
          ∙ apply_parsed read_json (write_binary rs) p.self q t rs out.seen_after out.after
              out.scene parsed out.ran,
      λ id entity x bound own there.
          let both =
            collect_found (λ r. Shown r out.after out.scene × Seen out.seen_after r) id entity
              (full id entity p s x) p.entities p s out.shown bound
              (record_of-full id entity p s x own there) in
          Shown-Mirrored id entity p s x after.0 after.1 there (
            settled-Shown (full id entity p s x) p.self out.seen_after out.after out.scene both.0
              both.1 out.world),
    )
