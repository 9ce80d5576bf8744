-- ===== src/Snapshot.antt =====
-- src/networking/sceneReplicator.cpp: entityRecord and the binary snapshot. A component is written as
-- its bytes in memory: the number that they stand for, its first field lowest.
pub mod Packing
pub mod RoundTrip
pub mod Tests
use gef_engine.Prelude.{
  ℕ, zero, suc, ◌+◌, ◌*◌, ◌/◌, ◌%◌, ◌^◌, Bool, true, false, not, ◌&&◌, ◌||◌, List, [], ◌∷◌, ◌++◌,
  Option, none, some, length, ◌==◌, if◌then◌else◌,
}
use gef_engine.Codec.{
  Bytes, put, put_bytes, Reader, reader, Read, ◌>>=◌, return, get, get_bytes, at_end,
}
use gef_engine.Scene.{
  NetId, Vec2, zero_vec, Transform, default_transform, RigidBody, Collider, Color, default_color,
}

abbrev pub format_version : ℕ
format_version = 1

-- The bits of a mask: kHasRigidBody, kHasCollider, kHasShape, kHasExtra.
abbrev pub rigid_body_bit : ℕ
rigid_body_bit = 1

abbrev pub collider_bit : ℕ
collider_bit = 2

abbrev pub shape_bit : ℕ
shape_bit = 4

abbrev pub extra_bit : ℕ
extra_bit = 8

-- `mask & bit`, for one of these.
unfoldable pub has_bit : ℕ → ℕ → Bool
has_bit mask bit = mask / bit % 2 == 1

pub record EntityRecord : Type 0 where
  pub id : NetId
  pub mask : ℕ
  pub transform : Transform
  pub rigid_body : RigidBody
  pub collider : Collider
  pub shape_size : Vec2
  pub shape_color : Color
  pub shape_tiled : ℕ
  pub extra : Bytes

unfoldable pub blank_record : EntityRecord
blank_record = record {
  id = 0;
  mask = 0;
  transform = default_transform;
  rigid_body = record { velocity = zero_vec };
  collider = record { size = zero_vec };
  shape_size = zero_vec;
  shape_color = default_color;
  shape_tiled = 0;
  extra = [];
}

unfoldable pub pack_vec : Vec2 → ℕ
pack_vec v = v.x + 2 ^ 32 * v.y

unfoldable pub unpack_vec : ℕ → Vec2
unpack_vec n = record { x = n % 2 ^ 32; y = n / 2 ^ 32 }

unfoldable pub pack_transform : Transform → ℕ
unfolding pack_vec
pack_transform t = pack_vec t.position + 2 ^ 64 * pack_vec t.scale

unfoldable pub unpack_transform : ℕ → Transform
unfolding unpack_vec
unpack_transform n = record { position = unpack_vec (n % 2 ^ 64); scale = unpack_vec (n / 2 ^ 64) }

unfoldable pub pack_color : Color → ℕ
pack_color c = c.r + 2 ^ 8 * c.g + 2 ^ 16 * c.b + 2 ^ 24 * c.a

unfoldable pub unpack_color : ℕ → Color
unpack_color n = record {
  r = n % 2 ^ 8;
  g = n / 2 ^ 8 % 2 ^ 8;
  b = n / 2 ^ 16 % 2 ^ 8;
  a = n / 2 ^ 24;
}

-- A field that is written only if the mask has its bit.
unfoldable pub put_if : Bool → ℕ → ℕ → Bytes → Bytes
put_if true n v out = put n v out
put_if false n v out = out

unfoldable pub put_bytes_if : Bool → Bytes → Bytes → Bytes
put_bytes_if true bs out = put_bytes bs out
put_bytes_if false bs out = out

-- The body of writeBinary's loop.
unfoldable pub put_record : EntityRecord → Bytes → Bytes
unfolding put_if put_bytes_if has_bit pack_vec pack_transform pack_color
put_record r out =
    let shaped = has_bit r.mask shape_bit in
    let placed = put 16 (pack_transform r.transform) (put 1 r.mask (put 4 r.id out)) in
    let moved = put_if (has_bit r.mask rigid_body_bit) 8 (pack_vec r.rigid_body.velocity) placed in
    let sized = put_if (has_bit r.mask collider_bit) 8 (pack_vec r.collider.size) moved in
    let shape = put_if shaped 1 r.shape_tiled (
      put_if shaped 4 (pack_color r.shape_color) (put_if shaped 8 (pack_vec r.shape_size) sized)) in
    put_bytes_if (has_bit r.mask extra_bit) r.extra shape

unfoldable pub put_record_loop : List EntityRecord → Bytes → Bytes
put_record_loop [] out = out
put_record_loop (r ∷ rs) out = put_record_loop rs (put_record r out)

-- writeBinary
unfoldable pub write_binary : List EntityRecord → Bytes
unfolding put_record_loop
write_binary records =
    put_record_loop records (put 4 (length records % 2 ^ 32) (put 1 format_version []))

-- A field that is read only if the mask has its bit; `old` is what it holds otherwise.
unfoldable pub get_field : Bool → ℕ → ℕ → Read ℕ
get_field true n old = get n old
get_field false n old = return old

unfoldable pub get_run_field : Bool → Read Bytes
get_run_field true = get_bytes []
get_run_field false = return []

-- readRecord, into a blank record; the reader says whether it succeeded.
unfoldable pub get_record : Read EntityRecord
unfolding get_field get_run_field has_bit unpack_vec unpack_transform unpack_color
get_record = do
  id ← get 4 0
  mask ← get 1 0
  transform ← get 16 (pack_transform default_transform)
  velocity ← get_field (has_bit mask rigid_body_bit) 8 0
  size ← get_field (has_bit mask collider_bit) 8 0
  shape_size ← get_field (has_bit mask shape_bit) 8 0
  shape_color ← get_field (has_bit mask shape_bit) 4 (pack_color default_color)
  shape_tiled ← get_field (has_bit mask shape_bit) 1 0
  extra ← get_run_field (has_bit mask extra_bit)
  return (record {
    id = id;
    mask = mask;
    transform = unpack_transform transform;
    rigid_body = record { velocity = unpack_vec velocity };
    collider = record { size = unpack_vec size };
    shape_size = unpack_vec shape_size;
    shape_color = unpack_color shape_color;
    shape_tiled = shape_tiled;
    extra = extra;
  })

-- readBinary's loop, with the rounds left: `none` at a record that cannot be read.
unfoldable pub get_record_loop :
    ℕ → List EntityRecord → Reader → Option (List EntityRecord × Reader)
get_record_loop zero records r = some (records, r)
get_record_loop (suc n) records r =
    let (entity, r') = get_record r in
    elim r'.ok [ true ↦ get_record_loop n (records ++ (entity ∷ [])) r' | false ↦ none ]

-- readBinary
unfoldable pub read_binary : Bytes → Option (List EntityRecord)
unfolding get_record_loop
read_binary snapshot =
    let version = get 1 0 (reader snapshot) in
    let count = get 4 0 version.1 in
    if not count.1.ok || not (version.0 == format_version)
    then none
    else (elim (get_record_loop count.0 [] count.1) [
      | none ↦ none
      | some (records, r) ↦ if at_end r then some records else none
    ])
