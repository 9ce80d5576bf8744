-- ===== src/Scene.antt =====
-- entity.hpp and entity.cpp: Scene, with its component stores, and ids.hpp. A float is the number
-- that its bits stand for. The stores of RigidBody, Collider and Shape are fields; a component of any
-- other type (Text, SpriteAnimation, a game's own) is an opaque number in the store that `others`
-- has under a number for its type.
pub mod Sound
pub mod Steps
pub mod Tests
use gef_engine.Prelude.{
  ℕ, ◌+◌, ◌*◌, ◌/◌, ◌%◌, ◌^◌, Bool, true, false, List, [], ◌∷◌, Option, none, some, Map, find_key,
  put_key, erase_key, has_key, if◌then◌else◌,
}
use gef_engine.Prelude.MapLaws.{map_values}
use gef_engine.Protocol.{ClientId}

abbrev pub EntityId : Type 0
EntityId = ℕ

abbrev pub NetId : Type 0
NetId = ℕ

-- kNetIdLocalMask is one less.
abbrev pub net_id_locals : ℕ
net_id_locals = 2 ^ 24

-- `(owner << 24) | local` for an owner and a local part in range, whose bits do not meet.
unfoldable pub make_net_id : ClientId → ℕ → NetId
make_net_id owner local = owner * net_id_locals + local

unfoldable pub owner_of : NetId → ClientId
owner_of id = id / net_id_locals

unfoldable pub local_of : NetId → ℕ
local_of id = id % net_id_locals

pub record Vec2 : Type 0 where
  pub x : ℕ
  pub y : ℕ

abbrev pub zero_vec : Vec2
zero_vec = record { x = 0; y = 0 }

pub record Transform : Type 0 where
  pub position : Vec2
  pub scale : Vec2

-- The bits of 1.f and of 32.f.
abbrev pub one_bits : ℕ
one_bits = 0x3F800000

abbrev pub default_transform : Transform
default_transform = record { position = zero_vec; scale = record { x = one_bits; y = one_bits } }

pub record RigidBody : Type 0 where
  pub velocity : Vec2

pub record Collider : Type 0 where
  pub size : Vec2

pub record Color : Type 0 where
  pub r : ℕ
  pub g : ℕ
  pub b : ℕ
  pub a : ℕ

abbrev pub default_color : Color
default_color = record { r = 0; g = 0; b = 0; a = 255 }

pub record Shape : Type 0 where
  pub size : Vec2
  pub color : Color
  pub texture : Option ℕ
  pub tiled : Bool

pub record Scene : Type 0 where
  pub next_id : EntityId
  pub transforms : Map Transform
  pub rigid_bodies : Map RigidBody
  pub colliders : Map Collider
  pub shapes : Map Shape
  pub others : Map (Map ℕ)

unfoldable pub empty_scene : Scene
empty_scene = record {
  next_id = 1;
  transforms = [];
  rigid_bodies = [];
  colliders = [];
  shapes = [];
  others = [];
}

unfoldable pub has_entity : EntityId → Scene → Bool
has_entity id s = has_key id s.transforms

-- `try_emplace` leaves an entry that is there alone.
unfoldable pub create_entity : Scene → EntityId × Scene
create_entity s = (
  s.next_id,
  record s {
    next_id = (s.next_id + 1) % 2 ^ 32;
    transforms =
        if has_key s.next_id s.transforms
        then s.transforms
        else put_key s.next_id default_transform s.transforms;
  },
)

unfoldable pub destroy_entity : EntityId → Scene → Scene
destroy_entity id s = record s {
  transforms = erase_key id s.transforms;
  rigid_bodies = erase_key id s.rigid_bodies;
  colliders = erase_key id s.colliders;
  shapes = erase_key id s.shapes;
  others = map_values (erase_key id) s.others;
}

-- `scene.transform(id) = t`; `none` where the call throws `out_of_range`.
unfoldable pub set_transform : EntityId → Transform → Scene → Option Scene
unfolding has_entity
set_transform id t s =
    if has_entity id s then some (record s { transforms = put_key id t s.transforms }) else none

-- `add<T>` for each store; `none` where it throws.
unfoldable pub add_rigid_body : EntityId → RigidBody → Scene → Option Scene
unfolding has_entity
add_rigid_body id body s =
    if has_entity id s
    then some (record s { rigid_bodies = put_key id body s.rigid_bodies })
    else none

unfoldable pub add_collider : EntityId → Collider → Scene → Option Scene
unfolding has_entity
add_collider id collider s =
    if has_entity id s
    then some (record s { colliders = put_key id collider s.colliders })
    else none

unfoldable pub add_shape : EntityId → Shape → Scene → Option Scene
unfolding has_entity
add_shape id shape s =
    if has_entity id s then some (record s { shapes = put_key id shape s.shapes }) else none

-- The store of a type, empty where `ensureStore` makes it.
abbrev pub store_of : ℕ → Map (Map ℕ) → Map ℕ
store_of type others = elim (find_key type others) [ none ↦ [] | some store ↦ store ]

unfoldable pub add_other : ℕ → EntityId → ℕ → Scene → Option Scene
unfolding has_entity
add_other type id value s =
    if has_entity id s
    then some
        (record s { others = put_key type (put_key id value (store_of type s.others)) s.others })
    else none

-- `remove<T>` for each store.
unfoldable pub remove_rigid_body : EntityId → Scene → Scene
remove_rigid_body id s = record s { rigid_bodies = erase_key id s.rigid_bodies }

unfoldable pub remove_collider : EntityId → Scene → Scene
remove_collider id s = record s { colliders = erase_key id s.colliders }

unfoldable pub remove_shape : EntityId → Scene → Scene
remove_shape id s = record s { shapes = erase_key id s.shapes }

-- No store is made where there is none.
unfoldable pub remove_other : ℕ → EntityId → Scene → Scene
remove_other type id s = elim (find_key type s.others) [
  | none ↦ s
  | some store ↦ record s { others = put_key type (erase_key id store) s.others }
]
