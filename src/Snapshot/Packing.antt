-- ===== src/Snapshot/Packing.antt =====
-- Components as numbers, and back.
use gef_engine.Prelude.{◌<◌, ◌≡◌, ◌^◌, arith}
use gef_engine.Scene.{Vec2, Transform, Color}
use gef_engine.Snapshot.{
  pack_vec, unpack_vec, pack_transform, unpack_transform, pack_color, unpack_color,
}

pub record VecFits (v : Vec2) : Type 0 where
  pub x : v.x < 2 ^ 32
  pub y : v.y < 2 ^ 32

pub record ColorFits (c : Color) : Type 0 where
  pub r : c.r < 256
  pub g : c.g < 256
  pub b : c.b < 256
  pub a : c.a < 256

pub pack_vec-lt : (v : Vec2) → VecFits v → pack_vec v < 2 ^ 64
unfolding pack_vec
pack_vec-lt v h = omega arith

pub unpack-pack_vec : (v : Vec2) → VecFits v → unpack_vec (pack_vec v) ≡ v
unfolding pack_vec unpack_vec
unpack-pack_vec v h = ground arith

pub pack_transform-lt :
    (t : Transform) → VecFits t.position → VecFits t.scale → pack_transform t < 2 ^ 128
unfolding pack_transform
pack_transform-lt t p s = omega (arith, pack_vec-lt t.position p, pack_vec-lt t.scale s)

pub unpack-pack_transform :
    (t : Transform) → VecFits t.position → VecFits t.scale → unpack_transform (pack_transform t) ≡ t
unfolding pack_transform unpack_transform pack_vec unpack_vec
unpack-pack_transform t p s = ground arith

pub pack_color-lt : (c : Color) → ColorFits c → pack_color c < 2 ^ 32
unfolding pack_color
pack_color-lt c h = omega arith

pub unpack-pack_color : (c : Color) → ColorFits c → unpack_color (pack_color c) ≡ c
unfolding pack_color unpack_color
unpack-pack_color c h = ground arith
