-- ===== src/Snapshot/Tests.antt =====
-- A snapshot of two entities.
use gef_engine.Prelude.{◌≡◌, refl, [], ◌∷◌, some, arith}
use gef_engine.Scene.{default_transform, zero_vec, default_color}
use gef_engine.Snapshot.{EntityRecord, has_bit, write_binary, read_binary}
use gef_engine.Snapshot.RoundTrip.{RecordFits, read-write_binary}

abbrev pub plain : EntityRecord
plain = record {
  id = 16777217;
  mask = 0;
  transform = default_transform;
  rigid_body = record { velocity = zero_vec };
  collider = record { size = zero_vec };
  shape_size = zero_vec;
  shape_color = default_color;
  shape_tiled = 0;
  extra = [];
}

abbrev pub full : EntityRecord
full = record plain {
  id = 16777218;
  mask = 15;
  rigid_body = record { velocity = record { x = 5; y = 6 } };
  collider = record { size = record { x = 7; y = 8 } };
  shape_size = record { x = 9; y = 10 };
  shape_color = record { r = 1; g = 2; b = 3; a = 4 };
  shape_tiled = 1;
  extra = 11 ∷ [];
}

plain-Fits : RecordFits plain
plain-Fits = record {
  id = omega arith;
  mask = omega arith;
  position = omega arith;
  scale = omega arith;
  velocity = omega arith;
  size = omega arith;
  shape_size = omega arith;
  shape_color = omega arith;
  shape_tiled = omega arith;
  extra = omega arith;
  no_body = λ e. refl;
  no_collider = λ e. refl;
  no_size = λ e. refl;
  no_color = λ e. refl;
  no_tiled = λ e. refl;
  no_extra = λ e. refl;
}

full-Fits : RecordFits full
unfolding has_bit
full-Fits = record {
  id = omega arith;
  mask = omega arith;
  position = omega arith;
  scale = omega arith;
  velocity = omega arith;
  size = omega arith;
  shape_size = omega arith;
  shape_color = omega arith;
  shape_tiled = omega arith;
  extra = omega arith;
  no_body = λ e. absurd cc;
  no_collider = λ e. absurd cc;
  no_size = λ e. absurd cc;
  no_color = λ e. absurd cc;
  no_tiled = λ e. absurd cc;
  no_extra = λ e. absurd cc;
}

read-write_binary_example :
    read_binary (write_binary (plain ∷ full ∷ [])) ≡ some (plain ∷ full ∷ [])
read-write_binary_example =
    read-write_binary (plain ∷ full ∷ []) (plain-Fits, (full-Fits, tt)) (omega arith)
