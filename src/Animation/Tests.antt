-- ===== src/Animation/Tests.antt =====
-- Two animations over numbers that, as floats do, do not count for ever: a number of 1000 or more is
-- infinite, and what is taken off it makes no difference.
use gef_engine.Prelude.{
  ℕ, ◌+◌, ◌-◌, ◌<◌, ◌≡◌, refl, true, [], ◌∷◌, Map, leb, ltb, if◌then◌else◌, arith,
}
use gef_engine.Animation.{Floats, AnimationFrame, SpriteAnimation, unfinished, play}
use gef_engine.Animation.Advancing.{play_hangs}

abbrev whole : Floats
whole = record {
  add = λ a b. a + b;
  sub = λ a b. if ltb a 1000 then a - b else a;
  ge = λ a b. leb b a;
}

abbrev frame_of : ℕ → AnimationFrame
frame_of d = record { index = 0; duration = d }

abbrev walk : SpriteAnimation
walk = record {
  sheet = 3;
  frames = frame_of 100 ∷ frame_of 50 ∷ [];
  loop = true;
  current_frame = 0;
  elapsed = 20;
}

abbrev store : Map SpriteAnimation
store = (4, walk) ∷ (9, record walk { frames = [] }) ∷ []

abbrev Finite : ℕ → Type 0
Finite e = e < 1000

abbrev frozen : SpriteAnimation
frozen = record walk { frames = frame_of 0 ∷ frame_of 0 ∷ [] }

frozen_hangs : play whole 1000 frozen ≡ unfinished
frozen_hangs = play_hangs whole 1000 frozen refl (omega arith) ((refl, refl), ((refl, refl), tt))
