-- ===== src/Animation.antt =====
-- src/animation.cpp with include/engine/animation.hpp. A float is the number that its bits stand for,
-- and arithmetic on floats is a parameter. The store of SpriteAnimation, which spriteAnimations()
-- gives out, is a map by entity.
pub mod Playing
pub mod Advancing
pub mod Tests
use gef_engine.Prelude.{
  ℕ, zero, suc, ◌+◌, Bool, true, false, List, [], ◌∷◌, length, Option, none, some, Map, ltb,
  if◌then◌else◌,
}

-- What the code does with floats.
pub record Floats : Type 0 where
  pub add : ℕ → ℕ → ℕ
  pub sub : ℕ → ℕ → ℕ
  pub ge : ℕ → ℕ → Bool

pub record AnimationFrame : Type 0 where
  pub index : ℕ
  pub duration : ℕ

pub record SpriteAnimation : Type 0 where
  pub sheet : ℕ
  pub frames : List AnimationFrame
  pub loop : Bool
  pub current_frame : ℕ
  pub elapsed : ℕ

-- SpriteAnimation::uniform
unfoldable pub uniform_frames : List ℕ → ℕ → List AnimationFrame
uniform_frames [] duration = []
uniform_frames (i ∷ is) duration =
    record { index = i; duration = duration } ∷ uniform_frames is duration

unfoldable pub uniform : ℕ → List ℕ → ℕ → Bool → SpriteAnimation
unfolding uniform_frames
uniform sheet indices duration loop = record {
  sheet = sheet;
  frames = uniform_frames indices duration;
  loop = loop;
  current_frame = 0;
  elapsed = 0;
}

-- `frames[i]`, `none` out of range.
unfoldable pub frame_at : List AnimationFrame → ℕ → Option AnimationFrame
frame_at [] i = none
frame_at (f ∷ fs) zero = some f
frame_at (f ∷ fs) (suc i) = frame_at fs i

-- How a loop ends: with the animation, out of the rounds allowed, or with a read out of range.
pub data Played : Type 0 where
  played : SpriteAnimation → Played
  unfinished out_of_range : Played

-- One round of the loop, its test true: what it leaves of the animation, and whether it goes on.
unfoldable pub next_frame : Floats → ℕ → SpriteAnimation → SpriteAnimation × Bool
next_frame f duration a =
    let left = f.sub a.elapsed duration in
    if ltb (a.current_frame + 1) (length a.frames)
    then (record a { elapsed = left; current_frame = a.current_frame + 1 }, true)
    else if a.loop
    then (record a { elapsed = left; current_frame = 0 }, true)
    else (record a { elapsed = 0 }, false)

-- The loop `while (anim.elapsed >= …)`, with the rounds allowed.
unfoldable pub play : Floats → ℕ → SpriteAnimation → Played
unfolding next_frame frame_at
play f zero a = unfinished
play f (suc fuel) a = elim (frame_at a.frames a.current_frame) [
  | none ↦ out_of_range
  | some now ↦ elim (f.ge a.elapsed now.duration) [
    | false ↦ played a
    | true ↦ elim (next_frame f now.duration a).1 [
      | true ↦ play f fuel (next_frame f now.duration a).0
      | false ↦ played (next_frame f now.duration a).0
    ]
  ]
]

unfoldable pub advance : Floats → ℕ → ℕ → SpriteAnimation → Played
unfolding play
advance f fuel delta a = elim a.frames [
  | [] ↦ played a
  | _ ∷ _ ↦ play f fuel (record a { elapsed = f.add a.elapsed delta })
]

-- advanceAnimations on the store, `none` where a loop does not end well.
unfoldable pub advance_animations :
    Floats → ℕ → ℕ → Map SpriteAnimation → Option (Map SpriteAnimation)
unfolding advance
advance_animations f fuel delta [] = some []
advance_animations f fuel delta ((id, a) ∷ rest) = elim (advance f fuel delta a) [
  | unfinished ↦ none
  | out_of_range ↦ none
  | played b ↦ elim (advance_animations f fuel delta rest) [
    | none ↦ none
    | some bs ↦ some ((id, b) ∷ bs)
  ]
]
