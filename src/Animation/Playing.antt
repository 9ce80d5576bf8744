-- ===== src/Animation/Playing.antt =====
-- src/animation.cpp: which animations advance, and which never stop to.
use gef_engine.Prelude.{
  ℕ, zero, suc, ◌+◌, ◌<◌, ◌≡◌, refl, sym, ap, subst, ◌∙◌, ◌⊎◌, inl, inr, true, false, List, [], ◌∷◌,
  length, All, some, arith, Bool-cases,
}
use gef_engine.Animation.{
  Floats, AnimationFrame, SpriteAnimation, frame_at, played, next_frame, play,
}

pub frame_at-some :
    (fs : List AnimationFrame) (i : ℕ)
    → i < length fs
    → (g : AnimationFrame) × (frame_at fs i ≡ some g)
unfolding frame_at
frame_at-some [] i h = absurd (omega arith)
frame_at-some (g ∷ fs) zero h = (g, refl)
frame_at-some (g ∷ fs) (suc i) h = frame_at-some fs i (omega arith)

pub frame_at-All :
    (P : AnimationFrame → Type 0) (fs : List AnimationFrame) (i : ℕ) (g : AnimationFrame)
    → All P fs
    → frame_at fs i ≡ some g
    → P g
unfolding frame_at
frame_at-All P [] i g h e = absurd cc
frame_at-All P (k ∷ fs) zero g h e = subst P (let q : k ≡ g = cc in q) h.0
frame_at-All P (k ∷ fs) (suc i) g h e = frame_at-All P fs i g h.1 e

-- The current frame is one of the frames.
abbrev pub InRange : SpriteAnimation → Type 0
InRange a = a.current_frame < length a.frames

-- What stays of an animation, and where it stands, when it has advanced.
pub record Advanced (f : Floats) (a b : SpriteAnimation) : Type 0 where
  pub same_frames : b.frames ≡ a.frames
  pub same_sheet : b.sheet ≡ a.sheet
  pub same_loop : b.loop ≡ a.loop
  pub in_range : InRange b
  -- The time left does not reach the end of the frame, or the last frame of one that does not loop
  -- is over.
  pub settled :
      ((g : AnimationFrame) × (frame_at b.frames b.current_frame ≡ some g)
        × (f.ge b.elapsed g.duration ≡ false))
      ⊎ ((b.loop ≡ false) × (b.current_frame + 1 ≡ length b.frames) × (b.elapsed ≡ 0))

module _ (f : Floats) (Fine : ℕ → Type 0) (measure : ℕ → ℕ) where
  -- Taking the frame's duration off a fine time that reaches it gives a fine time that is smaller.
  abbrev pub Shrinks : AnimationFrame → Type 0
  Shrinks g =
      (e : ℕ)
      → Fine e
      → f.ge e g.duration ≡ true
      → Fine (f.sub e g.duration) × (measure (f.sub e g.duration) < measure e)

  pub next_frame_lem :
      (d : ℕ) (a : SpriteAnimation)
      → InRange a
      → let n = next_frame f d a in
        (n.0.frames ≡ a.frames)
        × (n.0.sheet ≡ a.sheet)
        × (n.0.loop ≡ a.loop)
        × InRange n.0
        × (((n.1 ≡ true) × (n.0.elapsed ≡ f.sub a.elapsed d))
            ⊎ ((n.1 ≡ false)
                × (a.loop ≡ false)
                × (n.0.current_frame + 1 ≡ length a.frames)
                × (n.0.elapsed ≡ 0)))
  unfolding next_frame
  next_frame_lem d a h = ground arith

  play_waits :
      (fuel : ℕ) (a : SpriteAnimation) (g : AnimationFrame)
      → frame_at a.frames a.current_frame ≡ some g
      → f.ge a.elapsed g.duration ≡ false
      → play f (suc fuel) a ≡ played a
  unfolding play
  play_waits fuel a g e waits = ground (arith, e, waits)

  pub play_goes :
      (fuel : ℕ) (a : SpriteAnimation) (g : AnimationFrame)
      → frame_at a.frames a.current_frame ≡ some g
      → f.ge a.elapsed g.duration ≡ true
      → (next_frame f g.duration a).1 ≡ true
      → play f (suc fuel) a ≡ play f fuel (next_frame f g.duration a).0
  unfolding play
  play_goes fuel a g e due on = ground (arith, e, due, on)

  play_ends :
      (fuel : ℕ) (a : SpriteAnimation) (g : AnimationFrame)
      → frame_at a.frames a.current_frame ≡ some g
      → f.ge a.elapsed g.duration ≡ true
      → (next_frame f g.duration a).1 ≡ false
      → play f (suc fuel) a ≡ played (next_frame f g.duration a).0
  unfolding play
  play_ends fuel a g e due over = ground (arith, e, due, over)

  pub play_lem :
      (fuel : ℕ) (a : SpriteAnimation)
      → measure a.elapsed < fuel
      → Fine a.elapsed
      → InRange a
      → All Shrinks a.frames
      → (b : SpriteAnimation) × (play f fuel a ≡ played b) × Advanced f a b
  play_lem zero a m ok h s = absurd (omega arith)
  play_lem (suc fuel) a m ok h s =
      let (g, e) = frame_at-some a.frames a.current_frame h in
      elim (Bool-cases (f.ge a.elapsed g.duration)) [
        | inl due ↦
            let n = next_frame f g.duration a in
            let told = next_frame_lem g.duration a h in
            elim told.4 [
              | inl on ↦
                  let k = frame_at-All Shrinks a.frames a.current_frame g s e a.elapsed ok due in
                  let less : measure n.0.elapsed < fuel =
                    (let q = ap measure on.1 in omega (arith, k.1)) in
                  let fine : Fine n.0.elapsed = subst Fine (sym on.1) k.0 in
                  let (b, ran, adv) =
                    play_lem fuel n.0 less fine told.3 (subst (All Shrinks) (sym told.0) s) in
                  (
                    b,
                    play_goes fuel a g e due on.0 ∙ ran,
                    record {
                      same_frames = adv.same_frames ∙ told.0;
                      same_sheet = adv.same_sheet ∙ told.1;
                      same_loop = adv.same_loop ∙ told.2;
                      in_range = adv.in_range;
                      settled = adv.settled;
                    },
                  )
              | inr over ↦ (
                n.0,
                play_ends fuel a g e due over.0,
                record {
                  same_frames = told.0;
                  same_sheet = told.1;
                  same_loop = told.2;
                  in_range = told.3;
                  settled = inr (told.2 ∙ over.1, over.2 ∙ sym (ap length told.0), over.3);
                },
              )
            ]
        | inr waits ↦ (
          a,
          play_waits fuel a g e waits,
          record {
            same_frames = refl;
            same_sheet = refl;
            same_loop = refl;
            in_range = h;
            settled = inl (g, e, waits);
          },
        )
      ]
