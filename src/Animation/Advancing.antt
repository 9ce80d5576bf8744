-- ===== src/Animation/Advancing.antt =====
-- src/animation.cpp: the animations of a scene, when they advance and when they never stop to.
use gef_engine.Prelude.{
  ℕ, zero, suc, ◌<◌, ◌≡◌, refl, sym, subst, ◌∙◌, ◌⊎◌, inl, inr, true, false, [], ◌∷◌, All, Map,
}
use gef_engine.Animation.{Floats, AnimationFrame, SpriteAnimation, unfinished, next_frame, play}
use gef_engine.Animation.Playing.{
  InRange, Advanced, Shrinks, frame_at-some, frame_at-All, next_frame_lem, play_goes,
}

module _ (f : Floats) (Fine : ℕ → Type 0) (measure : ℕ → ℕ) where
  -- An animation with frames that the loop can play.
  abbrev pub Ready : ℕ → ℕ → SpriteAnimation → Type 0
  Ready fuel delta a =
      InRange a
      × All (Shrinks f Fine measure) a.frames
      × (measure (f.add a.elapsed delta) < fuel)
      × Fine (f.add a.elapsed delta)

  abbrev pub AllReady : ℕ → ℕ → Map SpriteAnimation → Type 0
  AllReady fuel delta [] = Unit {0}
  AllReady fuel delta ((id, a) ∷ rest) =
      ((a.frames ≡ []) ⊎ Ready fuel delta a) × AllReady fuel delta rest

  -- The animations of the same entities: those without frames as they were, the others advanced.
  abbrev pub AllAdvanced : ℕ → Map SpriteAnimation → Map SpriteAnimation → Type 0
  AllAdvanced delta [] [] = Unit {0}
  AllAdvanced delta [] (_ ∷ _) = ⊥
  AllAdvanced delta (_ ∷ _) [] = ⊥
  AllAdvanced delta ((i, a) ∷ as') ((j, b) ∷ bs) =
      (i ≡ j)
      × (((a.frames ≡ []) × (b ≡ a)) ⊎ Advanced f (record a { elapsed = f.add a.elapsed delta }) b)
      × AllAdvanced delta as' bs

-- A time from which a frame's duration takes nothing off although it reaches it.
abbrev pub Holds : Floats → ℕ → AnimationFrame → Type 0
Holds f e g = (f.ge e g.duration ≡ true) × (f.sub e g.duration ≡ e)

-- A looping animation all of whose frames leave a time as it is, as frames of zero seconds do, is
-- never done with that time: the loop is still running after any number of rounds.
pub play_hangs :
    (f : Floats) (fuel : ℕ) (a : SpriteAnimation)
    → a.loop ≡ true
    → InRange a
    → All (Holds f a.elapsed) a.frames
    → play f fuel a ≡ unfinished
unfolding play
play_hangs f zero a l h s = refl
play_hangs f (suc fuel) a l h s =
    let measure : ℕ → ℕ = λ e. 0 in
    let Fine : ℕ → Type 0 = λ e. Unit {0} in
    let (g, e) = frame_at-some a.frames a.current_frame h in
    let stuck = frame_at-All (Holds f a.elapsed) a.frames a.current_frame g s e in
    let n = (next_frame f g.duration a).0 in
    let told = next_frame_lem f Fine measure g.duration a h in
    elim told.4 [
      | inl on ↦
          play_goes f Fine measure fuel a g e stuck.0 on.0
          ∙ play_hangs f fuel n (told.2 ∙ l) told.3 (
              subst (λ t. All (Holds f t) n.frames) (sym (on.1 ∙ stuck.1))
                (subst (All (Holds f a.elapsed)) (sym told.0) s))
      | inr over ↦ absurd (let q : true ≡ false = sym l ∙ over.1 in cc)
    ]
