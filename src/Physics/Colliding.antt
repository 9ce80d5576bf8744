-- ===== src/Physics/Colliding.antt =====
-- src/physics.cpp: the two questions about a collision against one another.
use gef_engine.Prelude.{
  ◌≡◌, ◌≢◌, ◌⊎◌, inl, inr, refl, ap, Bool, true, false, Option, none, some, find_key,
}
use gef_engine.Scene.{EntityId, Transform, Collider, Scene}
use gef_engine.Physics.{
  Floats, Rect, Rects, both_bounds, is_collision, collision_overlap, hit, overlap, no_rect, bounds,
  rects_of, for_rects,
}

-- What SDL's documentation says of the two functions: both tell whether the rectangles meet, and in
-- which order they are given makes no difference to that.
pub record RectLaws (g : Rects) : Type 0 where
  pub symmetric : (r q : Rect) → g.intersects r q ≡ g.intersects q r
  pub disjoint : (r q : Rect) → g.intersects r q ≡ false → g.intersection r q ≡ none

module _ (f : Floats) (g : Rects) (L : RectLaws g) where
  rects_of_swap :
      (t u : Option Transform) (c d : Option Collider)
      → for_rects (hit g) (rects_of f t u c d) ≡ for_rects (hit g) (rects_of f u t d c)
  unfolding rects_of
  rects_of_swap none none c d = refl
  rects_of_swap none (some u) c d = refl
  rects_of_swap (some t) none c d = refl
  rects_of_swap (some t) (some u) none none = refl
  rects_of_swap (some t) (some u) none (some d) = refl
  rects_of_swap (some t) (some u) (some c) none = refl
  rects_of_swap (some t) (some u) (some c) (some d) =
      ap some (L.symmetric (bounds f t c) (bounds f u d))

  no_overlap :
      (r : Option (Option (Rect × Rect)))
      → for_rects (hit g) r ≡ some false
      → for_rects (overlap g) r ≡ some no_rect
  no_overlap none e = absurd cc
  no_overlap (some none) e = refl
  no_overlap (some (some (r, q))) e =
      let apart : g.intersects r q ≡ false = cc in rw (L.disjoint r q apart, overlap)

  -- Whether two entities collide does not depend on the order in which they are named, an unknown
  -- entity or a missing collider included; and where they do not, the overlap is the empty
  -- rectangle.
  pub is_collision_lem :
      (s : Scene) (a b : EntityId)
      → (is_collision f g s a b ≡ is_collision f g s b a)
        × ((is_collision f g s a b ≢ some false) ⊎ (collision_overlap f g s a b ≡ some no_rect))
  unfolding is_collision collision_overlap both_bounds
  is_collision_lem s a b =
      let r = both_bounds f s a b in
      (
        rects_of_swap (find_key a s.transforms) (find_key b s.transforms) (find_key a s.colliders)
            (find_key b s.colliders),
        by_result (for_rects (hit g) r) refl,
      )
    where
      by_result :
          (v : Option Bool)
          → for_rects (hit g) (both_bounds f s a b) ≡ v
          → (for_rects (hit g) (both_bounds f s a b) ≢ some false)
            ⊎ (for_rects (overlap g) (both_bounds f s a b) ≡ some no_rect)
      by_result none e = inl (λ q. absurd cc)
      by_result (some true) e = inl (λ q. absurd cc)
      by_result (some false) e = inr (no_overlap (both_bounds f s a b) e)
