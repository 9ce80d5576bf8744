-- ===== src/Timeline/Changes.antt =====
-- timeline.cpp: the calls that change a timeline, over numbers without a bound.
use gef_engine.Prelude.{
  ℕ, ◌<◌, ◌≤◌, ◌≡◌, refl, ap, inl, inr, Option, none, some, arith, ltb, Bool-cases, if◌then◌else◌,
}
use gef_engine.Timeline.{Timeline}
use gef_engine.Timeline.Exact.{
  exact_now, exact_speed, exact_follow, exact_change_rate, exact_pause, exact_unpause,
}
use gef_engine.Timeline.Valid.{
  IsValid, set_speed_multiplier-IsValid, change_rate-IsValid, follow_source-IsValid, pause-IsValid,
  unpause-IsValid, pause-running, pause-paused, unpause-running, unpause-paused,
}
use gef_engine.Timeline.Continuity.{reads_on}

-- The calls that change a timeline. `follow` is its source's setTicksPerSecond, with the new rate.
pub data Change : Type 0 where
  speed : Option ℕ → Change
  rate : ℕ → Change
  pausing : Change
  unpausing : Change
  follow : ℕ → Change

unfoldable pub exact_change : ℕ → ℕ → Change → Timeline → Timeline
exact_change s source_rate (speed multiplier) t = exact_speed multiplier s source_rate t
exact_change s source_rate (rate r) t = if ltb 0 r then exact_change_rate r s source_rate t else t
exact_change s source_rate pausing t = exact_pause s t
exact_change s source_rate unpausing t = exact_unpause s t
exact_change s source_rate (follow new_rate) t = exact_follow s new_rate t

-- The source's rate behind the call.
abbrev pub rate_after : ℕ → Change → ℕ
rate_after source_rate (follow new_rate) = new_rate
rate_after source_rate _ = source_rate

-- A multiplier that passes the range test is at least 1e-6, so that it rounds to 1 or more; the rate
-- of a source is positive.
abbrev pub IsLegal : Change → Type 0
IsLegal (speed (some scaled)) = 0 < scaled
IsLegal (follow new_rate) = 0 < new_rate
IsLegal _ = Unit {0}

speed_legal : (m : Option ℕ) → IsLegal (speed m) → (scaled : ℕ) → m ≡ some scaled → 0 < scaled
speed_legal none h scaled e = cc
speed_legal (some k) h scaled e = ground (arith, h)

pub exact_change-IsValid :
    (s source_rate : ℕ) (c : Change) (t : Timeline)
    → 0 < source_rate
    → IsLegal c
    → IsValid source_rate t
    → IsValid (rate_after source_rate c) (exact_change s source_rate c t)
unfolding exact_change
exact_change-IsValid s source_rate (speed m) t sr h v =
    set_speed_multiplier-IsValid m s source_rate t sr (speed_legal m h) v
exact_change-IsValid s source_rate (rate r) t sr h v = elim (Bool-cases (ltb 0 r)) [
  | inl e ↦ rw (e, exact_change) (change_rate-IsValid r s source_rate t sr (ground arith) v)
  | inr e ↦ rw (e, exact_change) v
]
exact_change-IsValid s source_rate pausing t sr h v = pause-IsValid s source_rate t v
exact_change-IsValid s source_rate unpausing t sr h v = unpause-IsValid s source_rate t v
exact_change-IsValid s source_rate (follow n) t sr h v = follow_source-IsValid s source_rate n t h v

pub exact_now-exact_change :
    (s source_rate : ℕ) (c : Change) (t : Timeline)
    → 0 < source_rate
    → IsLegal c
    → IsValid source_rate t
    → exact_now s (exact_change s source_rate c t) ≡ exact_now s t
unfolding exact_change
exact_now-exact_change s source_rate (speed none) t sr h v = unfold exact_speed in refl
exact_now-exact_change s source_rate (speed (some k)) t sr h v =
    reads_on source_rate source_rate s t (exact_speed (some k) s source_rate t) v
      (set_speed_multiplier-IsValid (some k) s source_rate t sr (speed_legal (some k) h) v)
      (unfold exact_speed in refl) (unfold exact_speed in refl)
exact_now-exact_change s source_rate (rate r) t sr h v = elim (Bool-cases (ltb 0 r)) [
  | inl e ↦
      rw (e, exact_change)
        (reads_on source_rate source_rate s t (exact_change_rate r s source_rate t) v
          (change_rate-IsValid r s source_rate t sr (ground arith) v)
          (unfold exact_change_rate in refl) (unfold exact_change_rate in refl))
  | inr e ↦ rw (e, exact_change)
]
exact_now-exact_change s source_rate pausing t sr h v = elim (Bool-cases t.paused) [
  | inl e ↦ ap (exact_now s) (pause-paused s t e)
  | inr e ↦
      reads_on source_rate source_rate s t (exact_pause s t) v (pause-IsValid s source_rate t v)
        (ap (λ (x : Timeline). x.source_start) (pause-running s t e))
        (ap (λ (x : Timeline). x.banked_ticks) (pause-running s t e))
]
exact_now-exact_change s source_rate unpausing t sr h v = elim (Bool-cases t.paused) [
  | inr e ↦ ap (exact_now s) (unpause-running s t e)
  | inl e ↦
      reads_on source_rate source_rate s t (exact_unpause s t) v (unpause-IsValid s source_rate t v)
        (ap (λ (x : Timeline). x.source_start) (unpause-paused s t e))
        (ap (λ (x : Timeline). x.banked_ticks) (unpause-paused s t e))
]
exact_now-exact_change s source_rate (follow n) t sr h v =
    reads_on source_rate n s t (exact_follow s n t) v (follow_source-IsValid s source_rate n t h v)
      (unfold exact_follow in refl) (unfold exact_follow in refl)

pub exact_change-start :
    (s source_rate : ℕ) (c : Change) (t : Timeline)
    → t.source_start ≤ s
    → (exact_change s source_rate c t).source_start ≤ s
unfolding exact_change exact_speed exact_change_rate exact_follow exact_pause exact_unpause
exact_change-start s source_rate (speed none) t h = h
exact_change-start s source_rate (speed (some k)) t h = omega arith
exact_change-start s source_rate (rate r) t h = ground arith
exact_change-start s source_rate pausing t h = ground arith
exact_change-start s source_rate unpausing t h = ground arith
exact_change-start s source_rate (follow n) t h = omega arith
