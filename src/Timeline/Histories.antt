-- ===== src/Timeline/Histories.antt =====
-- timeline.cpp: a Timeline through any history of its operations, with its source running on between
-- them.
use gef_engine.Prelude.{
  ℕ, ◌+◌, ◌<◌, ◌≤◌, ◌≡◌, refl, sym, ap, subst, ◌∙◌, inl, inr, true, false, [], none, some, arith,
  ltb, Bool-cases, if◌then◌else◌, ◌/◌,
}
use gef_engine.Timeline.Gcd.{gcd}
use gef_engine.Timeline.{
  Timeline, speed_scale, now, recompute_rate, set_speed_multiplier, follow_source, change_rate,
  set_ticks_per_second, pause, unpause,
}
use gef_engine.Timeline.Exact.{
  exact_bank, exact_speed, exact_follow, exact_change_rate, exact_pause, exact_unpause,
}
use gef_engine.Timeline.Valid.{IsValid}
use gef_engine.Timeline.Resuming.{now_mono, exact_unpause-exact_pause}
use gef_engine.Timeline.Changes.{
  Change, speed, rate, pausing, unpausing, follow, exact_change, rate_after, IsLegal,
  exact_change-IsValid, exact_now-exact_change, exact_change-start,
}
use gef_engine.Timeline.Ranges.{Fits, RateFits, same_now, same_bank, same_rate}

-- A call at a moment when the source reads `s` and ticks `source_rate` times a second.
unfoldable pub change : ℕ → ℕ → Change → Timeline → Timeline
change s source_rate (speed multiplier) t = set_speed_multiplier multiplier s source_rate t
change s source_rate (rate r) t = (set_ticks_per_second r s source_rate t []).0
change s source_rate pausing t = pause s t
change s source_rate unpausing t = unpause s t
change s source_rate (follow new_rate) t = follow_source s new_rate t

-- What a call computes fits int64_t.
abbrev CallFits : ℕ → ℕ → Change → Timeline → Type 0
CallFits s source_rate (speed none) t = Unit {0}
CallFits s source_rate (speed (some scaled)) t =
    let banked = exact_bank s t in
    Fits s t
    × RateFits source_rate banked.rate_den (record banked {
      speed_num = scaled / gcd scaled speed_scale;
      speed_den = speed_scale / gcd scaled speed_scale;
    })
CallFits s source_rate (rate r) t =
    let banked = exact_bank s t in
    Fits s t × RateFits source_rate banked.rate_den (record banked { ticks_per_second = r })
CallFits s source_rate pausing t = Fits s t
CallFits s source_rate unpausing t = Fits s t
CallFits s source_rate (follow new_rate) t =
    let banked = exact_bank s t in Fits s t × RateFits new_rate banked.rate_den banked

-- So does a reading before it and one after it.
abbrev pub ChangeFits : ℕ → ℕ → Change → Timeline → Type 0
ChangeFits s source_rate c t =
    CallFits s source_rate c t × Fits s t × Fits s (exact_change s source_rate c t)

same_pause : (s : ℕ) (t : Timeline) → Fits s t → pause s t ≡ exact_pause s t
unfolding pause exact_pause
same_pause s t h =
    ap (λ (b : Timeline). if t.paused then t else record b { paused = true }) (same_bank s t h)

same_unpause : (s : ℕ) (t : Timeline) → Fits s t → unpause s t ≡ exact_unpause s t
unfolding unpause exact_unpause
same_unpause s t h =
    ap (λ (b : Timeline). if t.paused then record b { paused = false } else t) (same_bank s t h)

same_change :
    (s source_rate : ℕ) (c : Change) (t : Timeline)
    → CallFits s source_rate c t
    → change s source_rate c t ≡ exact_change s source_rate c t
unfolding change exact_change set_speed_multiplier exact_speed set_ticks_per_second change_rate
    exact_change_rate follow_source exact_follow
same_change s source_rate (speed none) t h = refl
same_change s source_rate (speed (some scaled)) t h =
    let d = gcd scaled speed_scale in
    ap
      (λ (b : Timeline).
        recompute_rate source_rate b.rate_den
          (record b { speed_num = scaled / d; speed_den = speed_scale / d }))
      (same_bank s t h.0)
    ∙ same_rate source_rate (exact_bank s t).rate_den
        (record (exact_bank s t) { speed_num = scaled / d; speed_den = speed_scale / d }) h.1
same_change s source_rate (rate r) t h =
    let same =
      ap
        (λ (b : Timeline).
          recompute_rate source_rate b.rate_den (record b { ticks_per_second = r }))
        (same_bank s t h.0)
      ∙ same_rate source_rate (exact_bank s t).rate_den
          (record (exact_bank s t) { ticks_per_second = r }) h.1 in
    elim (Bool-cases (ltb 0 r)) [
      | inl e ↦ rw (e, change, exact_change) same
      | inr e ↦ rw (e, change, exact_change)
    ]
same_change s source_rate pausing t h = same_pause s t h
same_change s source_rate unpausing t h = same_unpause s t h
same_change s source_rate (follow n) t h =
    ap (λ (b : Timeline). recompute_rate n b.rate_den b) (same_bank s t h.0)
    ∙ same_rate n (exact_bank s t).rate_den (exact_bank s t) h.1

-- No call makes a timeline jump: at its moment the timeline reads as just before, as long as what is
-- computed fits int64_t. That holds of a speed or a rate that is refused, of a change of rate of its
-- source, and of pauses.
pub now-change :
    (s source_rate : ℕ) (c : Change) (t : Timeline)
    → 0 < source_rate
    → IsLegal c
    → IsValid source_rate t
    → ChangeFits s source_rate c t
    → now s (change s source_rate c t) ≡ now s t
now-change s source_rate c t sr h v (call, before, behind) =
    ap (now s) (same_change s source_rate c t call)
    ∙ same_now s (exact_change s source_rate c t) behind
    ∙ exact_now-exact_change s source_rate c t sr h v
    ∙ sym (same_now s t before)

-- A timeline beside what its source reads and how fast that ticks.
pub record Clocked : Type 0 where
  pub source : ℕ
  pub source_rate : ℕ
  pub line : Timeline

-- No reading and no call computes what does not fit int64_t.
pub data Step : Clocked → Clocked → Type 0 where
  run :
      (c : Clocked) (later : ℕ)
      → c.source ≤ later
      → Fits later c.line
      → Step c (record c { source = later })
  call :
      (c : Clocked) (x : Change)
      → IsLegal x
      → ChangeFits c.source c.source_rate x c.line
      → Step c (record c {
        source_rate = rate_after c.source_rate x;
        line = change c.source c.source_rate x c.line;
      })

pub data Reach (c : Clocked) : Clocked → Type 0 where
  start : Reach c c
  next : {d e : Clocked} → Reach c d → Step d e → Reach c e

pub record IsClocked (c : Clocked) : Type 0 where
  pub rate : 0 < c.source_rate
  pub valid : IsValid c.source_rate c.line
  pub started : c.line.source_start ≤ c.source
  pub fits : Fits c.source c.line

rate_after_pos : (r : ℕ) (x : Change) → 0 < r → IsLegal x → 0 < rate_after r x
rate_after_pos r (follow n) h l = l
rate_after_pos r (speed m) h l = h
rate_after_pos r (rate k) h l = h
rate_after_pos r pausing h l = h
rate_after_pos r unpausing h l = h

Step-IsClocked : {c d : Clocked} → Step c d → IsClocked c → IsClocked d
Step-IsClocked (run c later h fits) v = record {
  rate = v.rate;
  valid = v.valid;
  started = omega (arith, v.started);
  fits = fits;
}
Step-IsClocked (call c x legal (call_fits, before, behind)) v =
    let same = sym (same_change c.source c.source_rate x c.line call_fits) in
    record {
      rate = rate_after_pos c.source_rate x v.rate legal;
      valid =
          subst (IsValid (rate_after c.source_rate x)) same
            (exact_change-IsValid c.source c.source_rate x c.line v.rate legal v.valid);
      started =
          subst (λ (t : Timeline). t.source_start ≤ c.source) same
            (exact_change-start c.source c.source_rate x c.line v.started);
      fits = subst (Fits c.source) same behind;
    }

Step-mono : {c d : Clocked} → Step c d → IsClocked c → now c.source c.line ≤ now d.source d.line
Step-mono (run c later h fits) v = omega (
  arith,
  same_now c.source c.line v.fits,
  same_now later c.line fits,
  now_mono c.source_rate c.source later c.line v.valid v.started h,
)
Step-mono (call c x legal fits) v =
    omega (arith, now-change c.source c.source_rate x c.line v.rate legal v.valid fits)

-- Through any history of calls, with a source that never falls, a timeline stays well formed and
-- `now()` never falls, as long as no sum and no product that a call or a reading computes passes the
-- range of int64_t.
pub Reach-monotonic :
    (c d : Clocked)
    → IsClocked c
    → Reach c d
    → IsClocked d × (now c.source c.line ≤ now d.source d.line)
Reach-monotonic c d v start = (v, omega arith)
Reach-monotonic c d v (next r st) =
    let before = Reach-monotonic c _ v r in
    (Step-IsClocked st before.0, omega (arith, before.1, Step-mono st before.0))

-- A pause from `s` to `s'` of the source is a cut, as long as what the pause, its end and the two
-- readings compute fits int64_t: from its end on the timeline reads what it would have read without
-- the pause, later by its length. The part of a tick at its start is kept.
pub unpause-pause :
    (source_rate s s' d : ℕ) (t : Timeline)
    → IsValid source_rate t
    → t.paused ≡ false
    → t.source_start ≤ s
    → s ≤ s'
    → Fits s t
    → Fits (s + d) t
    → Fits s' (exact_pause s t)
    → Fits (s' + d) (exact_unpause s' (exact_pause s t))
    → now (s' + d) (unpause s' (pause s t)) ≡ now (s + d) t
unpause-pause source_rate s s' d t v r h h' at_pause without at_end behind =
    ap (λ x. now (s' + d) (unpause s' x)) (same_pause s t at_pause)
    ∙ ap (now (s' + d)) (same_unpause s' (exact_pause s t) at_end)
    ∙ same_now (s' + d) (exact_unpause s' (exact_pause s t)) behind
    ∙ exact_unpause-exact_pause source_rate s s' d t v r h h'
    ∙ sym (same_now (s + d) t without)
