-- ===== src/Timeline.antt =====
-- timeline.hpp and timeline.cpp: Timeline. The reading of the source (`sourceNow()`) and the
-- source's tick rate are arguments, since a source is a counter, a clock or another Timeline.
-- The source's int64_t is the pattern of its 64 bits: what passes 2 ^ 63 is signed overflow there, and
-- no theorem says anything of it. A source never decreases, so an elapsed time is a difference of
-- numbers.
mod Gcd
pub mod Exact
pub mod Scaling
pub mod Valid
pub mod Continuity
pub mod Resuming
pub mod Changes
pub mod Ranges
pub mod Histories
pub mod Tests
use gef_engine.Prelude.{
  ℕ, ◌+◌, ◌-◌, ◌*◌, ◌/◌, ◌%◌, ◌^◌, Bool, true, false, List, [], ◌∷◌, Option, none, some,
  if◌then◌else◌, ltb,
}
use Gcd.{gcd}

-- The numerator that a multiplier is rounded to stands over this denominator.
abbrev pub speed_scale : ℕ
speed_scale = 1_000_000

pub record Elapsed : Type 0 where
  pub ticks : ℕ
  pub remainder : ℕ

-- A sum or a product of int64_t.
abbrev pub int64 : ℕ → ℕ
int64 n = n % 2 ^ 64

unfoldable pub scale_elapsed : ℕ → ℕ → ℕ → ℕ → Elapsed
scale_elapsed elapsed remainder num den =
    let part = int64 (remainder + int64 (elapsed % den * num)) in
    record { ticks = int64 (int64 (elapsed / den * num) + part / den); remainder = part % den }

pub record Timeline : Type 0 where
  pub source_start : ℕ
  pub banked_ticks : ℕ
  pub remainder : ℕ
  pub rate_num : ℕ
  pub rate_den : ℕ
  pub ticks_per_second : ℕ
  pub speed_num : ℕ
  pub speed_den : ℕ
  pub paused : Bool

unfoldable pub recompute_rate : ℕ → ℕ → Timeline → Timeline
unfolding gcd
recompute_rate source_rate previous_rate_den t =
    let raw_num = int64 (t.ticks_per_second * t.speed_num) in
    let raw_den = int64 (source_rate * t.speed_den) in
    let divisor = gcd raw_num raw_den in
    record t {
      rate_num = raw_num / divisor;
      rate_den = raw_den / divisor;
      remainder = int64 (t.remainder * (raw_den / divisor)) / previous_rate_den;
    }

-- The members as they are initialised.
abbrev blank : Timeline
blank = record {
  source_start = 0;
  banked_ticks = 0;
  remainder = 0;
  rate_num = 1;
  rate_den = 1;
  ticks_per_second = 1_000_000;
  speed_num = 1;
  speed_den = 1;
  paused = false;
}

-- A root timeline on a counter; a rate of 0 stands for one that is not positive. The rate of its
-- source is then the same number.
unfoldable pub root : ℕ → ℕ → Timeline
root counter units_per_second =
    let rate = if ltb 0 units_per_second then units_per_second else 1_000_000 in
    record blank { ticks_per_second = rate; source_start = counter }

-- A timeline on a source that reads `source_now` and ticks `source_rate` times a second.
unfoldable pub derived : ℕ → ℕ → ℕ → Timeline
unfolding recompute_rate
derived source_now source_rate ticks_per_second =
    let rate = if ltb 0 ticks_per_second then ticks_per_second else source_rate in
    let fresh = recompute_rate source_rate 1 (record blank { ticks_per_second = rate }) in
    record fresh { source_start = source_now }

unfoldable pub now : ℕ → Timeline → ℕ
unfolding scale_elapsed
now source_now t =
    if t.paused
    then t.banked_ticks
    else int64 (
        t.banked_ticks
        + (scale_elapsed (source_now - t.source_start) t.remainder t.rate_num t.rate_den).ticks)

unfoldable pub bank_at : ℕ → Timeline → Timeline
unfolding scale_elapsed
bank_at source_ticks t =
    let elapsed = if t.paused then 0 else source_ticks - t.source_start in
    let scaled = scale_elapsed elapsed t.remainder t.rate_num t.rate_den in
    record t {
      banked_ticks = int64 (t.banked_ticks + scaled.ticks);
      remainder = scaled.remainder;
      source_start = source_ticks;
    }

-- setSpeedMultiplier. The floating-point multiplier enters as `none` where it fails the range test
-- (NaN too) and as its `llround(multiplier * speedScale)` where it passes.
unfoldable pub set_speed_multiplier : Option ℕ → ℕ → ℕ → Timeline → Timeline
unfolding bank_at recompute_rate gcd
set_speed_multiplier multiplier source_now source_rate t = elim multiplier [
  | none ↦ t
  | some scaled ↦
      let banked = bank_at source_now t in
      let divisor = gcd scaled speed_scale in
      recompute_rate source_rate banked.rate_den
        (record banked { speed_num = scaled / divisor; speed_den = speed_scale / divisor })
]

-- What setTicksPerSecond does to one of `children_`, whose source is at `source_ticks` and now ticks
-- `source_rate` times a second.
unfoldable pub follow_source : ℕ → ℕ → Timeline → Timeline
unfolding bank_at recompute_rate
follow_source source_ticks source_rate child =
    let banked = bank_at source_ticks child in recompute_rate source_rate banked.rate_den banked

unfoldable pub follow_each : ℕ → ℕ → List Timeline → List Timeline
unfolding follow_source
follow_each source_ticks source_rate [] = []
follow_each source_ticks source_rate (c ∷ cs) =
    follow_source source_ticks source_rate c ∷ follow_each source_ticks source_rate cs

-- The timeline's own part of setTicksPerSecond, past its test.
unfoldable pub change_rate : ℕ → ℕ → ℕ → Timeline → Timeline
unfolding bank_at recompute_rate
change_rate rate source_now source_rate t =
    let banked = bank_at source_now t in
    recompute_rate source_rate banked.rate_den (record banked { ticks_per_second = rate })

-- setTicksPerSecond, on a timeline and those that run on it; a rate of 0 stands for one that is not
-- positive.
unfoldable pub set_ticks_per_second :
    ℕ → ℕ → ℕ → Timeline → List Timeline → Timeline × List Timeline
unfolding change_rate follow_each
set_ticks_per_second rate source_now source_rate t children =
    if ltb 0 rate
    then (
      change_rate rate source_now source_rate t,
      follow_each (bank_at source_now t).banked_ticks rate children,
    )
    else (t, children)

unfoldable pub pause : ℕ → Timeline → Timeline
unfolding bank_at
pause source_now t = if t.paused then t else record (bank_at source_now t) { paused = true }

unfoldable pub unpause : ℕ → Timeline → Timeline
unfolding bank_at
unpause source_now t = if t.paused then record (bank_at source_now t) { paused = false } else t
