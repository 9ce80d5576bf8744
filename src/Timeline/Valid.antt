-- ===== src/Timeline/Valid.antt =====
-- timeline.cpp: what every operation keeps of a Timeline.
use gef_engine.Prelude.{
  ℕ, ◌*◌, ◌/◌, ◌<◌, ◌≡◌, refl, sym, ap, subst, inl, inr, Bool, true, false, Option, none, some,
  arith, if◌then◌else◌, Bool-cases,
}
use native.Mathlib.Nat.{mod-lt, div-mul-le_self}
use gef_engine.Timeline.Gcd.{gcd, left_pos, right_pos, same_ratio}
use gef_engine.Timeline.{Timeline, speed_scale}
use gef_engine.Timeline.Exact.{
  exact_rate, exact_bank, exact_speed, exact_follow, exact_change_rate, exact_pause, exact_unpause,
}

-- The rate is the tick rate over the source's, times the speed, exactly; the remainder is a proper
-- part of a tick.
pub record IsValid (source_rate : ℕ) (t : Timeline) : Type 0 where
  pub rate_den : 0 < t.rate_den
  pub rate_num : 0 < t.rate_num
  pub remainder : t.remainder < t.rate_den
  pub ticks : 0 < t.ticks_per_second
  pub speed_num : 0 < t.speed_num
  pub speed_den : 0 < t.speed_den
  pub exact :
      t.rate_num * (source_rate * t.speed_den) ≡ t.rate_den * (t.ticks_per_second * t.speed_num)

mul_pos : (a b : ℕ) → 0 < a → 0 < b → 0 < a * b
mul_pos a b h k = grind arith

-- A part of a tick, counted in new units, is still a proper part.
rescaled : (r old new : ℕ) → r < old → 0 < new → r * new / old < new
rescaled r old new h pos = let kept = div-mul-le_self (r * new) old in grind (arith, kept)

pub recompute_rate-IsValid :
    (source_rate previous : ℕ) (t : Timeline)
    → 0 < source_rate
    → 0 < t.ticks_per_second
    → 0 < t.speed_num
    → 0 < t.speed_den
    → t.remainder < previous
    → IsValid source_rate (exact_rate source_rate previous t)
unfolding exact_rate
recompute_rate-IsValid source_rate previous t sr tps sn sd rem =
    let num = t.ticks_per_second * t.speed_num in
    let den = source_rate * t.speed_den in
    let den_pos = right_pos num den (mul_pos source_rate t.speed_den sr sd) in
    record {
      rate_den = den_pos;
      rate_num = left_pos num den (mul_pos t.ticks_per_second t.speed_num tps sn);
      remainder = rescaled t.remainder previous (den / gcd num den) rem den_pos;
      ticks = tps;
      speed_num = sn;
      speed_den = sd;
      exact = same_ratio num den;
    }

pub bank_at-IsValid :
    (source_rate source_ticks : ℕ) (t : Timeline)
    → IsValid source_rate t
    → IsValid source_rate (exact_bank source_ticks t)
unfolding exact_bank
bank_at-IsValid source_rate source_ticks t v = record {
  rate_den = v.rate_den;
  rate_num = v.rate_num;
  remainder = mod-lt _ v.rate_den;
  ticks = v.ticks;
  speed_num = v.speed_num;
  speed_den = v.speed_den;
  exact = v.exact;
}

pub set_speed_multiplier-IsValid :
    (multiplier : Option ℕ) (source_now source_rate : ℕ) (t : Timeline)
    → 0 < source_rate
    → ((scaled : ℕ) → multiplier ≡ some scaled → 0 < scaled)
    → IsValid source_rate t
    → IsValid source_rate (exact_speed multiplier source_now source_rate t)
unfolding exact_speed
set_speed_multiplier-IsValid none source_now source_rate t sr pos v = v
set_speed_multiplier-IsValid (some scaled) source_now source_rate t sr pos v =
    let b = bank_at-IsValid source_rate source_now t v in
    recompute_rate-IsValid source_rate (exact_bank source_now t).rate_den
      (record (exact_bank source_now t) {
        speed_num = scaled / gcd scaled speed_scale;
        speed_den = speed_scale / gcd scaled speed_scale;
      })
      sr b.ticks (left_pos scaled speed_scale (pos scaled refl))
      (right_pos scaled speed_scale (omega arith)) b.remainder

pub change_rate-IsValid :
    (rate source_now source_rate : ℕ) (t : Timeline)
    → 0 < source_rate
    → 0 < rate
    → IsValid source_rate t
    → IsValid source_rate (exact_change_rate rate source_now source_rate t)
unfolding exact_change_rate
change_rate-IsValid rate source_now source_rate t sr pos v =
    let b = bank_at-IsValid source_rate source_now t v in
    recompute_rate-IsValid source_rate (exact_bank source_now t).rate_den
      (record (exact_bank source_now t) { ticks_per_second = rate }) sr pos b.speed_num b.speed_den
      b.remainder

-- A child is valid against the old rate of its source before, and against the new one afterwards.
pub follow_source-IsValid :
    (source_ticks old_rate source_rate : ℕ) (t : Timeline)
    → 0 < source_rate
    → IsValid old_rate t
    → IsValid source_rate (exact_follow source_ticks source_rate t)
unfolding exact_follow
follow_source-IsValid source_ticks old_rate source_rate t sr v =
    let b = bank_at-IsValid old_rate source_ticks t v in
    recompute_rate-IsValid source_rate (exact_bank source_ticks t).rate_den
      (exact_bank source_ticks t) sr b.ticks b.speed_num b.speed_den b.remainder

pub set_paused-IsValid :
    (source_rate : ℕ) (t : Timeline) (p : Bool)
    → IsValid source_rate t
    → IsValid source_rate (record t { paused = p })
set_paused-IsValid source_rate t p v = record {
  rate_den = v.rate_den;
  rate_num = v.rate_num;
  remainder = v.remainder;
  ticks = v.ticks;
  speed_num = v.speed_num;
  speed_den = v.speed_den;
  exact = v.exact;
}

pub pause-running :
    (s : ℕ) (t : Timeline)
    → t.paused ≡ false
    → exact_pause s t ≡ record (exact_bank s t) { paused = true }
unfolding exact_pause
pause-running s t e = ap (λ b. if b then t else record (exact_bank s t) { paused = true }) e

pub pause-paused : (s : ℕ) (t : Timeline) → t.paused ≡ true → exact_pause s t ≡ t
unfolding exact_pause
pause-paused s t e = ap (λ b. if b then t else record (exact_bank s t) { paused = true }) e

pub unpause-paused :
    (s : ℕ) (t : Timeline)
    → t.paused ≡ true
    → exact_unpause s t ≡ record (exact_bank s t) { paused = false }
unfolding exact_unpause
unpause-paused s t e = ap (λ b. if b then record (exact_bank s t) { paused = false } else t) e

pub unpause-running : (s : ℕ) (t : Timeline) → t.paused ≡ false → exact_unpause s t ≡ t
unfolding exact_unpause
unpause-running s t e = ap (λ b. if b then record (exact_bank s t) { paused = false } else t) e

pub pause-IsValid :
    (source_now source_rate : ℕ) (t : Timeline)
    → IsValid source_rate t
    → IsValid source_rate (exact_pause source_now t)
pause-IsValid source_now source_rate t v = elim (Bool-cases t.paused) [
  | inl e ↦ subst (IsValid source_rate) (sym (pause-paused source_now t e)) v
  | inr e ↦
      subst (IsValid source_rate) (sym (pause-running source_now t e))
        (set_paused-IsValid source_rate _ true (bank_at-IsValid source_rate source_now t v))
]

pub unpause-IsValid :
    (source_now source_rate : ℕ) (t : Timeline)
    → IsValid source_rate t
    → IsValid source_rate (exact_unpause source_now t)
unpause-IsValid source_now source_rate t v = elim (Bool-cases t.paused) [
  | inr e ↦ subst (IsValid source_rate) (sym (unpause-running source_now t e)) v
  | inl e ↦
      subst (IsValid source_rate) (sym (unpause-paused source_now t e))
        (set_paused-IsValid source_rate _ false (bank_at-IsValid source_rate source_now t v))
]
