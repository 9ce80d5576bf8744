-- ===== src/Timeline/Exact.antt =====
-- What a Timeline's arithmetic comes to over numbers without a bound: the same operations as those of
-- Timeline, which work in 64 bits.
use gef_engine.Prelude.{ℕ, ◌+◌, ◌-◌, ◌*◌, ◌/◌, ◌%◌, true, false, Option, none, some, if◌then◌else◌}
use gef_engine.Timeline.Gcd.{gcd}
use gef_engine.Timeline.{Elapsed, Timeline, speed_scale}

unfoldable pub exact_scale : ℕ → ℕ → ℕ → ℕ → Elapsed
exact_scale elapsed remainder num den =
    let part = remainder + elapsed % den * num in
    record { ticks = elapsed / den * num + part / den; remainder = part % den }

unfoldable pub exact_rate : ℕ → ℕ → Timeline → Timeline
unfolding gcd
exact_rate source_rate previous_rate_den t =
    let raw_num = t.ticks_per_second * t.speed_num in
    let raw_den = source_rate * t.speed_den in
    let divisor = gcd raw_num raw_den in
    record t {
      rate_num = raw_num / divisor;
      rate_den = raw_den / divisor;
      remainder = t.remainder * (raw_den / divisor) / previous_rate_den;
    }

unfoldable pub exact_now : ℕ → Timeline → ℕ
unfolding exact_scale
exact_now source_now t =
    if t.paused
    then t.banked_ticks
    else (t.banked_ticks
        + (exact_scale (source_now - t.source_start) t.remainder t.rate_num t.rate_den).ticks)

unfoldable pub exact_bank : ℕ → Timeline → Timeline
unfolding exact_scale
exact_bank source_ticks t =
    let elapsed = if t.paused then 0 else source_ticks - t.source_start in
    let scaled = exact_scale elapsed t.remainder t.rate_num t.rate_den in
    record t {
      banked_ticks = t.banked_ticks + scaled.ticks;
      remainder = scaled.remainder;
      source_start = source_ticks;
    }

unfoldable pub exact_speed : Option ℕ → ℕ → ℕ → Timeline → Timeline
unfolding exact_bank exact_rate gcd
exact_speed multiplier source_now source_rate t = elim multiplier [
  | none ↦ t
  | some scaled ↦
      let banked = exact_bank source_now t in
      let divisor = gcd scaled speed_scale in
      exact_rate source_rate banked.rate_den
        (record banked { speed_num = scaled / divisor; speed_den = speed_scale / divisor })
]

unfoldable pub exact_follow : ℕ → ℕ → Timeline → Timeline
unfolding exact_bank exact_rate
exact_follow source_ticks source_rate child =
    let banked = exact_bank source_ticks child in exact_rate source_rate banked.rate_den banked

unfoldable pub exact_change_rate : ℕ → ℕ → ℕ → Timeline → Timeline
unfolding exact_bank exact_rate
exact_change_rate rate source_now source_rate t =
    let banked = exact_bank source_now t in
    exact_rate source_rate banked.rate_den (record banked { ticks_per_second = rate })

unfoldable pub exact_pause : ℕ → Timeline → Timeline
unfolding exact_bank
exact_pause source_now t =
    if t.paused then t else record (exact_bank source_now t) { paused = true }

unfoldable pub exact_unpause : ℕ → Timeline → Timeline
unfolding exact_bank
exact_unpause source_now t =
    if t.paused then record (exact_bank source_now t) { paused = false } else t
