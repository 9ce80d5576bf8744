-- ===== src/Timeline/Ranges.antt =====
-- timeline.cpp: where no sum and no product of int64_t passes 2 ^ 63, its operations come to the numbers
-- that they stand for.
use gef_engine.Prelude.{
  ℕ, ◌+◌, ◌-◌, ◌*◌, ◌/◌, ◌%◌, ◌^◌, ◌<◌, ◌≡◌, sym, ap, subst, ◌∙◌, inl, inr, arith, Bool-cases,
  if◌then◌else◌,
}
use gef_engine.Timeline.Gcd.{gcd}
use gef_engine.Timeline.{Timeline, Elapsed, int64, scale_elapsed, recompute_rate, now, bank_at}
use gef_engine.Timeline.Exact.{exact_scale, exact_rate, exact_now, exact_bank}

int64_small : (n : ℕ) → n < 2 ^ 63 → int64 n ≡ n
int64_small n h = omega arith

-- The largest intermediate results of scaleElapsed.
abbrev pub ScaleFits : ℕ → ℕ → ℕ → ℕ → Type 0
ScaleFits elapsed remainder num den =
    (remainder + elapsed % den * num < 2 ^ 63)
    × (elapsed / den * num + (remainder + elapsed % den * num) / den < 2 ^ 63)

same_scale :
    (elapsed remainder num den : ℕ)
    → ScaleFits elapsed remainder num den
    → scale_elapsed elapsed remainder num den ≡ exact_scale elapsed remainder num den
unfolding scale_elapsed exact_scale
same_scale elapsed remainder num den h =
    let a = int64_small (elapsed % den * num) (omega (arith, h.0)) in
    let b = int64_small (remainder + elapsed % den * num) h.0 in
    let c = int64_small (elapsed / den * num) (omega (arith, h.1)) in
    let d = int64_small (elapsed / den * num + (remainder + elapsed % den * num) / den) h.1 in
    let made : ℕ → ℕ → Elapsed =
      λ whole part. record { ticks = int64 (whole + part / den); remainder = part % den } in
    ap (λ k. made (int64 (elapsed / den * num)) (int64 (remainder + k))) a
    ∙ ap (λ k. made (int64 (elapsed / den * num)) k) b
    ∙ ap (λ k. made k (remainder + elapsed % den * num)) c
    ∙ ap
        (λ k.
          let r : Elapsed = record {
            ticks = k;
            remainder = (remainder + elapsed % den * num) % den;
          } in
          r)
        d

-- The time that a reading or a banking scales.
abbrev pub passed : ℕ → Timeline → ℕ
passed s t = if t.paused then 0 else s - t.source_start

-- What a reading or a banking at `s` computes fits.
abbrev pub Fits : ℕ → Timeline → Type 0
Fits s t =
    ScaleFits (passed s t) t.remainder t.rate_num t.rate_den
    × (t.banked_ticks + (exact_scale (passed s t) t.remainder t.rate_num t.rate_den).ticks < 2 ^ 63)

pub same_now : (s : ℕ) (t : Timeline) → Fits s t → now s t ≡ exact_now s t
unfolding now exact_now
same_now s t h = elim (Bool-cases t.paused) [
  | inl e ↦ ground (arith, e)
  | inr e ↦
      let at : passed s t ≡ s - t.source_start = ground (arith, e) in
      let same =
        same_scale (s - t.source_start) t.remainder t.rate_num t.rate_den
          (subst (λ k. ScaleFits k t.remainder t.rate_num t.rate_den) at h.0) in
      let small = int64_small _ (
        subst
          (λ k. t.banked_ticks + (exact_scale k t.remainder t.rate_num t.rate_den).ticks < 2 ^ 63)
          at h.1) in
      ap
        (λ b.
          if b
          then t.banked_ticks
          else int64 (
              t.banked_ticks
              + (scale_elapsed (s - t.source_start) t.remainder t.rate_num t.rate_den).ticks))
        e
      ∙ ap (λ (x : Elapsed). int64 (t.banked_ticks + x.ticks)) same
      ∙ small
      ∙ sym (
          ap
            (λ b.
              if b
              then t.banked_ticks
              else t.banked_ticks
                + (exact_scale (s - t.source_start) t.remainder t.rate_num t.rate_den).ticks)
            e)
]

pub same_bank : (s : ℕ) (t : Timeline) → Fits s t → bank_at s t ≡ exact_bank s t
unfolding bank_at exact_bank
same_bank s t h =
    let banked : Elapsed → ℕ → Timeline =
      λ x k. record t { banked_ticks = k; remainder = x.remainder; source_start = s } in
    ap (λ (x : Elapsed). banked x (int64 (t.banked_ticks + x.ticks)))
      (same_scale (passed s t) t.remainder t.rate_num t.rate_den h.0)
    ∙ ap (banked (exact_scale (passed s t) t.remainder t.rate_num t.rate_den)) (int64_small _ h.1)

-- The products of recomputeRate.
abbrev pub RateFits : ℕ → ℕ → Timeline → Type 0
RateFits source_rate previous t =
    (t.ticks_per_second * t.speed_num < 2 ^ 63)
    × (source_rate * t.speed_den < 2 ^ 63)
    × (t.remainder * (exact_rate source_rate previous t).rate_den < 2 ^ 63)

pub same_rate :
    (source_rate previous : ℕ) (t : Timeline)
    → RateFits source_rate previous t
    → recompute_rate source_rate previous t ≡ exact_rate source_rate previous t
unfolding recompute_rate exact_rate
same_rate source_rate previous t h =
    let made : ℕ → ℕ → Timeline = λ num den. record t {
      rate_num = num / gcd num den;
      rate_den = den / gcd num den;
      remainder = int64 (t.remainder * (den / gcd num den)) / previous;
    } in
    let num = t.ticks_per_second * t.speed_num in
    let den = source_rate * t.speed_den in
    ap (λ n. made n (int64 den)) (int64_small num h.0)
    ∙ ap (made num) (int64_small den h.1)
    ∙ ap
        (λ n.
          let r : Timeline = record t {
            rate_num = num / gcd num den;
            rate_den = den / gcd num den;
            remainder = n / previous;
          } in
          r)
        (int64_small _ h.2)
