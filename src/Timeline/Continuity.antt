-- ===== src/Timeline/Continuity.antt =====
-- timeline.cpp: `now()` as a function of the source. No operation makes it jump, banking loses
-- nothing, and it never falls.
use gef_engine.Prelude.{
  ℕ, ◌+◌, ◌-◌, ◌<◌, ◌≡◌, refl, sym, ap, ◌∙◌, inl, inr, true, false, arith, if◌then◌else◌,
  Bool-cases,
}
use gef_engine.Timeline.Scaling.{scale_elapsed_lem, quotient_unique}
use gef_engine.Timeline.{Timeline}
use gef_engine.Timeline.Exact.{exact_scale, exact_now, exact_bank}
use gef_engine.Timeline.Valid.{IsValid}

pub now-paused : (s : ℕ) (t : Timeline) → t.paused ≡ true → exact_now s t ≡ t.banked_ticks
unfolding exact_now
now-paused s t e = ground (arith, e)

pub now-running :
    (s : ℕ) (t : Timeline)
    → t.paused ≡ false
    → exact_now s t
      ≡ t.banked_ticks + (exact_scale (s - t.source_start) t.remainder t.rate_num t.rate_den).ticks
unfolding exact_now
now-running s t e = ground (arith, e)

-- A proper part of a tick alone makes no tick.
scale_elapsed-zero :
    (remainder num den : ℕ) → remainder < den → (exact_scale 0 remainder num den).ticks ≡ 0
scale_elapsed-zero remainder num den h =
    let whole = scale_elapsed_lem 0 remainder num den (omega arith) in
    (quotient_unique den _ _ 0 remainder whole.1 h (omega (arith, whole.0))).0

-- At the moment of its last banking a timeline reads what was banked.
now-start :
    (source_rate s : ℕ) (t : Timeline)
    → IsValid source_rate t
    → t.source_start ≡ s
    → exact_now s t ≡ t.banked_ticks
now-start source_rate s t v e = elim (Bool-cases t.paused) [
  | inl p ↦ now-paused s t p
  | inr r ↦
      let none_passed : s - t.source_start ≡ 0 = omega arith in
      now-running s t r
      ∙ ap (λ k. t.banked_ticks + (exact_scale k t.remainder t.rate_num t.rate_den).ticks)
          none_passed
      ∙ omega (arith, scale_elapsed-zero t.remainder t.rate_num t.rate_den v.remainder)
]

-- `bank()` banks what `now()` reads.
pub banked :
    (source_rate s : ℕ) (t : Timeline)
    → IsValid source_rate t
    → (exact_bank s t).banked_ticks ≡ exact_now s t
unfolding exact_bank
banked source_rate s t v = elim (Bool-cases t.paused) [
  | inl p ↦
      ap
        (λ b.
          t.banked_ticks
          + (exact_scale (if b then 0 else s - t.source_start) t.remainder t.rate_num
              t.rate_den).ticks)
        p
      ∙ omega (
        arith,
        scale_elapsed-zero t.remainder t.rate_num t.rate_den v.remainder,
        now-paused s t p,
      )
  | inr r ↦
      ap
        (λ b.
          t.banked_ticks
          + (exact_scale (if b then 0 else s - t.source_start) t.remainder t.rate_num
              t.rate_den).ticks)
        r
      ∙ sym (now-running s t r)
]

scale_elapsed-zero_rest :
    (remainder num den : ℕ)
    → remainder < den
    → (exact_scale 0 remainder num den).remainder ≡ remainder
scale_elapsed-zero_rest remainder num den h =
    let whole = scale_elapsed_lem 0 remainder num den (omega arith) in
    (quotient_unique den (exact_scale 0 remainder num den).ticks
      (exact_scale 0 remainder num den).remainder 0 remainder whole.1 h (omega (arith, whole.0))).1

-- Banking a paused timeline only moves its start.
pub bank_at-paused :
    (source_rate s : ℕ) (t : Timeline)
    → IsValid source_rate t
    → t.paused ≡ true
    → exact_bank s t ≡ record t { source_start = s }
unfolding exact_bank
bank_at-paused source_rate s t v p =
    let zero_ticks : t.banked_ticks + (exact_scale 0 t.remainder t.rate_num t.rate_den).ticks
        ≡ t.banked_ticks =
      omega (arith, scale_elapsed-zero t.remainder t.rate_num t.rate_den v.remainder) in
    ap
      (λ b.
        let scaled =
          exact_scale (if b then 0 else s - t.source_start) t.remainder t.rate_num t.rate_den in
        record t {
          banked_ticks = t.banked_ticks + scaled.ticks;
          remainder = scaled.remainder;
          source_start = s;
        })
      p
    ∙ ap
        (λ k. record t {
          banked_ticks = k;
          remainder = (exact_scale 0 t.remainder t.rate_num t.rate_den).remainder;
          source_start = s;
        })
        zero_ticks
    ∙ ap (λ k. record t { remainder = k; source_start = s })
        (scale_elapsed-zero_rest t.remainder t.rate_num t.rate_den v.remainder)

pub bank_at-start : (s : ℕ) (t : Timeline) → (exact_bank s t).source_start ≡ s
unfolding exact_bank
bank_at-start s t = refl

-- Whatever else an operation changes, a timeline that was just banked reads on from there.
pub reads_on :
    (rate rate' s : ℕ) (t u : Timeline)
    → IsValid rate t
    → IsValid rate' u
    → u.source_start ≡ (exact_bank s t).source_start
    → u.banked_ticks ≡ (exact_bank s t).banked_ticks
    → exact_now s u ≡ exact_now s t
reads_on rate rate' s t u v w start ticks =
    now-start rate' s u w (start ∙ bank_at-start s t) ∙ ticks ∙ banked rate s t v
