-- ===== src/Timeline/Resuming.antt =====
-- src/timeline.cpp: what is read is never less later, and pauses take nothing away.
use gef_engine.Prelude.{
  ℕ, ◌+◌, ◌-◌, ◌≤◌, ◌≡◌, refl, sym, ap, ◌∙◌, inl, inr, true, false, arith, if◌then◌else◌,
  Bool-cases,
}
use gef_engine.Timeline.Scaling.{scale_elapsed-add}
use gef_engine.Timeline.{Timeline}
use gef_engine.Timeline.Exact.{exact_scale, exact_now, exact_bank, exact_pause, exact_unpause}
use gef_engine.Timeline.Valid.{
  IsValid, bank_at-IsValid, set_paused-IsValid, pause-running, unpause-paused,
}
use gef_engine.Timeline.Continuity.{now-paused, now-running, bank_at-paused}

bank_at-running :
    (s : ℕ) (t : Timeline)
    → t.paused ≡ false
    → let scaled = exact_scale (s - t.source_start) t.remainder t.rate_num t.rate_den in
      exact_bank s t ≡ record t {
        banked_ticks = t.banked_ticks + scaled.ticks;
        remainder = scaled.remainder;
        source_start = s;
      }
unfolding exact_bank
bank_at-running s t r =
    ap
      (λ b.
        let scaled =
          exact_scale (if b then 0 else s - t.source_start) t.remainder t.rate_num t.rate_den in
        record t {
          banked_ticks = t.banked_ticks + scaled.ticks;
          remainder = scaled.remainder;
          source_start = s;
        })
      r

-- A running timeline that is banked on the way reads the same later as one that is not: no part of a
-- tick is lost or gained, however often it is banked.
pub now-bank_at :
    (source_rate s s' : ℕ) (t : Timeline)
    → IsValid source_rate t
    → t.paused ≡ false
    → t.source_start ≤ s
    → s ≤ s'
    → exact_now s' (exact_bank s t) ≡ exact_now s' t
now-bank_at source_rate s s' t v r h h' =
    let a = s - t.source_start in
    let b = s' - s in
    let sum : a + b ≡ s' - t.source_start = omega arith in
    let whole = scale_elapsed-add a b t.remainder t.rate_num t.rate_den v.rate_den in
    ap (exact_now s') (bank_at-running s t r)
    ∙ now-running s'
        (record t {
          banked_ticks = t.banked_ticks + (exact_scale a t.remainder t.rate_num t.rate_den).ticks;
          remainder = (exact_scale a t.remainder t.rate_num t.rate_den).remainder;
          source_start = s;
        })
        r
    ∙ omega (arith, whole.0, ap (λ k. (exact_scale k t.remainder t.rate_num t.rate_den).ticks) sum)
    ∙ sym (now-running s' t r)

-- While its source does not fall, a timeline does not.
pub now_mono :
    (source_rate s s' : ℕ) (t : Timeline)
    → IsValid source_rate t
    → t.source_start ≤ s
    → s ≤ s'
    → exact_now s t ≤ exact_now s' t
now_mono source_rate s s' t v h h' = elim (Bool-cases t.paused) [
  | inl p ↦ omega (arith, now-paused s t p, now-paused s' t p)
  | inr r ↦
      let a = s - t.source_start in
      let b = s' - s in
      let sum : a + b ≡ s' - t.source_start = omega arith in
      let whole = scale_elapsed-add a b t.remainder t.rate_num t.rate_den v.rate_den in
      omega (
        arith,
        whole.0,
        ap (λ k. (exact_scale k t.remainder t.rate_num t.rate_den).ticks) sum,
        now-running s t r,
        now-running s' t r,
      )
]

bank_reading :
    (s s' : ℕ) (t : Timeline)
    → t.paused ≡ false
    → exact_now s' (exact_bank s t)
      ≡ (exact_bank s t).banked_ticks
        + (exact_scale
            (s' - s)
            (exact_bank s t).remainder
            (exact_bank s t).rate_num
            (exact_bank s t).rate_den).ticks
bank_reading s s' t r = unfold exact_bank in now-running s' (exact_bank s t) r

-- A pause leaves later readings as they were, later by its length.
pub exact_unpause-exact_pause :
    (source_rate s s' d : ℕ) (t : Timeline)
    → IsValid source_rate t
    → t.paused ≡ false
    → t.source_start ≤ s
    → s ≤ s'
    → exact_now (s' + d) (exact_unpause s' (exact_pause s t)) ≡ exact_now (s + d) t
exact_unpause-exact_pause source_rate s s' d t v r h h' =
    let u = exact_bank s t in
    let p = record u { paused = true } in
    let w = set_paused-IsValid source_rate u true (bank_at-IsValid source_rate s t v) in
    let left : s' + d - s' ≡ d = omega arith in
    let right : s + d - s ≡ d = omega arith in
    let reading =
      λ (k : ℕ). u.banked_ticks + (exact_scale k u.remainder u.rate_num u.rate_den).ticks in
    ap (λ x. exact_now (s' + d) (exact_unpause s' x)) (pause-running s t r)
    ∙ ap (exact_now (s' + d)) (unpause-paused s' p refl)
    ∙ ap (λ x. exact_now (s' + d) (record x { paused = false }))
        (bank_at-paused source_rate s' p w refl)
    ∙ now-running (s' + d) (record p { source_start = s'; paused = false }) refl
    ∙ ap reading left
    ∙ sym (ap reading right)
    ∙ sym (bank_reading s (s + d) t r)
    ∙ now-bank_at source_rate s (s + d) t v r h (omega arith)
