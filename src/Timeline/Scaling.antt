-- ===== src/Timeline/Scaling.antt =====
-- timeline.cpp: scaleElapsed divides exactly, however the elapsed time is cut into pieces.
use gef_engine.Prelude.{ℕ, ◌+◌, ◌*◌, ◌/◌, ◌%◌, ◌<◌, ◌≡◌, ap, arith}
use gef_engine.Timeline.Exact.{exact_scale}
use native.Mathlib.Nat.{div-add-mod, mod-lt, mul-add-div, div-eq_of_lt}

-- The ticks and the remainder are the quotient and the remainder of the whole, though only a part of
-- it is ever multiplied out.
pub scale_elapsed_lem :
    (elapsed remainder num den : ℕ)
    → 0 < den
    → let r = exact_scale elapsed remainder num den in
      (den * r.ticks + r.remainder ≡ remainder + elapsed * num) × (r.remainder < den)
unfolding exact_scale
scale_elapsed_lem elapsed remainder num den pos =
    let part = remainder + elapsed % den * num in
    (
      omega (arith, div-add-mod part den, ap (λ (k : ℕ). k * num) (div-add-mod elapsed den)),
      mod-lt part pos,
    )

-- Quotients are unique.
pub quotient_unique :
    (den q r q' r' : ℕ) → r < den → r' < den → den * q + r ≡ den * q' + r' → (q ≡ q') × (r ≡ r')
quotient_unique den q r q' r' h h' e =
    let pos : 0 < den = omega arith in
    let same : q ≡ q' = omega (
      arith,
      ap (λ (k : ℕ). k / den) e,
      mul-add-div pos q r,
      mul-add-div pos q' r',
      div-eq_of_lt h,
      div-eq_of_lt h',
    ) in
    (same, omega (arith, e, ap (λ (k : ℕ). den * k) same))

-- Scaling a time in two pieces, with the first remainder carried over, loses nothing.
pub scale_elapsed-add :
    (a b remainder num den : ℕ)
    → 0 < den
    → let first = exact_scale a remainder num den in
      let second = exact_scale b first.remainder num den in
      let whole = exact_scale (a + b) remainder num den in
      (first.ticks + second.ticks ≡ whole.ticks) × (second.remainder ≡ whole.remainder)
scale_elapsed-add a b remainder num den pos =
    let first = scale_elapsed_lem a remainder num den pos in
    let r = (exact_scale a remainder num den).remainder in
    let second = scale_elapsed_lem b r num den pos in
    let whole = scale_elapsed_lem (a + b) remainder num den pos in
    quotient_unique den _ _ _ _ second.1 whole.1 (omega (arith, first.0, second.0, whole.0))
