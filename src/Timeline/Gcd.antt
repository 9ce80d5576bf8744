-- ===== src/Timeline/Gcd.antt =====
-- std::gcd, by Euclid's algorithm with the fuel that its second argument gives.
use gef_engine.Prelude.{
  ℕ, zero, suc, ◌*◌, ◌/◌, ◌%◌, ◌<◌, ◌≡◌, sym, ap, subst, ◌∙◌, inl, inr, true, false, arith, ◌==◌,
  Bool-cases,
}
use Prim.Native.Nat.{◌∣◌}
use native.Mathlib.Nat.{dvd_refl, dvd-zero, dvd-mod_iff, mod-lt, pos_of_dvd_of_pos, div-mul_cancel}

pub euclid : ℕ → ℕ → ℕ → ℕ
euclid zero a b = a
euclid (suc fuel) a b = elim (b == 0) [ true ↦ a | false ↦ euclid fuel b (a % b) ]

unfoldable pub gcd : ℕ → ℕ → ℕ
unfolding euclid
gcd a b = euclid (suc b) a b

euclid_divides : (fuel a b : ℕ) → b < fuel → (euclid fuel a b ∣ a) × (euclid fuel a b ∣ b)
unfolding euclid
euclid_divides zero a b h = absurd (omega arith)
euclid_divides (suc fuel) a b h = elim (Bool-cases (b == 0)) [
  | inl done ↦
      let e : b ≡ 0 = ground arith in
      rw (done, euclid) (dvd_refl a, subst (λ k. a ∣ k) (sym e) (dvd-zero a))
  | inr more ↦
      let pos : 0 < b = ground arith in
      let below : a % b < b = mod-lt a pos in
      let rest = euclid_divides fuel b (a % b) (omega (arith, below)) in
      rw (more, euclid) ((dvd-mod_iff _ rest.0).0 rest.1, rest.0)
]

-- It divides both numbers.
pub gcd_divides : (a b : ℕ) → (gcd a b ∣ a) × (gcd a b ∣ b)
unfolding gcd
gcd_divides a b = euclid_divides (suc b) a b (omega arith)

pub gcd_pos : (a b : ℕ) → 0 < a → 0 < gcd a b
gcd_pos a b h = pos_of_dvd_of_pos (gcd_divides a b).0 h

-- The quotients by it are positive with the numbers, and in the same ratio.
pub gcd_left : (a b : ℕ) → a / gcd a b * gcd a b ≡ a
gcd_left a b = div-mul_cancel _ (gcd_divides a b).0

pub gcd_right : (a b : ℕ) → b / gcd a b * gcd a b ≡ b
gcd_right a b = div-mul_cancel _ (gcd_divides a b).1

pos_of_mul : (a b : ℕ) → 0 < a * b → 0 < a
pos_of_mul zero b h = absurd (omega arith)
pos_of_mul (suc a) b h = omega arith

pub left_pos : (a b : ℕ) → 0 < a → 0 < a / gcd a b
left_pos a b h = pos_of_mul (a / gcd a b) (gcd a b) (omega (arith, gcd_left a b))

pub right_pos : (a b : ℕ) → 0 < b → 0 < b / gcd a b
right_pos a b h = pos_of_mul (b / gcd a b) (gcd a b) (omega (arith, gcd_right a b))

-- Two fractions that are equal to one value are in proportion.
pub same_ratio : (a b : ℕ) → a / gcd a b * b ≡ b / gcd a b * a
same_ratio a b =
    let g = gcd a b in
    let p = a / g in
    let q = b / g in
    ap (λ k. p * k) (sym (gcd_right a b))
    ∙ (let e : p * (q * g) ≡ q * (p * g) = omega arith in e)
    ∙ ap (λ k. q * k) (gcd_left a b)
