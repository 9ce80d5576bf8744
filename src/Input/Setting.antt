-- ===== src/Input/Setting.antt =====
-- src/keyboardState.cpp: a key that is set against one that is read.
use gef_engine.Prelude.{
  ℕ, ◌<◌, ◌≡◌, ◌⊎◌, refl, sym, ap, subst, ◌∙◌, Bool, true, false, ◌&&◌, List, length, ltb, ◌==◌,
  arith, Bool-cases, inl, inr, if◌then◌else◌, ℕ-cases, ==_refl, ==_of_ne,
}
use gef_engine.Input.{
  ℤ, pos, negsuc, scancode_count, KeyboardState, in_range, bit_at, is_key_pressed, put_key_bit,
  set_key,
}
use gef_engine.Input.Keys.{IsFull, length-put_bit, key_at-put_bit}

pressed_as_bit :
    (k : KeyboardState) (c : ℤ) → in_range c ≡ true → is_key_pressed k c ≡ bit_at k.keys c
unfolding is_key_pressed
pressed_as_bit k c r = rw r

bit_at-put :
    (keys : List Bool) (n m : ℕ) (b : Bool)
    → n < length keys
    → bit_at (put_key_bit keys (pos n) b) (pos m) ≡ (if n == m then b else bit_at keys (pos m))
unfolding bit_at put_key_bit
bit_at-put keys n m b h = elim (Bool-cases (n == m)) [
  | inl same ↦ ground (arith, same, key_at-put_bit keys n m b h)
  | inr other ↦ ground (arith, other, key_at-put_bit keys n m b h)
]

-- The keyboard with one bit put.
abbrev with_bit : KeyboardState → ℕ → Bool → KeyboardState
with_bit k n pressed = record { keys = put_key_bit k.keys (pos n) pressed }

set_inside :
    (k : KeyboardState) (n : ℕ) (pressed : Bool)
    → in_range (pos n) ≡ true
    → set_key (pos n) pressed k ≡ with_bit k n pressed
unfolding set_key
set_inside k n pressed e = rw e

with_bit-IsFull :
    (k : KeyboardState) (n : ℕ) (pressed : Bool) → IsFull k → IsFull (with_bit k n pressed)
unfolding put_key_bit
with_bit-IsFull k n pressed full = length-put_bit k.keys n pressed ∙ full

with_bit_same :
    (k : KeyboardState) (n : ℕ) (pressed : Bool)
    → IsFull k
    → in_range (pos n) ≡ true
    → is_key_pressed (with_bit k n pressed) (pos n) ≡ pressed
unfolding in_range
with_bit_same k n pressed full e =
    pressed_as_bit (with_bit k n pressed) (pos n) e
    ∙ (bit_at-put k.keys n n pressed (ground (arith, full)) ∙ rw (==_refl n))

with_bit_other :
    (k : KeyboardState) (n : ℕ) (pressed : Bool)
    → IsFull k
    → in_range (pos n) ≡ true
    → (d : ℤ) → (pos n ≡ d) ⊎ (is_key_pressed (with_bit k n pressed) d ≡ is_key_pressed k d)
unfolding is_key_pressed in_range
with_bit_other k n pressed full e (negsuc m) = inr refl
with_bit_other k n pressed full e (pos m) = elim (ℕ-cases n m) [
  | inl same ↦ inl (ap pos same)
  | inr other ↦ inr (
      ap (λ b. ltb m scancode_count && b)
        (bit_at-put k.keys n m pressed (ground (arith, full)) ∙ rw (==_of_ne n m other)))
]

-- Setting a key of the enumeration sets what is read at its scancode, and at no other; setting one
-- that is out of range changes nothing; and all keys are still there.
pub set_key_lem :
    (k : KeyboardState) (c : ℤ) (pressed : Bool)
    → IsFull k
    → IsFull (set_key c pressed k)
      × (((in_range c ≡ true)
            × (is_key_pressed (set_key c pressed k) c ≡ pressed)
            × ((d : ℤ) → (c ≡ d) ⊎ (is_key_pressed (set_key c pressed k) d ≡ is_key_pressed k d)))
          ⊎ ((in_range c ≡ false) × (set_key c pressed k ≡ k)))
unfolding set_key in_range
set_key_lem k (negsuc n) pressed full = (full, inr (refl, refl))
set_key_lem k (pos n) pressed full = elim (Bool-cases (in_range (pos n))) [
  | inr outside ↦ rw outside (full, inr (refl, refl))
  | inl inside ↦
      subst
        (λ (j : KeyboardState).
          IsFull j
          × (((in_range (pos n) ≡ true)
                × (is_key_pressed j (pos n) ≡ pressed)
                × ((d : ℤ) → (pos n ≡ d) ⊎ (is_key_pressed j d ≡ is_key_pressed k d)))
              ⊎ ((in_range (pos n) ≡ false) × (j ≡ k))))
        (sym (set_inside k n pressed inside))
        (
          with_bit-IsFull k n pressed full,
          inl (
            inside,
            with_bit_same k n pressed full inside,
            with_bit_other k n pressed full inside,
          ),
        )
]
