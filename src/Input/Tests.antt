-- ===== src/Input/Tests.antt =====
-- A keyboard of two keys, captured, and a key set on a blank one.
use gef_engine.Prelude.{ℕ, ◌<◌, ◌≤◌, ◌≡◌, ◌⊎◌, Bool, true, false, List, [], ◌∷◌, some}
use gef_engine.Input.{
  ℤ, pos, negsuc, scancode_count, handler_pressed, KeyboardState, blank_keyboard, in_range,
  is_key_pressed, set_key, capture,
}
use gef_engine.Input.Keys.{IsFull, blank_keyboard-IsFull, capture_pressed}
use gef_engine.Input.Setting.{set_key_lem}

abbrev two_keys : List Bool
two_keys = false ∷ true ∷ []

capture_pressed_example :
    (k : KeyboardState) × (capture two_keys ≡ some k)
    × IsFull k
    × ((n : ℕ)
        → n < scancode_count
        → some (is_key_pressed k (pos n)) ≡ handler_pressed two_keys (pos n))
    × ((n : ℕ) → scancode_count ≤ n → is_key_pressed k (pos n) ≡ false)
    × ((n : ℕ) → is_key_pressed k (negsuc n) ≡ false)
capture_pressed_example = capture_pressed two_keys

set_key_lem_example :
    IsFull (set_key (pos 44) true blank_keyboard)
    × (((in_range (pos 44) ≡ true)
          × (is_key_pressed (set_key (pos 44) true blank_keyboard) (pos 44) ≡ true)
          × ((d : ℤ)
              → (pos 44 ≡ d)
                ⊎ (is_key_pressed (set_key (pos 44) true blank_keyboard) d
                    ≡ is_key_pressed blank_keyboard d)))
        ⊎ ((in_range (pos 44) ≡ false) × (set_key (pos 44) true blank_keyboard ≡ blank_keyboard)))
set_key_lem_example = set_key_lem blank_keyboard (pos 44) true blank_keyboard-IsFull
