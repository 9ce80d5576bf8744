-- ===== src/Input.antt =====
-- src/keyboardState.cpp and src/inputHandler.cpp with their headers. The array that SDL keeps of the
-- keys is an argument, as long as SDL says it is. A scancode is an int.
pub mod Keys
pub mod Setting
pub mod Tests
use gef_engine.Prelude.{
  ℕ, zero, suc, ◌+◌, Bool, true, false, not, ◌&&◌, List, [], ◌∷◌, length, Option, none, some, leb,
  ltb, if◌then◌else◌,
}

-- `negsuc n` is -(n + 1).
pub data ℤ : Type 0 where
  pos : ℕ → ℤ
  negsuc : ℕ → ℤ

-- SDL_SCANCODE_COUNT
abbrev pub scancode_count : ℕ
scancode_count = 512

-- An element, `none` out of range.
unfoldable pub key_at : List Bool → ℕ → Option Bool
key_at [] i = none
key_at (k ∷ ks) zero = some k
key_at (k ∷ ks) (suc i) = key_at ks i

unfoldable pub put_bit : List Bool → ℕ → Bool → List Bool
put_bit [] i b = []
put_bit (k ∷ ks) zero b = b ∷ ks
put_bit (k ∷ ks) (suc i) b = k ∷ put_bit ks i b

unfoldable pub blank_keys : ℕ → List Bool
blank_keys zero = []
blank_keys (suc n) = false ∷ blank_keys n

-- InputHandler::isKeyPressed; `none` where it reads outside the array.
unfoldable pub handler_pressed : List Bool → ℤ → Option Bool
unfolding key_at
handler_pressed keys (pos n) = if leb (length keys) n then some false else key_at keys n
handler_pressed keys (negsuc n) = none

pub record KeyboardState : Type 0 where
  pub keys : List Bool

-- KeyboardState{}
unfoldable pub blank_keyboard : KeyboardState
unfolding blank_keys
blank_keyboard = record { keys = blank_keys scancode_count }

unfoldable pub in_range : ℤ → Bool
in_range (pos n) = ltb n scancode_count
in_range (negsuc n) = false

-- `keys_[scancode]` for one in range.
abbrev pub bit_of : Option Bool → Bool
bit_of none = false
bit_of (some b) = b

unfoldable pub bit_at : List Bool → ℤ → Bool
unfolding key_at
bit_at keys (pos n) = bit_of (key_at keys n)
bit_at keys (negsuc n) = false

unfoldable pub is_key_pressed : KeyboardState → ℤ → Bool
unfolding in_range bit_at
is_key_pressed k c = in_range c && bit_at k.keys c

unfoldable pub just_pressed : KeyboardState → KeyboardState → ℤ → Bool
unfolding is_key_pressed
just_pressed k previous c = is_key_pressed k c && not (is_key_pressed previous c)

unfoldable pub put_key_bit : List Bool → ℤ → Bool → List Bool
unfolding put_bit
put_key_bit keys (pos n) pressed = put_bit keys n pressed
put_key_bit keys (negsuc n) pressed = keys

unfoldable pub set_key : ℤ → Bool → KeyboardState → KeyboardState
unfolding in_range put_key_bit
set_key c pressed k = if in_range c then record { keys = put_key_bit k.keys c pressed } else k

-- The loop of capture from `i` on, with the rounds that are left; `none` where the handler reads
-- outside the array.
unfoldable pub capture_loop : ℕ → ℕ → List Bool → List Bool → Option (List Bool)
unfolding handler_pressed put_bit
capture_loop zero i sdl keys = some keys
capture_loop (suc left) i sdl keys = elim (handler_pressed sdl (pos i)) [
  | none ↦ none
  | some b ↦ capture_loop left (i + 1) sdl (put_bit keys i b)
]

unfoldable pub capture : List Bool → Option KeyboardState
unfolding capture_loop blank_keyboard
capture sdl = elim (capture_loop scancode_count 0 sdl blank_keyboard.keys) [
  | none ↦ none
  | some keys ↦ some (record { keys = keys })
]
