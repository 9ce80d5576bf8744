-- ===== src/Input/Keys.antt =====
-- src/keyboardState.cpp: a captured keyboard against SDL's array.
use gef_engine.Prelude.{
  ℕ, zero, suc, ◌+◌, ◌<◌, ◌≤◌, ◌≡◌, refl, sym, ap, ◌∙◌, Bool, false, List, [], ◌∷◌, length, Option,
  none, some, leb, ◌==◌, arith, Bool-cases, inl, inr, if◌then◌else◌, ℕ-cases, le→ltb, ==_refl,
  ==_of_ne,
}
use gef_engine.Input.{
  pos, negsuc, scancode_count, key_at, put_bit, blank_keys, handler_pressed, KeyboardState,
  blank_keyboard, in_range, bit_at, is_key_pressed, capture_loop, capture,
}

-- All keys of the enumeration are there.
abbrev pub IsFull : KeyboardState → Type 0
IsFull k = length k.keys ≡ scancode_count

pub length-put_bit : (ks : List Bool) (i : ℕ) (b : Bool) → length (put_bit ks i b) ≡ length ks
unfolding put_bit
length-put_bit [] i b = refl
length-put_bit (k ∷ ks) zero b = refl
length-put_bit (k ∷ ks) (suc i) b = ap suc (length-put_bit ks i b)

pub key_at-put_bit :
    (ks : List Bool) (i j : ℕ) (b : Bool)
    → i < length ks
    → key_at (put_bit ks i b) j ≡ (if i == j then some b else key_at ks j)
unfolding key_at put_bit
key_at-put_bit [] i j b h = absurd (omega arith)
key_at-put_bit (k ∷ ks) zero zero b h = ground arith
key_at-put_bit (k ∷ ks) zero (suc j) b h = ground arith
key_at-put_bit (k ∷ ks) (suc i) zero b h = ground arith
key_at-put_bit (k ∷ ks) (suc i) (suc j) b h = ground (arith, key_at-put_bit ks i j b)

length-blank : (n : ℕ) → length (blank_keys n) ≡ n
unfolding blank_keys
length-blank zero = refl
length-blank (suc n) = ap suc (length-blank n)

key_at-some : (ks : List Bool) (i : ℕ) → i < length ks → (b : Bool) × (key_at ks i ≡ some b)
unfolding key_at
key_at-some [] i h = absurd (omega arith)
key_at-some (k ∷ ks) zero h = (k, refl)
key_at-some (k ∷ ks) (suc i) h = key_at-some ks i (omega arith)

-- SDL's array gives an answer at every scancode that is not negative.
handler_some : (sdl : List Bool) (i : ℕ) → (b : Bool) × (handler_pressed sdl (pos i) ≡ some b)
unfolding handler_pressed
handler_some sdl i = elim (Bool-cases (leb (length sdl) i)) [
  | inl over ↦ (false, rw over)
  | inr under ↦ let (b, e) = key_at-some sdl i (ground arith) in (b, rw under e)
]

-- The captured keys: what the handler says at the scancodes done, what was there at the others.
pub record Captured (sdl : List Bool) (from done : ℕ) (old new : List Bool) : Type 0 where
  pub same_length : length new ≡ length old
  pub answered : (j : ℕ) → from ≤ j → j < done → key_at new j ≡ handler_pressed sdl (pos j)
  pub untouched : (j : ℕ) → j < from → key_at new j ≡ key_at old j

capture_loop_more :
    (left i : ℕ) (sdl keys : List Bool) (b : Bool)
    → handler_pressed sdl (pos i) ≡ some b
    → capture_loop (suc left) i sdl keys ≡ capture_loop left (i + 1) sdl (put_bit keys i b)
unfolding capture_loop
capture_loop_more left i sdl keys b e = rw (e, capture_loop)

capture_loop_lem :
    (left i : ℕ) (sdl keys : List Bool)
    → i + left ≤ length keys
    → (new : List Bool) × (capture_loop left i sdl keys ≡ some new)
      × Captured sdl i (i + left) keys new
unfolding capture_loop
capture_loop_lem zero i sdl keys h = (
  keys,
  refl,
  record { same_length = refl; answered = λ j p q. absurd (omega arith); untouched = λ j p. refl },
)
capture_loop_lem (suc left) i sdl keys h =
    let (b, e) = handler_some sdl i in
    let put = put_bit keys i b in
    let same = length-put_bit keys i b in
    let (new, ran, c) = capture_loop_lem left (i + 1) sdl put (omega (arith, same)) in
    let here = key_at-put_bit keys i in
    (
      new,
      capture_loop_more left i sdl keys b e ∙ ran,
      record {
        same_length = c.same_length ∙ same;
        answered = λ j p q. elim (ℕ-cases j i) [
          | inl at ↦ rw at (
              c.untouched i (omega arith)
              ∙ (key_at-put_bit keys i i b (omega arith) ∙ (rw (==_refl i) (sym e))))
          | inr past ↦ c.answered j (omega (arith, past)) (omega arith)
        ];
        untouched = λ j p.
            c.untouched j (omega arith)
            ∙ (key_at-put_bit keys i j b (omega arith)
                ∙ rw (==_of_ne i j (λ q. absurd (omega (arith, q)))));
      },
    )

-- What capture makes of the keys that its loop gives.
abbrev kept : Option (List Bool) → Option KeyboardState
kept none = none
kept (some keys) = some (record { keys = keys })

capture-kept :
    (sdl : List Bool) → capture sdl ≡ kept (capture_loop scancode_count 0 sdl blank_keyboard.keys)
unfolding capture
capture-kept sdl = by_keys (capture_loop scancode_count 0 sdl blank_keyboard.keys)
  where
    by_keys :
        (o : Option (List Bool))
        → elim o [ none ↦ none | some keys ↦ some (record { keys = keys }) ] ≡ kept o
    by_keys none = refl
    by_keys (some keys) = refl

pub blank_keyboard-IsFull : IsFull blank_keyboard
unfolding blank_keyboard
blank_keyboard-IsFull = length-blank scancode_count

pressed_lem :
    (k : KeyboardState) (n : ℕ)
    → IsFull k
    → n < scancode_count
    → some (is_key_pressed k (pos n)) ≡ key_at k.keys n
unfolding is_key_pressed in_range bit_at
pressed_lem k n full p =
    let (b, e) = key_at-some k.keys n (omega (arith, full)) in ground (arith, e)

-- Capturing never reads outside SDL's array, however long it is, and gives a keyboard that answers
-- at every scancode of the enumeration what the input handler answers, and false at every other
-- one, negative ones included.
pub capture_pressed :
    (sdl : List Bool)
    → (k : KeyboardState) × (capture sdl ≡ some k)
      × IsFull k
      × ((n : ℕ)
          → n < scancode_count
          → some (is_key_pressed k (pos n)) ≡ handler_pressed sdl (pos n))
      × ((n : ℕ) → scancode_count ≤ n → is_key_pressed k (pos n) ≡ false)
      × ((n : ℕ) → is_key_pressed k (negsuc n) ≡ false)
unfolding is_key_pressed in_range bit_at
capture_pressed sdl =
    let full = blank_keyboard-IsFull in
    let (keys, ran, c) =
      capture_loop_lem scancode_count 0 sdl blank_keyboard.keys (omega (arith, full)) in
    let k : KeyboardState = record { keys = keys } in
    let length_of : IsFull k = c.same_length ∙ full in
    (
      k,
      capture-kept sdl ∙ ap kept ran,
      length_of,
      λ n p. pressed_lem k n length_of p ∙ c.answered n (omega arith) (omega arith),
      λ n p. rw (le→ltb n scancode_count p),
      λ n. refl,
    )
