-- ===== src/Prelude/MapDefs.antt =====
-- Maps with numeric keys, `std::map` and `std::unordered_map`, as association lists in the order
-- of the keys. An unordered map is walked in this order too, one of those that C++ allows.
use Prim.Native.Nat.{ℕ, suc, ◌≤◌, ◌<◌}
use mathlib.Core.List.{List, [], ◌∷◌}
use mathlib.Core.Option.{Option, none, some}
use mathlib.Core.Bool.{Bool, true, false}
use gef_engine.Prelude.Tests.{ltb, ◌==◌, if◌then◌else◌}

abbrev pub Map {ℓ} : Type ℓ → Type ℓ
Map V = List (ℕ × V)

module _ {ℓ} {V : Type ℓ} where
  -- `find`, `none` for `end()`.
  unfoldable pub find_key : ℕ → Map V → Option V
  find_key k [] = none
  find_key k ((j, w) ∷ m) = if k == j then some w else find_key k m

  -- `m[k] = v`, `insert_or_assign`, and `emplace` of a key that is not there.
  unfoldable pub put_key : ℕ → V → Map V → Map V
  put_key k v [] = (k, v) ∷ []
  put_key k v ((j, w) ∷ m) =
      if k == j then (k, v) ∷ m else if ltb k j then (k, v) ∷ (j, w) ∷ m else (j, w) ∷ put_key k v m

  unfoldable pub erase_key : ℕ → Map V → Map V
  erase_key k [] = []
  erase_key k ((j, w) ∷ m) = if k == j then erase_key k m else (j, w) ∷ erase_key k m

  abbrev pub has_key : ℕ → Map V → Bool
  has_key k m = elim (find_key k m) [ none ↦ false | some v ↦ true ]

  -- The keys climb along the list and lie at `n` or above.
  abbrev pub From : ℕ → Map V → Type 0
  From n [] = Unit {0}
  From n ((j, w) ∷ m) = (n ≤ j) × From (suc j) m

  -- The keys lie below `n`.
  abbrev pub Under : ℕ → Map V → Type 0
  Under n [] = Unit {0}
  Under n ((j, w) ∷ m) = (j < n) × Under n m
