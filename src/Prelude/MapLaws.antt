-- ===== src/Prelude/MapLaws.antt =====
-- Laws of the maps.
use Prim.Native.Nat.{ℕ, suc, ◌+◌, ◌≤◌, ◌<◌}
use mathlib.Core.Path.{◌≡◌, refl}
use mathlib.Core.List.{[], ◌∷◌, ◌++◌}
use mathlib.Core.Option.{none, some}
use native.Mathlib.Omega.{arith}
use gef_engine.Prelude.Tests.{◌==◌, if◌then◌else◌}
use gef_engine.Prelude.Lists.{length}
use gef_engine.Prelude.MapDefs.{Map, find_key, put_key, erase_key, From, Under}

module _ {ℓ} {V : Type ℓ} where
  pub find-put :
      (i k : ℕ) (v : V) (m : Map V)
      → find_key i (put_key k v m) ≡ (if i == k then some v else find_key i m)
  unfolding find_key put_key
  find-put i k v [] = refl
  find-put i k v ((j, w) ∷ m) = ground (arith, find-put i k v m)

  pub find-erase :
      (i k : ℕ) (m : Map V) → find_key i (erase_key k m) ≡ (if i == k then none else find_key i m)
  unfolding find_key erase_key
  find-erase i k [] = ground arith
  find-erase i k ((j, w) ∷ m) = ground (arith, find-erase i k m)

  pub find_absent : (k n : ℕ) (m : Map V) → From n m → k < n → find_key k m ≡ none
  unfolding find_key
  find_absent k n [] f h = refl
  find_absent k n ((j, w) ∷ m) f h = ground (arith, find_absent k (suc j) m f.1)

  pub find_over : (k n : ℕ) (m : Map V) → Under n m → n ≤ k → find_key k m ≡ none
  unfolding find_key
  find_over k n [] u h = refl
  find_over k n ((j, w) ∷ m) u h = ground (arith, find_over k n m u.1)

  -- A key above all others goes to the end.
  pub put_last : (k : ℕ) (v : V) (m : Map V) → Under k m → put_key k v m ≡ m ++ ((k, v) ∷ [])
  unfolding put_key
  put_last k v [] u = refl
  put_last k v ((j, w) ∷ m) u = ground (arith, put_last k v m u.1)

  pub From-mono : (n k : ℕ) (m : Map V) → From n m → k ≤ n → From k m
  From-mono n k [] f h = tt
  From-mono n k ((j, w) ∷ m) f h = (omega arith, f.1)

  pub put-From : (n k : ℕ) (v : V) (m : Map V) → From n m → n ≤ k → From n (put_key k v m)
  unfolding put_key
  put-From n k v [] f h = (h, tt)
  put-From n k v ((j, w) ∷ m) f h =
      ground (arith, put-From (suc j) k v m f.1, From-mono (suc j) (suc k) m f.1)

  pub erase-From : (n k : ℕ) (m : Map V) → From n m → From n (erase_key k m)
  unfolding erase_key
  erase-From n k [] f = tt
  erase-From n k ((j, w) ∷ m) f = ground (
    arith,
    erase-From (suc j) k m f.1,
    From-mono (suc j) n (erase_key k m) (erase-From (suc j) k m f.1),
  )

  pub Under-mono : (n k : ℕ) (m : Map V) → Under n m → n ≤ k → Under k m
  Under-mono n k [] u h = tt
  Under-mono n k ((j, w) ∷ m) u h = (omega arith, Under-mono n k m u.1 h)

  pub put-Under : (n k : ℕ) (v : V) (m : Map V) → Under n m → k < n → Under n (put_key k v m)
  unfolding put_key
  put-Under n k v [] u h = (h, tt)
  put-Under n k v ((j, w) ∷ m) u h = ground (arith, put-Under n k v m u.1)

  pub erase-Under : (n k : ℕ) (m : Map V) → Under n m → Under n (erase_key k m)
  unfolding erase_key
  erase-Under n k [] u = tt
  erase-Under n k ((j, w) ∷ m) u = ground (arith, erase-Under n k m u.1)

  -- The values of a map under a function.
  abbrev pub map_values {κ} : {W : Type κ} → (V → W) → Map V → Map W
  map_values f [] = []
  map_values f ((j, w) ∷ m) = (j, f w) ∷ map_values f m

  pub map_values-put {κ} :
      {W : Type κ} (f : V → W) (k : ℕ) (v : V) (m : Map V)
      → map_values f (put_key k v m) ≡ put_key k (f v) (map_values f m)
  unfolding put_key
  map_values-put f k v [] = refl
  map_values-put f k v ((j, w) ∷ m) = ground (arith, map_values-put f k v m)

  pub map_values-erase {κ} :
      {W : Type κ} (f : V → W) (k : ℕ) (m : Map V)
      → map_values f (erase_key k m) ≡ erase_key k (map_values f m)
  unfolding erase_key
  map_values-erase f k [] = refl
  map_values-erase f k ((j, w) ∷ m) = ground (arith, map_values-erase f k m)

  -- Writing what is there already changes nothing.
  pub put_same :
      (n k : ℕ) (v : V) (m : Map V) → From n m → find_key k m ≡ some v → put_key k v m ≡ m
  unfolding find_key put_key
  put_same n k v [] f h = cc
  put_same n k v ((j, w) ∷ m) f h =
      ground (arith, put_same (suc j) k v m f.1, find_absent k (suc j) m f.1)

  pub find-map_values {κ} :
      {W : Type κ} (f : V → W) (k : ℕ) (m : Map V)
      → find_key k (map_values f m) ≡ elim (find_key k m) [ none ↦ none | some v ↦ some (f v) ]
  unfolding find_key
  find-map_values f k [] = refl
  find-map_values f k ((j, w) ∷ m) = ground (arith, find-map_values f k m)

  -- Erasing a key that is there shortens the map.
  pub length-erase_le : (k : ℕ) (m : Map V) → length (erase_key k m) ≤ length m
  unfolding erase_key
  length-erase_le k [] = omega arith
  length-erase_le k ((j, w) ∷ m) = ground (arith, length-erase_le k m)

  pub length-erase_found :
      (k : ℕ) (v : V) (m : Map V) → find_key k m ≡ some v → length (erase_key k m) + 1 ≤ length m
  unfolding find_key erase_key
  length-erase_found k v [] h = cc
  length-erase_found k v ((j, w) ∷ m) h =
      ground (arith, length-erase_found k v m, length-erase_le k m)

  pub From-append :
      (n k : ℕ) (v : V) (m : Map V) → From n m → Under k m → n ≤ k → From n (m ++ ((k, v) ∷ []))
  From-append n k v [] f u h = (h, tt)
  From-append n k v ((j, w) ∷ m) f u h = (f.0, From-append (suc j) k v m f.1 u.1 u.0)

  pub Under-append :
      (n k : ℕ) (v : V) (m : Map V) → Under n m → k < n → Under n (m ++ ((k, v) ∷ []))
  Under-append n k v [] u h = (h, tt)
  Under-append n k v ((j, w) ∷ m) u h = (u.0, Under-append n k v m u.1 h)
