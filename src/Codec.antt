-- ===== src/Codec.antt =====
-- byteCodec.hpp and bytes.hpp: the append and read helpers under every wire payload. A byte is a
-- number below 256 and `Bytes` a list of them. A field is the number that its bits stand for, and
-- `memcpy` of it is taken in the byte order of a little-endian host.
pub mod Laws
use gef_engine.Prelude.{
  ℕ, zero, suc, ◌+◌, ◌-◌, ◌*◌, ◌/◌, ◌%◌, ◌^◌, ◌<◌, Bool, true, false, ◌||◌, not, List, [], ◌∷◌,
  ◌++◌, length, take, drop, ltb, ◌==◌, if◌then◌else◌,
}

abbrev pub Bytes : Type 0
Bytes = List ℕ

abbrev pub IsByte : ℕ → Type 0
IsByte b = b < 256

-- The `n` bytes of a number, the lowest first, and the number that bytes stand for.
unfoldable pub to_bytes : ℕ → ℕ → Bytes
to_bytes zero v = []
to_bytes (suc n) v = (v % 256) ∷ to_bytes n (v / 256)

unfoldable pub of_bytes : Bytes → ℕ
of_bytes [] = 0
of_bytes (b ∷ bs) = b + 256 * of_bytes bs

-- `byteWriter` holds a reference to the buffer: its methods give the buffer as it is afterwards.
-- `put<T>` of a value of `n` bytes.
unfoldable pub put : ℕ → ℕ → Bytes → Bytes
put n v out = out ++ to_bytes n v

-- The size is cast to `uint32_t`.
unfoldable pub put_bytes : Bytes → Bytes → Bytes
put_bytes bs out = put 4 (length bs % 2 ^ 32) out ++ bs

unfoldable pub put_string : Bytes → Bytes → Bytes
put_string s out = put_bytes s out

pub record Reader : Type 0 where
  pub input : Bytes
  pub pos : ℕ
  pub ok : Bool

unfoldable pub reader : Bytes → Reader
reader bs = record { input = bs; pos = 0; ok = true }

-- A read gives what its target variable holds afterwards, and the reader.
abbrev pub Read : Type 0 → Type 0
Read A = Reader → A × Reader

infixl 5 ◌>>=◌
unfoldable pub ◌>>=◌ : {A B : Type 0} → Read A → (A → Read B) → Read B
◌>>=◌ m f r = let step = m r in f step.0 step.1

unfoldable pub return : {A : Type 0} → A → Read A
return a r = (a, r)

-- `get<T>` for a `T` of `n` bytes into a variable that holds `old`. A failed read leaves it alone.
unfoldable pub get : ℕ → ℕ → Read ℕ
get n old r =
    if not r.ok || ltb (length r.input - r.pos) n
    then (old, record r { ok = false })
    else (of_bytes (take n (drop r.pos r.input)), record r { pos = r.pos + n })

-- The rest of `getBytes` once the size is read.
unfoldable pub get_run : Bytes → ℕ → Read Bytes
get_run old size r =
    if ltb (length r.input - r.pos) size
    then (old, record r { ok = false })
    else (take size (drop r.pos r.input), record r { pos = r.pos + size })

unfoldable pub get_bytes : Bytes → Read Bytes
get_bytes old r =
    let sized = get 4 0 r in if sized.1.ok then get_run old sized.0 sized.1 else (old, sized.1)

unfoldable pub get_string : Bytes → Read Bytes
get_string old r = get_bytes old r

unfoldable pub at_end : Reader → Bool
at_end r = r.pos == length r.input
