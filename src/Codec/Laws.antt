-- ===== src/Codec/Laws.antt =====
-- Reading back what was written. `Reads m bs a`: wherever the input goes on with `bs`, the read `m`
-- gives `a` and stands behind `bs`.
use gef_engine.Prelude.{
  ℕ, zero, suc, ◌+◌, ◌-◌, ◌/◌, ◌%◌, ◌^◌, ◌<◌, ◌≤◌, ◌≡◌, refl, sym, ap, subst, ◌∙◌, true, false, not,
  ◌||◌, ◌&&◌, [], ◌++◌, length, take, drop, ltb, arith, length-append, length-drop, drop-add,
  take-length-append, drop-length-append, append_assoc, All, le→ltb,
}
use native.Mathlib.Nat.{mod-eq_of_lt}
use gef_engine.Codec.{
  Bytes, to_bytes, of_bytes, Reader, reader, Read, ◌>>=◌, return, get, get_run, get_bytes,
  get_string, at_end, IsByte,
}

pub length-to_bytes : (n v : ℕ) → length (to_bytes n v) ≡ n
unfolding to_bytes
length-to_bytes zero v = refl
length-to_bytes (suc n) v = omega (arith, length-to_bytes n (v / 256))

pub of_bytes-to_bytes : (n v : ℕ) → v < 256 ^ n → of_bytes (to_bytes n v) ≡ v
unfolding to_bytes of_bytes
of_bytes-to_bytes zero v h = omega arith
of_bytes-to_bytes (suc n) v h = omega (arith, of_bytes-to_bytes n (v / 256) (omega arith))

pub to_bytes-IsByte : (n v : ℕ) → All IsByte (to_bytes n v)
unfolding to_bytes
to_bytes-IsByte zero v = tt
to_bytes-IsByte (suc n) v = (omega arith, to_bytes-IsByte n (v / 256))

-- No read has failed, and `bs` is what is left.
pub record At (r : Reader) (bs : Bytes) : Type 0 where
  pub good : r.ok ≡ true
  pub left : drop r.pos r.input ≡ bs
  pub within : r.pos ≤ length r.input

pub record Reads {A : Type 0} (m : Read A) (bs : Bytes) (a : A) : Type 0 where
  pub run : (r : Reader) (rest : Bytes) → At r (bs ++ rest) → ((m r).0 ≡ a) × At (m r).1 rest

pub reader-At : (bs : Bytes) → At (reader bs) bs
unfolding reader
reader-At bs = record { good = refl; left = refl; within = omega arith }

-- What is left has the length of the input less the position.
room : (r : Reader) (bs : Bytes) → At r bs → length r.input - r.pos ≡ length bs
room r bs a = sym (length-drop r.pos r.input) ∙ ap length a.left

advance :
    (r : Reader) (n : ℕ) (bs rest : Bytes)
    → At r (bs ++ rest)
    → length bs ≡ n
    → At (record r { pos = r.pos + n }) rest
advance r n bs rest a e = record {
  good = a.good;
  left =
      sym (drop-add r.pos n r.input)
      ∙ ap (drop n) a.left
      ∙ ap (λ k. drop k (bs ++ rest)) (sym e)
      ∙ drop-length-append bs rest;
  within = omega (arith, room r (bs ++ rest) a, length-append bs rest);
}

taken :
    (r : Reader) (n : ℕ) (bs rest : Bytes)
    → At r (bs ++ rest)
    → length bs ≡ n
    → take n (drop r.pos r.input) ≡ bs
taken r n bs rest a e =
    ap (take n) a.left ∙ ap (λ k. take k (bs ++ rest)) (sym e) ∙ take-length-append bs rest

enough :
    (r : Reader) (n : ℕ) (bs rest : Bytes)
    → At r (bs ++ rest)
    → length bs ≡ n
    → ltb (length r.input - r.pos) n ≡ false
enough r n bs rest a e =
    le→ltb (length r.input - r.pos) n (omega (arith, room r (bs ++ rest) a, length-append bs rest))

goes_on :
    (r : Reader) (n : ℕ) (bs rest : Bytes)
    → At r (bs ++ rest)
    → length bs ≡ n
    → (not r.ok || ltb (length r.input - r.pos) n) ≡ false
goes_on r n bs rest a e = ground (arith, enough r n bs rest a e, a.good)

get-run :
    (n old v : ℕ)
    → v < 256 ^ n
    → (r : Reader) (rest : Bytes) → At r (to_bytes n v ++ rest)
    → ((get n old r).0 ≡ v) × At (get n old r).1 rest
unfolding get
get-run n old v h r rest a = rw (goes_on r n _ rest a (length-to_bytes n v)) (
  ap of_bytes (taken r n _ rest a (length-to_bytes n v)) ∙ of_bytes-to_bytes n v h,
  advance r n _ rest a (length-to_bytes n v),
)

pub get-Reads : (n old v : ℕ) → v < 256 ^ n → Reads (get n old) (to_bytes n v) v
get-Reads n old v h = record { run = get-run n old v h }

get_run-run :
    (old bs : Bytes) (r : Reader) (rest : Bytes)
    → At r (bs ++ rest)
    → ((get_run old (length bs) r).0 ≡ bs) × At (get_run old (length bs) r).1 rest
unfolding get_run
get_run-run old bs r rest a =
    rw (enough r (length bs) bs rest a refl)
      (taken r (length bs) bs rest a refl, advance r (length bs) bs rest a refl)

-- A length-prefixed run on the wire.
abbrev pub run_image : Bytes → Bytes
run_image bs = to_bytes 4 (length bs % 2 ^ 32) ++ bs

get_bytes-run :
    (old bs : Bytes)
    → length bs < 2 ^ 32
    → (r : Reader) (rest : Bytes) → At r (run_image bs ++ rest)
    → ((get_bytes old r).0 ≡ bs) × At (get_bytes old r).1 rest
unfolding get_bytes
get_bytes-run old bs h r rest a =
    let size =
      get-run 4 0 (length bs % 2 ^ 32) (omega arith) r (bs ++ rest)
        (rw (← append_assoc (to_bytes 4 (length bs % 2 ^ 32)) bs rest) a) in
    rw (size.1.good, size.0, mod-eq_of_lt h) (get_run-run old bs (get 4 0 r).1 rest size.1)

pub get_bytes-Reads :
    (old bs : Bytes) → length bs < 2 ^ 32 → Reads (get_bytes old) (run_image bs) bs
get_bytes-Reads old bs h = record { run = get_bytes-run old bs h }

pub get_string-Reads :
    (old bs : Bytes) → length bs < 2 ^ 32 → Reads (get_string old) (run_image bs) bs
unfolding get_string
get_string-Reads old bs h = record { run = get_bytes-run old bs h }

pub bind-Reads :
    {A B : Type 0} {m : Read A} {bs cs : Bytes} {a : A} {b : B} (f : A → Read B)
    → Reads m bs a
    → Reads (f a) cs b
    → Reads (m >>= f) (bs ++ cs) b
unfolding ◌>>=◌
bind-Reads {m = m} {bs = bs} {cs = cs} {b = b} f hm hf = record {
  run = λ r rest h.
      let first = hm.run r (cs ++ rest) (rw (← append_assoc bs cs rest) h) in
      subst (λ x. ((f x (m r).1).0 ≡ b) × At (f x (m r).1).1 rest) (sym first.0)
        (hf.run (m r).1 rest first.1);
}

-- A last read whose value goes into the result.
pub result-Reads :
    {A B : Type 0} {m : Read A} {bs : Bytes} {a : A} (g : A → B)
    → Reads m bs a
    → Reads (m >>= λ x. return (g x)) bs (g a)
unfolding ◌>>=◌ return
result-Reads g hm = record { run = λ r rest h. (ap g (hm.run r rest h).0, (hm.run r rest h).1) }

-- At the end of the input `ok()` and `atEnd()` hold.
pub finished : (r : Reader) → At r [] → (r.ok && at_end r) ≡ true
unfolding at_end
finished r a = ground (arith, a.good, a.within, room r [] a)
