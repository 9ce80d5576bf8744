-- ===== src/Snapshot/RoundTrip.antt =====
-- A binary snapshot is read back as it was written.
use gef_engine.Prelude.{
  ℕ, suc, ◌%◌, ◌^◌, ◌<◌, ◌≡◌, refl, sym, ap, subst, ◌∙◌, Bool, true, false, List, [], ◌∷◌, ◌++◌,
  some, length, All, arith, append_assoc, append-nil,
}
use native.Mathlib.Nat.{mod-eq_of_lt}
use gef_engine.Codec.{Bytes, to_bytes, put, put_bytes, Reader, reader, return, get, at_end}
use gef_engine.Codec.Laws.{
  At, Reads, reader-At, get-Reads, get_bytes-Reads, bind-Reads, result-Reads, run_image, finished,
}
use gef_engine.Scene.{zero_vec, default_color}
use gef_engine.Snapshot.{
  EntityRecord, format_version, has_bit, pack_vec, pack_transform, pack_color, put_if, put_bytes_if,
  put_record, put_record_loop, write_binary, get_field, get_run_field, get_record, get_record_loop,
  read_binary, unpack_vec, unpack_transform, unpack_color,
}
use gef_engine.Snapshot.Packing.{
  VecFits, ColorFits, pack_vec-lt, unpack-pack_vec, pack_transform-lt, unpack-pack_transform,
  pack_color-lt, unpack-pack_color,
}

abbrev field_image : Bool → ℕ → ℕ → Bytes
field_image true n v = to_bytes n v
field_image false n v = []

abbrev run_field_image : Bool → Bytes → Bytes
run_field_image true bs = run_image bs
run_field_image false bs = []

-- Field for field, in the order of the wire.
unfoldable pub record_image : EntityRecord → Bytes
record_image r =
    to_bytes 4 r.id
    ++ (to_bytes 1 r.mask
        ++ (to_bytes 16 (pack_transform r.transform)
            ++ (field_image (has_bit r.mask 1) 8 (pack_vec r.rigid_body.velocity)
                ++ (field_image (has_bit r.mask 2) 8 (pack_vec r.collider.size)
                    ++ (field_image (has_bit r.mask 4) 8 (pack_vec r.shape_size)
                        ++ (field_image (has_bit r.mask 4) 4 (pack_color r.shape_color)
                            ++ (field_image (has_bit r.mask 4) 1 r.shape_tiled
                                ++ run_field_image (has_bit r.mask 8) r.extra)))))))

put_if-image : (b : Bool) (n v : ℕ) (out : Bytes) → put_if b n v out ≡ out ++ field_image b n v
unfolding put_if put
put_if-image true n v out = refl
put_if-image false n v out = sym (append-nil out)

put_bytes_if-image :
    (b : Bool) (bs out : Bytes) → put_bytes_if b bs out ≡ out ++ run_field_image b bs
unfolding put_bytes_if put put_bytes
put_bytes_if-image true bs out = simp append_assoc
put_bytes_if-image false bs out = sym (append-nil out)

put_record-image : (r : EntityRecord) (out : Bytes) → put_record r out ≡ out ++ record_image r
unfolding put_record record_image put
put_record-image r out = simp (put_bytes_if-image, put_if-image, append_assoc)

-- A record whose fields fit their types, and which holds the defaults where its mask has no bit.
pub record RecordFits (r : EntityRecord) : Type 0 where
  pub id : r.id < 2 ^ 32
  pub mask : r.mask < 256
  pub position : VecFits r.transform.position
  pub scale : VecFits r.transform.scale
  pub velocity : VecFits r.rigid_body.velocity
  pub size : VecFits r.collider.size
  pub shape_size : VecFits r.shape_size
  pub shape_color : ColorFits r.shape_color
  pub shape_tiled : r.shape_tiled < 256
  pub extra : length r.extra < 2 ^ 32
  pub no_body : has_bit r.mask 1 ≡ false → r.rigid_body.velocity ≡ zero_vec
  pub no_collider : has_bit r.mask 2 ≡ false → r.collider.size ≡ zero_vec
  pub no_size : has_bit r.mask 4 ≡ false → r.shape_size ≡ zero_vec
  pub no_color : has_bit r.mask 4 ≡ false → r.shape_color ≡ default_color
  pub no_tiled : has_bit r.mask 4 ≡ false → r.shape_tiled ≡ 0
  pub no_extra : has_bit r.mask 8 ≡ false → r.extra ≡ []

get_field-Reads :
    (b : Bool) (n old v : ℕ)
    → v < 256 ^ n
    → (b ≡ false → v ≡ old)
    → Reads (get_field b n old) (field_image b n v) v
unfolding get_field return
get_field-Reads true n old v h e = get-Reads n old v h
get_field-Reads false n old v h e = record { run = λ r rest a. (sym (e refl), a) }

get_run_field-Reads :
    (b : Bool) (bs : Bytes)
    → length bs < 2 ^ 32
    → (b ≡ false → bs ≡ [])
    → Reads (get_run_field b) (run_field_image b bs) bs
unfolding get_run_field return
get_run_field-Reads true bs h e = get_bytes-Reads [] bs h
get_run_field-Reads false bs h e = record { run = λ r rest a. (sym (e refl), a) }

-- A record as it is put together from the numbers that were written.
abbrev rebuilt : EntityRecord → EntityRecord
rebuilt r = record r {
  transform = unpack_transform (pack_transform r.transform);
  rigid_body = record { velocity = unpack_vec (pack_vec r.rigid_body.velocity) };
  collider = record { size = unpack_vec (pack_vec r.collider.size) };
  shape_size = unpack_vec (pack_vec r.shape_size);
  shape_color = unpack_color (pack_color r.shape_color);
}

rebuilt_lem : (r : EntityRecord) → RecordFits r → rebuilt r ≡ r
rebuilt_lem r h = rw (
  unpack-pack_transform r.transform h.position h.scale,
  unpack-pack_vec r.rigid_body.velocity h.velocity,
  unpack-pack_vec r.collider.size h.size,
  unpack-pack_vec r.shape_size h.shape_size,
  unpack-pack_color r.shape_color h.shape_color,
)

get_record-rebuilt :
    (r : EntityRecord) → RecordFits r → Reads get_record (record_image r) (rebuilt r)
unfolding get_record record_image pack_vec
get_record-rebuilt r h = bind-Reads _ (get-Reads 4 0 r.id h.id) (
    bind-Reads _ (get-Reads 1 0 r.mask h.mask) (
      bind-Reads _
        (get-Reads 16 _ (pack_transform r.transform)
          (pack_transform-lt r.transform h.position h.scale))
        (bind-Reads _
          (get_field-Reads (has_bit r.mask 1) 8 0 (pack_vec r.rigid_body.velocity)
            (pack_vec-lt r.rigid_body.velocity h.velocity) (λ e. ap pack_vec (h.no_body e)))
          (bind-Reads _
            (get_field-Reads (has_bit r.mask 2) 8 0 (pack_vec r.collider.size)
              (pack_vec-lt r.collider.size h.size) (λ e. ap pack_vec (h.no_collider e)))
            (bind-Reads _
              (get_field-Reads (has_bit r.mask 4) 8 0 (pack_vec r.shape_size)
                (pack_vec-lt r.shape_size h.shape_size) (λ e. ap pack_vec (h.no_size e)))
              (bind-Reads _
                (get_field-Reads (has_bit r.mask 4) 4 _ (pack_color r.shape_color)
                  (pack_color-lt r.shape_color h.shape_color) (λ e. ap pack_color (h.no_color e)))
                (bind-Reads _
                  (get_field-Reads (has_bit r.mask 4) 1 0 r.shape_tiled h.shape_tiled h.no_tiled)
                  (result-Reads _
                    (get_run_field-Reads (has_bit r.mask 8) r.extra h.extra h.no_extra)))))))))

get_record-Reads : (r : EntityRecord) → RecordFits r → Reads get_record (record_image r) r
get_record-Reads r h =
    subst (Reads get_record (record_image r)) (rebuilt_lem r h) (get_record-rebuilt r h)

unfoldable pub records_image : List EntityRecord → Bytes
records_image [] = []
records_image (r ∷ rs) = record_image r ++ records_image rs

put_record_loop-image :
    (rs : List EntityRecord) (out : Bytes) → put_record_loop rs out ≡ out ++ records_image rs
unfolding put_record_loop records_image
put_record_loop-image [] out = sym (append-nil out)
put_record_loop-image (r ∷ rs) out =
    put_record_loop-image rs (put_record r out)
    ∙ rw put_record-image (append_assoc out (record_image r) (records_image rs))

get_record_loop_more :
    (n : ℕ) (acc : List EntityRecord) (r : Reader)
    → (get_record r).1.ok ≡ true
    → get_record_loop (suc n) acc r
      ≡ get_record_loop n (acc ++ ((get_record r).0 ∷ [])) (get_record r).1
unfolding get_record_loop
get_record_loop_more n acc r e = rw (e, get_record_loop)

get_record_loop-run :
    (rs acc : List EntityRecord)
    → All RecordFits rs
    → (r : Reader) (rest : Bytes) → At r (records_image rs ++ rest)
    → (r' : Reader) × (get_record_loop (length rs) acc r ≡ some (acc ++ rs, r')) × At r' rest
unfolding get_record_loop records_image
get_record_loop-run [] acc h r rest a = (r, ap (λ l. some (l, r)) (sym (append-nil acc)), a)
get_record_loop-run (x ∷ xs) acc h r rest a =
    let first =
      (get_record-Reads x h.0).run r (records_image xs ++ rest)
        (rw (← append_assoc (record_image x) (records_image xs) rest) a) in
    let others = get_record_loop-run xs (acc ++ (x ∷ [])) h.1 (get_record r).1 rest first.1 in
    (
      others.0,
      get_record_loop_more (length xs) acc r first.1.good
          ∙ (ap (λ e. get_record_loop (length xs) (acc ++ (e ∷ [])) (get_record r).1) first.0
              ∙ (others.1 ∙ ap (λ l. some (l, others.0)) (append_assoc acc (x ∷ []) xs))),
      others.2,
    )

abbrev counted : Bytes → ℕ × Reader
counted bs = get 4 0 (get 1 0 (reader bs)).1

read_binary_parts :
    (bs : Bytes) (records : List EntityRecord) (end : Reader)
    → (get 1 0 (reader bs)).0 ≡ format_version
    → (counted bs).1.ok ≡ true
    → get_record_loop (counted bs).0 [] (counted bs).1 ≡ some (records, end)
    → at_end end ≡ true
    → read_binary bs ≡ some records
unfolding read_binary
read_binary_parts bs records end version good loop done =
    rw (version, good, loop, read_binary) (rw done)

pub write_binary-image :
    (rs : List EntityRecord)
    → write_binary rs
      ≡ to_bytes 1 format_version ++ (to_bytes 4 (length rs % 2 ^ 32) ++ records_image rs)
unfolding write_binary put
write_binary-image rs = simp (put_record_loop-image, append_assoc)

-- The records of a binary snapshot are read back as they were written, if fewer than 2 ^ 32, each of
-- which fits the types of its fields and holds the defaults where its mask has no bit.
pub read-write_binary :
    (records : List EntityRecord)
    → All RecordFits records
    → length records < 2 ^ 32
    → read_binary (write_binary records) ≡ some records
read-write_binary rs h n =
    let count = to_bytes 4 (length rs % 2 ^ 32) in
    let bs = to_bytes 1 format_version ++ (count ++ records_image rs) in
    let version =
      (get-Reads 1 0 format_version (omega arith)).run (reader bs) (count ++ records_image rs)
        (reader-At bs) in
    let size =
      (get-Reads 4 0 (length rs % 2 ^ 32) (omega arith)).run (get 1 0 (reader bs)).1
        (records_image rs) version.1 in
    let loop =
      get_record_loop-run rs [] h (counted bs).1 [] (rw (append-nil (records_image rs)) size.1) in
    let whole : (counted bs).0 ≡ length rs = size.0 ∙ mod-eq_of_lt n in
    let done = finished loop.0 loop.2 in
    ap read_binary (write_binary-image rs)
    ∙ read_binary_parts bs rs loop.0 version.0 size.1.good
        (ap (λ k. get_record_loop k [] (counted bs).1) whole ∙ loop.1) (ground (arith, done))
