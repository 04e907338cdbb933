-- ===== src/Config/Buffer.antt =====
-- What `build_buf` puts into its buffer.
use ecat_v2_master.Base.{
  ℕ, ◌+◌, ◌≤◌, ◌<◌, ◌≡◌, refl, ap, ◌∙◌, List, [], ◌∷◌, ◌++◌, Option, none, some, arith, length,
  length-replicate, replicate, to_unsigned, ◌>>=◌,
}
use mathlib.Core.Path.{fun_ext}
use ecat_v2_master.Io.{Cursor, write_int8}
use ecat_v2_master.Io.Splice.{splice, le_bytes}
use ecat_v2_master.Io.Writing.{
  write_all, write_all-append, write_all-splice, write_all-overflow, write_uint8_at,
  write_uint16_at, write_int16_at, write_uint32_lem, write_int32_lem, write_float_lem,
}
use ecat_v2_master.Config.{
  Variant, uint8, uint16, int8, int16, uint32, int32, float, string, bool, Outcome, value,
  key_not_found, bad_variant_access, and_then, defined, out_of_bounds, Key, Entries, get,
  write_variant, visit, write_fields, build_buf,
}

-- The little-endian bytes of a value; a text and a truth value have none.
abbrev pub variant_bytes : Variant → List ℕ
variant_bytes (uint8 n) = n ∷ []
variant_bytes (uint16 n) = le_bytes 2 n
variant_bytes (int8 z) = to_unsigned 8 z ∷ []
variant_bytes (int16 z) = le_bytes 2 (to_unsigned 16 z)
variant_bytes (uint32 n) = le_bytes 4 n
variant_bytes (int32 z) = le_bytes 4 (to_unsigned 32 z)
variant_bytes (float f) = le_bytes 4 f
variant_bytes (string s) = []
variant_bytes (bool b) = []

-- The named fields are there, and `bs` are their bytes in the order of the names.
pub data AreFields (prefix : Key) (es : Entries) : List Key → List ℕ → Type 0 where
  no_fields : AreFields prefix es [] []
  field :
      {name : Key} {names : List Key} {v : Variant} {bs : List ℕ}
      → get (prefix ++ name) es ≡ value v
      → AreFields prefix es names bs
      → AreFields prefix es (name ∷ names) (variant_bytes v ++ bs)

write_variant_lem : (v : Variant) (c : Cursor) → write_variant v c ≡ write_all (variant_bytes v) c
unfolding write_variant write_all write_int8
write_variant_lem (uint8 n) c = write_uint8_at n c
write_variant_lem (uint16 n) c = write_uint16_at n c
write_variant_lem (int8 z) c = write_uint8_at (to_unsigned 8 z) c
write_variant_lem (int16 z) c = write_int16_at z c
write_variant_lem (uint32 n) c = ap (λ w. w c) (write_uint32_lem n)
write_variant_lem (int32 z) c = ap (λ w. w c) (write_int32_lem z)
write_variant_lem (float f) c = ap (λ w. w c) (write_float_lem f)
write_variant_lem (string s) c = refl
write_variant_lem (bool b) c = refl

and_then-defined :
    {A B : Type 0} (m : Option A) (f : A → Option B)
    → and_then (defined m) (λ a. defined (f a)) ≡ defined (m >>= f)
and_then-defined none f = refl
and_then-defined (some a) f = refl

write_fields_lem :
    (prefix : Key) (es : Entries) {names : List Key} {bs : List ℕ} (c : Cursor)
    → AreFields prefix es names bs
    → write_fields prefix names es c ≡ defined (write_all bs c)
unfolding write_fields visit write_all
write_fields_lem prefix es c no_fields = refl
write_fields_lem prefix es c (field {name} {names} {v} {bs} e rest) =
    rw (write_fields, e, ← write_all-append (variant_bytes v) bs c, write_variant_lem v c)
      (ap (and_then (defined (write_all (variant_bytes v) c)))
          (fun_ext λ c'. write_fields_lem prefix es c' rest)
        ∙ and_then-defined (write_all (variant_bytes v) c) (write_all bs))

pub and_then-value :
    {A B : Type 0} (o : Outcome A) (f : A → Outcome B) {b : B}
    → and_then o f ≡ value b
    → (a : A) × (o ≡ value a) × (f a ≡ value b)
and_then-value (value a) f e = (a, refl, e)
and_then-value key_not_found f e = absurd (cc)
and_then-value bad_variant_access f e = absurd (cc)
and_then-value out_of_bounds f e = absurd (cc)

write_fields-AreFields :
    (prefix : Key) (es : Entries) (names : List Key) (c : Cursor) {c' : Cursor}
    → write_fields prefix names es c ≡ value c'
    → (bs : List ℕ) × AreFields prefix es names bs
unfolding write_fields
write_fields-AreFields prefix es [] c e = ([], no_fields)
write_fields-AreFields prefix es (name ∷ names) c e =
    let (v, p, q) = and_then-value (get (prefix ++ name) es) _ e in
    let (c1, r, s) = and_then-value (visit v c) _ q in
    let (bs, fields) = write_fields-AreFields prefix es names c1 s in
    (variant_bytes v ++ bs, field p fields)

-- A buffer that was built has been built from fields that are there.
pub build_buf-fields :
    (prefix : Key) (es : Entries) (names : List Key) {sdo : Cursor}
    → build_buf prefix names es ≡ value sdo
    → (bs : List ℕ) × AreFields prefix es names bs
unfolding build_buf
build_buf-fields prefix es names e =
    write_fields-AreFields prefix es names (record { bytes = replicate 1024 0; offset = 0 }) e

zeros : length {A = ℕ} (replicate 1024 0) ≡ 1024
zeros = length-replicate {A = ℕ} 1024 0

-- When all named fields are configured and their bytes fit into 1024, the buffer holds the little-
-- endian bytes of the fields in the order of the names and zeros behind them, and the length is
-- the number of the bytes; texts and truth values have no bytes.
pub build_buf-splice :
    (prefix : Key) (es : Entries) (names : List Key) (bs : List ℕ)
    → AreFields prefix es names bs
    → length bs ≤ 1024
    → build_buf prefix names es
      ≡ value (record { bytes = splice 0 bs (replicate 1024 0); offset = length bs })
unfolding build_buf
build_buf-splice prefix es names bs fields fit =
    write_fields_lem prefix es (record { bytes = replicate 1024 0; offset = 0 }) fields
    ∙ ap defined (write_all-splice bs (replicate 1024 0) 0 (omega (arith, zeros, fit)))
    ∙ ap (λ n. value (record { bytes = splice 0 bs (replicate 1024 0); offset = n })) start
  where
    start : 0 + length bs ≡ length bs
    start = omega arith

-- When all named fields are configured and have more than 1024 bytes, the buffer is written past
-- its end.
pub build_buf-overflow :
    (prefix : Key) (es : Entries) (names : List Key) (bs : List ℕ)
    → AreFields prefix es names bs
    → 1024 < length bs
    → build_buf prefix names es ≡ out_of_bounds
unfolding build_buf
build_buf-overflow prefix es names bs fields long =
    write_fields_lem prefix es (record { bytes = replicate 1024 0; offset = 0 }) fields
    ∙ ap defined
        (write_all-overflow bs (replicate 1024 0) 0 (omega arith) (omega (arith, zeros, long)))
