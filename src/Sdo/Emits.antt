-- ===== src/Sdo/Emits.antt =====
-- What a step of a configuration has put into the argument buffer.
use ecat_v2_master.Base.{
  ℕ, suc, ◌+◌, ◌*◌, ◌≤◌, ◌≡◌, refl, sym, ap, ◌∙◌, List, [], ◌∷◌, ◌++◌, Option, none, some, arith,
  >>=-eq-some, length, length-append, length-replicate, replicate,
}
use native.Mathlib.Nat.{add-zero}
use ecat_v2_master.Io.{Cursor, store, memcpy, write_uint8}
use ecat_v2_master.Io.Splice.{splice, overlay}
use ecat_v2_master.Io.Writing.{write_all, write_all-append}
use ecat_v2_master.Config.{
  Variant, uint8, uint16, int8, int16, uint32, int32, float, string, bool, Outcome, value, defined,
  Key, Entries, get, build_buf,
}
use ecat_v2_master.Config.Buffer.{
  variant_bytes, AreFields, no_fields, field, and_then-value, build_buf-fields, build_buf-splice,
}
use ecat_v2_master.Device.{first}
use ecat_v2_master.Sdo.{◌>>=◌, copy_fields}

-- The bytes of the named fields, one after another
unfoldable pub field_bytes : Entries → Key → List Key → Outcome (List ℕ)
field_bytes es prefix [] = value []
field_bytes es prefix (name ∷ names) = get (prefix ++ name) es >>= λ v.
    field_bytes es prefix names >>= λ bs. value (variant_bytes v ++ bs)

abbrev pub both : Outcome (List ℕ) → Outcome (List ℕ) → Outcome (List ℕ)
both m n = m >>= λ xs. n >>= λ ys. value (xs ++ ys)

-- The bytes that `described` gives are what was written from `c` on, up to `c'`.
abbrev pub Wrote : Outcome (List ℕ) → Cursor → Cursor → Type 0
Wrote described c c' = (bs : List ℕ) × (described ≡ value bs) × (write_all bs c ≡ some c')

pub defined-value : {A : Type 0} (o : Option A) {a : A} → defined o ≡ value a → o ≡ some a
defined-value none e = absurd (cc)
defined-value (some a) e = cc e

pub Wrote-nothing : (c : Cursor) → Wrote (value []) c c
unfolding write_all
Wrote-nothing c = ([], refl, refl)

-- The same description and the same end
pub Wrote-as :
    {m n : Outcome (List ℕ)} (c c1 c2 : Cursor) → m ≡ n → c1 ≡ c2 → Wrote n c c1 → Wrote m c c2
Wrote-as c c1 c2 e h w = rw (e, ← h) w

pub Wrote-both :
    {m n : Outcome (List ℕ)} (c c1 c2 : Cursor)
    → Wrote m c c1
    → Wrote n c1 c2
    → Wrote (both m n) c c2
Wrote-both {m} {n} c c1 c2 (xs, e, w) (ys, e', w') =
    (xs ++ ys, rw (e, e') refl, sym (write_all-append xs ys c) ∙ rw w w')

field_bytes_lem :
    (es : Entries) (prefix : Key) {names : List Key} {bs : List ℕ}
    → AreFields prefix es names bs
    → field_bytes es prefix names ≡ value bs
unfolding field_bytes
field_bytes_lem es prefix no_fields = refl
field_bytes_lem es prefix (field e rest) = rw (e, field_bytes_lem es prefix rest) refl

variant_bytes-small : (v : Variant) → length (variant_bytes v) ≤ 4
variant_bytes-small (uint8 n) = omega arith
variant_bytes-small (uint16 n) = omega arith
variant_bytes-small (int8 z) = omega arith
variant_bytes-small (int16 z) = omega arith
variant_bytes-small (uint32 n) = omega arith
variant_bytes-small (int32 z) = omega arith
variant_bytes-small (float f) = omega arith
variant_bytes-small (string s) = omega arith
variant_bytes-small (bool b) = omega arith

pub fields_small :
    (prefix : Key) (es : Entries) {names : List Key} {bs : List ℕ}
    → AreFields prefix es names bs
    → length bs ≤ 4 * length names
fields_small prefix es no_fields = omega arith
fields_small prefix es (field {name} {names} {v} {bs} e rest) =
    omega (
      arith,
      length-append (variant_bytes v) bs,
      variant_bytes-small v,
      fields_small prefix es rest,
    )

pub first-overlay :
    (bs xs : List ℕ) → length bs ≤ length xs → first (length bs) (overlay bs xs) ≡ some bs
unfolding first
first-overlay [] xs h = refl
first-overlay (b ∷ bs) [] h = absurd (omega arith)
first-overlay (b ∷ bs) (x ∷ xs) h = rw (first-overlay bs xs (omega arith)) refl

memcpy-write_all :
    (bs xs : List ℕ) (i : ℕ) {ys : List ℕ}
    → memcpy xs i bs ≡ some ys
    → write_all bs (record { bytes = xs; offset = i })
      ≡ some (record { bytes = ys; offset = i + length bs })
unfolding memcpy write_all write_uint8
memcpy-write_all [] xs i e = rw add-zero (cc e)
memcpy-write_all (b ∷ bs) xs i {ys} e =
    let (zs, p, q) = >>=-eq-some (store xs i b) _ e in
    rw p
      (memcpy-write_all bs zs (i + 1) q ∙ ap (λ n. some (record { bytes = ys; offset = n })) behind)
  where
    behind : i + 1 + length bs ≡ i + suc (length bs)
    behind = omega arith

pub copied :
    (bs xs : List ℕ) (i n : ℕ) {c' : Cursor}
    → n ≡ length bs
    → (defined (memcpy xs i bs) >>= λ ys. value (record { bytes = ys; offset = i + n })) ≡ value c'
    → write_all bs (record { bytes = xs; offset = i }) ≡ some c'
copied bs xs i n h e =
    let (ys, t, u) = and_then-value (defined (memcpy xs i bs)) _ e in
    cc (memcpy-write_all bs xs i (defined-value _ t), u, h)

module _ (es : Entries) (prefix : Key) where
  -- The copy of a built buffer, with any step of the offset
  pub built :
      (names : List Key) (next : Cursor → List ℕ → Outcome Cursor) {c' : Cursor}
      → length names ≤ 256
      → (build_buf prefix names es >>= λ sdo.
          defined (first sdo.offset sdo.bytes) >>= λ bs. next sdo bs)
        ≡ value c'
      → (sdo : Cursor) × (bs : List ℕ) × (field_bytes es prefix names ≡ value bs)
        × (sdo.offset ≡ length bs)
        × (next sdo bs ≡ value c')
  built names next h e =
      let (sdo, p, q) = and_then-value (build_buf prefix names es) _ e in
      let (bs, fields) = build_buf-fields prefix es names p in
      let few : length bs ≤ 1024 = omega (arith, fields_small prefix es fields, h) in
      let is : sdo ≡ record { bytes = splice 0 bs (replicate 1024 0); offset = length bs } =
        cc (sym p ∙ build_buf-splice prefix es names bs fields few) in
      let whole : first sdo.offset sdo.bytes ≡ some bs =
        ap (λ (a : Cursor). first a.offset a.bytes) is
        ∙ first-overlay bs (replicate 1024 0)
            (omega (arith, few, length-replicate {A = ℕ} 1024 0)) in
      (
        sdo,
        bs,
        field_bytes_lem es prefix fields,
        ap (λ (a : Cursor). a.offset) is,
        sym (ap (λ o. defined o >>= next sdo) whole) ∙ q,
      )

  -- Copying at most 256 named fields writes their bytes: the buffer of 1024 bytes is not exceeded.
  pub copy_fields-Wrote :
      (names : List Key) (c : Cursor) {c' : Cursor}
      → length names ≤ 256
      → copy_fields es prefix names c ≡ value c'
      → Wrote (field_bytes es prefix names) c c'
  unfolding copy_fields
  copy_fields-Wrote names c h e =
      let (sdo, bs, r, l, s) =
        built names
          (λ sdo bs. defined (memcpy c.bytes c.offset bs) >>= λ bytes.
            value (record { bytes = bytes; offset = c.offset + sdo.offset }))
          h e in
      (bs, r, copied bs c.bytes c.offset sdo.offset l s)
