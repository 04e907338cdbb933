-- ===== src/Sdo/Complete.antt =====
-- That a configuration is complete: what is described can be written, and then `init_sdo` and
-- `init_task_list` do not fail (src/soem_wrapper/src/soem_backend.cpp).
pub mod Motors
pub mod Classes
pub mod Whole
pub mod Spills
use ecat_v2_master.Base.{
  ℕ, zero, suc, ◌+◌, ◌≤◌, ◌≡◌, refl, sym, ap, ◌∙◌, inl, inr, Bool, true, false, List, [], ◌∷◌, ◌++◌,
  Option, none, some, arith, Bool-cases, taken, passed, length, length-append, length-replicate,
  replicate, ◌==◌, if◌then◌else◌,
}
use ecat_v2_master.Io.{Cursor, memcpy}
use ecat_v2_master.Io.Splice.{splice, overlay, length-splice}
use ecat_v2_master.Io.Writing.{memcpy-splice}
use ecat_v2_master.Config.{
  Variant, Outcome, value, defined, held, Key, Entries, get, get_field_as, build_buf,
}
use ecat_v2_master.Config.Buffer.{
  variant_bytes, AreFields, no_fields, field, and_then-value, build_buf-splice,
}
use ecat_v2_master.Device.{first}
use ecat_v2_master.Sdo.{◌>>=◌, copy_fields}
use ecat_v2_master.Sdo.Emits.{field_bytes, both, fields_small, first-overlay}

abbrev pub Gives : {A : Type 0} → Outcome A → Type 0
Gives {A} o = (a : A) × (o ≡ value a)

-- The cursor stands behind as many bytes, in a storage of the same size.
pub record IsBehind (c : Cursor) (n : ℕ) (c' : Cursor) : Type 0 where
  pub offset_is : c'.offset ≡ c.offset + n
  pub size_is : length c'.bytes ≡ length c.bytes

-- With room for the described bytes, the step does not fail, and stands behind them.
abbrev pub Moves : Outcome (List ℕ) → (Cursor → Outcome Cursor) → Type 0
Moves described step =
    (bs : List ℕ)
    → described ≡ value bs
    → (c : Cursor) → c.offset + length bs ≤ length c.bytes
    → (c' : Cursor) × (step c ≡ value c') × IsBehind c (length bs) c'

abbrev pub Makes : {A : Type 0} → Outcome (List ℕ) → (Cursor → Outcome (A × Cursor)) → Type 0
Makes {A} described step =
    (bs : List ℕ)
    → described ≡ value bs
    → (c : Cursor) → c.offset + length bs ≤ length c.bytes
    → (a : A) × (c' : Cursor) × (step c ≡ value (a, c')) × IsBehind c (length bs) c'

pub fields_of :
    (es : Entries) (prefix : Key) (names : List Key) {bs : List ℕ}
    → field_bytes es prefix names ≡ value bs
    → AreFields prefix es names bs
unfolding field_bytes
fields_of es prefix [] {bs} e = let same : [] ≡ bs = cc e in rw (← same) no_fields
fields_of es prefix (name ∷ names) {bs} e =
    let (v, p, q) = and_then-value (get (prefix ++ name) es) _ e in
    let (rest, r, s) = and_then-value (field_bytes es prefix names) _ q in
    let same : variant_bytes v ++ rest ≡ bs = cc s in
    rw (← same) (field p (fields_of es prefix names r))

-- The copy of a built buffer, with a step of the offset that is the number of its bytes
pub built-moves :
    (es : Entries) (prefix : Key) (names : List Key) (by : Cursor → ℕ)
    → length names ≤ 256
    → (bs : List ℕ) → field_bytes es prefix names ≡ value bs
    → ((storage : List ℕ) → by (record { bytes = storage; offset = length bs }) ≡ length bs)
    → (c : Cursor) → c.offset + length bs ≤ length c.bytes
    → (c' : Cursor) × ((build_buf prefix names es >>= λ sdo.
          defined (first sdo.offset sdo.bytes) >>= λ bs.
          defined (memcpy c.bytes c.offset bs) >>= λ bytes.
          value (record { bytes = bytes; offset = c.offset + by sdo }))
        ≡ value c')
      × IsBehind c (length bs) c'
built-moves es prefix names by few bs e step c room =
    let fields = fields_of es prefix names e in
    let small : length bs ≤ 1024 = omega (arith, fields_small prefix es fields, few) in
    let built = build_buf-splice prefix es names bs fields small in
    let whole : first (length bs) (overlay bs (replicate 1024 0)) ≡ some bs =
      first-overlay bs (replicate 1024 0) (omega (arith, small, length-replicate {A = ℕ} 1024 0)) in
    let put = memcpy-splice bs c.bytes c.offset room in
    let moved = step (overlay bs (replicate 1024 0)) in
    (
      record { bytes = splice c.offset bs c.bytes; offset = c.offset + length bs },
      ap
            (λ o. o >>= λ sdo. defined (first sdo.offset sdo.bytes) >>= λ bs.
              defined (memcpy c.bytes c.offset bs) >>= λ bytes.
              value (record { bytes = bytes; offset = c.offset + by sdo }))
            built
          ∙ ap
              (λ o. defined o >>= λ bs'. defined (memcpy c.bytes c.offset bs') >>= λ bytes.
                value (record {
                  bytes = bytes;
                  offset =
                      c.offset
                      + by (record { bytes = overlay bs (replicate 1024 0); offset = length bs });
                }))
              whole
          ∙ ap
              (λ n. defined (memcpy c.bytes c.offset bs) >>= λ bytes.
                value (record { bytes = bytes; offset = c.offset + n }))
              moved
          ∙ ap
              (λ o. defined o >>= λ bytes.
                value (record { bytes = bytes; offset = c.offset + length bs }))
              put,
      record { offset_is = refl; size_is = length-splice c.offset bs c.bytes },
    )

pub copy_fields-Moves :
    (es : Entries) (prefix : Key) (names : List Key)
    → length names ≤ 256
    → Moves (field_bytes es prefix names) (copy_fields es prefix names)
unfolding copy_fields
copy_fields-Moves es prefix names few bs e c room =
    built-moves es prefix names (λ sdo. sdo.offset) few bs e (λ storage. refl) c room

pub IsBehind-trans :
    {c c1 c2 : Cursor} (m n : ℕ) → IsBehind c m c1 → IsBehind c1 n c2 → IsBehind c (m + n) c2
IsBehind-trans m n v w = record {
  offset_is = omega (arith, v.offset_is, w.offset_is);
  size_is = w.size_is ∙ v.size_is;
}

pub both_parts :
    (m n : Outcome (List ℕ)) {bs : List ℕ}
    → both m n ≡ value bs
    → (xs : List ℕ) × (ys : List ℕ) × (m ≡ value xs) × (n ≡ value ys) × (xs ++ ys ≡ bs)
both_parts m n e =
    let (xs, p, q) = and_then-value m _ e in
    let (ys, r, s) = and_then-value n _ q in (xs, ys, p, r, cc s)

pub Makes-behind :
    {A : Type 0} (m n : Outcome (List ℕ)) (v : Cursor → Outcome Cursor)
    (w : Cursor → Outcome (A × Cursor))
    → Moves m v
    → Makes n w
    → Makes (both m n) (λ c. v c >>= w)
Makes-behind m n v w h k bs e c room =
    let (xs, ys, p, q, whole) = both_parts m n e in
    let long : length bs ≡ length xs + length ys = sym (ap length whole) ∙ length-append xs ys in
    let (c1, r, i) = h xs p c (omega (arith, room, long)) in
    let (a, c2, s, j) = k ys q c1 (omega (arith, room, long, i.offset_is, i.size_is)) in
    (a, c2, ap (λ o. o >>= w) r ∙ s, rw long (IsBehind-trans (length xs) (length ys) i j))

-- Two things made one after the other
pub Makes-both :
    {A B : Type 0} (m n : Outcome (List ℕ)) (v : Cursor → Outcome (A × Cursor))
    (w : A → Cursor → Outcome (B × Cursor))
    → Makes m v
    → ((a : A) → Makes n (w a))
    → Makes (both m n) (λ c. v c >>= λ (a, c'). w a c')
Makes-both m n v w h k bs e c room =
    let (xs, ys, p, q, whole) = both_parts m n e in
    let long : length bs ≡ length xs + length ys = sym (ap length whole) ∙ length-append xs ys in
    let (a, c1, r, i) = h xs p c (omega (arith, room, long)) in
    let (b, c2, s, j) = k a ys q c1 (omega (arith, room, long, i.offset_is, i.size_is)) in
    (
      b,
      c2,
      ap (λ o. o >>= λ (a, c'). w a c') r ∙ s,
      rw long (IsBehind-trans (length xs) (length ys) i j),
    )

-- What does not touch the buffer, behind a step
pub Makes-then :
    {A B D : Type 0} (m : Outcome (List ℕ)) (v : Cursor → Outcome (A × Cursor)) (o : Outcome B)
    (g : A → B → D)
    → Makes m v
    → Gives o
    → Makes m (λ c. v c >>= λ (a, c'). o >>= λ b. value (g a b, c'))
Makes-then m v o g h (b, s) bs e c room =
    let (a, c1, r, i) = h bs e c room in
    (
      g a b,
      c1,
      ap (λ x. x >>= λ (a, c'). o >>= λ b. value (g a b, c')) r
          ∙ ap (λ x. x >>= λ b. value (g a b, c1)) s,
      i,
    )

pub Makes-map :
    {A D : Type 0} (m : Outcome (List ℕ)) (v : Cursor → Outcome (A × Cursor)) (g : A → D)
    → Makes m v
    → Makes m (λ c. v c >>= λ (a, c'). value (g a, c'))
Makes-map m v g h bs e c room =
    let (a, c1, r, i) = h bs e c room in (g a, c1, ap (λ x. x >>= λ (a, c'). value (g a, c')) r, i)

pub Moves-then :
    {B : Type 0} (m : Outcome (List ℕ)) (v : Cursor → Outcome Cursor) (o : Outcome B)
    → Moves m v
    → Gives o
    → Makes m (λ c. v c >>= λ c'. o >>= λ b. value (b, c'))
Moves-then m v o h (b, s) bs e c room =
    let (c1, r, i) = h bs e c room in
    (
      b,
      c1,
      ap (λ x. x >>= λ c'. o >>= λ b. value (b, c')) r ∙ ap (λ x. x >>= λ b. value (b, c1)) s,
      i,
    )

pub nothing-Makes :
    {B : Type 0} (o : Outcome B) → Gives o → Makes (value []) (λ c. o >>= λ b. value (b, c))
nothing-Makes o (b, s) bs e c room =
    let none_is : length bs ≡ 0 = sym (ap length_of e) in
    (
      b,
      c,
      ap (λ x. x >>= λ b. value (b, c)) s,
      record { offset_is = omega (arith, none_is); size_is = refl },
    )
  where
    length_of : Outcome (List ℕ) → ℕ
    length_of (value xs) = length xs
    length_of _ = 0

-- A lookup that both the description and the step begin with
pub Makes-look :
    {T A : Type 0} (o : Outcome T) (m : T → Outcome (List ℕ))
    (w : T → Cursor → Outcome (A × Cursor))
    → ((t : T) → o ≡ value t → Makes (m t) (w t))
    → Makes (o >>= m) (λ c. o >>= λ t. w t c)
Makes-look o m w h bs e c room =
    let (t, p, q) = and_then-value o m e in
    let (a, c', r, i) = h t p bs q c room in (a, c', ap (λ o. o >>= λ t. w t c) p ∙ r, i)
