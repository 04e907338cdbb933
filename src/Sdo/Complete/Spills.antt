-- ===== src/Sdo/Complete/Spills.antt =====
-- The other way round: when what is described does not fit behind the cursor, the step that copies
-- the last bytes writes past the end of the buffer. `Spills` says this of a step as `Makes` says
-- that it succeeds.
pub mod Classes
pub mod Whole
use ecat_v2_master.Base.{
  ℕ, ◌+◌, ◌≤◌, ◌<◌, ◌≡◌, refl, sym, ap, ◌∙◌, inl, inr, Bool, true, false, List, [], ◌∷◌, ◌++◌, none,
  some, arith, Bool-cases, length, length-append, length-replicate, replicate, ltb,
}
use ecat_v2_master.Io.{Cursor, memcpy}
use ecat_v2_master.Io.Splice.{splice, overlay}
use ecat_v2_master.Io.Writing.{memcpy-overflow}
use ecat_v2_master.Config.{Outcome, value, out_of_bounds, defined, Key, Entries, build_buf}
use ecat_v2_master.Config.Buffer.{and_then-value, build_buf-splice}
use ecat_v2_master.Device.{first}
use ecat_v2_master.Sdo.{◌>>=◌, copy_fields}
use ecat_v2_master.Sdo.Emits.{field_bytes, both, fields_small, first-overlay}
use ecat_v2_master.Sdo.Complete.{IsBehind, Moves, Makes, both_parts, fields_of}

abbrev pub Spills : {A : Type 0} → Outcome (List ℕ) → (Cursor → Outcome A) → Type 0
Spills described step =
    (bs : List ℕ)
    → described ≡ value bs
    → (c : Cursor) → c.offset ≤ length c.bytes
    → length c.bytes < c.offset + length bs
    → step c ≡ out_of_bounds

-- The copy of a built buffer, with any step of the offset
pub built-Spills :
    (es : Entries) (prefix : Key) (names : List Key) (by : Cursor → ℕ)
    → length names ≤ 256
    → Spills {A = Cursor} (field_bytes es prefix names) (λ c. build_buf prefix names es >>= λ sdo.
        defined (first sdo.offset sdo.bytes) >>= λ bs.
        defined (memcpy c.bytes c.offset bs) >>= λ bytes.
        value (record { bytes = bytes; offset = c.offset + by sdo }))
built-Spills es prefix names by few bs e c inside over =
    let fields = fields_of es prefix names e in
    let small : length bs ≤ 1024 = omega (arith, fields_small prefix es fields, few) in
    let built = build_buf-splice prefix es names bs fields small in
    let whole : first (length bs) (overlay bs (replicate 1024 0)) ≡ some bs =
      first-overlay bs (replicate 1024 0) (omega (arith, small, length-replicate {A = ℕ} 1024 0)) in
    ap
      (λ o. o >>= λ sdo. defined (first sdo.offset sdo.bytes) >>= λ bs.
        defined (memcpy c.bytes c.offset bs) >>= λ bytes.
        value (record { bytes = bytes; offset = c.offset + by sdo }))
      built
    ∙ ap
        (λ o. defined o >>= λ bs'. defined (memcpy c.bytes c.offset bs') >>= λ bytes.
          value (record {
            bytes = bytes;
            offset =
                c.offset
                + by (record { bytes = overlay bs (replicate 1024 0); offset = length bs });
          }))
        whole
    ∙ ap
        (λ o. defined o >>= λ bytes. value (record {
          bytes = bytes;
          offset =
              c.offset + by (record { bytes = overlay bs (replicate 1024 0); offset = length bs });
        }))
        (memcpy-overflow bs c.bytes c.offset inside over)

pub copy_fields-Spills :
    (es : Entries) (prefix : Key) (names : List Key)
    → length names ≤ 256
    → Spills (field_bytes es prefix names) (copy_fields es prefix names)
unfolding copy_fields
copy_fields-Spills es prefix names few = built-Spills es prefix names (λ sdo. sdo.offset) few

-- Whatever follows is not reached.
pub Spills-before :
    {A B : Type 0} (m : Outcome (List ℕ)) (v : Cursor → Outcome A) (f : A → Outcome B)
    → Spills m v
    → Spills m (λ c. v c >>= f)
Spills-before m v f h bs e c inside over = ap (λ o. o >>= f) (h bs e c inside over)

pub Spills-none :
    {A : Type 0} (v : Cursor → Outcome A) (bs : List ℕ)
    → value [] ≡ value bs
    → (c : Cursor) → c.offset ≤ length c.bytes
    → length c.bytes < c.offset + length bs
    → v c ≡ out_of_bounds
Spills-none v [] e c inside over = absurd (omega (arith, inside, over))
Spills-none v (b ∷ bs) e c inside over = absurd (cc e)

pub Spills-nothing : {A : Type 0} (v : Cursor → Outcome A) → Spills (value []) v
Spills-nothing v bs e c inside over = Spills-none v bs e c inside over

-- The first of two steps does not fit, or it fits and the second does not.
pub Spills-behind :
    {B : Type 0} (m n : Outcome (List ℕ)) (v : Cursor → Outcome Cursor) (w : Cursor → Outcome B)
    → Moves m v
    → Spills m v
    → Spills n w
    → Spills (both m n) (λ c. v c >>= w)
Spills-behind m n v w h k l bs e c inside over =
    let (xs, ys, p, q, whole) = both_parts m n e in
    let long : length bs ≡ length xs + length ys = sym (ap length whole) ∙ length-append xs ys in
    elim (Bool-cases (ltb (length c.bytes) (c.offset + length xs))) [
      | inl full ↦ ap (λ o. o >>= w) (k xs p c inside (ground (arith, full)))
      | inr fits ↦
          let (c1, r, i) = h xs p c (ground (arith, fits)) in
          ap (λ o. o >>= w) r
          ∙ l ys q c1 (ground (arith, fits, i.offset_is, i.size_is))
              (omega (arith, over, long, i.offset_is, i.size_is))
    ]

pub Spills-both :
    {A B : Type 0} (m n : Outcome (List ℕ)) (v : Cursor → Outcome (A × Cursor))
    (w : A → Cursor → Outcome B)
    → Makes m v
    → Spills m v
    → ((a : A) → Spills n (w a))
    → Spills (both m n) (λ c. v c >>= λ (a, c'). w a c')
Spills-both m n v w h k l bs e c inside over =
    let (xs, ys, p, q, whole) = both_parts m n e in
    let long : length bs ≡ length xs + length ys = sym (ap length whole) ∙ length-append xs ys in
    elim (Bool-cases (ltb (length c.bytes) (c.offset + length xs))) [
      | inl full ↦ ap (λ o. o >>= λ (a, c'). w a c') (k xs p c inside (ground (arith, full)))
      | inr fits ↦
          let (a, c1, r, i) = h xs p c (ground (arith, fits)) in
          ap (λ o. o >>= λ (a, c'). w a c') r
          ∙ l a ys q c1 (ground (arith, fits, i.offset_is, i.size_is))
              (omega (arith, over, long, i.offset_is, i.size_is))
    ]

pub Spills-look :
    {T A : Type 0} (o : Outcome T) (m : T → Outcome (List ℕ)) (w : T → Cursor → Outcome A)
    → ((t : T) → o ≡ value t → Spills (m t) (w t))
    → Spills (o >>= m) (λ c. o >>= λ t. w t c)
Spills-look o m w h bs e c inside over =
    let (t, p, q) = and_then-value o m e in ap (λ o. o >>= λ t. w t c) p ∙ h t p bs q c inside over
