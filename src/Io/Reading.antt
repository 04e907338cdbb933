-- ===== src/Io/Reading.antt =====
-- The readers against one description, and the round trips of the writers with them.
use native.Mathlib.Nat.{add-zero}
use ecat_v2_master.Base.{
  ℕ, ◌+◌, ◌*◌, ◌/◌, ◌%◌, ◌^◌, ◌≤◌, ◌<◌, ◌≡◌, ap, ◌∙◌, List, [], ◌∷◌, some, arith, length, get_elem?,
  ◌>>=◌, ℤ, pos, negsuc, to_unsigned, to_signed, InRange, bit_or, bit_or_disjoint,
}
use ecat_v2_master.Io.{
  Cursor, read_uint16, read_int16, read_uint32, read_int32, read_float, read_bytes_from,
  write_uint16, write_int16, write_uint32, write_int32, write_float,
}
use ecat_v2_master.Io.Splice.{splice, le_bytes, le_value, get_elem?-splice_in}
use ecat_v2_master.Io.Writing.{
  write_all-splice, write_uint16_lem, write_int16_lem, write_uint32_lem, write_int32_lem,
  write_float_lem,
}

or_two : (a b : ℕ) → a < 256 → bit_or a (b * 2 ^ 8) ≡ a + 256 * b
or_two a b h = omega (arith, bit_or_disjoint 8 a b h)

pub read_uint16_lem :
    (xs : List ℕ) (i a b : ℕ)
    → get_elem? xs i ≡ some a
    → get_elem? xs (i + 1) ≡ some b
    → a < 256
    → read_uint16 (record { bytes = xs; offset = i })
      ≡ some (le_value (a ∷ b ∷ []), record { bytes = xs; offset = i + 2 })
unfolding read_uint16
read_uint16_lem xs i a b p q h = rw (p, q) (ground (arith, or_two a b h))

or_four :
    (a b c d : ℕ)
    → a < 256
    → b < 256
    → c < 256
    → bit_or (bit_or (bit_or (bit_or 0 (a * 2 ^ 0)) (b * 2 ^ 8)) (c * 2 ^ 16)) (d * 2 ^ 24)
      ≡ le_value (a ∷ b ∷ c ∷ d ∷ [])
or_four a b c d ha hb hc = ground (
  arith,
  bit_or_disjoint 0 0 a (omega arith),
  bit_or_disjoint 8 a b ha,
  bit_or_disjoint 16 (a + b * 256) c (omega arith),
  bit_or_disjoint 24 (a + b * 256 + c * 65536) d (omega arith),
)

read_four_bytes :
    (xs : List ℕ) (i a b c d : ℕ)
    → get_elem? xs i ≡ some a
    → get_elem? xs (i + 1) ≡ some b
    → get_elem? xs (i + 2) ≡ some c
    → get_elem? xs (i + 3) ≡ some d
    → a < 256
    → b < 256
    → c < 256
    → read_bytes_from 4 0 0 (record { bytes = xs; offset = i })
      ≡ some (le_value (a ∷ b ∷ c ∷ d ∷ []))
unfolding read_bytes_from
read_four_bytes xs i a b c d p q r s ha hb hc =
    rw (add-zero, p, q, r, s) (ap some (or_four a b c d ha hb hc))

pub residue_16 : (z : ℤ) → to_unsigned 16 z < 2 ^ 16
residue_16 (pos n) = omega arith
residue_16 (negsuc n) = omega arith

pub residue_32 : (z : ℤ) → to_unsigned 32 z < 2 ^ 32
residue_32 (pos n) = omega arith
residue_32 (negsuc n) = omega arith

pub signed_16 : (z : ℤ) → InRange 15 z → to_signed 15 (to_unsigned 16 z) ≡ z
signed_16 (pos n) h = ground arith
signed_16 (negsuc n) h = ground arith

pub signed_32 : (z : ℤ) → InRange 31 z → to_signed 31 (to_unsigned 32 z) ≡ z
signed_32 (pos n) h = ground arith
signed_32 (negsuc n) h = ground arith

-- Written and read back at the same place, a value is the same.
module _ (xs : List ℕ) (i : ℕ) where
  first_byte :
      (b : ℕ) (bs : List ℕ)
      → i + length (b ∷ bs) ≤ length xs
      → get_elem? (splice i (b ∷ bs) xs) i ≡ some b
  first_byte b bs k = rw add-zero at (get_elem?-splice_in i (b ∷ bs) xs 0 (omega arith) k)

  read_two :
      (v : ℕ)
      → v < 2 ^ 16
      → i + 2 ≤ length xs
      → read_uint16 (record { bytes = splice i (le_bytes 2 v) xs; offset = i })
        ≡ some (v, record { bytes = splice i (le_bytes 2 v) xs; offset = i + 2 })
  read_two v h k =
      read_uint16_lem _ i (v % 256) (v / 256 % 256) (first_byte _ _ k)
        (get_elem?-splice_in i (le_bytes 2 v) xs 1 (omega arith) k) (omega arith)
      ∙ ap (λ (n : ℕ). some (n, two_read)) (omega arith)
    where
      two_read : Cursor
      two_read = record { bytes = splice i (le_bytes 2 v) xs; offset = i + 2 }

  read_four :
      (v : ℕ)
      → v < 2 ^ 32
      → i + 4 ≤ length xs
      → read_bytes_from 4 0 0 (record { bytes = splice i (le_bytes 4 v) xs; offset = i }) ≡ some v
  read_four v h k =
      read_four_bytes _ i _ _ _ _ (first_byte _ _ k)
        (get_elem?-splice_in i (le_bytes 4 v) xs 1 (omega arith) k)
        (get_elem?-splice_in i (le_bytes 4 v) xs 2 (omega arith) k)
        (get_elem?-splice_in i (le_bytes 4 v) xs 3 (omega arith) k) (omega arith) (omega arith)
        (omega arith)
      ∙ ap some (omega arith)

  -- An unsigned 16-bit value that is written inside the storage and read back at the same offset
  -- is the same.
  pub read_uint16-write_uint16 :
      (v : ℕ)
      → v < 2 ^ 16
      → i + 2 ≤ length xs
      → (write_uint16 v (record { bytes = xs; offset = i }) >>= λ c.
          read_uint16 (record c { offset = i }))
        ≡ some (v, record { bytes = splice i (le_bytes 2 v) xs; offset = i + 2 })
  read_uint16-write_uint16 v h k =
      rw (write_uint16_lem, write_all-splice (le_bytes 2 v) xs i k) (read_two v h k)

  -- A signed value in the 16-bit range that is written inside the storage and read back at the
  -- same offset is the same, sign included.
  pub read_int16-write_int16 :
      (z : ℤ)
      → InRange 15 z
      → i + 2 ≤ length xs
      → (write_int16 z (record { bytes = xs; offset = i }) >>= λ c.
          read_int16 (record c { offset = i }))
        ≡ some (z, record { bytes = splice i (le_bytes 2 (to_unsigned 16 z)) xs; offset = i + 2 })
  unfolding read_int16
  read_int16-write_int16 z h k = rw (
    write_int16_lem,
    write_all-splice (le_bytes 2 (to_unsigned 16 z)) xs i k,
    read_two (to_unsigned 16 z) (residue_16 z) k,
    signed_16 z h,
  )

  pub read_uint32-write_uint32 :
      (v : ℕ)
      → v < 2 ^ 32
      → i + 4 ≤ length xs
      → (write_uint32 v (record { bytes = xs; offset = i }) >>= λ c.
          read_uint32 (record c { offset = i }))
        ≡ some (v, record { bytes = splice i (le_bytes 4 v) xs; offset = i + 4 })
  unfolding read_uint32
  read_uint32-write_uint32 v h k =
      rw (write_uint32_lem, write_all-splice (le_bytes 4 v) xs i k, read_four v h k)

  -- A signed value in the 32-bit range that is written inside the storage and read back at the
  -- same offset is the same, sign included.
  pub read_int32-write_int32 :
      (z : ℤ)
      → InRange 31 z
      → i + 4 ≤ length xs
      → (write_int32 z (record { bytes = xs; offset = i }) >>= λ c.
          read_int32 (record c { offset = i }))
        ≡ some (z, record { bytes = splice i (le_bytes 4 (to_unsigned 32 z)) xs; offset = i + 4 })
  unfolding read_int32 read_uint32
  read_int32-write_int32 z h k = rw (
    write_int32_lem,
    write_all-splice (le_bytes 4 (to_unsigned 32 z)) xs i k,
    read_four (to_unsigned 32 z) (residue_32 z) k,
    signed_32 z h,
  )

  -- A pattern of 32 bits of a float that is written inside the storage and read back at the same
  -- offset is the same.
  pub read_float-write_float :
      (v : ℕ)
      → v < 2 ^ 32
      → i + 4 ≤ length xs
      → (write_float v (record { bytes = xs; offset = i }) >>= λ c.
          read_float (record c { offset = i }))
        ≡ some (v, record { bytes = splice i (le_bytes 4 v) xs; offset = i + 4 })
  unfolding read_float
  read_float-write_float v h k =
      rw (write_float_lem, write_all-splice (le_bytes 4 v) xs i k, read_four v h k)
