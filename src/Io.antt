-- ===== src/Io.antt =====
-- src/soem_wrapper/src/utils/io_utils.cpp: the little-endian readers and writers.
--
-- A call `write_uint16(v, buf, &offset)` is `write_uint16 v c`, where the cursor `c` holds the
-- storage that `buf` points to and the value of `*offset`. The storage has a size; an access
-- outside it is undefined behaviour and gives `none`. A byte is a number below 256, and a float
-- is its 32-bit pattern, stored as the little-endian host stores it. The loops over four bytes
-- recur on the rounds left.
pub mod Splice
pub mod Writing
pub mod Reading
pub mod Stream
pub mod Half
pub mod Room
use ecat_v2_master.Base.{
  ℕ, zero, suc, ◌+◌, ◌-◌, ◌*◌, ◌/◌, ◌%◌, ◌^◌, List, [], ◌∷◌, Option, none, some, bit_or, get_elem?,
  ◌>>=◌, ◌>>>◌, ◌<<<◌, low_bits, ℤ, to_unsigned, to_signed,
}

pub record Cursor : Type 0 where
  pub bytes : List ℕ
  pub offset : ℕ

-- buf[i] = v
abbrev pub store : List ℕ → ℕ → ℕ → Option (List ℕ)
store [] i v = none
store (x ∷ xs) zero v = some (v ∷ xs)
store (x ∷ xs) (suc i) v = store xs i v >>= λ ys. some (x ∷ ys)

-- memcpy(dst + i, src, n) for the `n` bytes of the list.
unfoldable pub memcpy : List ℕ → ℕ → List ℕ → Option (List ℕ)
memcpy dst i [] = some dst
memcpy dst i (b ∷ bs) = store dst i b >>= λ dst'. memcpy dst' (i + 1) bs

unfoldable pub write_uint8 : ℕ → Cursor → Option Cursor
write_uint8 value c =
    store c.bytes c.offset value >>= λ bs. some (record { bytes = bs; offset = c.offset + 1 })

unfoldable pub write_int8 : ℤ → Cursor → Option Cursor
unfolding write_uint8
write_int8 value c = write_uint8 (to_unsigned 8 value) c

unfoldable pub write_uint16 : ℕ → Cursor → Option Cursor
unfolding write_uint8
write_uint16 value c = write_uint8 (low_bits value 8) c >>= write_uint8 (low_bits (value >>> 8) 8)

unfoldable pub write_int16 : ℤ → Cursor → Option Cursor
unfolding write_uint16
write_int16 value c = write_uint16 (to_unsigned 16 value) c

-- value >> (8 * i) & 0xFF
abbrev pub byte_at : ℕ → ℕ → ℕ
byte_at value i = low_bits (value >>> (8 * i)) 8

write_bytes_from : ℕ → ℕ → ℕ → Cursor → Option Cursor
unfolding write_uint8
write_bytes_from zero i value c = some c
write_bytes_from (suc rounds) i value c =
    write_uint8 (byte_at value i) c >>= write_bytes_from rounds (i + 1) value

unfoldable pub write_uint32 : ℕ → Cursor → Option Cursor
unfolding write_bytes_from
write_uint32 value c = write_bytes_from 4 0 value c

unfoldable pub write_int32 : ℤ → Cursor → Option Cursor
unfolding write_uint32
write_int32 value c = write_uint32 (to_unsigned 32 value) c

-- `value` is the bit pattern of the float.
unfoldable pub write_float : ℕ → Cursor → Option Cursor
unfolding write_bytes_from
write_float value c = write_bytes_from 4 0 value c

unfoldable pub read_uint8 : Cursor → Option (ℕ × Cursor)
read_uint8 c = get_elem? c.bytes c.offset >>= λ b. some (b, record c { offset = c.offset + 1 })

unfoldable pub read_uint16 : Cursor → Option (ℕ × Cursor)
read_uint16 c = do
  lo ← get_elem? c.bytes c.offset
  hi ← get_elem? c.bytes (c.offset + 1)
  some (bit_or lo (hi <<< 8), record c { offset = c.offset + 2 })

unfoldable pub read_int16 : Cursor → Option (ℤ × Cursor)
unfolding read_uint16
read_int16 c = read_uint16 c >>= λ (u, c'). some (to_signed 15 u, c')

pub read_bytes_from : ℕ → ℕ → ℕ → Cursor → Option ℕ
read_bytes_from zero i res c = some res
read_bytes_from (suc rounds) i res c = get_elem? c.bytes (c.offset + i) >>= λ b.
    read_bytes_from rounds (i + 1) (bit_or res (b <<< (8 * i))) c

unfoldable pub read_uint32 : Cursor → Option (ℕ × Cursor)
unfolding read_bytes_from
read_uint32 c = read_bytes_from 4 0 0 c >>= λ res. some (res, record c { offset = c.offset + 4 })

unfoldable pub read_int32 : Cursor → Option (ℤ × Cursor)
unfolding read_uint32
read_int32 c = read_uint32 c >>= λ (u, c'). some (to_signed 31 u, c')

-- The four bytes of the pattern, each put at its place.
unfoldable pub read_float : Cursor → Option (ℕ × Cursor)
unfolding read_bytes_from
read_float c = read_bytes_from 4 0 0 c >>= λ res. some (res, record c { offset = c.offset + 4 })
