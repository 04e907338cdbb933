-- ===== src/Io/Writing.antt =====
-- The writers against one description: each puts the little-endian bytes of its value.
use ecat_v2_master.Base.{
  ℕ, zero, suc, ◌+◌, ◌≤◌, ◌<◌, ◌≡◌, refl, ap, ◌∙◌, List, [], ◌∷◌, ◌++◌, Option, none, some, arith,
  length, ◌>>=◌, >>=-some, >>=-assoc, ℤ, to_unsigned, Bool-cases, inl, inr, ltb,
}
use mathlib.Core.Path.{fun_ext}
use native.Mathlib.Nat.{add-zero}
use ecat_v2_master.Io.{
  Cursor, byte_at, store, memcpy, write_uint8, write_uint16, write_int16, write_bytes_from,
  write_uint32, write_int32, write_float,
}
use ecat_v2_master.Io.Splice.{splice, le_bytes, splice-nil, splice-splice, length-splice}

-- One byte after another.
unfoldable pub write_all : List ℕ → Cursor → Option Cursor
write_all [] c = some c
write_all (b ∷ bs) c = write_uint8 b c >>= write_all bs

pub write_all-append :
    (xs ys : List ℕ) (c : Cursor) → (write_all xs c >>= write_all ys) ≡ write_all (xs ++ ys) c
unfolding write_all
write_all-append [] ys c = refl
write_all-append (x ∷ xs) ys c =
    >>=-assoc (write_uint8 x c) (write_all xs) (write_all ys)
    ∙ ap (λ f. write_uint8 x c >>= f) (fun_ext (write_all-append xs ys))

pub write_uint8_lem : (v : ℕ) → write_uint8 v ≡ write_all (v ∷ [])
unfolding write_all
write_uint8_lem v = fun_ext λ c. rw >>=-some

pub write_uint16_lem : (v : ℕ) → write_uint16 v ≡ write_all (le_bytes 2 v)
unfolding write_uint16 write_all
write_uint16_lem v = fun_ext λ c. simp (write_uint8_lem, write_all-append)

pub write_int16_lem : (z : ℤ) → write_int16 z ≡ write_all (le_bytes 2 (to_unsigned 16 z))
unfolding write_int16
write_int16_lem z = simp write_uint16_lem

four_bytes : (v : ℕ) → byte_at v 0 ∷ byte_at v 1 ∷ byte_at v 2 ∷ byte_at v 3 ∷ [] ≡ le_bytes 4 v
four_bytes v = ground arith

write_bytes_from_lem : (v : ℕ) → write_bytes_from 4 0 v ≡ write_all (le_bytes 4 v)
unfolding write_bytes_from write_all
write_bytes_from_lem v = fun_ext λ c. ap (λ bs. write_all bs c) (four_bytes v)

pub write_uint32_lem : (v : ℕ) → write_uint32 v ≡ write_all (le_bytes 4 v)
unfolding write_uint32
write_uint32_lem v = write_bytes_from_lem v

pub write_int32_lem : (z : ℤ) → write_int32 z ≡ write_all (le_bytes 4 (to_unsigned 32 z))
unfolding write_int32
write_int32_lem z = simp write_uint32_lem

pub write_float_lem : (v : ℕ) → write_float v ≡ write_all (le_bytes 4 v)
unfolding write_float
write_float_lem v = write_bytes_from_lem v

-- The first writer of a chain stands applied.
pub write_uint8_at : (v : ℕ) (c : Cursor) → write_uint8 v c ≡ write_all (v ∷ []) c
write_uint8_at v c = rw write_uint8_lem

pub write_uint16_at : (v : ℕ) (c : Cursor) → write_uint16 v c ≡ write_all (le_bytes 2 v) c
write_uint16_at v c = rw write_uint16_lem

pub write_int16_at :
    (z : ℤ) (c : Cursor) → write_int16 z c ≡ write_all (le_bytes 2 (to_unsigned 16 z)) c
write_int16_at z c = rw write_int16_lem

-- A chain of writers is one list of bytes.
pub ruleset writers = (
  write_uint8_at, write_uint16_at, write_int16_at, write_uint8_lem, write_uint16_lem,
  write_int16_lem, write_uint32_lem, write_int32_lem, write_float_lem, write_all-append,
)

store-splice :
    (b : ℕ) (xs : List ℕ) (i : ℕ) → i < length xs → store xs i b ≡ some (splice i (b ∷ []) xs)
store-splice b [] i h = absurd (omega arith)
store-splice b (x ∷ xs) zero h = refl
store-splice b (x ∷ xs) (suc i) h = rw (store-splice b xs i (omega arith))

store-out_of_range : (b : ℕ) (xs : List ℕ) (i : ℕ) → length xs ≤ i → store xs i b ≡ none
store-out_of_range b [] i h = refl
store-out_of_range b (x ∷ xs) zero h = absurd (omega arith)
store-out_of_range b (x ∷ xs) (suc i) h = rw (store-out_of_range b xs i (omega arith))

-- In range, the bytes are spliced in and the offset moves behind them.
pub write_all-splice :
    (bs xs : List ℕ) (i : ℕ)
    → i + length bs ≤ length xs
    → write_all bs (record { bytes = xs; offset = i })
      ≡ some (record { bytes = splice i bs xs; offset = i + length bs })
unfolding write_all write_uint8
write_all-splice [] xs i h = rw (splice-nil, add-zero)
write_all-splice (b ∷ bs) xs i h = rw (store-splice b xs i (omega arith)) (
    rw
      (write_all-splice bs (splice i (b ∷ []) xs) (i + 1)
        (omega (arith, length-splice i (b ∷ []) xs)))
      (rw (splice-splice i (b ∷ []) bs xs, offsets)))
  where
    offsets : i + 1 + length bs ≡ i + suc (length bs)
    offsets = omega arith

-- Out of range, the access is undefined.
pub write_all-overflow :
    (bs xs : List ℕ) (i : ℕ)
    → i ≤ length xs
    → length xs < i + length bs
    → write_all bs (record { bytes = xs; offset = i }) ≡ none
unfolding write_all write_uint8
write_all-overflow [] xs i h k = absurd (omega arith)
write_all-overflow (b ∷ bs) xs i h k = elim (Bool-cases (ltb i (length xs))) [
  | inl fits ↦ rw (store-splice b xs i (ground arith)) (
      write_all-overflow bs (splice i (b ∷ []) xs) (i + 1)
        (ground (arith, length-splice i (b ∷ []) xs)) (omega (arith, length-splice i (b ∷ []) xs)))
  | inr full ↦ rw (store-out_of_range b xs i (ground arith))
]

pub memcpy-splice :
    (bs xs : List ℕ) (i : ℕ) → i + length bs ≤ length xs → memcpy xs i bs ≡ some (splice i bs xs)
unfolding memcpy
memcpy-splice [] xs i h = rw splice-nil
memcpy-splice (b ∷ bs) xs i h = rw (store-splice b xs i (omega arith)) (
    memcpy-splice bs (splice i (b ∷ []) xs) (i + 1) (omega (arith, length-splice i (b ∷ []) xs))
    ∙ ap some (splice-splice i (b ∷ []) bs xs))

pub memcpy-overflow :
    (bs xs : List ℕ) (i : ℕ) → i ≤ length xs → length xs < i + length bs → memcpy xs i bs ≡ none
unfolding memcpy
memcpy-overflow [] xs i h k = absurd (omega arith)
memcpy-overflow (b ∷ bs) xs i h k = elim (Bool-cases (ltb i (length xs))) [
  | inl fits ↦ rw (store-splice b xs i (ground arith)) (
      memcpy-overflow bs (splice i (b ∷ []) xs) (i + 1)
        (ground (arith, length-splice i (b ∷ []) xs)) (omega (arith, length-splice i (b ∷ []) xs)))
  | inr full ↦ rw (store-out_of_range b xs i (ground arith))
]
