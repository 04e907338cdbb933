-- ===== src/Io/Room.antt =====
-- Readers stay inside a buffer that is long enough.
use ecat_v2_master.Base.{
  bit_or, ◌<<<◌, ◌*◌, zero, suc, ℕ, ◌+◌, ◌≤◌, ◌≡◌, refl, ap, List, Option, arith, length,
  get_elem?-in_range, Runs, Runs-bind, ◌>>=◌,
}
use ecat_v2_master.Io.{
  Cursor, read_uint8, read_uint16, read_int16, read_bytes_from, read_uint32, read_int32,
}

-- The reader moves on by `n` bytes at most, in the same buffer.
abbrev pub Past : {A : Type 0} → List ℕ → ℕ → A × Cursor → Type 0
Past xs n (a, c) = (c.bytes ≡ xs) × (c.offset ≤ n)

pub read_uint8-Runs :
    (xs : List ℕ) (c : Cursor) (n : ℕ)
    → c.bytes ≡ xs
    → c.offset ≤ n
    → n + 1 ≤ length xs
    → Runs (Past xs (n + 1)) (read_uint8 c)
unfolding read_uint8
read_uint8-Runs xs c n e h k =
    let (b, at) = get_elem?-in_range c.bytes c.offset (omega (arith, h, k, ap length e)) in
    ((b, record c { offset = c.offset + 1 }), rw at refl, (e, omega (arith, h)))

pub read_uint16-Runs :
    (xs : List ℕ) (c : Cursor) (n : ℕ)
    → c.bytes ≡ xs
    → c.offset ≤ n
    → n + 2 ≤ length xs
    → Runs (Past xs (n + 2)) (read_uint16 c)
unfolding read_uint16
read_uint16-Runs xs c n e h k =
    let (lo, at) = get_elem?-in_range c.bytes c.offset (omega (arith, h, k, ap length e)) in
    let (hi, at1) = get_elem?-in_range c.bytes (c.offset + 1) (omega (arith, h, k, ap length e)) in
    (
      (bit_or lo (hi <<< 8), record c { offset = c.offset + 2 }),
      rw (at, at1) refl,
      (e, omega (arith, h)),
    )

pub read_int16-Runs :
    (xs : List ℕ) (c : Cursor) (n : ℕ)
    → c.bytes ≡ xs
    → c.offset ≤ n
    → n + 2 ≤ length xs
    → Runs (Past xs (n + 2)) (read_int16 c)
unfolding read_int16
read_int16-Runs xs c n e h k =
    Runs-bind (Past xs (n + 2)) (Past xs (n + 2)) (read_uint16 c) _ (read_uint16-Runs xs c n e h k)
      λ (u, c') p. (_, refl, p)

read_bytes_from-Runs :
    (rounds i res : ℕ) (c : Cursor)
    → c.offset + i + rounds ≤ length c.bytes
    → Runs (λ r. Unit {0}) (read_bytes_from rounds i res c)
unfolding read_bytes_from
read_bytes_from-Runs zero i res c h = (res, refl, tt)
read_bytes_from-Runs (suc rounds) i res c h =
    let (b, at) = get_elem?-in_range c.bytes (c.offset + i) (omega (arith, h)) in
    rw at (read_bytes_from-Runs rounds (i + 1) (bit_or res (b <<< (8 * i))) c (omega (arith, h)))

read_uint32-Runs :
    (xs : List ℕ) (c : Cursor) (n : ℕ)
    → c.bytes ≡ xs
    → c.offset ≤ n
    → n + 4 ≤ length xs
    → Runs (Past xs (n + 4)) (read_uint32 c)
unfolding read_uint32
read_uint32-Runs xs c n e h k =
    Runs-bind (λ r. Unit {0}) (Past xs (n + 4)) (read_bytes_from 4 0 0 c) _
      (read_bytes_from-Runs 4 0 0 c (omega (arith, h, k, ap length e)))
      λ r u. (_, refl, (e, omega (arith, h)))

pub read_int32-Runs :
    (xs : List ℕ) (c : Cursor) (n : ℕ)
    → c.bytes ≡ xs
    → c.offset ≤ n
    → n + 4 ≤ length xs
    → Runs (Past xs (n + 4)) (read_int32 c)
unfolding read_int32
read_int32-Runs xs c n e h k =
    Runs-bind (Past xs (n + 4)) (Past xs (n + 4)) (read_uint32 c) _ (read_uint32-Runs xs c n e h k)
      λ (u, c') p. (_, refl, p)

-- A chain of readers, step by step
module _ {B : Type 0} (Q : B → Type 0) (xs : List ℕ) where
  abbrev Next : {A : Type 0} → ℕ → (Cursor → Option (A × Cursor)) → Type 0
  Next {A} n f =
      (c : Cursor) (i : ℕ) (k : A × Cursor → Option B)
      → (c.bytes ≡ xs) × (c.offset ≤ i)
      → i + n ≤ length xs
      → ((v : A) (c1 : Cursor) → (c1.bytes ≡ xs) × (c1.offset ≤ i + n) → Runs Q (k (v, c1)))
      → Runs Q (f c >>= k)

  pub next8 : Next 1 read_uint8
  next8 c i k (e, h) room then =
      Runs-bind (Past xs (i + 1)) Q (read_uint8 c) k (read_uint8-Runs xs c i e h room)
        λ (v, c1) p. then v c1 p

  pub next16 : Next 2 read_uint16
  next16 c i k (e, h) room then =
      Runs-bind (Past xs (i + 2)) Q (read_uint16 c) k (read_uint16-Runs xs c i e h room)
        λ (v, c1) p. then v c1 p

  pub int16_after : Next 2 read_int16
  int16_after c i k (e, h) room then =
      Runs-bind (Past xs (i + 2)) Q (read_int16 c) k (read_int16-Runs xs c i e h room)
        λ (v, c1) p. then v c1 p

  pub int32_after : Next 4 read_int32
  int32_after c i k (e, h) room then =
      Runs-bind (Past xs (i + 4)) Q (read_int32 c) k (read_int32-Runs xs c i e h room)
        λ (v, c1) p. then v c1 p
