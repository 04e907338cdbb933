-- ===== src/Examples/Inputs.antt =====
-- Inputs that several examples share.
use ecat_v2_master.Base.{
  ℕ, ℤ, pos, negsuc, suc, zero, ◌+◌, ◌*◌, ◌%◌, ◌<◌, Bool, true, false, leb, arith,
}
use ecat_v2_master.Float.{Float}

abbrev pub le_int : ℤ → ℤ → Bool
le_int (pos a) (pos b) = leb a b
le_int (pos a) (negsuc b) = false
le_int (negsuc a) (pos b) = true
le_int (negsuc a) (negsuc b) = leb b a

abbrev pub neg_int : ℤ → ℤ
neg_int (pos zero) = pos 0
neg_int (pos (suc n)) = negsuc n
neg_int (negsuc n) = pos (n + 1)

-- The integers for the floats: comparison and the change of sign; the other operations give their
-- first argument.
abbrev pub ints : Float
ints = record {
  Real = ℤ;
  of_int = λ z. z;
  to_int = λ z. z;
  le = le_int;
  neg = neg_int;
  add = λ a b. a;
  sub = λ a b. a;
  mul = λ a b. a;
  div = λ a b. a;
}

abbrev pub frame : ℕ → ℕ
frame k = (k * 37 + 11) % 256

pub frame_byte : (k : ℕ) → frame k < 256
frame_byte k = omega arith
