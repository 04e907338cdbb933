-- ===== src/Task/DmMotor/Feedback.antt =====
-- The feedback frame: the state, and three values in 40 bits.
use ecat_v2_master.Base.{
  ℕ, ◌+◌, ◌*◌, ◌/◌, ◌%◌, ◌^◌, ◌<◌, ◌≡◌, arith, bit_or, bit_or_disjoint', low_bits, ◌>>>◌, ◌<<<◌,
  Bool, ◌||◌, ◌&&◌, leb, if◌then◌else◌,
}
use ecat_v2_master.Float.{Float}
use ecat_v2_master.Task.DmMotor.{DmMotor, ReadDmMotor, decode, uint_to_float}

-- Bytes 1 to 5 of the frame, the highest first.
abbrev pub values_word : (ℕ → ℕ) → ℕ
values_word b = (((b 1 * 256 + b 2) * 256 + b 3) * 256 + b 4) * 256 + b 5

-- The number of state flags that a report sets.
abbrev pub flags_set : {R : Type 0} → ReadDmMotor R → ℕ
flags_set r =
    r.disabled + r.enabled + r.overvoltage + r.undervoltage + r.overcurrent + r.mos_overtemperature
    + r.rotor_overtemperature + r.communication_lost + r.overload

-- The codes that the switch has a case for.
abbrev pub known : ℕ → Bool
known c = leb c 1 || (leb 8 c && leb c 14)

module _ (fl : Float) (t : DmMotor fl.Real) (b : ℕ → ℕ) (byte : (k : ℕ) → b k < 256)
    (stamp : ℕ) where
  open fl use {neg}

  position_bits : bit_or (b 1 <<< 8) (b 2) ≡ values_word b / 2 ^ 24
  position_bits =
      omega (arith, bit_or_disjoint' 8 (b 1) (b 2) (byte 2), byte 2, byte 3, byte 4, byte 5)

  velocity_bits : bit_or (b 3 <<< 4) (b 4 >>> 4) ≡ values_word b / 2 ^ 12 % 2 ^ 12
  velocity_bits =
      omega
        (arith, bit_or_disjoint' 4 (b 3) (b 4 / 16) (omega (arith, byte 4)), byte 3, byte 4, byte 5)

  torque_bits : bit_or (low_bits (b 4) 4 <<< 8) (b 5) ≡ values_word b % 2 ^ 12
  torque_bits = omega (arith, bit_or_disjoint' 8 (b 4 % 16) (b 5) (byte 5), byte 4, byte 5)

  -- For any bytes, the position, velocity and torque of a report are the 16-bit field and the two
  -- 12-bit fields of bytes 1 to 5, read as one big-endian number, scaled to the motor's ranges.
  pub decode-values :
      let r = decode fl t b stamp in
      (r.position ≡ uint_to_float fl (values_word b / 2 ^ 24) (neg t.pmax) t.pmax 16)
      × (r.velocity ≡ uint_to_float fl (values_word b / 2 ^ 12 % 2 ^ 12) (neg t.vmax) t.vmax 12)
      × (r.torque ≡ uint_to_float fl (values_word b % 2 ^ 12) (neg t.tmax) t.tmax 12)
  unfolding decode
  decode-values = (rw position_bits, rw velocity_bits, rw torque_bits)

  -- A report of the motor sets exactly one state flag when the state code is one of the known
  -- ones, and none otherwise.
  flags_set-decode : flags_set (decode fl t b stamp) ≡ (if known (b 0 / 16) then 1 else 0)
  unfolding decode
  flags_set-decode = ground arith
