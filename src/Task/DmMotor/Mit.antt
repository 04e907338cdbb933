-- ===== src/Task/DmMotor/Mit.antt =====
-- The MIT command: five values in 64 bits, and what a value that is too large does to them.
use ecat_v2_master.Base.{
  ℕ, ◌+◌, ◌*◌, ◌/◌, ◌%◌, ◌^◌, ◌≤◌, ◌<◌, ◌≡◌, ap, ◌∙◌, List, [], ◌∷◌, some, length, arith, bit_or,
  bit_or_disjoint', zero-bit_or, low_bits, ◌>>>◌, ◌<<<◌, pos,
}
use ecat_v2_master.Float.{Float}
use ecat_v2_master.Io.Splice.{splice, splice-splice, length-splice}
use ecat_v2_master.Io.Writing.{write_all-splice, write_uint8_at, memcpy-splice}
use ecat_v2_master.Task.DmMotor.{
  DmMotor, WriteDmMotorMitControl, mit_bytes, scaled, on_command_mit_control,
}

-- The number that a list of bytes stands for, the highest byte first.
abbrev pub be_from : ℕ → List ℕ → ℕ
be_from acc [] = acc
be_from acc (b ∷ bs) = be_from (acc * 256 + b) bs

nibble :
    (v k : ℕ)
    → v / 256 < 16
    → low_bits (bit_or (low_bits k 4 <<< 4) (v >>> 8)) 8 ≡ k % 16 * 16 + v / 256
nibble v k h = omega (arith, bit_or_disjoint' 4 (k % 16) (v / 256) (omega arith))

-- When the five values fit into their widths of 16 and 12 bits, the eight bytes of a MIT command
-- are the big-endian bytes of the number in which the values stand side by side.
pub mit_bytes-value :
    (p v kp kd t : ℕ)
    → p < 2 ^ 16
    → v < 2 ^ 12
    → kp < 2 ^ 12
    → kd < 2 ^ 12
    → t < 2 ^ 12
    → be_from 0 (mit_bytes p v kp kd t) ≡ p * 2 ^ 48 + v * 2 ^ 36 + kp * 2 ^ 24 + kd * 2 ^ 12 + t
unfolding mit_bytes
mit_bytes-value p v kp kd t hp hv hkp hkd ht =
    omega (arith, nibble kp v (omega arith), nibble t kd (omega arith))

-- When there is room, a MIT command puts the enable byte and the eight bytes of the scaled values
-- at the task's offset and leaves the rest of the image.
pub on_command_mit_control-splice :
    (fl : Float) (t : DmMotor fl.Real) (msg : WriteDmMotorMitControl fl.Real) (buf : List ℕ)
    → t.info.pdowrite_offset + 9 ≤ length buf
    → on_command_mit_control fl t msg buf
      ≡ some (
          splice t.info.pdowrite_offset
            (msg.enable
              ∷ mit_bytes
                  (scaled fl msg.p_des (fl.neg t.pmax) t.pmax 16)
                  (scaled fl msg.v_des (fl.neg t.vmax) t.vmax 12)
                  (scaled fl msg.kp (fl.of_int (pos 0)) (fl.of_int (pos 500)) 12)
                  (scaled fl msg.kd (fl.of_int (pos 0)) (fl.of_int (pos 5)) 12)
                  (scaled fl msg.torque (fl.neg t.tmax) t.tmax 12))
            buf)
unfolding on_command_mit_control mit_bytes
on_command_mit_control-splice fl t msg buf h =
    let i = t.info.pdowrite_offset in
    rw (write_uint8_at, write_all-splice (msg.enable ∷ []) buf i (omega arith))
      (memcpy-splice _ (splice i (msg.enable ∷ []) buf) (i + 1)
          (omega (arith, length-splice i (msg.enable ∷ []) buf))
        ∙ ap some (splice-splice i (msg.enable ∷ []) _ buf))

-- When the other values fit, the low four bits of the velocity are zero and the position gain
-- needs from 13 to 16 bits, then the excess of the gain is added to the velocity in the MIT
-- command.
pub mit_bytes-gain_spills :
    (p v kp kd t : ℕ)
    → p < 2 ^ 16
    → v < 2 ^ 12
    → v % 16 ≡ 0
    → 2 ^ 12 ≤ kp
    → kp < 2 ^ 16
    → kd < 2 ^ 12
    → t < 2 ^ 12
    → be_from 0 (mit_bytes p v kp kd t) / 2 ^ 36 % 2 ^ 12 ≡ v + kp / 2 ^ 12
unfolding mit_bytes
mit_bytes-gain_spills p v kp kd t hp hv hz hk hkp hkd ht =
    omega (arith, spill, nibble t kd (omega arith))
  where
    spill : low_bits (bit_or (low_bits v 4 <<< 4) (kp >>> 8)) 8 ≡ kp / 256
    spill = rw hz (omega (arith, zero-bit_or (kp / 256)))
