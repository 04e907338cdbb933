-- ===== src/Task/DbusRc/Word.antt =====
-- The frame as one little-endian number, whose fields stand side by side.
use ecat_v2_master.Base.{
  ℕ, ◌*◌, ◌/◌, ◌%◌, ◌^◌, ◌<◌, ◌≡◌, [], ◌∷◌, arith, bit_or, bit_or_disjoint, low_bits, ◌>>>◌, ◌<<<◌,
  to_signed,
}
use ecat_v2_master.Io.Splice.{le_value}
use ecat_v2_master.Float.{Float}
use ecat_v2_master.Task.Remote.{get_percentage, keys_of}
use ecat_v2_master.Task.DbusRc.{decode}

abbrev pub word : (ℕ → ℕ) → ℕ
word b = le_value (
    b 0
    ∷ b 1
    ∷ b 2
    ∷ b 3
    ∷ b 4
    ∷ b 5
    ∷ b 6
    ∷ b 7
    ∷ b 8
    ∷ b 9
    ∷ b 10
    ∷ b 11
    ∷ b 12
    ∷ b 13
    ∷ b 14
    ∷ b 15
    ∷ b 16
    ∷ b 17
    ∷ [])

module _ (b : ℕ → ℕ) (byte : (k : ℕ) → b k < 256) where
  right_x_bits : low_bits (bit_or (b 0) (b 1 <<< 8)) 11 ≡ word b / 2 ^ 0 % 2 ^ 11
  right_x_bits = omega (
    arith,
    bit_or_disjoint 8 (b 0) (b 1) (omega (arith, byte 0)),
    byte 0,
    byte 1,
    byte 2,
    byte 3,
    byte 4,
    byte 5,
    byte 6,
    byte 7,
    byte 8,
    byte 9,
    byte 10,
    byte 11,
    byte 12,
    byte 13,
    byte 14,
    byte 15,
    byte 16,
    byte 17,
  )

  right_y_bits : low_bits (bit_or (b 1 >>> 3) (b 2 <<< 5)) 11 ≡ word b / 2 ^ 11 % 2 ^ 11
  right_y_bits = omega (
    arith,
    bit_or_disjoint 5 (b 1 / 8) (b 2) (omega (arith, byte 1)),
    byte 0,
    byte 1,
    byte 2,
    byte 3,
    byte 4,
    byte 5,
    byte 6,
    byte 7,
    byte 8,
    byte 9,
    byte 10,
    byte 11,
    byte 12,
    byte 13,
    byte 14,
    byte 15,
    byte 16,
    byte 17,
  )

  left_x_bits :
      low_bits (bit_or (bit_or (b 2 >>> 6) (b 3 <<< 2)) (b 4 <<< 10)) 11 ≡ word b / 2 ^ 22 % 2 ^ 11
  left_x_bits = omega (
    arith,
    bit_or_disjoint 2 (b 2 / 64) (b 3) (omega (arith, byte 2)),
    bit_or_disjoint 10 (bit_or (b 2 / 64) (b 3 * 4)) (b 4)
        (omega (arith, byte 2, byte 3, bit_or_disjoint 2 (b 2 / 64) (b 3) (omega (arith, byte 2)))),
    byte 0,
    byte 1,
    byte 2,
    byte 3,
    byte 4,
    byte 5,
    byte 6,
    byte 7,
    byte 8,
    byte 9,
    byte 10,
    byte 11,
    byte 12,
    byte 13,
    byte 14,
    byte 15,
    byte 16,
    byte 17,
  )

  left_y_bits : low_bits (bit_or (b 4 >>> 1) (b 5 <<< 7)) 11 ≡ word b / 2 ^ 33 % 2 ^ 11
  left_y_bits = omega (
    arith,
    bit_or_disjoint 7 (b 4 / 2) (b 5) (omega (arith, byte 4)),
    byte 0,
    byte 1,
    byte 2,
    byte 3,
    byte 4,
    byte 5,
    byte 6,
    byte 7,
    byte 8,
    byte 9,
    byte 10,
    byte 11,
    byte 12,
    byte 13,
    byte 14,
    byte 15,
    byte 16,
    byte 17,
  )

  dial_bits : low_bits (bit_or (b 16) (b 17 <<< 8)) 11 ≡ word b / 2 ^ 128 % 2 ^ 11
  dial_bits = omega (
    arith,
    bit_or_disjoint 8 (b 16) (b 17) (omega (arith, byte 16)),
    byte 0,
    byte 1,
    byte 2,
    byte 3,
    byte 4,
    byte 5,
    byte 6,
    byte 7,
    byte 8,
    byte 9,
    byte 10,
    byte 11,
    byte 12,
    byte 13,
    byte 14,
    byte 15,
    byte 16,
    byte 17,
  )

  right_switch_bits : low_bits (b 5 >>> 4) 2 ≡ word b / 2 ^ 44 % 2 ^ 2
  right_switch_bits = omega (
    arith,
    byte 0,
    byte 1,
    byte 2,
    byte 3,
    byte 4,
    byte 5,
    byte 6,
    byte 7,
    byte 8,
    byte 9,
    byte 10,
    byte 11,
    byte 12,
    byte 13,
    byte 14,
    byte 15,
    byte 16,
    byte 17,
  )

  left_switch_bits : low_bits (b 5 >>> 6) 2 ≡ word b / 2 ^ 46 % 2 ^ 2
  left_switch_bits = omega (
    arith,
    byte 0,
    byte 1,
    byte 2,
    byte 3,
    byte 4,
    byte 5,
    byte 6,
    byte 7,
    byte 8,
    byte 9,
    byte 10,
    byte 11,
    byte 12,
    byte 13,
    byte 14,
    byte 15,
    byte 16,
    byte 17,
  )

  mouse_x_bits : bit_or (b 6) (b 7 <<< 8) ≡ word b / 2 ^ 48 % 2 ^ 16
  mouse_x_bits = omega (
    arith,
    bit_or_disjoint 8 (b 6) (b 7) (omega (arith, byte 6)),
    byte 0,
    byte 1,
    byte 2,
    byte 3,
    byte 4,
    byte 5,
    byte 6,
    byte 7,
    byte 8,
    byte 9,
    byte 10,
    byte 11,
    byte 12,
    byte 13,
    byte 14,
    byte 15,
    byte 16,
    byte 17,
  )

  mouse_y_bits : bit_or (b 8) (b 9 <<< 8) ≡ word b / 2 ^ 64 % 2 ^ 16
  mouse_y_bits = omega (
    arith,
    bit_or_disjoint 8 (b 8) (b 9) (omega (arith, byte 8)),
    byte 0,
    byte 1,
    byte 2,
    byte 3,
    byte 4,
    byte 5,
    byte 6,
    byte 7,
    byte 8,
    byte 9,
    byte 10,
    byte 11,
    byte 12,
    byte 13,
    byte 14,
    byte 15,
    byte 16,
    byte 17,
  )

  keys_bits : bit_or (b 14) (b 15 <<< 8) ≡ word b / 2 ^ 112 % 2 ^ 16
  keys_bits = omega (
    arith,
    bit_or_disjoint 8 (b 14) (b 15) (omega (arith, byte 14)),
    byte 0,
    byte 1,
    byte 2,
    byte 3,
    byte 4,
    byte 5,
    byte 6,
    byte 7,
    byte 8,
    byte 9,
    byte 10,
    byte 11,
    byte 12,
    byte 13,
    byte 14,
    byte 15,
    byte 16,
    byte 17,
  )

  -- For any bytes, every field of a DBUS report is the field of bits at its place in the frame,
  -- read as one little-endian number; sticks and dial are scaled, and the mouse movements have a
  -- sign.
  pub decode-dbus_fields :
      (fl : Float) (stamp : ℕ)
      → decode fl b stamp ≡ record {
        stamp = stamp;
        online = 1;
        right_x = get_percentage fl (word b / 2 ^ 0 % 2 ^ 11);
        right_y = get_percentage fl (word b / 2 ^ 11 % 2 ^ 11);
        left_x = get_percentage fl (word b / 2 ^ 22 % 2 ^ 11);
        left_y = get_percentage fl (word b / 2 ^ 33 % 2 ^ 11);
        dial = get_percentage fl (word b / 2 ^ 128 % 2 ^ 11);
        right_switch = word b / 2 ^ 44 % 2 ^ 2;
        left_switch = word b / 2 ^ 46 % 2 ^ 2;
        mouse_x = to_signed 15 (word b / 2 ^ 48 % 2 ^ 16);
        mouse_y = to_signed 15 (word b / 2 ^ 64 % 2 ^ 16);
        mouse_left_clicked = b 12;
        mouse_right_clicked = b 13;
        keys = keys_of (word b / 2 ^ 112 % 2 ^ 16);
      }
  unfolding decode
  decode-dbus_fields fl stamp = simp (
    right_x_bits, right_y_bits, left_x_bits, left_y_bits, dial_bits, right_switch_bits,
    left_switch_bits, mouse_x_bits, mouse_y_bits, keys_bits,
  )
