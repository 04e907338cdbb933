-- ===== src/Task/Vt13Rc/Word.antt =====
-- The frame as one little-endian number, whose fields stand side by side.
use ecat_v2_master.Base.{
  ℕ, ◌*◌, ◌/◌, ◌%◌, ◌^◌, ◌<◌, ◌≡◌, [], ◌∷◌, arith, bit_or, bit_or_disjoint, low_bits, ◌>>>◌, ◌<<<◌,
  to_signed,
}
use ecat_v2_master.Io.Splice.{le_value}
use ecat_v2_master.Float.{Float}
use ecat_v2_master.Task.Remote.{get_percentage, keys_of}
use ecat_v2_master.Task.Vt13Rc.{decode}

abbrev pub word : (ℕ → ℕ) → ℕ
word b = le_value (
    b 0
    ∷ b 1
    ∷ b 2
    ∷ b 3
    ∷ b 4
    ∷ b 5
    ∷ b 6
    ∷ b 7
    ∷ b 8
    ∷ b 9
    ∷ b 10
    ∷ b 11
    ∷ b 12
    ∷ b 13
    ∷ b 14
    ∷ b 15
    ∷ b 16
    ∷ [])

module _ (b : ℕ → ℕ) (byte : (k : ℕ) → b k < 256) where
  right_x_bits : low_bits (bit_or (b 0) (b 1 <<< 8)) 11 ≡ word b / 2 ^ 0 % 2 ^ 11
  right_x_bits = omega (
    arith,
    bit_or_disjoint 8 (b 0) (b 1) (omega (arith, byte 0)),
    byte 0,
    byte 1,
    byte 2,
    byte 3,
    byte 4,
    byte 5,
    byte 6,
    byte 7,
    byte 8,
    byte 9,
    byte 10,
    byte 11,
    byte 12,
    byte 13,
    byte 14,
    byte 15,
    byte 16,
  )

  right_y_bits : low_bits (bit_or (b 1 >>> 3) (b 2 <<< 5)) 11 ≡ word b / 2 ^ 11 % 2 ^ 11
  right_y_bits = omega (
    arith,
    bit_or_disjoint 5 (b 1 / 8) (b 2) (omega (arith, byte 1)),
    byte 0,
    byte 1,
    byte 2,
    byte 3,
    byte 4,
    byte 5,
    byte 6,
    byte 7,
    byte 8,
    byte 9,
    byte 10,
    byte 11,
    byte 12,
    byte 13,
    byte 14,
    byte 15,
    byte 16,
  )

  left_x_bits :
      low_bits (bit_or (bit_or (b 2 >>> 6) (b 3 <<< 2)) (b 4 <<< 10)) 11 ≡ word b / 2 ^ 22 % 2 ^ 11
  left_x_bits = omega (
    arith,
    bit_or_disjoint 2 (b 2 / 64) (b 3) (omega (arith, byte 2)),
    bit_or_disjoint 10 (bit_or (b 2 / 64) (b 3 * 4)) (b 4)
        (omega (arith, byte 2, byte 3, bit_or_disjoint 2 (b 2 / 64) (b 3) (omega (arith, byte 2)))),
    byte 0,
    byte 1,
    byte 2,
    byte 3,
    byte 4,
    byte 5,
    byte 6,
    byte 7,
    byte 8,
    byte 9,
    byte 10,
    byte 11,
    byte 12,
    byte 13,
    byte 14,
    byte 15,
    byte 16,
  )

  left_y_bits : low_bits (bit_or (b 4 >>> 1) (b 5 <<< 7)) 11 ≡ word b / 2 ^ 33 % 2 ^ 11
  left_y_bits = omega (
    arith,
    bit_or_disjoint 7 (b 4 / 2) (b 5) (omega (arith, byte 4)),
    byte 0,
    byte 1,
    byte 2,
    byte 3,
    byte 4,
    byte 5,
    byte 6,
    byte 7,
    byte 8,
    byte 9,
    byte 10,
    byte 11,
    byte 12,
    byte 13,
    byte 14,
    byte 15,
    byte 16,
  )

  dial_bits : low_bits (bit_or (b 6 >>> 1) (b 7 <<< 7)) 11 ≡ word b / 2 ^ 49 % 2 ^ 11
  dial_bits = omega (
    arith,
    bit_or_disjoint 7 (b 6 / 2) (b 7) (omega (arith, byte 6)),
    byte 0,
    byte 1,
    byte 2,
    byte 3,
    byte 4,
    byte 5,
    byte 6,
    byte 7,
    byte 8,
    byte 9,
    byte 10,
    byte 11,
    byte 12,
    byte 13,
    byte 14,
    byte 15,
    byte 16,
  )

  gear_bits : low_bits (b 5 >>> 4) 2 ≡ word b / 2 ^ 44 % 2 ^ 2
  gear_bits = omega (
    arith,
    byte 0,
    byte 1,
    byte 2,
    byte 3,
    byte 4,
    byte 5,
    byte 6,
    byte 7,
    byte 8,
    byte 9,
    byte 10,
    byte 11,
    byte 12,
    byte 13,
    byte 14,
    byte 15,
    byte 16,
  )

  pause_bits : low_bits (b 5 >>> 6) 1 ≡ word b / 2 ^ 46 % 2 ^ 1
  pause_bits = omega (
    arith,
    byte 0,
    byte 1,
    byte 2,
    byte 3,
    byte 4,
    byte 5,
    byte 6,
    byte 7,
    byte 8,
    byte 9,
    byte 10,
    byte 11,
    byte 12,
    byte 13,
    byte 14,
    byte 15,
    byte 16,
  )

  left_custom_bits : low_bits (b 5 >>> 7) 1 ≡ word b / 2 ^ 47 % 2 ^ 1
  left_custom_bits = omega (
    arith,
    byte 0,
    byte 1,
    byte 2,
    byte 3,
    byte 4,
    byte 5,
    byte 6,
    byte 7,
    byte 8,
    byte 9,
    byte 10,
    byte 11,
    byte 12,
    byte 13,
    byte 14,
    byte 15,
    byte 16,
  )

  right_custom_bits : low_bits (b 6) 1 ≡ word b / 2 ^ 48 % 2 ^ 1
  right_custom_bits = omega (
    arith,
    byte 0,
    byte 1,
    byte 2,
    byte 3,
    byte 4,
    byte 5,
    byte 6,
    byte 7,
    byte 8,
    byte 9,
    byte 10,
    byte 11,
    byte 12,
    byte 13,
    byte 14,
    byte 15,
    byte 16,
  )

  trigger_bits : low_bits (b 7 >>> 4) 1 ≡ word b / 2 ^ 60 % 2 ^ 1
  trigger_bits = omega (
    arith,
    byte 0,
    byte 1,
    byte 2,
    byte 3,
    byte 4,
    byte 5,
    byte 6,
    byte 7,
    byte 8,
    byte 9,
    byte 10,
    byte 11,
    byte 12,
    byte 13,
    byte 14,
    byte 15,
    byte 16,
  )

  mouse_x_bits : bit_or (b 8) (b 9 <<< 8) ≡ word b / 2 ^ 64 % 2 ^ 16
  mouse_x_bits = omega (
    arith,
    bit_or_disjoint 8 (b 8) (b 9) (omega (arith, byte 8)),
    byte 0,
    byte 1,
    byte 2,
    byte 3,
    byte 4,
    byte 5,
    byte 6,
    byte 7,
    byte 8,
    byte 9,
    byte 10,
    byte 11,
    byte 12,
    byte 13,
    byte 14,
    byte 15,
    byte 16,
  )

  mouse_y_bits : bit_or (b 10) (b 11 <<< 8) ≡ word b / 2 ^ 80 % 2 ^ 16
  mouse_y_bits = omega (
    arith,
    bit_or_disjoint 8 (b 10) (b 11) (omega (arith, byte 10)),
    byte 0,
    byte 1,
    byte 2,
    byte 3,
    byte 4,
    byte 5,
    byte 6,
    byte 7,
    byte 8,
    byte 9,
    byte 10,
    byte 11,
    byte 12,
    byte 13,
    byte 14,
    byte 15,
    byte 16,
  )

  mouse_z_bits : bit_or (b 12) (b 13 <<< 8) ≡ word b / 2 ^ 96 % 2 ^ 16
  mouse_z_bits = omega (
    arith,
    bit_or_disjoint 8 (b 12) (b 13) (omega (arith, byte 12)),
    byte 0,
    byte 1,
    byte 2,
    byte 3,
    byte 4,
    byte 5,
    byte 6,
    byte 7,
    byte 8,
    byte 9,
    byte 10,
    byte 11,
    byte 12,
    byte 13,
    byte 14,
    byte 15,
    byte 16,
  )

  left_clicked_bits : low_bits (b 14) 2 ≡ word b / 2 ^ 112 % 2 ^ 2
  left_clicked_bits = omega (
    arith,
    byte 0,
    byte 1,
    byte 2,
    byte 3,
    byte 4,
    byte 5,
    byte 6,
    byte 7,
    byte 8,
    byte 9,
    byte 10,
    byte 11,
    byte 12,
    byte 13,
    byte 14,
    byte 15,
    byte 16,
  )

  mid_clicked_bits : low_bits (b 14 >>> 2) 2 ≡ word b / 2 ^ 114 % 2 ^ 2
  mid_clicked_bits = omega (
    arith,
    byte 0,
    byte 1,
    byte 2,
    byte 3,
    byte 4,
    byte 5,
    byte 6,
    byte 7,
    byte 8,
    byte 9,
    byte 10,
    byte 11,
    byte 12,
    byte 13,
    byte 14,
    byte 15,
    byte 16,
  )

  right_clicked_bits : low_bits (b 14 >>> 4) 2 ≡ word b / 2 ^ 116 % 2 ^ 2
  right_clicked_bits = omega (
    arith,
    byte 0,
    byte 1,
    byte 2,
    byte 3,
    byte 4,
    byte 5,
    byte 6,
    byte 7,
    byte 8,
    byte 9,
    byte 10,
    byte 11,
    byte 12,
    byte 13,
    byte 14,
    byte 15,
    byte 16,
  )

  keys_bits : bit_or (b 15) (b 16 <<< 8) ≡ word b / 2 ^ 120 % 2 ^ 16
  keys_bits = omega (
    arith,
    bit_or_disjoint 8 (b 15) (b 16) (omega (arith, byte 15)),
    byte 0,
    byte 1,
    byte 2,
    byte 3,
    byte 4,
    byte 5,
    byte 6,
    byte 7,
    byte 8,
    byte 9,
    byte 10,
    byte 11,
    byte 12,
    byte 13,
    byte 14,
    byte 15,
    byte 16,
  )

  -- For any bytes, every field of a VT13 report is the field of bits at its place in the frame,
  -- read as one little-endian number; sticks and dial are scaled, and the mouse movements have a
  -- sign.
  pub decode-vt13_fields :
      (fl : Float) (stamp : ℕ)
      → decode fl b stamp ≡ record {
        stamp = stamp;
        online = 1;
        right_x = get_percentage fl (word b / 2 ^ 0 % 2 ^ 11);
        right_y = get_percentage fl (word b / 2 ^ 11 % 2 ^ 11);
        left_x = get_percentage fl (word b / 2 ^ 22 % 2 ^ 11);
        left_y = get_percentage fl (word b / 2 ^ 33 % 2 ^ 11);
        dial = get_percentage fl (word b / 2 ^ 49 % 2 ^ 11);
        gear_switching = word b / 2 ^ 44 % 2 ^ 2;
        pause_button = word b / 2 ^ 46 % 2 ^ 1;
        left_custom_button = word b / 2 ^ 47 % 2 ^ 1;
        right_custom_button = word b / 2 ^ 48 % 2 ^ 1;
        trigger_button = word b / 2 ^ 60 % 2 ^ 1;
        mouse_x = to_signed 15 (word b / 2 ^ 64 % 2 ^ 16);
        mouse_y = to_signed 15 (word b / 2 ^ 80 % 2 ^ 16);
        mouse_z = to_signed 15 (word b / 2 ^ 96 % 2 ^ 16);
        mouse_left_clicked = word b / 2 ^ 112 % 2 ^ 2;
        mouse_mid_clicked = word b / 2 ^ 114 % 2 ^ 2;
        mouse_right_clicked = word b / 2 ^ 116 % 2 ^ 2;
        keys = keys_of (word b / 2 ^ 120 % 2 ^ 16);
      }
  unfolding decode
  decode-vt13_fields fl stamp = simp (
    right_x_bits, right_y_bits, left_x_bits, left_y_bits, dial_bits, gear_bits, pause_bits,
    left_custom_bits, right_custom_bits, trigger_bits, mouse_x_bits, mouse_y_bits, mouse_z_bits,
    left_clicked_bits, mid_clicked_bits, right_clicked_bits, keys_bits,
  )
