-- ===== src/Task/SbusRc/Channels.antt =====
-- The channels as the 11-bit digits of one little-endian number.
use ecat_v2_master.Base.{
  ℕ, zero, suc, ◌+◌, ◌*◌, ◌/◌, ◌%◌, ◌^◌, ◌<◌, ◌≡◌, List, [], ◌∷◌, arith, bit_or, bit_or_disjoint,
  low_bits, ◌>>>◌, ◌<<<◌,
}
use ecat_v2_master.Io.Splice.{le_value}
use ecat_v2_master.Task.SbusRc.{decode_channels}

-- The first 22 bytes of the frame, as a number.
abbrev pub packed : (ℕ → ℕ) → ℕ
packed b = le_value (
    b 0
    ∷ b 1
    ∷ b 2
    ∷ b 3
    ∷ b 4
    ∷ b 5
    ∷ b 6
    ∷ b 7
    ∷ b 8
    ∷ b 9
    ∷ b 10
    ∷ b 11
    ∷ b 12
    ∷ b 13
    ∷ b 14
    ∷ b 15
    ∷ b 16
    ∷ b 17
    ∷ b 18
    ∷ b 19
    ∷ b 20
    ∷ b 21
    ∷ [])

-- Its `n` digits of eleven bits from the `i`th on.
abbrev pub digits_of : ℕ → ℕ → ℕ → List ℕ
digits_of zero i v = []
digits_of (suc n) i v = (v / 2 ^ (11 * i) % 2 ^ 11) ∷ digits_of n (i + 1) v

module _ (b : ℕ → ℕ) (byte : (k : ℕ) → b k < 256) where
  channel_0 : low_bits (bit_or (b 0) (b 1 <<< 8)) 11 ≡ packed b / 2 ^ 0 % 2 ^ 11
  channel_0 = omega (
    arith,
    bit_or_disjoint 8 (b 0) (b 1) (omega (arith, byte 0)),
    byte 0,
    byte 1,
    byte 2,
    byte 3,
    byte 4,
    byte 5,
    byte 6,
    byte 7,
    byte 8,
    byte 9,
    byte 10,
    byte 11,
    byte 12,
    byte 13,
    byte 14,
    byte 15,
    byte 16,
    byte 17,
    byte 18,
    byte 19,
    byte 20,
    byte 21,
  )

  channel_1 : low_bits (bit_or (b 1 >>> 3) (b 2 <<< 5)) 11 ≡ packed b / 2 ^ 11 % 2 ^ 11
  channel_1 = omega (
    arith,
    bit_or_disjoint 5 (b 1 / 8) (b 2) (omega (arith, byte 1)),
    byte 0,
    byte 1,
    byte 2,
    byte 3,
    byte 4,
    byte 5,
    byte 6,
    byte 7,
    byte 8,
    byte 9,
    byte 10,
    byte 11,
    byte 12,
    byte 13,
    byte 14,
    byte 15,
    byte 16,
    byte 17,
    byte 18,
    byte 19,
    byte 20,
    byte 21,
  )

  channel_2 :
      low_bits (bit_or (bit_or (b 2 >>> 6) (b 3 <<< 2)) (b 4 <<< 10)) 11
      ≡ packed b / 2 ^ 22 % 2 ^ 11
  channel_2 = omega (
    arith,
    bit_or_disjoint 2 (b 2 / 64) (b 3) (omega (arith, byte 2)),
    bit_or_disjoint 10 (bit_or (b 2 / 64) (b 3 * 4)) (b 4)
        (omega (arith, byte 2, byte 3, bit_or_disjoint 2 (b 2 / 64) (b 3) (omega (arith, byte 2)))),
    byte 0,
    byte 1,
    byte 2,
    byte 3,
    byte 4,
    byte 5,
    byte 6,
    byte 7,
    byte 8,
    byte 9,
    byte 10,
    byte 11,
    byte 12,
    byte 13,
    byte 14,
    byte 15,
    byte 16,
    byte 17,
    byte 18,
    byte 19,
    byte 20,
    byte 21,
  )

  channel_3 : low_bits (bit_or (b 4 >>> 1) (b 5 <<< 7)) 11 ≡ packed b / 2 ^ 33 % 2 ^ 11
  channel_3 = omega (
    arith,
    bit_or_disjoint 7 (b 4 / 2) (b 5) (omega (arith, byte 4)),
    byte 0,
    byte 1,
    byte 2,
    byte 3,
    byte 4,
    byte 5,
    byte 6,
    byte 7,
    byte 8,
    byte 9,
    byte 10,
    byte 11,
    byte 12,
    byte 13,
    byte 14,
    byte 15,
    byte 16,
    byte 17,
    byte 18,
    byte 19,
    byte 20,
    byte 21,
  )

  channel_4 : low_bits (bit_or (b 5 >>> 4) (b 6 <<< 4)) 11 ≡ packed b / 2 ^ 44 % 2 ^ 11
  channel_4 = omega (
    arith,
    bit_or_disjoint 4 (b 5 / 16) (b 6) (omega (arith, byte 5)),
    byte 0,
    byte 1,
    byte 2,
    byte 3,
    byte 4,
    byte 5,
    byte 6,
    byte 7,
    byte 8,
    byte 9,
    byte 10,
    byte 11,
    byte 12,
    byte 13,
    byte 14,
    byte 15,
    byte 16,
    byte 17,
    byte 18,
    byte 19,
    byte 20,
    byte 21,
  )

  channel_5 :
      low_bits (bit_or (bit_or (b 6 >>> 7) (b 7 <<< 1)) (b 8 <<< 9)) 11 ≡ packed b / 2 ^ 55 % 2 ^ 11
  channel_5 = omega (
    arith,
    bit_or_disjoint 1 (b 6 / 128) (b 7) (omega (arith, byte 6)),
    bit_or_disjoint 9 (bit_or (b 6 / 128) (b 7 * 2)) (b 8) (
        omega (arith, byte 6, byte 7, bit_or_disjoint 1 (b 6 / 128) (b 7) (omega (arith, byte 6)))),
    byte 0,
    byte 1,
    byte 2,
    byte 3,
    byte 4,
    byte 5,
    byte 6,
    byte 7,
    byte 8,
    byte 9,
    byte 10,
    byte 11,
    byte 12,
    byte 13,
    byte 14,
    byte 15,
    byte 16,
    byte 17,
    byte 18,
    byte 19,
    byte 20,
    byte 21,
  )

  channel_6 : low_bits (bit_or (b 8 >>> 2) (b 9 <<< 6)) 11 ≡ packed b / 2 ^ 66 % 2 ^ 11
  channel_6 = omega (
    arith,
    bit_or_disjoint 6 (b 8 / 4) (b 9) (omega (arith, byte 8)),
    byte 0,
    byte 1,
    byte 2,
    byte 3,
    byte 4,
    byte 5,
    byte 6,
    byte 7,
    byte 8,
    byte 9,
    byte 10,
    byte 11,
    byte 12,
    byte 13,
    byte 14,
    byte 15,
    byte 16,
    byte 17,
    byte 18,
    byte 19,
    byte 20,
    byte 21,
  )

  channel_7 : low_bits (bit_or (b 9 >>> 5) (b 10 <<< 3)) 11 ≡ packed b / 2 ^ 77 % 2 ^ 11
  channel_7 = omega (
    arith,
    bit_or_disjoint 3 (b 9 / 32) (b 10) (omega (arith, byte 9)),
    byte 0,
    byte 1,
    byte 2,
    byte 3,
    byte 4,
    byte 5,
    byte 6,
    byte 7,
    byte 8,
    byte 9,
    byte 10,
    byte 11,
    byte 12,
    byte 13,
    byte 14,
    byte 15,
    byte 16,
    byte 17,
    byte 18,
    byte 19,
    byte 20,
    byte 21,
  )

  channel_8 : low_bits (bit_or (b 11) (b 12 <<< 8)) 11 ≡ packed b / 2 ^ 88 % 2 ^ 11
  channel_8 = omega (
    arith,
    bit_or_disjoint 8 (b 11) (b 12) (omega (arith, byte 11)),
    byte 0,
    byte 1,
    byte 2,
    byte 3,
    byte 4,
    byte 5,
    byte 6,
    byte 7,
    byte 8,
    byte 9,
    byte 10,
    byte 11,
    byte 12,
    byte 13,
    byte 14,
    byte 15,
    byte 16,
    byte 17,
    byte 18,
    byte 19,
    byte 20,
    byte 21,
  )

  channel_9 : low_bits (bit_or (b 12 >>> 3) (b 13 <<< 5)) 11 ≡ packed b / 2 ^ 99 % 2 ^ 11
  channel_9 = omega (
    arith,
    bit_or_disjoint 5 (b 12 / 8) (b 13) (omega (arith, byte 12)),
    byte 0,
    byte 1,
    byte 2,
    byte 3,
    byte 4,
    byte 5,
    byte 6,
    byte 7,
    byte 8,
    byte 9,
    byte 10,
    byte 11,
    byte 12,
    byte 13,
    byte 14,
    byte 15,
    byte 16,
    byte 17,
    byte 18,
    byte 19,
    byte 20,
    byte 21,
  )

  channel_10 :
      low_bits (bit_or (bit_or (b 13 >>> 6) (b 14 <<< 2)) (b 15 <<< 10)) 11
      ≡ packed b / 2 ^ 110 % 2 ^ 11
  channel_10 = omega (
    arith,
    bit_or_disjoint 2 (b 13 / 64) (b 14) (omega (arith, byte 13)),
    bit_or_disjoint 10 (bit_or (b 13 / 64) (b 14 * 4)) (b 15) (
        omega
          (arith, byte 13, byte 14, bit_or_disjoint 2 (b 13 / 64) (b 14) (omega (arith, byte 13)))),
    byte 0,
    byte 1,
    byte 2,
    byte 3,
    byte 4,
    byte 5,
    byte 6,
    byte 7,
    byte 8,
    byte 9,
    byte 10,
    byte 11,
    byte 12,
    byte 13,
    byte 14,
    byte 15,
    byte 16,
    byte 17,
    byte 18,
    byte 19,
    byte 20,
    byte 21,
  )

  channel_11 : low_bits (bit_or (b 15 >>> 1) (b 16 <<< 7)) 11 ≡ packed b / 2 ^ 121 % 2 ^ 11
  channel_11 = omega (
    arith,
    bit_or_disjoint 7 (b 15 / 2) (b 16) (omega (arith, byte 15)),
    byte 0,
    byte 1,
    byte 2,
    byte 3,
    byte 4,
    byte 5,
    byte 6,
    byte 7,
    byte 8,
    byte 9,
    byte 10,
    byte 11,
    byte 12,
    byte 13,
    byte 14,
    byte 15,
    byte 16,
    byte 17,
    byte 18,
    byte 19,
    byte 20,
    byte 21,
  )

  channel_12 : low_bits (bit_or (b 16 >>> 4) (b 17 <<< 4)) 11 ≡ packed b / 2 ^ 132 % 2 ^ 11
  channel_12 = omega (
    arith,
    bit_or_disjoint 4 (b 16 / 16) (b 17) (omega (arith, byte 16)),
    byte 0,
    byte 1,
    byte 2,
    byte 3,
    byte 4,
    byte 5,
    byte 6,
    byte 7,
    byte 8,
    byte 9,
    byte 10,
    byte 11,
    byte 12,
    byte 13,
    byte 14,
    byte 15,
    byte 16,
    byte 17,
    byte 18,
    byte 19,
    byte 20,
    byte 21,
  )

  channel_13 :
      low_bits (bit_or (bit_or (b 17 >>> 7) (b 18 <<< 1)) (b 19 <<< 9)) 11
      ≡ packed b / 2 ^ 143 % 2 ^ 11
  channel_13 = omega (
    arith,
    bit_or_disjoint 1 (b 17 / 128) (b 18) (omega (arith, byte 17)),
    bit_or_disjoint 9 (bit_or (b 17 / 128) (b 18 * 2)) (b 19) (
        omega (
          arith,
          byte 17,
          byte 18,
          bit_or_disjoint 1 (b 17 / 128) (b 18) (omega (arith, byte 17)),
        )),
    byte 0,
    byte 1,
    byte 2,
    byte 3,
    byte 4,
    byte 5,
    byte 6,
    byte 7,
    byte 8,
    byte 9,
    byte 10,
    byte 11,
    byte 12,
    byte 13,
    byte 14,
    byte 15,
    byte 16,
    byte 17,
    byte 18,
    byte 19,
    byte 20,
    byte 21,
  )

  channel_14 : low_bits (bit_or (b 19 >>> 2) (b 20 <<< 6)) 11 ≡ packed b / 2 ^ 154 % 2 ^ 11
  channel_14 = omega (
    arith,
    bit_or_disjoint 6 (b 19 / 4) (b 20) (omega (arith, byte 19)),
    byte 0,
    byte 1,
    byte 2,
    byte 3,
    byte 4,
    byte 5,
    byte 6,
    byte 7,
    byte 8,
    byte 9,
    byte 10,
    byte 11,
    byte 12,
    byte 13,
    byte 14,
    byte 15,
    byte 16,
    byte 17,
    byte 18,
    byte 19,
    byte 20,
    byte 21,
  )

  channel_15 : low_bits (bit_or (b 20 >>> 5) (b 21 <<< 3)) 11 ≡ packed b / 2 ^ 165 % 2 ^ 11
  channel_15 = omega (
    arith,
    bit_or_disjoint 3 (b 20 / 32) (b 21) (omega (arith, byte 20)),
    byte 0,
    byte 1,
    byte 2,
    byte 3,
    byte 4,
    byte 5,
    byte 6,
    byte 7,
    byte 8,
    byte 9,
    byte 10,
    byte 11,
    byte 12,
    byte 13,
    byte 14,
    byte 15,
    byte 16,
    byte 17,
    byte 18,
    byte 19,
    byte 20,
    byte 21,
  )

  -- For any bytes, the sixteen channels are the sixteen digits of eleven bits of the frame's 22
  -- bytes, read as one little-endian number.
  pub decode_channels-digits_of : decode_channels b ≡ digits_of 16 0 (packed b)
  unfolding decode_channels
  decode_channels-digits_of = cc (
    channel_0, channel_1, channel_2, channel_3, channel_4, channel_5, channel_6, channel_7,
    channel_8, channel_9, channel_10, channel_11, channel_12, channel_13, channel_14, channel_15,
  )
