-- ===== src/Examples/Radios.antt =====
-- Radio frames, and the DM motor's frames.
use ecat_v2_master.Base.{ℤ, pos, negsuc, ◌+◌, ◌*◌, ◌/◌, ◌%◌, ◌^◌, ◌≡◌, refl, true, arith, to_signed}
use ecat_v2_master.Task.Remote.{get_percentage, keys_of}
use ecat_v2_master.Task.SbusRc.{decode_channels}
use ecat_v2_master.Task.SbusRc.Channels.{packed, digits_of, decode_channels-digits_of}
use ecat_v2_master.Examples.Inputs.{ints, frame, frame_byte}
use ecat_v2_master.Task.DbusRc
use ecat_v2_master.Task.DbusRc.Word.{word, decode-dbus_fields}
use ecat_v2_master.Task.DmMotor
use ecat_v2_master.Task.DmMotor.{
  DmMotor, WriteDmMotorMitControl, mit_bytes, scaled, on_command_mit_control, uint_to_float,
}
use ecat_v2_master.Task.DmMotor.Mit.{be_from, mit_bytes-value, mit_bytes-gain_spills}
use ecat_v2_master.Task.DmMotor.Feedback.{values_word, decode-values}

decode_channels-digits_of_example : decode_channels frame ≡ digits_of 16 0 (packed frame)
decode_channels-digits_of_example = decode_channels-digits_of frame frame_byte

mit_bytes-value_example :
    be_from 0 (mit_bytes 40000 2048 300 7 2047)
    ≡ 40000 * 2 ^ 48 + 2048 * 2 ^ 36 + 300 * 2 ^ 24 + 7 * 2 ^ 12 + 2047
mit_bytes-value_example =
    mit_bytes-value 40000 2048 300 7 2047 (omega arith) (omega arith) (omega arith) (omega arith)
      (omega arith)

-- 8191 is what a gain of 1000 gives, of which 500 is the largest.
mit_bytes-gain_spills_example :
    be_from 0 (mit_bytes 40000 2048 8191 7 2047) / 2 ^ 36 % 2 ^ 12 ≡ 2048 + 8191 / 2 ^ 12
mit_bytes-gain_spills_example =
    mit_bytes-gain_spills 40000 2048 8191 7 2047 (omega arith) (omega arith) refl (omega arith)
      (omega arith) (omega arith) (omega arith)

decode-dbus_fields_example : DbusRc.decode ints frame 3 ≡ record {
  stamp = 3;
  online = 1;
  right_x = get_percentage ints (word frame / 2 ^ 0 % 2 ^ 11);
  right_y = get_percentage ints (word frame / 2 ^ 11 % 2 ^ 11);
  left_x = get_percentage ints (word frame / 2 ^ 22 % 2 ^ 11);
  left_y = get_percentage ints (word frame / 2 ^ 33 % 2 ^ 11);
  dial = get_percentage ints (word frame / 2 ^ 128 % 2 ^ 11);
  right_switch = word frame / 2 ^ 44 % 2 ^ 2;
  left_switch = word frame / 2 ^ 46 % 2 ^ 2;
  mouse_x = to_signed 15 (word frame / 2 ^ 48 % 2 ^ 16);
  mouse_y = to_signed 15 (word frame / 2 ^ 64 % 2 ^ 16);
  mouse_left_clicked = frame 12;
  mouse_right_clicked = frame 13;
  keys = keys_of (word frame / 2 ^ 112 % 2 ^ 16);
}
decode-dbus_fields_example = decode-dbus_fields frame frame_byte ints 3

abbrev motor : DmMotor ℤ
motor = record {
  info = record {
    type_id = 10;
    has_publishers = true;
    has_subscribers = true;
    pdowrite_offset = 1;
    pdoread_offset = 0;
    connection_lost_read_action = 1;
    connection_lost_write_action = 2;
  };
  pmax = pos 12;
  vmax = pos 30;
  tmax = pos 10;
}

abbrev command : WriteDmMotorMitControl ℤ
command = record {
  enable = 1;
  p_des = pos 3;
  v_des = pos 2;
  kp = pos 50;
  kd = pos 1;
  torque = negsuc 1;
}

decode-values_example :
    let r = DmMotor.decode ints motor frame 3 in
    (r.position ≡ uint_to_float ints (values_word frame / 2 ^ 24) (negsuc 11) (pos 12) 16)
    × (r.velocity
        ≡ uint_to_float ints (values_word frame / 2 ^ 12 % 2 ^ 12) (negsuc 29) (pos 30) 12)
    × (r.torque ≡ uint_to_float ints (values_word frame % 2 ^ 12) (negsuc 9) (pos 10) 12)
decode-values_example = decode-values ints motor frame frame_byte 3
