-- ===== src/Examples/Frames.antt =====
-- A frame of the VT13 receiver.
use ecat_v2_master.Base.{◌≡◌, ◌/◌, ◌%◌, ◌^◌, to_signed}
use ecat_v2_master.Examples.Inputs.{ints, frame, frame_byte}
use ecat_v2_master.Task.Remote.{get_percentage, keys_of}
use ecat_v2_master.Task.Vt13Rc
use ecat_v2_master.Task.Vt13Rc.Word.{word, decode-vt13_fields}

decode-vt13_fields_example : Vt13Rc.decode ints frame 3 ≡ record {
  stamp = 3;
  online = 1;
  right_x = get_percentage ints (word frame / 2 ^ 0 % 2 ^ 11);
  right_y = get_percentage ints (word frame / 2 ^ 11 % 2 ^ 11);
  left_x = get_percentage ints (word frame / 2 ^ 22 % 2 ^ 11);
  left_y = get_percentage ints (word frame / 2 ^ 33 % 2 ^ 11);
  dial = get_percentage ints (word frame / 2 ^ 49 % 2 ^ 11);
  gear_switching = word frame / 2 ^ 44 % 2 ^ 2;
  pause_button = word frame / 2 ^ 46 % 2 ^ 1;
  left_custom_button = word frame / 2 ^ 47 % 2 ^ 1;
  right_custom_button = word frame / 2 ^ 48 % 2 ^ 1;
  trigger_button = word frame / 2 ^ 60 % 2 ^ 1;
  mouse_x = to_signed 15 (word frame / 2 ^ 64 % 2 ^ 16);
  mouse_y = to_signed 15 (word frame / 2 ^ 80 % 2 ^ 16);
  mouse_z = to_signed 15 (word frame / 2 ^ 96 % 2 ^ 16);
  mouse_left_clicked = word frame / 2 ^ 112 % 2 ^ 2;
  mouse_mid_clicked = word frame / 2 ^ 114 % 2 ^ 2;
  mouse_right_clicked = word frame / 2 ^ 116 % 2 ^ 2;
  keys = keys_of (word frame / 2 ^ 120 % 2 ^ 16);
}
decode-vt13_fields_example = decode-vt13_fields frame frame_byte ints 3
