-- ===== src/Task/Vt13Rc.antt =====
-- src/soem_wrapper/src/tasks/vt13_rc.cpp. `b k` is the byte at `pdoread_offset_ + k`. The status byte is
-- the last that the method reads, so the others are in range where it is.
pub mod Word
use ecat_v2_master.Base.{
  ℕ, ◌+◌, ℤ, pos, List, Option, some, get_elem?, get_or, ◌>>=◌, ◌>>>◌, ◌<<<◌, low_bits, bit_or,
  to_signed, ◌==◌, if◌then◌else◌,
}
use ecat_v2_master.Float.{Float}
use ecat_v2_master.Task.{TaskInfo}
use ecat_v2_master.Task.Remote.{get_percentage, Keys, keys_of}

pub record ReadVt13Rc (R : Type 0) : Type 0 where
  pub stamp : ℕ
  pub online : ℕ
  pub right_x : R
  pub right_y : R
  pub left_x : R
  pub left_y : R
  pub dial : R
  pub gear_switching : ℕ
  pub pause_button : ℕ
  pub left_custom_button : ℕ
  pub right_custom_button : ℕ
  pub trigger_button : ℕ
  pub mouse_x : ℤ
  pub mouse_y : ℤ
  pub mouse_z : ℤ
  pub mouse_left_clicked : ℕ
  pub mouse_mid_clicked : ℕ
  pub mouse_right_clicked : ℕ
  pub keys : Keys

module _ (fl : Float) where
  open fl use {Real, of_int}

  unfoldable pub decode : (ℕ → ℕ) → ℕ → ReadVt13Rc Real
  decode b stamp = record {
    stamp = stamp;
    online = 1;
    right_x = get_percentage fl (low_bits (bit_or (b 0) (b 1 <<< 8)) 11);
    right_y = get_percentage fl (low_bits (bit_or (b 1 >>> 3) (b 2 <<< 5)) 11);
    left_x = get_percentage fl (low_bits (bit_or (bit_or (b 2 >>> 6) (b 3 <<< 2)) (b 4 <<< 10)) 11);
    left_y = get_percentage fl (low_bits (bit_or (b 4 >>> 1) (b 5 <<< 7)) 11);
    dial = get_percentage fl (low_bits (bit_or (b 6 >>> 1) (b 7 <<< 7)) 11);
    gear_switching = low_bits (b 5 >>> 4) 2;
    pause_button = low_bits (b 5 >>> 6) 1;
    left_custom_button = low_bits (b 5 >>> 7) 1;
    right_custom_button = low_bits (b 6) 1;
    trigger_button = low_bits (b 7 >>> 4) 1;
    mouse_x = to_signed 15 (bit_or (b 8) (b 9 <<< 8));
    mouse_y = to_signed 15 (bit_or (b 10) (b 11 <<< 8));
    mouse_z = to_signed 15 (bit_or (b 12) (b 13 <<< 8));
    mouse_left_clicked = low_bits (b 14) 2;
    mouse_mid_clicked = low_bits (b 14 >>> 2) 2;
    mouse_right_clicked = low_bits (b 14 >>> 4) 2;
    keys = keys_of (bit_or (b 15) (b 16 <<< 8));
  }

  -- The message is a static member that all tasks of this class share: offline, it keeps what was
  -- read last.
  unfoldable pub read : TaskInfo → ℕ → List ℕ → ReadVt13Rc Real → Option (ReadVt13Rc Real)
  unfolding decode
  read t stamp buf msg = get_elem? buf (t.pdoread_offset + 17) >>= λ status. some (
      if status == 0
      then record msg { stamp = stamp; online = 0 }
      else decode (λ k. get_or buf (t.pdoread_offset + k) 0) stamp)

  unfoldable pub publish_empty_message : ℕ → ReadVt13Rc Real
  publish_empty_message now = record {
    stamp = now;
    online = 0;
    right_x = of_int (pos 0);
    right_y = of_int (pos 0);
    left_x = of_int (pos 0);
    left_y = of_int (pos 0);
    dial = of_int (pos 0);
    gear_switching = 0;
    pause_button = 0;
    left_custom_button = 0;
    right_custom_button = 0;
    trigger_button = 0;
    mouse_x = pos 0;
    mouse_y = pos 0;
    mouse_z = pos 0;
    mouse_left_clicked = 0;
    mouse_mid_clicked = 0;
    mouse_right_clicked = 0;
    keys = keys_of 0;
  }
