-- ===== src/Task/Remote.antt =====
-- The code that src/soem_wrapper/src/tasks/dji_rc.cpp and vt13_rc.cpp have in common: the stick
-- value and the sixteen keys.
pub mod Stick
use ecat_v2_master.Base.{ℕ, ℤ, pos, negsuc, sub_ℕ, Bool, ◌&&◌, ◌>>>◌, low_bits, if◌then◌else◌}
use ecat_v2_master.Float.{Float}

module _ (fl : Float) where
  open fl use {Real, of_int, le, div}

  -- `raw_data - 1024` is an int.
  unfoldable pub get_percentage : ℕ → Real
  get_percentage raw_data =
      let target_spd = of_int (sub_ℕ raw_data 1024) in
      if le (of_int (negsuc 4)) target_spd && le target_spd (of_int (pos 5))
      then of_int (pos 0)
      else div target_spd (of_int (pos 660))

pub record Keys : Type 0 where
  pub w : ℕ
  pub s : ℕ
  pub a : ℕ
  pub d : ℕ
  pub shift : ℕ
  pub ctrl : ℕ
  pub q : ℕ
  pub e : ℕ
  pub r : ℕ
  pub f : ℕ
  pub g : ℕ
  pub z : ℕ
  pub x : ℕ
  pub c : ℕ
  pub v : ℕ
  pub b : ℕ

-- key_value >> k & 0x01
abbrev pub key : ℕ → ℕ → ℕ
key key_value k = low_bits (key_value >>> k) 1

abbrev pub keys_of : ℕ → Keys
keys_of n = record {
  w = key n 0;
  s = key n 1;
  a = key n 2;
  d = key n 3;
  shift = key n 4;
  ctrl = key n 5;
  q = key n 6;
  e = key n 7;
  r = key n 8;
  f = key n 9;
  g = key n 10;
  z = key n 11;
  x = key n 12;
  c = key n 13;
  v = key n 14;
  b = key n 15;
}
