-- ===== src/Task/HipnucImu.antt =====
-- src/soem_wrapper/src/tasks/hipnuc_imu_can.cpp: the inertial measurement unit. The message's
-- numbers are doubles, an arithmetic that is a parameter; the constants 0.0001, 0.0048828 and 0.001
-- are the doubles nearest to quotients of integers, as a division of doubles gives them.
pub mod Layout
use ecat_v2_master.Base.{ℕ, ℤ, pos, List, Option, some, ◌>>=◌}
use ecat_v2_master.Float.{Float}
use ecat_v2_master.Io.{Cursor, read_int16}
use ecat_v2_master.Task.{TaskInfo}

-- `conf_frame_name_` beside the fields of every task
pub record HipnucImuCan : Type 0 where
  pub info : TaskInfo
  pub conf_frame_name : List ℕ

pub record Quaternion (R : Type 0) : Type 0 where
  pub w : R
  pub x : R
  pub y : R
  pub z : R

pub record Vector3 (R : Type 0) : Type 0 where
  pub x : R
  pub y : R
  pub z : R

pub record Imu (R : Type 0) : Type 0 where
  pub stamp : ℕ
  pub frame_id : List ℕ
  pub orientation : Quaternion R
  pub linear_acceleration : Vector3 R
  pub angular_velocity : Vector3 R

module _ (fl : Float) where
  open fl use {Real, of_int, mul, div}

  -- c / d * value
  abbrev pub scaled : ℕ → ℕ → ℤ → Real
  scaled c d value = mul (div (of_int (pos c)) (of_int (pos d))) (of_int value)

  unfoldable pub publish_empty_message : HipnucImuCan → ℕ → Imu Real
  publish_empty_message t now =
      let zero_real = of_int (pos 0) in
      record {
        stamp = now;
        frame_id = t.conf_frame_name;
        orientation = record { w = of_int (pos 1); x = zero_real; y = zero_real; z = zero_real };
        linear_acceleration = record { x = zero_real; y = zero_real; z = zero_real };
        angular_velocity = record { x = zero_real; y = zero_real; z = zero_real };
      }

  unfoldable pub read : HipnucImuCan → ℕ → List ℕ → Option (Imu Real)
  read t stamp buf = do
    (ow, c1) ← read_int16 (record { bytes = buf; offset = t.info.pdoread_offset })
    (ox, c2) ← read_int16 c1
    (oy, c3) ← read_int16 c2
    (oz, c4) ← read_int16 c3
    (ax, c5) ← read_int16 c4
    (ay, c6) ← read_int16 c5
    (az, c7) ← read_int16 c6
    (vx, c8) ← read_int16 c7
    (vy, c9) ← read_int16 c8
    (vz, c10) ← read_int16 c9
    some (record {
      stamp = stamp;
      frame_id = t.conf_frame_name;
      orientation = record {
        w = scaled 1 10000 ow;
        x = scaled 1 10000 ox;
        y = scaled 1 10000 oy;
        z = scaled 1 10000 oz;
      };
      linear_acceleration = record {
        x = scaled 48828 10000000 ax;
        y = scaled 48828 10000000 ay;
        z = scaled 48828 10000000 az;
      };
      angular_velocity = record {
        x = scaled 1 1000 vx;
        y = scaled 1 1000 vy;
        z = scaled 1 1000 vz;
      };
    })
