-- ===== src/Task/HipnucImu/Layout.antt =====
-- The ten numbers of the IMU's input.
use ecat_v2_master.Base.{
  ℕ, ◌+◌, ◌≡◌, ℤ, List, [], ◌∷◌, ◌++◌, some, drop, drop_behind, to_unsigned, InRange,
}
use ecat_v2_master.Float.{Float}
use ecat_v2_master.Io.Splice.{le_bytes}
use ecat_v2_master.Io.Stream.{int16_after}
use ecat_v2_master.Task.HipnucImu.{HipnucImuCan, Quaternion, Vector3, scaled, read}

-- The numbers one after another with 16 bits each, then the rest of the input
abbrev pub int16_bytes : List ℤ → List ℕ → List ℕ
int16_bytes [] rest = rest
int16_bytes (z ∷ zs) rest = le_bytes 2 (to_unsigned 16 z) ++ int16_bytes zs rest

abbrev pub imu_bytes : Quaternion ℤ → Vector3 ℤ → Vector3 ℤ → List ℕ → List ℕ
imu_bytes o a v rest =
    int16_bytes (o.w ∷ o.x ∷ o.y ∷ o.z ∷ a.x ∷ a.y ∷ a.z ∷ v.x ∷ v.y ∷ v.z ∷ []) rest

-- Each number fits into 16 bits.
abbrev pub AreShort : Quaternion ℤ → Vector3 ℤ → Vector3 ℤ → Type 0
AreShort o a v =
    InRange 15 o.w
    × InRange 15 o.x
    × InRange 15 o.y
    × InRange 15 o.z
    × InRange 15 a.x
    × InRange 15 a.y
    × InRange 15 a.z
    × InRange 15 v.x
    × InRange 15 v.y
    × InRange 15 v.z

-- When the input holds ten signed 16-bit numbers in a row from the task's offset on, the published
-- message has them in the order of orientation, acceleration and angular velocity, each scaled by
-- its unit.
read-imu_bytes :
    (fl : Float) (t : HipnucImuCan) (stamp : ℕ) (o : Quaternion ℤ) (a v : Vector3 ℤ)
    (buf rest : List ℕ)
    → AreShort o a v
    → drop t.info.pdoread_offset buf ≡ imu_bytes o a v rest
    → read fl t stamp buf
      ≡ some (record {
        stamp = stamp;
        frame_id = t.conf_frame_name;
        orientation = record {
          w = scaled fl 1 10000 o.w;
          x = scaled fl 1 10000 o.x;
          y = scaled fl 1 10000 o.y;
          z = scaled fl 1 10000 o.z;
        };
        linear_acceleration = record {
          x = scaled fl 48828 10000000 a.x;
          y = scaled fl 48828 10000000 a.y;
          z = scaled fl 48828 10000000 a.z;
        };
        angular_velocity = record {
          x = scaled fl 1 1000 v.x;
          y = scaled fl 1 1000 v.y;
          z = scaled fl 1 1000 v.z;
        };
      })
unfolding read
read-imu_bytes fl t stamp o a v buf rest (ow, ox, oy, oz, ax, ay, az, vx, vy, vz) e =
    let i = t.info.pdoread_offset in
    let e1 = drop_behind i buf (le_bytes 2 (to_unsigned 16 o.w)) e in
    let e2 = drop_behind (i + 2) buf (le_bytes 2 (to_unsigned 16 o.x)) e1 in
    let e3 = drop_behind (i + 2 + 2) buf (le_bytes 2 (to_unsigned 16 o.y)) e2 in
    let e4 = drop_behind (i + 2 + 2 + 2) buf (le_bytes 2 (to_unsigned 16 o.z)) e3 in
    let e5 = drop_behind (i + 2 + 2 + 2 + 2) buf (le_bytes 2 (to_unsigned 16 a.x)) e4 in
    let e6 = drop_behind (i + 2 + 2 + 2 + 2 + 2) buf (le_bytes 2 (to_unsigned 16 a.y)) e5 in
    let e7 = drop_behind (i + 2 + 2 + 2 + 2 + 2 + 2) buf (le_bytes 2 (to_unsigned 16 a.z)) e6 in
    let e8 = drop_behind (i + 2 + 2 + 2 + 2 + 2 + 2 + 2) buf (le_bytes 2 (to_unsigned 16 v.x)) e7 in
    let e9 =
      drop_behind (i + 2 + 2 + 2 + 2 + 2 + 2 + 2 + 2) buf (le_bytes 2 (to_unsigned 16 v.y)) e8 in
    rw (
      int16_after buf i o.w ow e,
      int16_after buf (i + 2) o.x ox e1,
      int16_after buf (i + 2 + 2) o.y oy e2,
      int16_after buf (i + 2 + 2 + 2) o.z oz e3,
      int16_after buf (i + 2 + 2 + 2 + 2) a.x ax e4,
      int16_after buf (i + 2 + 2 + 2 + 2 + 2) a.y ay e5,
      int16_after buf (i + 2 + 2 + 2 + 2 + 2 + 2) a.z az e6,
      int16_after buf (i + 2 + 2 + 2 + 2 + 2 + 2 + 2) v.x vx e7,
      int16_after buf (i + 2 + 2 + 2 + 2 + 2 + 2 + 2 + 2) v.y vy e8,
      int16_after buf (i + 2 + 2 + 2 + 2 + 2 + 2 + 2 + 2 + 2) v.z vz e9,
    )
