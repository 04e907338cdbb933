-- ===== src/Task/LkMotor.antt =====
-- src/soem_wrapper/src/tasks/lk_motor.cpp: one motor in one of seven control modes, or four motors
-- that share a broadcast packet.
pub mod Layout
use ecat_v2_master.Base.{
  ℕ, ℤ, pos, Bool, true, false, List, Option, some, ◌>>=◌, ◌>>>◌, low_bits, if◌then◌else◌,
}
use ecat_v2_master.Io.{
  Cursor, write_uint8, write_uint16, write_int16, write_uint32, write_int32, read_uint8,
  read_uint16, read_int16,
}
use ecat_v2_master.Task.{TaskInfo, write_at}

pub record LkMotor : Type 0 where
  pub info : TaskInfo
  pub is_broadcast_mode : Bool

-- ReadLkMotor
pub record SingleReport : Type 0 where
  pub stamp : ℕ
  pub online : ℕ
  pub enabled : ℕ
  pub current : ℤ
  pub speed : ℤ
  pub encoder : ℕ
  pub temperature : ℕ

-- The fields of one motor in ReadLkMotorMulti.
pub record MotorReport : Type 0 where
  pub online : ℕ
  pub current : ℤ
  pub speed : ℤ
  pub encoder : ℕ
  pub temperature : ℕ

-- ReadLkMotorMulti
pub record MultiReport : Type 0 where
  pub stamp : ℕ
  pub motor1 : MotorReport
  pub motor2 : MotorReport
  pub motor3 : MotorReport
  pub motor4 : MotorReport

pub data Report : Type 0 where
  single : SingleReport → Report
  multi : MultiReport → Report

-- The message types of the eight subscriptions.
pub data Command : Type 0 where
  openloop_control : (enable : ℕ) → (torque : ℤ) → Command
  torque_control : (enable : ℕ) → (torque : ℤ) → Command
  speed_with_torque_limit_control : (enable : ℕ) → (torque_limit speed : ℤ) → Command
  multi_round_pos_control : (enable : ℕ) → (angle : ℤ) → Command
  multi_round_pos_with_speed_limit_control : (enable speed_limit : ℕ) → (angle : ℤ) → Command
  single_round_pos_control : (enable direction angle : ℕ) → Command
  single_round_pos_with_speed_limit_control : (enable direction speed_limit angle : ℕ) → Command
  broadcast_current_control : (motor1 motor2 motor3 motor4 : ℤ) → Command

-- The eight handlers: what each writes from the task's offset on.
unfoldable pub on_command : LkMotor → Command → List ℕ → Option (List ℕ)
on_command t (openloop_control enable torque) buf =
    write_at t.info.pdowrite_offset (λ c. write_uint8 enable c >>= write_int16 torque) buf
on_command t (torque_control enable torque) buf =
    write_at t.info.pdowrite_offset (λ c. write_uint8 enable c >>= write_int16 torque) buf
on_command t (speed_with_torque_limit_control enable torque_limit speed) buf =
    write_at t.info.pdowrite_offset
      (λ c. write_uint8 enable c >>= write_int16 torque_limit >>= write_int32 speed) buf
on_command t (multi_round_pos_control enable angle) buf =
    write_at t.info.pdowrite_offset (λ c. write_uint8 enable c >>= write_int32 angle) buf
on_command t (multi_round_pos_with_speed_limit_control enable speed_limit angle) buf =
    write_at t.info.pdowrite_offset
      (λ c. write_uint8 enable c >>= write_uint16 speed_limit >>= write_int32 angle) buf
on_command t (single_round_pos_control enable direction angle) buf =
    write_at t.info.pdowrite_offset
      (λ c. write_uint8 enable c >>= write_uint8 direction >>= write_uint32 angle) buf
on_command t (single_round_pos_with_speed_limit_control enable direction speed_limit angle) buf =
    write_at t.info.pdowrite_offset
      (λ c.
        write_uint8 enable c
        >>= write_uint8 direction
        >>= write_uint16 speed_limit
        >>= write_uint32 angle)
      buf
on_command t (broadcast_current_control motor1 motor2 motor3 motor4) buf =
    write_at t.info.pdowrite_offset
      (λ c.
        write_int16 motor1 c >>= write_int16 motor2 >>= write_int16 motor3 >>= write_int16 motor4)
      buf

unfoldable pub init_value : LkMotor → List ℕ → Option (List ℕ)
init_value t buf =
    if t.is_broadcast_mode
    then write_at t.info.pdowrite_offset
        (λ c.
          write_int16 (pos 0) c
          >>= write_int16 (pos 0)
          >>= write_int16 (pos 0)
          >>= write_int16 (pos 0))
        buf
    else write_at t.info.pdowrite_offset (write_uint8 0) buf

unfoldable pub read_motor : Cursor → Option (MotorReport × Cursor)
read_motor c = do
  (online, c1) ← read_uint8 c
  (current, c2) ← read_int16 c1
  (speed, c3) ← read_int16 c2
  (encoder, c4) ← read_uint16 c3
  (temperature, c5) ← read_uint8 c4
  some (
    record {
      online = online;
      current = current;
      speed = speed;
      encoder = encoder;
      temperature = temperature;
    },
    c5,
  )

unfoldable pub read_multi : ℕ → Cursor → Option MultiReport
unfolding read_motor
read_multi stamp c = do
  (m1, c1) ← read_motor c
  (m2, c2) ← read_motor c1
  (m3, c3) ← read_motor c2
  (m4, c4) ← read_motor c3
  some (record { stamp = stamp; motor1 = m1; motor2 = m2; motor3 = m3; motor4 = m4 })

unfoldable pub read_single : ℕ → Cursor → Option SingleReport
read_single stamp c = do
  (state_byte, c1) ← read_uint8 c
  (current, c2) ← read_int16 c1
  (speed, c3) ← read_int16 c2
  (encoder, c4) ← read_uint16 c3
  (temperature, c5) ← read_uint8 c4
  some (record {
    stamp = stamp;
    online = low_bits state_byte 1;
    enabled = low_bits (state_byte >>> 2) 1;
    current = current;
    speed = speed;
    encoder = encoder;
    temperature = temperature;
  })

unfoldable pub read : LkMotor → ℕ → List ℕ → Option Report
unfolding read_single read_multi
read t stamp buf =
    if t.is_broadcast_mode
    then (read_multi stamp start >>= λ r. some (multi r))
    else (read_single stamp start >>= λ r. some (single r))
  where
    start : Cursor
    start = record { bytes = buf; offset = t.info.pdoread_offset }

abbrev zero_motor : MotorReport
zero_motor = record { online = 0; current = pos 0; speed = pos 0; encoder = 0; temperature = 0 }

unfoldable pub publish_empty_message : LkMotor → ℕ → Report
publish_empty_message t now =
    if t.is_broadcast_mode
    then multi (record {
      stamp = now;
      motor1 = zero_motor;
      motor2 = zero_motor;
      motor3 = zero_motor;
      motor4 = zero_motor;
    })
    else single (record {
      stamp = now;
      online = 0;
      enabled = 0;
      current = pos 0;
      speed = pos 0;
      encoder = 0;
      temperature = 0;
    })
