-- ===== src/Task/LkMotor/Layout.antt =====
-- The bytes of the motor's commands and reports.
use ecat_v2_master.Base.{
  ℕ, ◌+◌, ◌/◌, ◌%◌, ◌^◌, ◌≤◌, ◌<◌, ◌≡◌, ap, ◌∙◌, true, false, List, [], ◌∷◌, ◌++◌, some, length,
  drop, drop_next, drop_behind, replicate, arith, to_unsigned, InRange,
}
use ecat_v2_master.Io.Splice.{splice, le_bytes}
use ecat_v2_master.Io.Writing.{write_all, writers, write_uint8_lem}
use ecat_v2_master.Io.Stream.{next_uint8, next_uint16, int16_after}
use ecat_v2_master.Task.{write_at}
use ecat_v2_master.Task.Slots.{write_at-splice}
use ecat_v2_master.Task.LkMotor.{
  LkMotor, MotorReport, MultiReport, single, multi, Command, openloop_control, torque_control,
  speed_with_torque_limit_control, multi_round_pos_control,
  multi_round_pos_with_speed_limit_control, single_round_pos_control,
  single_round_pos_with_speed_limit_control, broadcast_current_control, on_command, init_value,
  read_motor, read_multi, read_single, read,
}

abbrev pub command_bytes : Command → List ℕ
command_bytes (openloop_control e t) = e ∷ le_bytes 2 (to_unsigned 16 t)
command_bytes (torque_control e t) = e ∷ le_bytes 2 (to_unsigned 16 t)
command_bytes (speed_with_torque_limit_control e t s) =
    e ∷ le_bytes 2 (to_unsigned 16 t) ++ le_bytes 4 (to_unsigned 32 s)
command_bytes (multi_round_pos_control e a) = e ∷ le_bytes 4 (to_unsigned 32 a)
command_bytes (multi_round_pos_with_speed_limit_control e s a) =
    e ∷ le_bytes 2 s ++ le_bytes 4 (to_unsigned 32 a)
command_bytes (single_round_pos_control e d a) = e ∷ d ∷ le_bytes 4 a
command_bytes (single_round_pos_with_speed_limit_control e d s a) =
    e ∷ d ∷ le_bytes 2 s ++ le_bytes 4 a
command_bytes (broadcast_current_control a b c d) =
    le_bytes 2 (to_unsigned 16 a)
    ++ le_bytes 2 (to_unsigned 16 b)
    ++ le_bytes 2 (to_unsigned 16 c)
    ++ le_bytes 2 (to_unsigned 16 d)

on_command_lem :
    (t : LkMotor) (cmd : Command) (buf : List ℕ)
    → on_command t cmd buf ≡ write_at t.info.pdowrite_offset (write_all (command_bytes cmd)) buf
unfolding on_command
on_command_lem t (openloop_control e a) buf = simp writers
on_command_lem t (torque_control e a) buf = simp writers
on_command_lem t (speed_with_torque_limit_control e a s) buf = simp writers
on_command_lem t (multi_round_pos_control e a) buf = simp writers
on_command_lem t (multi_round_pos_with_speed_limit_control e s a) buf = simp writers
on_command_lem t (single_round_pos_control e d a) buf = simp writers
on_command_lem t (single_round_pos_with_speed_limit_control e d s a) buf = simp writers
on_command_lem t (broadcast_current_control a b c d) buf = simp writers

-- When there is room, each of the eight kinds of command puts its bytes at the task's offset and
-- leaves the rest of the image.
pub on_command-splice :
    (t : LkMotor) (cmd : Command) (buf : List ℕ)
    → t.info.pdowrite_offset + length (command_bytes cmd) ≤ length buf
    → on_command t cmd buf ≡ some (splice t.info.pdowrite_offset (command_bytes cmd) buf)
on_command-splice t cmd buf h = on_command_lem t cmd buf ∙ write_at-splice _ buf _ h

pub init_value_broadcast :
    (t : LkMotor) (buf : List ℕ)
    → t.is_broadcast_mode ≡ true
    → t.info.pdowrite_offset + 8 ≤ length buf
    → init_value t buf ≡ some (splice t.info.pdowrite_offset (replicate 8 0) buf)
unfolding init_value
init_value_broadcast t buf b h = rw b (simp writers (write_at-splice (replicate 8 0) buf _ h))

pub init_value_single :
    (t : LkMotor) (buf : List ℕ)
    → t.is_broadcast_mode ≡ false
    → t.info.pdowrite_offset + 1 ≤ length buf
    → init_value t buf ≡ some (splice t.info.pdowrite_offset (0 ∷ []) buf)
unfolding init_value
init_value_single t buf b h = rw b (rw write_uint8_lem (write_at-splice (0 ∷ []) buf _ h))

abbrev pub motor_bytes : MotorReport → List ℕ
motor_bytes m =
    m.online ∷ le_bytes 2 (to_unsigned 16 m.current)
    ++ le_bytes 2 (to_unsigned 16 m.speed)
    ++ le_bytes 2 m.encoder
    ++ m.temperature ∷ []

pub record IsReport (m : MotorReport) : Type 0 where
  pub current_fits : InRange 15 m.current
  pub speed_fits : InRange 15 m.speed
  pub encoder_fits : m.encoder < 2 ^ 16

module _ (xs : List ℕ) (i : ℕ) {rest : List ℕ} (m : MotorReport) (v : IsReport m) where
  -- The five fields, wherever the offset stands.
  read_motor_lem :
      drop i xs ≡ motor_bytes m ++ rest
      → read_motor (record { bytes = xs; offset = i })
        ≡ some (m, record { bytes = xs; offset = i + 8 })
  unfolding read_motor
  read_motor_lem e =
      let e1 = drop_next i xs e in
      let e2 = drop_behind (i + 1) xs (le_bytes 2 (to_unsigned 16 m.current)) e1 in
      let e3 = drop_behind (i + 1 + 2) xs (le_bytes 2 (to_unsigned 16 m.speed)) e2 in
      let e4 = drop_behind (i + 1 + 2 + 2) xs (le_bytes 2 m.encoder) e3 in
      rw
        (
          next_uint8 xs i e,
          int16_after xs (i + 1) m.current v.current_fits e1,
          int16_after xs (i + 1 + 2) m.speed v.speed_fits e2,
          next_uint16 xs (i + 1 + 2 + 2) m.encoder v.encoder_fits e3,
          next_uint8 xs (i + 1 + 2 + 2 + 2) e4,
        )
        (ap (λ (n : ℕ). some (m, record { bytes = xs; offset = n })) (omega arith))

-- Four motors' reports in a row are what a broadcast task publishes.
module _ (t : LkMotor) (buf rest : List ℕ) where
  -- When the input of a broadcast task holds four motors' reports in a row from the task's offset
  -- on, with values that fit their fields, the published message has these reports.
  read-multi :
      (r : MultiReport)
      → t.is_broadcast_mode ≡ true
      → IsReport r.motor1
      → IsReport r.motor2
      → IsReport r.motor3
      → IsReport r.motor4
      → drop t.info.pdoread_offset buf
        ≡ motor_bytes r.motor1
          ++ (motor_bytes r.motor2 ++ (motor_bytes r.motor3 ++ (motor_bytes r.motor4 ++ rest)))
      → read t r.stamp buf ≡ some (multi r)
  unfolding read read_multi
  read-multi r b v1 v2 v3 v4 e =
      let i = t.info.pdoread_offset in
      let e1 = drop_behind i buf (motor_bytes r.motor1) e in
      let e2 = drop_behind (i + 8) buf (motor_bytes r.motor2) e1 in
      let e3 = drop_behind (i + 8 + 8) buf (motor_bytes r.motor3) e2 in
      rw (
        b,
        read_motor_lem buf i r.motor1 v1 e,
        read_motor_lem buf (i + 8) r.motor2 v2 e1,
        read_motor_lem buf (i + 8 + 8) r.motor3 v3 e2,
        read_motor_lem buf (i + 8 + 8 + 8) r.motor4 v4 e3,
      )

  -- When the input of a task with one motor holds a report from the task's offset on, with a state
  -- byte in front and values that fit their fields, the published message has the report's values,
  -- bit 0 of the state byte as online and bit 2 as enabled.
  read-single :
      (stamp state_byte : ℕ) (m : MotorReport)
      → t.is_broadcast_mode ≡ false
      → IsReport m
      → drop t.info.pdoread_offset buf ≡ motor_bytes (record m { online = state_byte }) ++ rest
      → read t stamp buf
        ≡ some (
            single (record {
              stamp = stamp;
              online = state_byte % 2;
              enabled = (state_byte / 4) % 2;
              current = m.current;
              speed = m.speed;
              encoder = m.encoder;
              temperature = m.temperature;
            }))
  unfolding read read_single
  read-single stamp state_byte m b v e =
      let i = t.info.pdoread_offset in
      let e1 = drop_next i buf e in
      let e2 = drop_behind (i + 1) buf (le_bytes 2 (to_unsigned 16 m.current)) e1 in
      let e3 = drop_behind (i + 1 + 2) buf (le_bytes 2 (to_unsigned 16 m.speed)) e2 in
      let e4 = drop_behind (i + 1 + 2 + 2) buf (le_bytes 2 m.encoder) e3 in
      rw (
        b,
        next_uint8 buf i e,
        int16_after buf (i + 1) m.current v.current_fits e1,
        int16_after buf (i + 1 + 2) m.speed v.speed_fits e2,
        next_uint16 buf (i + 1 + 2 + 2) m.encoder v.encoder_fits e3,
        next_uint8 buf (i + 1 + 2 + 2 + 2) e4,
      )
