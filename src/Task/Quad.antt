-- ===== src/Task/Quad.antt =====
-- The code that src/soem_wrapper/src/tasks/dji_motor.cpp and dd_motor.cpp both spell out for the
-- four motors on one CAN packet. `aux` is `motorN_temperature` in the one, `motorN_mode` in the
-- other; a message's fields are grouped by motor.
pub mod Layout
pub mod Room
use ecat_v2_master.Base.{ℕ, ℤ, pos, Bool, true, false, List, Option, some, ◌>>=◌, when}
use ecat_v2_master.Io.{Cursor, write_uint8, write_int16, read_uint8, read_uint16, read_int16}
use ecat_v2_master.Task.{write_at}

-- is_motor_enabled[0 … 3]
pub record Enabled : Type 0 where
  pub motor1 : Bool
  pub motor2 : Bool
  pub motor3 : Bool
  pub motor4 : Bool

pub record MotorCommand : Type 0 where
  pub enable : ℕ
  pub cmd : ℤ

pub record Commands : Type 0 where
  pub motor1 : MotorCommand
  pub motor2 : MotorCommand
  pub motor3 : MotorCommand
  pub motor4 : MotorCommand

pub record MotorReport : Type 0 where
  pub online : ℕ
  pub ecd : ℕ
  pub rpm : ℤ
  pub current : ℤ
  pub aux : ℕ
  pub error_code : ℕ

pub record Reports : Type 0 where
  pub stamp : ℕ
  pub motor1 : MotorReport
  pub motor2 : MotorReport
  pub motor3 : MotorReport
  pub motor4 : MotorReport

abbrev pub zero_report : MotorReport
zero_report = record { online = 0; ecd = 0; rpm = pos 0; current = pos 0; aux = 0; error_code = 0 }

write_motor : MotorCommand → Cursor → Option Cursor
write_motor m c = write_uint8 m.enable c >>= write_int16 m.cmd

unfoldable pub on_command : Enabled → ℕ → Commands → List ℕ → Option (List ℕ)
unfolding write_motor
on_command e pdowrite_offset msg buf =
    write_at pdowrite_offset
      (λ c.
        when e.motor1 (write_motor msg.motor1) c
        >>= when e.motor2 (write_motor msg.motor2)
        >>= when e.motor3 (write_motor msg.motor3)
        >>= when e.motor4 (write_motor msg.motor4))
      buf

unfoldable pub init_value : ℕ → List ℕ → Option (List ℕ)
init_value pdowrite_offset buf =
    write_at pdowrite_offset
      (λ c.
        write_uint8 0 c
        >>= write_int16 (pos 0)
        >>= write_uint8 0
        >>= write_int16 (pos 0)
        >>= write_uint8 0
        >>= write_int16 (pos 0)
        >>= write_uint8 0
        >>= write_int16 (pos 0))
      buf

read_motor : Bool → Cursor → Option (MotorReport × Cursor)
read_motor true c = do
  (online, c1) ← read_uint8 c
  (ecd, c2) ← read_uint16 c1
  (rpm, c3) ← read_int16 c2
  (current, c4) ← read_int16 c3
  (aux, c5) ← read_uint8 c4
  (error_code, c6) ← read_uint8 c5
  some (
    record {
      online = online;
      ecd = ecd;
      rpm = rpm;
      current = current;
      aux = aux;
      error_code = error_code;
    },
    c6,
  )
read_motor false c = some (zero_report, c)

unfoldable pub read : Enabled → ℕ → ℕ → List ℕ → Option Reports
unfolding read_motor
read e pdoread_offset stamp buf = do
  (m1, c1) ← read_motor e.motor1 (record { bytes = buf; offset = pdoread_offset })
  (m2, c2) ← read_motor e.motor2 c1
  (m3, c3) ← read_motor e.motor3 c2
  (m4, c4) ← read_motor e.motor4 c3
  some (record { stamp = stamp; motor1 = m1; motor2 = m2; motor3 = m3; motor4 = m4 })

unfoldable pub empty_message : ℕ → Reports
empty_message now = record {
  stamp = now;
  motor1 = zero_report;
  motor2 = zero_report;
  motor3 = zero_report;
  motor4 = zero_report;
}
