-- ===== src/Task/Quad/Layout.antt =====
-- What the four-motor code puts on the wire and takes from it.
use ecat_v2_master.Base.{
  ℕ, ◌+◌, ◌≤◌, ◌<◌, ◌^◌, ◌≡◌, refl, ap, ◌∙◌, Bool, true, false, List, [], ◌∷◌, ◌++◌, some, ◌>>=◌,
  when, arith, length, drop, drop_behind, drop_next, replicate, to_unsigned, InRange,
}
use ecat_v2_master.Io.{Cursor, write_uint8}
use ecat_v2_master.Io.Splice.{splice, le_bytes}
use ecat_v2_master.Io.Writing.{write_all, write_all-append, write_int16_lem, writers}
use ecat_v2_master.Io.Stream.{next_uint8, next_uint16, int16_after}
use ecat_v2_master.Task.{write_at}
use ecat_v2_master.Task.Slots.{write_at-splice}
use mathlib.Core.Path.{fun_ext}
use mathlib.Core.List.{append_assoc}
use native.Mathlib.Nat.{add-zero}
use ecat_v2_master.Task.Quad.{
  Enabled, MotorCommand, Commands, MotorReport, Reports, zero_report, write_motor, on_command,
  init_value, read_motor, read,
}

abbrev pub command_bytes : Bool → MotorCommand → List ℕ
command_bytes true m = m.enable ∷ le_bytes 2 (to_unsigned 16 m.cmd)
command_bytes false m = []

-- The commands of the enabled motors, with no gap for the others.
abbrev pub commands_bytes : Enabled → Commands → List ℕ
commands_bytes e msg =
    command_bytes e.motor1 msg.motor1
    ++ command_bytes e.motor2 msg.motor2
    ++ command_bytes e.motor3 msg.motor3
    ++ command_bytes e.motor4 msg.motor4

write_motor_lem :
    (b : Bool) (m : MotorCommand) → when b (write_motor m) ≡ write_all (command_bytes b m)
unfolding write_motor write_all
write_motor_lem true m = fun_ext λ c. ap (λ f. write_uint8 m.enable c >>= f) (write_int16_lem m.cmd)
write_motor_lem false m = refl

write_motor_at :
    (b : Bool) (m : MotorCommand) (c : Cursor)
    → when b (write_motor m) c ≡ write_all (command_bytes b m) c
write_motor_at b m c = rw write_motor_lem

on_command_lem :
    (e : Enabled) (start : ℕ) (msg : Commands) (buf : List ℕ)
    → on_command e start msg buf ≡ write_at start (write_all (commands_bytes e msg)) buf
unfolding on_command
on_command_lem e start msg buf = simp (write_motor_lem, write_motor_at, write_all-append)

pub init_value_lem :
    (start : ℕ) (buf : List ℕ)
    → init_value start buf ≡ write_at start (write_all (replicate 12 0)) buf
unfolding init_value
init_value_lem start buf = simp writers

module _ (e : Enabled) (start : ℕ) (msg : Commands) (buf : List ℕ) where
  -- When there is room, a command puts the bytes of the enabled motors' commands at the task's
  -- offset, with no gap for the others, and leaves the rest of the image.
  pub on_command-commands_bytes :
      start + length (commands_bytes e msg) ≤ length buf
      → on_command e start msg buf ≡ some (splice start (commands_bytes e msg) buf)
  on_command-commands_bytes h = on_command_lem e start msg buf ∙ write_at-splice _ buf start h

-- When there is room, the initial value puts twelve zeros at the task's offset, however many
-- motors are enabled, and leaves the rest of the image.
pub init_value-zeros :
    (start : ℕ) (buf : List ℕ)
    → start + 12 ≤ length buf
    → init_value start buf ≡ some (splice start (replicate 12 0) buf)
init_value-zeros start buf h = init_value_lem start buf ∙ write_at-splice _ buf start h

-- The report of one motor on the wire.
abbrev pub report_bytes : Bool → MotorReport → List ℕ
report_bytes true m =
    m.online ∷ le_bytes 2 m.ecd
    ++ le_bytes 2 (to_unsigned 16 m.rpm)
    ++ le_bytes 2 (to_unsigned 16 m.current)
    ++ m.aux ∷ m.error_code ∷ []
report_bytes false m = []

-- The values that the fields of a report can have.
pub record IsReport (m : MotorReport) : Type 0 where
  pub ecd_fits : m.ecd < 2 ^ 16
  pub rpm_fits : InRange 15 m.rpm
  pub current_fits : InRange 15 m.current

abbrev pub masked : Bool → MotorReport → MotorReport
masked true m = m
masked false m = zero_report

read_motor_lem :
    (b : Bool) (m : MotorReport) (xs : List ℕ) (i : ℕ) (rest : List ℕ)
    → IsReport m
    → drop i xs ≡ report_bytes b m ++ rest
    → read_motor b (record { bytes = xs; offset = i })
      ≡ some (masked b m, record { bytes = xs; offset = i + length (report_bytes b m) })
unfolding read_motor
read_motor_lem false m xs i rest v e = rw add-zero
read_motor_lem true m xs i rest v e =
    let e1 = drop_next i xs e in
    let e2 = drop_behind (i + 1) xs (le_bytes 2 m.ecd) e1 in
    let e3 = drop_behind (i + 1 + 2) xs (le_bytes 2 (to_unsigned 16 m.rpm)) e2 in
    let e4 = drop_behind (i + 1 + 2 + 2) xs (le_bytes 2 (to_unsigned 16 m.current)) e3 in
    let e5 = drop_next (i + 1 + 2 + 2 + 2) xs e4 in
    rw
      (
        next_uint8 xs i e,
        next_uint16 xs (i + 1) m.ecd v.ecd_fits e1,
        int16_after xs (i + 1 + 2) m.rpm v.rpm_fits e2,
        int16_after xs (i + 1 + 2 + 2) m.current v.current_fits e3,
        next_uint8 xs (i + 1 + 2 + 2 + 2) e4,
        next_uint8 xs (i + 1 + 2 + 2 + 2 + 1) e5,
      )
      (ap (λ (n : ℕ). some (m, record { bytes = xs; offset = n })) (omega arith))

-- The reports of the enabled motors, with no gap for the others.
abbrev pub reports_bytes : Enabled → Reports → List ℕ
reports_bytes e r =
    report_bytes e.motor1 r.motor1
    ++ (report_bytes e.motor2 r.motor2
        ++ (report_bytes e.motor3 r.motor3 ++ report_bytes e.motor4 r.motor4))

pub record AreReports (r : Reports) : Type 0 where
  pub motor1 : IsReport r.motor1
  pub motor2 : IsReport r.motor2
  pub motor3 : IsReport r.motor3
  pub motor4 : IsReport r.motor4

abbrev pub all_masked : Enabled → Reports → Reports
all_masked e r = record {
  stamp = r.stamp;
  motor1 = masked e.motor1 r.motor1;
  motor2 = masked e.motor2 r.motor2;
  motor3 = masked e.motor3 r.motor3;
  motor4 = masked e.motor4 r.motor4;
}

-- When the input holds, from the task's offset on, the reports of the enabled motors and no gap
-- for the others, with values that fit their fields, the published message has these reports, and
-- zeros for the motors that are not enabled.
pub read-reports_bytes :
    (e : Enabled) (r : Reports) (start : ℕ) (buf rest : List ℕ)
    → AreReports r
    → drop start buf ≡ reports_bytes e r ++ rest
    → read e start r.stamp buf ≡ some (all_masked e r)
unfolding read
read-reports_bytes e r start buf rest v h =
    let b1 = report_bytes e.motor1 r.motor1 in
    let b2 = report_bytes e.motor2 r.motor2 in
    let b3 = report_bytes e.motor3 r.motor3 in
    let b4 = report_bytes e.motor4 r.motor4 in
    let h1 = h ∙ append_assoc b1 (b2 ++ (b3 ++ b4)) rest in
    let h2 = drop_behind start buf b1 h1 ∙ append_assoc b2 (b3 ++ b4) rest in
    let h3 = drop_behind (start + length b1) buf b2 h2 ∙ append_assoc b3 b4 rest in
    let h4 = drop_behind (start + length b1 + length b2) buf b3 h3 in
    rw (
      read_motor_lem e.motor1 r.motor1 buf start _ v.motor1 h1,
      read_motor_lem e.motor2 r.motor2 buf (start + length b1) _ v.motor2 h2,
      read_motor_lem e.motor3 r.motor3 buf (start + length b1 + length b2) _ v.motor3 h3,
      read_motor_lem e.motor4 r.motor4 buf (start + length b1 + length b2 + length b3) _ v.motor4
          h4,
    )
