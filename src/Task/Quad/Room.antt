-- ===== src/Task/Quad/Room.antt =====
-- The motor tasks stay inside a buffer that has room for all four motors.
use ecat_v2_master.Base.{
  ◌++◌, length-append, ℕ, ◌+◌, ◌≤◌, ◌≡◌, refl, ◌∙◌, Bool, true, false, List, arith, length, Runs,
  Runs-bind,
}
use ecat_v2_master.Io.{Cursor, read_uint8, read_uint16, read_int16}
use ecat_v2_master.Io.Room.{Past, read_uint8-Runs, read_uint16-Runs, read_int16-Runs}
use ecat_v2_master.Io.Splice.{splice, length-splice}
use ecat_v2_master.Task.Quad.{
  Enabled, MotorCommand, Commands, on_command, read_motor, read, init_value,
}
use ecat_v2_master.Task.Quad.Layout.{
  init_value-zeros, command_bytes, commands_bytes, on_command-commands_bytes,
}

read_motor-Runs :
    (b : Bool) (xs : List ℕ) (c : Cursor) (n : ℕ)
    → c.bytes ≡ xs
    → c.offset ≤ n
    → n + 9 ≤ length xs
    → Runs (Past xs (n + 9)) (read_motor b c)
unfolding read_motor
read_motor-Runs false xs c n e h k = (_, refl, (e, omega (arith, h)))
read_motor-Runs true xs c n e h k =
    Runs-bind (Past xs (n + 1)) (Past xs (n + 9)) (read_uint8 c) _
      (read_uint8-Runs xs c n e h (omega (arith, k)))
      λ (online, c1) (e1, h1).
        Runs-bind (Past xs (n + 1 + 2)) (Past xs (n + 9)) (read_uint16 c1) _
          (read_uint16-Runs xs c1 (n + 1) e1 h1 (omega (arith, k)))
          λ (ecd, c2) (e2, h2).
            Runs-bind (Past xs (n + 1 + 2 + 2)) (Past xs (n + 9)) (read_int16 c2) _
              (read_int16-Runs xs c2 (n + 1 + 2) e2 h2 (omega (arith, k)))
              λ (rpm, c3) (e3, h3).
                Runs-bind (Past xs (n + 1 + 2 + 2 + 2)) (Past xs (n + 9)) (read_int16 c3) _
                  (read_int16-Runs xs c3 (n + 1 + 2 + 2) e3 h3 (omega (arith, k)))
                  λ (current, c4) (e4, h4).
                    Runs-bind (Past xs (n + 1 + 2 + 2 + 2 + 1)) (Past xs (n + 9)) (read_uint8 c4) _
                      (read_uint8-Runs xs c4 (n + 1 + 2 + 2 + 2) e4 h4 (omega (arith, k)))
                      λ (aux, c5) (e5, h5).
                        Runs-bind (Past xs (n + 1 + 2 + 2 + 2 + 1 + 1)) (Past xs (n + 9))
                          (read_uint8 c5) _
                          (read_uint8-Runs xs c5 (n + 1 + 2 + 2 + 2 + 1) e5 h5 (omega (arith, k)))
                          λ (error_code, c6) (e6, h6). (_, refl, (e6, omega (arith, h6)))

pub read-Runs :
    (e : Enabled) (start stamp : ℕ) (xs : List ℕ)
    → start + 36 ≤ length xs
    → Runs (λ r. Unit {0}) (read e start stamp xs)
unfolding read
read-Runs e start stamp xs k =
    Runs-bind (Past xs (start + 9)) (λ r. Unit)
      (read_motor e.motor1 (record { bytes = xs; offset = start })) _
      (read_motor-Runs e.motor1 xs (record { bytes = xs; offset = start }) start refl (omega arith)
        (omega (arith, k)))
      λ (m1, c1) (e1, h1).
        Runs-bind (Past xs (start + 9 + 9)) (λ r. Unit) (read_motor e.motor2 c1) _
          (read_motor-Runs e.motor2 xs c1 (start + 9) e1 h1 (omega (arith, k)))
          λ (m2, c2) (e2, h2).
            Runs-bind (Past xs (start + 9 + 9 + 9)) (λ r. Unit) (read_motor e.motor3 c2) _
              (read_motor-Runs e.motor3 xs c2 (start + 9 + 9) e2 h2 (omega (arith, k)))
              λ (m3, c3) (e3, h3).
                Runs-bind (Past xs (start + 9 + 9 + 9 + 9)) (λ r. Unit) (read_motor e.motor4 c3) _
                  (read_motor-Runs e.motor4 xs c3 (start + 9 + 9 + 9) e3 h3 (omega (arith, k)))
                  λ (m4, c4) p. (_, refl, tt)

pub init_value-Runs :
    (start : ℕ) (xs : List ℕ) → start + 12 ≤ length xs → Runs (λ b. Unit {0}) (init_value start xs)
init_value-Runs start xs k = (_, init_value-zeros start xs k, tt)

command_bytes-small : (b : Bool) (m : MotorCommand) → length (command_bytes b m) ≤ 3
command_bytes-small true m = omega arith
command_bytes-small false m = omega arith

commands_bytes-small : (e : Enabled) (msg : Commands) → length (commands_bytes e msg) ≤ 12
commands_bytes-small e msg =
    let c1 = command_bytes e.motor1 msg.motor1 in
    let c2 = command_bytes e.motor2 msg.motor2 in
    let c3 = command_bytes e.motor3 msg.motor3 in
    let c4 = command_bytes e.motor4 msg.motor4 in
    omega (
      arith,
      length-append c1 c2,
      length-append (c1 ++ c2) c3,
      length-append (c1 ++ c2 ++ c3) c4,
      command_bytes-small e.motor1 msg.motor1,
      command_bytes-small e.motor2 msg.motor2,
      command_bytes-small e.motor3 msg.motor3,
      command_bytes-small e.motor4 msg.motor4,
    )

-- A command leaves the image's size.
pub on_command-Runs :
    (e : Enabled) (start n : ℕ) (msg : Commands) (xs : List ℕ)
    → length xs ≡ n
    → start + 12 ≤ n
    → Runs (λ b. length b ≡ n) (on_command e start msg xs)
on_command-Runs e start n msg xs h k = (
  splice start (commands_bytes e msg) xs,
  on_command-commands_bytes e start msg xs (omega (arith, commands_bytes-small e msg, h, k)),
  length-splice start (commands_bytes e msg) xs ∙ h,
)
