-- ===== src/Examples/Tasks.antt =====
-- The other drivers on small buffers.
use ecat_v2_master.Base.{◌≡◌, true, false, [], ◌∷◌, none, some, replicate, pos, negsuc, arith}
use ecat_v2_master.Io.Splice.{splice}
use ecat_v2_master.Task.{TaskInfo}
use ecat_v2_master.Task.LkMotor
use ecat_v2_master.Task.LkMotor.{
  LkMotor, MotorReport, MultiReport, speed_with_torque_limit_control, multi, single,
}
use ecat_v2_master.Task.LkMotor.Layout.{command_bytes, on_command-splice}
use ecat_v2_master.Task.Pwm.{ExternalPwm, external_pwm_on_command}
use ecat_v2_master.Task.Pwm.Channels.{external_pwm_on_command-overrun}

-- A task that writes from byte 2 on and reads from byte 1 on
abbrev offsets : TaskInfo
offsets = record {
  type_id = 5;
  has_publishers = true;
  has_subscribers = true;
  pdowrite_offset = 2;
  pdoread_offset = 1;
  connection_lost_read_action = 2;
  connection_lost_write_action = 2;
}

abbrev one_motor : LkMotor
one_motor = record { info = offsets; is_broadcast_mode = false }

abbrev four_motors : LkMotor
four_motors = record { info = offsets; is_broadcast_mode = true }

on_command-splice_example :
    LkMotor.on_command one_motor
      (speed_with_torque_limit_control 1 (negsuc 9) (pos 70000))
      (replicate 12 0)
    ≡ some (
        splice 2
          (command_bytes (speed_with_torque_limit_control 1 (negsuc 9) (pos 70000)))
          (replicate 12 0))
on_command-splice_example =
    on_command-splice one_motor (speed_with_torque_limit_control 1 (negsuc 9) (pos 70000))
      (replicate 12 0) (omega arith)

abbrev motor : MotorReport
motor = record {
  online = 1;
  current = negsuc 4;
  speed = pos 360;
  encoder = 16383;
  temperature = 40;
}

abbrev four_reports : MultiReport
four_reports = record { stamp = 6; motor1 = motor; motor2 = motor; motor3 = motor; motor4 = motor }

abbrev three_channels : ExternalPwm
three_channels = record { info = offsets; init_value = 1000; channel_num = 3 }

external_pwm_on_command-overrun_example :
    external_pwm_on_command three_channels (1500 ∷ 1600 ∷ []) (replicate 10 0) ≡ none
external_pwm_on_command-overrun_example =
    external_pwm_on_command-overrun three_channels (1500 ∷ 1600 ∷ []) (replicate 10 0) (omega arith)
