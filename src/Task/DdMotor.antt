-- ===== src/Task/DdMotor.antt =====
-- src/soem_wrapper/src/tasks/dd_motor.cpp. The four motors are those of `Quad`, `aux` being the
-- mode.
use ecat_v2_master.Base.{ℕ, List, Option}
use ecat_v2_master.Task.{TaskInfo}
use ecat_v2_master.Task.Quad
use ecat_v2_master.Task.Quad.{Enabled, Commands, Reports}

pub record DdMotor : Type 0 where
  pub info : TaskInfo
  pub is_motor_enabled : Enabled

unfoldable pub publish_empty_message : DdMotor → ℕ → Reports
publish_empty_message t now = Quad.empty_message now

unfoldable pub init_value : DdMotor → List ℕ → Option (List ℕ)
init_value t buf = Quad.init_value t.info.pdowrite_offset buf

unfoldable pub read : DdMotor → ℕ → List ℕ → Option Reports
read t stamp buf = Quad.read t.is_motor_enabled t.info.pdoread_offset stamp buf

unfoldable pub on_command : DdMotor → Commands → List ℕ → Option (List ℕ)
on_command t msg buf = Quad.on_command t.is_motor_enabled t.info.pdowrite_offset msg buf
