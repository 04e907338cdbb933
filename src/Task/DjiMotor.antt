-- ===== src/Task/DjiMotor.antt =====
-- src/soem_wrapper/src/tasks/dji_motor.cpp. The four motors are those of `Quad`, `aux` being the
-- temperature.
pub mod Instance
use ecat_v2_master.Base.{ℕ, List, Option}
use ecat_v2_master.Task.{TaskInfo}
use ecat_v2_master.Task.Quad
use ecat_v2_master.Task.Quad.{Enabled, Commands, Reports}

pub record DjiMotor : Type 0 where
  pub info : TaskInfo
  pub is_motor_enabled : Enabled

unfoldable pub publish_empty_message : DjiMotor → ℕ → Reports
publish_empty_message t now = Quad.empty_message now

unfoldable pub init_value : DjiMotor → List ℕ → Option (List ℕ)
init_value t buf = Quad.init_value t.info.pdowrite_offset buf

unfoldable pub read : DjiMotor → ℕ → List ℕ → Option Reports
read t stamp buf = Quad.read t.is_motor_enabled t.info.pdoread_offset stamp buf

unfoldable pub on_command : DjiMotor → Commands → List ℕ → Option (List ℕ)
on_command t msg buf = Quad.on_command t.is_motor_enabled t.info.pdowrite_offset msg buf
