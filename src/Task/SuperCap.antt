-- ===== src/Task/SuperCap.antt =====
-- src/soem_wrapper/src/tasks/super_cap.cpp.
pub mod Layout
use ecat_v2_master.Base.{ℕ, ◌+◌, List, Option, some, ◌>>=◌}
use ecat_v2_master.Io.{Cursor, write_uint8, read_uint8}
use ecat_v2_master.Task.{TaskInfo, write_at}

pub record WriteSuperCap : Type 0 where
  pub cap_enable : ℕ
  pub do_charge : ℕ
  pub max_charge_power : ℕ
  pub allow_charge_power : ℕ

pub record ReadSuperCap : Type 0 where
  pub stamp : ℕ
  pub online : ℕ
  pub cap_valid : ℕ
  pub cap_status : ℕ
  pub cap_remain_percentage : ℕ
  pub chassis_power : ℕ
  pub battery_voltage : ℕ
  pub chassis_only_power : ℕ

unfoldable pub publish_empty_message : ℕ → ReadSuperCap
publish_empty_message now = record {
  stamp = now;
  online = 0;
  cap_valid = 0;
  cap_status = 0;
  cap_remain_percentage = 0;
  chassis_power = 0;
  battery_voltage = 0;
  chassis_only_power = 0;
}

unfoldable pub read : TaskInfo → ℕ → List ℕ → Option ReadSuperCap
read t stamp buf = do
  (online, c1) ← read_uint8 (record { bytes = buf; offset = t.pdoread_offset })
  (cap_valid, c2) ← read_uint8 c1
  (cap_status, c3) ← read_uint8 c2
  (cap_remain_percentage, c4) ← read_uint8 c3
  (chassis_power, c5) ← read_uint8 c4
  (battery_voltage, c6) ← read_uint8 c5
  (chassis_only_power, c7) ← read_uint8 c6
  some (record {
    stamp = stamp;
    online = online;
    cap_valid = cap_valid;
    cap_status = cap_status;
    cap_remain_percentage = cap_remain_percentage;
    chassis_power = chassis_power;
    battery_voltage = battery_voltage;
    chassis_only_power = chassis_only_power;
  })

unfoldable pub init_value : TaskInfo → List ℕ → Option (List ℕ)
init_value t buf =
    write_at t.pdowrite_offset
      (λ c. write_uint8 0 c >>= write_uint8 0 >>= write_uint8 0 >>= write_uint8 0) buf

unfoldable pub on_command : TaskInfo → WriteSuperCap → List ℕ → Option (List ℕ)
on_command t msg buf =
    write_at t.pdowrite_offset
      (λ c.
        write_uint8 msg.cap_enable c
        >>= write_uint8 msg.do_charge
        >>= write_uint8 msg.max_charge_power
        >>= write_uint8 msg.allow_charge_power)
      buf
