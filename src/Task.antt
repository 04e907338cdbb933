-- ===== src/Task.antt =====
-- src/soem_wrapper/include/soem_wrapper/task_defs.hpp and src/soem_wrapper/src/utils/task_utils.cpp:
-- what the tasks of a slave share. A driver's method gets the buffer of its slave device as an
-- argument and returns the buffer that it leaves; a time stamp is a number.
pub mod Slots
pub mod Quad
pub mod DjiMotor
pub mod DdMotor
pub mod SuperCap
pub mod Pwm
pub mod Class
pub mod DmMotor
pub mod DbusRc
pub mod Vt13Rc
pub mod Remote
pub mod SbusRc
pub mod LkMotor
pub mod HipnucImu
pub mod Pressure
pub mod PmuCan
pub mod Room
use ecat_v2_master.Base.{ℕ, List, Option, some, Bool, ◌>>=◌}
use ecat_v2_master.Io.{Cursor}

-- The fields of `TaskWrapper`.
pub record TaskInfo : Type 0 where
  pub type_id : ℕ
  pub has_publishers : Bool
  pub has_subscribers : Bool
  pub pdowrite_offset : ℕ
  pub pdoread_offset : ℕ
  pub connection_lost_read_action : ℕ
  pub connection_lost_write_action : ℕ

-- int offset = start; … write(…, buf, &offset); …
abbrev pub write_at : ℕ → (Cursor → Option Cursor) → List ℕ → Option (List ℕ)
write_at start writes buf = writes (record { bytes = buf; offset = start }) >>= λ c. some c.bytes
