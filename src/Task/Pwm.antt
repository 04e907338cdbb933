-- ===== src/Task/Pwm.antt =====
-- src/soem_wrapper/src/tasks/dshot.cpp, onboard_pwm.cpp and external_pwm.cpp: tasks of a number of
-- 16-bit channels.
pub mod Channels
use ecat_v2_master.Base.{ℕ, zero, suc, ◌+◌, List, Option, some, get_elem?, ◌>>=◌}
use ecat_v2_master.Io.{Cursor, write_uint16}
use ecat_v2_master.Task.{TaskInfo, write_at}

-- The two tasks with four channels have the same fields and bodies.
pub record FourChannels : Type 0 where
  pub info : TaskInfo
  pub init_value : ℕ

pub record ExternalPwm : Type 0 where
  pub info : TaskInfo
  pub init_value : ℕ
  pub channel_num : ℕ

-- The messages of the two tasks with four channels have the same fields.
pub record WriteChannels : Type 0 where
  pub channel1 : ℕ
  pub channel2 : ℕ
  pub channel3 : ℕ
  pub channel4 : ℕ

-- for (…) write_uint16(init_value_, …), with the rounds left
pub write_repeated : ℕ → ℕ → Cursor → Option Cursor
write_repeated zero v c = some c
write_repeated (suc rounds) v c = write_uint16 v c >>= write_repeated rounds v

write_four : WriteChannels → Cursor → Option Cursor
write_four msg c =
    write_uint16 msg.channel1 c
    >>= write_uint16 msg.channel2
    >>= write_uint16 msg.channel3
    >>= write_uint16 msg.channel4

unfoldable pub dshot_init_value : FourChannels → List ℕ → Option (List ℕ)
dshot_init_value t buf = write_at t.info.pdowrite_offset (write_repeated 4 t.init_value) buf

unfoldable pub dshot_on_command : FourChannels → WriteChannels → List ℕ → Option (List ℕ)
unfolding write_four
dshot_on_command t msg buf = write_at t.info.pdowrite_offset (write_four msg) buf

unfoldable pub onboard_pwm_init_value : FourChannels → List ℕ → Option (List ℕ)
onboard_pwm_init_value t buf = write_at t.info.pdowrite_offset (write_repeated 4 t.init_value) buf

unfoldable pub onboard_pwm_on_command : FourChannels → WriteChannels → List ℕ → Option (List ℕ)
unfolding write_four
onboard_pwm_on_command t msg buf = write_at t.info.pdowrite_offset (write_four msg) buf

-- The loop from `i` on. An index past the end of `msg->channels` is undefined.
pub write_channels : ℕ → ℕ → List ℕ → Cursor → Option Cursor
write_channels zero i channels c = some c
write_channels (suc rounds) i channels c =
    get_elem? channels i >>= λ v. write_uint16 v c >>= write_channels rounds (i + 1) channels

unfoldable pub external_pwm_init_value : ExternalPwm → List ℕ → Option (List ℕ)
external_pwm_init_value t buf =
    write_at t.info.pdowrite_offset (write_repeated t.channel_num t.init_value) buf

unfoldable pub external_pwm_on_command : ExternalPwm → List ℕ → List ℕ → Option (List ℕ)
external_pwm_on_command t channels buf =
    write_at t.info.pdowrite_offset (write_channels t.channel_num 0 channels) buf
