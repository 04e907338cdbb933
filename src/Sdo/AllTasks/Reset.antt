-- ===== src/Sdo/AllTasks/Reset.antt =====
-- The initial values of a task of any kind, as bytes at its offset.
use ecat_v2_master.Base.{
  ℕ, ◌+◌, ◌≤◌, ◌≡◌, Bool-cases, inl, inr, refl, sym, ◌∙◌, List, [], ◌∷◌, some, length, replicate,
  >>=-eq-some, if◌then◌else◌,
}
use ecat_v2_master.Io.Splice.{splice}
use ecat_v2_master.Io.Writing.{writers, write_all, write_uint8_lem}
use ecat_v2_master.Task.{write_at}
use ecat_v2_master.Task.Slots.{write_at-splice}
use ecat_v2_master.Task.DjiMotor
use ecat_v2_master.Task.DdMotor
use ecat_v2_master.Task.LkMotor
use ecat_v2_master.Task.LkMotor.{LkMotor}
use ecat_v2_master.Task.DmMotor
use ecat_v2_master.Task.SuperCap
use ecat_v2_master.Task.DjiMotor.Instance.{length-write_all}
use ecat_v2_master.Task.Quad.Layout.{init_value_lem}
use ecat_v2_master.Task.Pwm.{dshot_init_value, onboard_pwm_init_value, external_pwm_init_value}
use ecat_v2_master.Task.Pwm.Channels.{channel_bytes, write_repeated_lem}
use ecat_v2_master.Sdo.TaskList.{
  AnyTask, dbus_rc, lk_motor, hipnuc_imu_can, dshot, dji_motor, onboard_pwm, external_pwm,
  ms5837_30ba, pmu_can, sbus_rc, dm_motor, super_cap, vt13_rc, dd_motor,
}
use ecat_v2_master.Sdo.AllTasks.{info_of, init_value}

-- Zeros for the motors and the super capacitor, the configured value for each channel
abbrev pub init_bytes : AnyTask → List ℕ
init_bytes (lk_motor t) = if t.is_broadcast_mode then replicate 8 0 else 0 ∷ []
init_bytes (dshot t) = channel_bytes (replicate 4 t.init_value)
init_bytes (dji_motor t) = replicate 12 0
init_bytes (onboard_pwm t) = channel_bytes (replicate 4 t.init_value)
init_bytes (external_pwm t) = channel_bytes (replicate t.channel_num t.init_value)
init_bytes (dm_motor t) = 0 ∷ []
init_bytes (super_cap t) = replicate 4 0
init_bytes (dd_motor t) = replicate 12 0
init_bytes _ = []

lk_init :
    (t : LkMotor) (buf : List ℕ)
    → LkMotor.init_value t buf
      ≡ write_at t.info.pdowrite_offset
          (write_all (if t.is_broadcast_mode then replicate 8 0 else 0 ∷ []))
          buf
unfolding LkMotor.init_value
lk_init t buf = elim (Bool-cases t.is_broadcast_mode) [
  | inl b ↦ rw b (simp writers)
  | inr b ↦ rw b (rw write_uint8_lem refl)
]

nothing : (i : ℕ) (buf : List ℕ) → some buf ≡ write_at i (write_all []) buf
unfolding write_all
nothing i buf = refl

init_value-write_at :
    (t : AnyTask) (buf : List ℕ)
    → init_value t buf ≡ write_at (info_of t).pdowrite_offset (write_all (init_bytes t)) buf
unfolding init_value dshot_init_value DjiMotor.init_value onboard_pwm_init_value
    external_pwm_init_value DmMotor.init_value SuperCap.init_value DdMotor.init_value
init_value-write_at (lk_motor t) buf = lk_init t buf
init_value-write_at (dshot t) buf = rw write_repeated_lem refl
init_value-write_at (dji_motor t) buf = init_value_lem t.info.pdowrite_offset buf
init_value-write_at (onboard_pwm t) buf = rw write_repeated_lem refl
init_value-write_at (external_pwm t) buf = rw write_repeated_lem refl
init_value-write_at (dm_motor t) buf = rw write_uint8_lem refl
init_value-write_at (super_cap t) buf = simp writers
init_value-write_at (dd_motor t) buf = init_value_lem t.info.pdowrite_offset buf
init_value-write_at (dbus_rc t) buf = nothing t.pdowrite_offset buf
init_value-write_at (hipnuc_imu_can t) buf = nothing t.info.pdowrite_offset buf
init_value-write_at (ms5837_30ba t) buf = nothing t.pdowrite_offset buf
init_value-write_at (pmu_can t) buf = nothing t.pdowrite_offset buf
init_value-write_at (sbus_rc t) buf = nothing t.pdowrite_offset buf
init_value-write_at (vt13_rc t) buf = nothing t.pdowrite_offset buf

-- When there is room, init_value of a task of any class puts the class's initial values at the
-- task's offset and leaves the rest of the image; the classes that only read have none.
pub init_value-splice :
    (t : AnyTask) (buf : List ℕ)
    → (info_of t).pdowrite_offset + length (init_bytes t) ≤ length buf
    → init_value t buf ≡ some (splice (info_of t).pdowrite_offset (init_bytes t) buf)
init_value-splice t buf h =
    init_value-write_at t buf ∙ write_at-splice (init_bytes t) buf (info_of t).pdowrite_offset h

pub length-init_value_lem :
    (t : AnyTask) (buf : List ℕ) {buf' : List ℕ}
    → init_value t buf ≡ some buf'
    → length buf' ≡ length buf
length-init_value_lem t buf e =
    let i = (info_of t).pdowrite_offset in
    let (c, p, q) =
      >>=-eq-some (write_all (init_bytes t) (record { bytes = buf; offset = i })) _
        (sym (init_value-write_at t buf) ∙ e) in
    cc (q, length-write_all (init_bytes t) (record { bytes = buf; offset = i }) p)
