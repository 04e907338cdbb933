-- ===== src/Sdo/AllTasks.antt =====
-- Tasks of all kinds in one list: the virtual methods of `TaskWrapper` on each of its subclasses
-- (src/soem_wrapper/include/soem_wrapper/task_defs.hpp), and the defaults of
-- src/soem_wrapper/src/utils/task_utils.cpp, which only log.
--
-- The static messages that keep a value from one read to the next are `Statics`; all tasks of a
-- class share one. A float of the configuration is its bit pattern, which `of_bits` reads.
pub mod Reset
pub mod Fitting
pub mod Stale
use ecat_v2_master.Base.{ℕ, Bool, List, [], ◌∷◌, Option, some, ◌>>=◌}
use ecat_v2_master.Float.{Float}
use ecat_v2_master.Io.Half.{Powers}
use ecat_v2_master.Task.{TaskInfo}
use ecat_v2_master.Task.Quad.{Reports}
use ecat_v2_master.Task.DjiMotor
use ecat_v2_master.Task.DdMotor
use ecat_v2_master.Task.LkMotor
use ecat_v2_master.Task.DmMotor
use ecat_v2_master.Task.DmMotor.{DmMotor, ReadDmMotor}
use ecat_v2_master.Task.SuperCap
use ecat_v2_master.Task.SuperCap.{ReadSuperCap}
use ecat_v2_master.Task.Pwm.{dshot_init_value, onboard_pwm_init_value, external_pwm_init_value}
use ecat_v2_master.Task.DbusRc
use ecat_v2_master.Task.DbusRc.{ReadDjiRc}
use ecat_v2_master.Task.Vt13Rc
use ecat_v2_master.Task.Vt13Rc.{ReadVt13Rc}
use ecat_v2_master.Task.SbusRc
use ecat_v2_master.Task.SbusRc.{ReadSbusRc}
use ecat_v2_master.Task.HipnucImu
use ecat_v2_master.Task.HipnucImu.{Imu}
use ecat_v2_master.Task.Pressure
use ecat_v2_master.Task.Pressure.{ReadMs5837Ba30}
use ecat_v2_master.Task.PmuCan
use ecat_v2_master.Task.PmuCan.{ReadCanPmu}
use ecat_v2_master.Sdo.TaskList.{
  AnyTask, dbus_rc, lk_motor, hipnuc_imu_can, dshot, dji_motor, onboard_pwm, external_pwm,
  ms5837_30ba, pmu_can, sbus_rc, dm_motor, super_cap, vt13_rc, dd_motor,
}

abbrev pub info_of : AnyTask → TaskInfo
info_of (dbus_rc t) = t
info_of (lk_motor t) = t.info
info_of (hipnuc_imu_can t) = t.info
info_of (dshot t) = t.info
info_of (dji_motor t) = t.info
info_of (onboard_pwm t) = t.info
info_of (external_pwm t) = t.info
info_of (ms5837_30ba t) = t
info_of (pmu_can t) = t
info_of (sbus_rc t) = t
info_of (dm_motor t) = t.info
info_of (super_cap t) = t
info_of (vt13_rc t) = t
info_of (dd_motor t) = t.info

-- The classes without an override keep `TaskWrapper::init_value`.
unfoldable pub init_value : AnyTask → List ℕ → Option (List ℕ)
init_value (lk_motor t) buf = LkMotor.init_value t buf
init_value (dshot t) buf = dshot_init_value t buf
init_value (dji_motor t) buf = DjiMotor.init_value t buf
init_value (onboard_pwm t) buf = onboard_pwm_init_value t buf
init_value (external_pwm t) buf = external_pwm_init_value t buf
init_value (dm_motor t) buf = DmMotor.init_value t.info buf
init_value (super_cap t) buf = SuperCap.init_value t buf
init_value (dd_motor t) buf = DdMotor.init_value t buf
init_value (dbus_rc t) buf = some buf
init_value (hipnuc_imu_can t) buf = some buf
init_value (ms5837_30ba t) buf = some buf
init_value (pmu_can t) buf = some buf
init_value (sbus_rc t) buf = some buf
init_value (vt13_rc t) buf = some buf

pub data AnyMessage (R : Type 0) : Type 0 where
  read_djirc : ReadDjiRc R → AnyMessage R
  read_lk_motor : LkMotor.Report → AnyMessage R
  imu : Imu R → AnyMessage R
  read_dji_motor : Reports → AnyMessage R
  read_ms5837 : ReadMs5837Ba30 R → AnyMessage R
  read_canpmu : ReadCanPmu R → AnyMessage R
  read_sbusrc : ReadSbusRc → AnyMessage R
  read_dm_motor : ReadDmMotor R → AnyMessage R
  read_super_cap : ReadSuperCap → AnyMessage R
  read_vt13rc : ReadVt13Rc R → AnyMessage R
  read_dd_motor : Reports → AnyMessage R

pub record Statics (R : Type 0) : Type 0 where
  pub djirc : ReadDjiRc R
  pub ms5837 : ReadMs5837Ba30 R
  pub canpmu : ReadCanPmu R
  pub sbusrc : ReadSbusRc
  pub vt13rc : ReadVt13Rc R

module _ (fl : Float) (p : Powers fl) (of_bits : ℕ → fl.Real) where
  open fl use {Real}

  abbrev pub floats : DmMotor ℕ → DmMotor Real
  floats t = record {
    info = t.info;
    pmax = of_bits t.pmax;
    vmax = of_bits t.vmax;
    tmax = of_bits t.tmax;
  }

  -- A message of a class whose static message is overwritten whole
  abbrev pub reported :
      {A : Type 0}
      → Statics Real
      → (A → AnyMessage Real)
      → Option A
      → Option (Statics Real × List (AnyMessage Real))
  reported s f o = o >>= λ a. some (s, f a ∷ [])

  -- The classes without an override keep `TaskWrapper::read`.
  unfoldable pub read :
      AnyTask → ℕ → List ℕ → Statics Real → Option (Statics Real × List (AnyMessage Real))
  read (dbus_rc t) stamp buf s =
      DbusRc.read fl t stamp buf s.djirc >>= λ m. some (record s { djirc = m }, read_djirc m ∷ [])
  read (lk_motor t) stamp buf s = reported s read_lk_motor (LkMotor.read t stamp buf)
  read (hipnuc_imu_can t) stamp buf s = reported s imu (HipnucImu.read fl t stamp buf)
  read (dji_motor t) stamp buf s = reported s read_dji_motor (DjiMotor.read t stamp buf)
  read (ms5837_30ba t) stamp buf s = Pressure.read fl t stamp buf s.ms5837 >>= λ m.
      some (record s { ms5837 = m }, read_ms5837 m ∷ [])
  read (pmu_can t) stamp buf s = PmuCan.read fl p t stamp buf s.canpmu >>= λ m.
      some (record s { canpmu = m }, read_canpmu m ∷ [])
  read (sbus_rc t) stamp buf s =
      SbusRc.read t stamp buf s.sbusrc >>= λ m. some (record s { sbusrc = m }, read_sbusrc m ∷ [])
  read (dm_motor t) stamp buf s = reported s read_dm_motor (DmMotor.read fl (floats t) stamp buf)
  read (super_cap t) stamp buf s = reported s read_super_cap (SuperCap.read t stamp buf)
  read (vt13_rc t) stamp buf s = Vt13Rc.read fl t stamp buf s.vt13rc >>= λ m.
      some (record s { vt13rc = m }, read_vt13rc m ∷ [])
  read (dd_motor t) stamp buf s = reported s read_dd_motor (DdMotor.read t stamp buf)
  read (dshot t) stamp buf s = some (s, [])
  read (onboard_pwm t) stamp buf s = some (s, [])
  read (external_pwm t) stamp buf s = some (s, [])

  unfoldable pub publish_empty_message :
      AnyTask → ℕ → Statics Real → Statics Real × List (AnyMessage Real)
  publish_empty_message (dbus_rc t) now s =
      let m = DbusRc.publish_empty_message fl now in (record s { djirc = m }, read_djirc m ∷ [])
  publish_empty_message (lk_motor t) now s =
      (s, read_lk_motor (LkMotor.publish_empty_message t now) ∷ [])
  publish_empty_message (hipnuc_imu_can t) now s =
      (s, imu (HipnucImu.publish_empty_message fl t now) ∷ [])
  publish_empty_message (dji_motor t) now s =
      (s, read_dji_motor (DjiMotor.publish_empty_message t now) ∷ [])
  publish_empty_message (ms5837_30ba t) now s =
      let m = Pressure.publish_empty_message fl now in (record s { ms5837 = m }, read_ms5837 m ∷ [])
  publish_empty_message (pmu_can t) now s =
      let m = PmuCan.publish_empty_message fl p now in (record s { canpmu = m }, read_canpmu m ∷ [])
  publish_empty_message (sbus_rc t) now s =
      let m = SbusRc.publish_empty_message now in (record s { sbusrc = m }, read_sbusrc m ∷ [])
  publish_empty_message (dm_motor t) now s =
      (s, read_dm_motor (DmMotor.publish_empty_message fl now) ∷ [])
  publish_empty_message (super_cap t) now s =
      (s, read_super_cap (SuperCap.publish_empty_message now) ∷ [])
  publish_empty_message (vt13_rc t) now s =
      let m = Vt13Rc.publish_empty_message fl now in (record s { vt13rc = m }, read_vt13rc m ∷ [])
  publish_empty_message (dd_motor t) now s =
      (s, read_dd_motor (DdMotor.publish_empty_message t now) ∷ [])
  publish_empty_message (dshot t) now s = (s, [])
  publish_empty_message (onboard_pwm t) now s = (s, [])
  publish_empty_message (external_pwm t) now s = (s, [])
