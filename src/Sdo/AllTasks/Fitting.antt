-- ===== src/Sdo/AllTasks/Fitting.antt =====
-- Tasks of all kinds as an instance of the tasks' interface, and the room that they need.
use ecat_v2_master.Base.{Runs-bind, ℕ, ◌+◌, ◌≤◌, refl, List, Option, some, length, arith, ◌>>=◌}
use ecat_v2_master.Float.{Float}
use ecat_v2_master.Io.Half.{Powers}
use ecat_v2_master.Task.Class.{TaskClass}
use ecat_v2_master.Task.DbusRc
use ecat_v2_master.Task.Vt13Rc
use ecat_v2_master.Task.SbusRc
use ecat_v2_master.Task.DmMotor
use ecat_v2_master.Task.DjiMotor
use ecat_v2_master.Task.DdMotor
use ecat_v2_master.Task.Quad.Room.{read-Runs}
use ecat_v2_master.Task.Room.{
  Returns, flag-Returns, lk_input, lk_read-Returns, super_cap_read-Returns, imu_read-Returns,
  pressure_read-Returns, pmu_read-Returns,
}
use ecat_v2_master.Device.Safety.{Fits}
use ecat_v2_master.Sdo.TaskList.{
  AnyTask, dbus_rc, lk_motor, hipnuc_imu_can, dshot, dji_motor, onboard_pwm, external_pwm,
  ms5837_30ba, pmu_can, sbus_rc, dm_motor, super_cap, vt13_rc, dd_motor,
}
use ecat_v2_master.Sdo.AllTasks.{
  info_of, init_value, AnyMessage, Statics, reported, read, publish_empty_message,
}
use ecat_v2_master.Sdo.AllTasks.Reset.{init_bytes, init_value-splice, length-init_value_lem}

-- The bytes of a task's report
abbrev pub input_size : AnyTask → ℕ
input_size (dbus_rc t) = 19
input_size (lk_motor t) = lk_input t
input_size (hipnuc_imu_can t) = 20
input_size (dji_motor t) = 36
input_size (ms5837_30ba t) = 9
input_size (pmu_can t) = 7
input_size (sbus_rc t) = 24
input_size (dm_motor t) = 9
input_size (super_cap t) = 7
input_size (vt13_rc t) = 18
input_size (dd_motor t) = 36
input_size _ = 0

-- The task's initial values and its report stand inside the two images.
abbrev pub HasRoom : ℕ → ℕ → AnyTask → Type 0
HasRoom outs ins t =
    ((info_of t).pdowrite_offset + length (init_bytes t) ≤ outs)
    × ((info_of t).pdoread_offset + input_size t ≤ ins)

module _ (fl : Float) (p : Powers fl) (of_bits : ℕ → fl.Real) where
  open fl use {Real}

  abbrev pub all_tasks : TaskClass
  all_tasks = record {
    Task = AnyTask;
    Shared = Statics Real;
    Message = AnyMessage Real;
    has_publishers = λ t. (info_of t).has_publishers;
    has_subscribers = λ t. (info_of t).has_subscribers;
    connection_lost_read_action = λ t. (info_of t).connection_lost_read_action;
    connection_lost_write_action = λ t. (info_of t).connection_lost_write_action;
    init_value = init_value;
    read = read fl p of_bits;
    publish_empty_message = publish_empty_message fl p of_bits;
    length-init_value = length-init_value_lem;
  }

  reported-Returns :
      {A : Type 0} (s : Statics Real) (f : A → AnyMessage Real) (o : Option A)
      → Returns o
      → Returns (reported fl p of_bits s f o)
  reported-Returns s f o r = Runs-bind (λ a. Unit) (λ a. Unit) o _ r λ a u. (_, refl, tt)

  static-Returns :
      {A : Type 0} (f : A → Statics Real × List (AnyMessage Real)) (o : Option A)
      → Returns o
      → Returns (o >>= λ a. some (f a))
  static-Returns f o r = Runs-bind (λ a. Unit) (λ a. Unit) o _ r λ a u. (_, refl, tt)

  read-Returns :
      (t : AnyTask) (stamp : ℕ) (buf : List ℕ) (s : Statics Real)
      → (info_of t).pdoread_offset + input_size t ≤ length buf
      → Returns (read fl p of_bits t stamp buf s)
  unfolding read DbusRc.read Vt13Rc.read SbusRc.read DmMotor.read DjiMotor.read DdMotor.read
  read-Returns (dbus_rc t) stamp buf s h =
      static-Returns _ _
        (flag-Returns buf (t.pdoread_offset + 18) _ (omega (arith, h)) λ b. (_, refl, tt))
  read-Returns (lk_motor t) stamp buf s h = reported-Returns s _ _ (lk_read-Returns t stamp buf h)
  read-Returns (hipnuc_imu_can t) stamp buf s h =
      reported-Returns s _ _ (imu_read-Returns fl t stamp buf h)
  read-Returns (dji_motor t) stamp buf s h =
      reported-Returns s _ _ (read-Runs t.is_motor_enabled t.info.pdoread_offset stamp buf h)
  read-Returns (ms5837_30ba t) stamp buf s h =
      static-Returns _ _ (pressure_read-Returns fl t stamp buf s.ms5837 h)
  read-Returns (pmu_can t) stamp buf s h =
      static-Returns _ _ (pmu_read-Returns fl p t stamp buf s.canpmu h)
  read-Returns (sbus_rc t) stamp buf s h =
      static-Returns _ _
        (flag-Returns buf (t.pdoread_offset + 23) _ (omega (arith, h)) λ b. (_, refl, tt))
  read-Returns (dm_motor t) stamp buf s h =
      reported-Returns s _ _
        (flag-Returns buf (t.info.pdoread_offset + 8) _ (omega (arith, h)) λ b. (_, refl, tt))
  read-Returns (super_cap t) stamp buf s h =
      reported-Returns s _ _ (super_cap_read-Returns t stamp buf h)
  read-Returns (vt13_rc t) stamp buf s h =
      static-Returns _ _
        (flag-Returns buf (t.pdoread_offset + 17) _ (omega (arith, h)) λ b. (_, refl, tt))
  read-Returns (dd_motor t) stamp buf s h =
      reported-Returns s _ _ (read-Runs t.is_motor_enabled t.info.pdoread_offset stamp buf h)
  read-Returns (dshot t) stamp buf s h = (_, refl, tt)
  read-Returns (onboard_pwm t) stamp buf s h = (_, refl, tt)
  read-Returns (external_pwm t) stamp buf s h = (_, refl, tt)

  -- With room, all that the device calls on the task stays inside the images.
  pub HasRoom-Fits : (t : AnyTask) (outs ins : ℕ) → HasRoom outs ins t → Fits all_tasks outs ins t
  HasRoom-Fits t outs ins (h, k) = record {
    writes = λ buf e. (_, init_value-splice t buf (omega (arith, e, h)), tt);
    reads = λ stamp buf s e. read-Returns t stamp buf s (omega (arith, e, k));
  }
