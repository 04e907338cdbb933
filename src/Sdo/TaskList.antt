-- ===== src/Sdo/TaskList.antt =====
-- `SlaveDevice::init_task_list` (src/soem_wrapper/src/soem_backend.cpp): the tasks of a slave, and
-- the arguments that the slave is sent for them.
--
-- An exception of a lookup leaves the whole method; a task of an unknown type is dereferenced
-- although none was made, which is undefined behaviour.
use ecat_v2_master.Base.{
  ℕ, zero, suc, ◌+◌, Bool, true, false, not, List, [], ◌∷◌, ◌++◌, Option, none, some, replicate,
  ◌==◌, if◌then◌else◌,
}
use ecat_v2_master.Io.{Cursor, memcpy, write_uint8}
use ecat_v2_master.Config.{
  Outcome, value, out_of_bounds, defined, Key, Entries, get_field_as, build_buf,
}
use ecat_v2_master.Task.{TaskInfo}
use ecat_v2_master.Task.DjiMotor.{DjiMotor}
use ecat_v2_master.Task.DdMotor.{DdMotor}
use ecat_v2_master.Task.LkMotor.{LkMotor}
use ecat_v2_master.Task.DmMotor.{DmMotor}
use ecat_v2_master.Task.HipnucImu.{HipnucImuCan}
use ecat_v2_master.Task.Pwm.{FourChannels, ExternalPwm}
use ecat_v2_master.Device.{SlaveDevice, first}
use ecat_v2_master.Sdo.{◌>>=◌, codes, as_uint8, as_uint16, as_string, Endpoint, publisher, Made}
use ecat_v2_master.Sdo.Sensors.{init_sdo_receiver, init_sdo_ms5837, init_sdo_imu}
use ecat_v2_master.Sdo.Outputs.{init_sdo_dshot, init_sdo_onboard_pwm, init_sdo_external_pwm}
use ecat_v2_master.Sdo.Motors.{
  init_sdo_dji, init_sdo_dd, init_sdo_lk, init_sdo_dm, init_sdo_super_cap,
}

-- The subclasses of `TaskWrapper`
pub data AnyTask : Type 0 where
  dbus_rc : TaskInfo → AnyTask
  lk_motor : LkMotor → AnyTask
  hipnuc_imu_can : HipnucImuCan → AnyTask
  dshot : FourChannels → AnyTask
  dji_motor : DjiMotor → AnyTask
  onboard_pwm : FourChannels → AnyTask
  external_pwm : ExternalPwm → AnyTask
  ms5837_30ba : TaskInfo → AnyTask
  pmu_can : TaskInfo → AnyTask
  sbus_rc : TaskInfo → AnyTask
  dm_motor : DmMotor ℕ → AnyTask
  super_cap : TaskInfo → AnyTask
  vt13_rc : TaskInfo → AnyTask
  dd_motor : DdMotor → AnyTask

-- The cases of the switch over the task's type
pub data AppType : Type 0 where
  djirc : AppType
  lk : AppType
  imu : AppType
  dshot_app : AppType
  djican : AppType
  onboard_pwm_app : AppType
  external_pwm_app : AppType
  ms5837 : AppType
  can_pmu : AppType
  sbus : AppType
  dm : AppType
  super_cap_app : AppType
  vt13 : AppType
  dd : AppType

unfoldable pub app_types : List (ℕ × AppType)
app_types =
    (1, djirc)
    ∷ (2, lk)
    ∷ (3, imu)
    ∷ (4, dshot_app)
    ∷ (5, djican)
    ∷ (6, onboard_pwm_app)
    ∷ (7, external_pwm_app)
    ∷ (8, ms5837)
    ∷ (10, can_pmu)
    ∷ (11, sbus)
    ∷ (12, dm)
    ∷ (13, super_cap_app)
    ∷ (14, vt13)
    ∷ (15, dd)
    ∷ []

unfoldable pub case_for : ℕ → List (ℕ × AppType) → Option AppType
case_for n [] = none
case_for n ((id, a) ∷ rest) = if id == n then some a else case_for n rest

abbrev pub made_as : {A : Type 0} → (A → AnyTask) → Outcome (Made A) → Outcome (Made AnyTask)
made_as wrap o = o >>= λ ((t, endpoints), c). value ((wrap t, endpoints), c)

module _ (decimal : ℕ → Key) (es : Entries) where
  -- task_wrapper->init_sdo(…) on the class that the case has made
  unfoldable pub init_sdo : AppType → Key → Cursor → Outcome (Made AnyTask)
  unfolding init_sdo_receiver init_sdo_lk init_sdo_imu init_sdo_dshot init_sdo_dji
      init_sdo_onboard_pwm init_sdo_external_pwm init_sdo_ms5837 init_sdo_dm init_sdo_super_cap
      init_sdo_dd
  init_sdo djirc prefix c = made_as dbus_rc (init_sdo_receiver es prefix 1 c)
  init_sdo lk prefix c = made_as lk_motor (init_sdo_lk es prefix 2 c)
  init_sdo imu prefix c = made_as hipnuc_imu_can (init_sdo_imu es prefix 3 c)
  init_sdo dshot_app prefix c = made_as dshot (init_sdo_dshot es prefix 4 c)
  init_sdo djican prefix c = made_as dji_motor (init_sdo_dji es prefix decimal 5 c)
  init_sdo onboard_pwm_app prefix c = made_as onboard_pwm (init_sdo_onboard_pwm es prefix 6 c)
  init_sdo external_pwm_app prefix c = made_as external_pwm (init_sdo_external_pwm es prefix 7 c)
  init_sdo ms5837 prefix c = made_as ms5837_30ba (init_sdo_ms5837 es prefix 8 c)
  init_sdo can_pmu prefix c = made_as pmu_can (init_sdo_receiver es prefix 10 c)
  init_sdo sbus prefix c = made_as sbus_rc (init_sdo_receiver es prefix 11 c)
  init_sdo dm prefix c = made_as dm_motor (init_sdo_dm es prefix 12 c)
  init_sdo super_cap_app prefix c = made_as super_cap (init_sdo_super_cap es prefix 13 c)
  init_sdo vt13 prefix c = made_as vt13_rc (init_sdo_receiver es prefix 14 c)
  init_sdo dd prefix c = made_as dd_motor (init_sdo_dd es prefix decimal 15 c)

  unfoldable pub init_app : ℕ → Key → Cursor → Outcome (Made AnyTask)
  unfolding app_types case_for init_sdo
  init_app type prefix c = elim (case_for type app_types) [
    | none ↦ out_of_bounds
    | some app ↦ init_sdo app prefix c
  ]

  -- sn{}_{}
  abbrev pub slave_key : ℕ → Key → Key
  slave_key sn suffix = codes "sn" ++ decimal sn ++ codes "_" ++ suffix

  -- sn{}_app_{}_
  abbrev pub app_prefix : ℕ → ℕ → Key
  app_prefix sn app = codes "sn" ++ decimal sn ++ codes "_app_" ++ decimal app ++ codes "_"

  -- The build_buf, memcpy and increment for the task's type
  unfoldable pub copy_task_type : Key → Cursor → Outcome Cursor
  unfolding build_buf
  copy_task_type prefix c =
      build_buf (prefix ++ codes "sdowrite_") (codes "task_type" ∷ []) es >>= λ sdo.
      defined (first sdo.offset sdo.bytes) >>= λ bs.
      defined (memcpy c.bytes c.offset bs) >>= λ bytes.
      value (record { bytes = bytes; offset = c.offset + 1 })

  unfoldable pub task_type : Key → Outcome ℕ
  unfolding get_field_as
  task_type prefix = get_field_as as_uint8 (prefix ++ codes "sdowrite_task_type") es

  -- The loop over the tasks, with the rounds left and the index of the next
  unfoldable pub init_apps : ℕ → ℕ → ℕ → Cursor → Outcome (Made (List AnyTask))
  unfolding task_type copy_task_type init_app
  init_apps zero sn app c = value (([], []), c)
  init_apps (suc rounds) sn app c = task_type (app_prefix sn app) >>= λ type.
      copy_task_type (app_prefix sn app) c >>= λ c1.
      init_app type (app_prefix sn app) c1 >>= λ ((t, endpoints), c2).
      init_apps rounds sn (app + 1) c2 >>= λ ((ts, others), c3).
      value ((t ∷ ts, endpoints ++ others), c3)

  -- With a number of tasks that is not 0
  unfoldable pub fill_arg_buf :
      SlaveDevice AnyTask → Endpoint → ℕ → Outcome (SlaveDevice AnyTask × Bool × List Endpoint)
  unfolding init_apps write_uint8
  fill_arg_buf d latency count =
      defined (write_uint8 count (record { bytes = d.arg_buf; offset = 0 })) >>= λ c.
      init_apps count d.sn 1 c >>= λ ((tasks, endpoints), c'). value (
        record d { arg_buf = c'.bytes; task_list = tasks; is_conf_ros_done = true },
        true,
        latency ∷ endpoints,
      )

  unfoldable pub init_task_list :
      SlaveDevice AnyTask → Outcome (SlaveDevice AnyTask × Bool × List Endpoint)
  unfolding get_field_as fill_arg_buf
  init_task_list d =
      if not d.is_sw_rev_check_passed
      then value (d, false, [])
      else (get_field_as as_uint16 (slave_key d.sn (codes "sdo_len")) es >>= λ len.
          let d1 = record d { arg_buf_len = len; arg_buf = replicate len 0 } in
          get_field_as as_string (slave_key d.sn (codes "latency_pub_topic")) es >>= λ topic.
          get_field_as as_uint8 (slave_key d.sn (codes "task_count")) es >>= λ count.
          if count == 0
          then value (d1, false, publisher topic ∷ [])
          else fill_arg_buf d1 (publisher topic) count)
