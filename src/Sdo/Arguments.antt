-- ===== src/Sdo/Arguments.antt =====
-- The arguments of a slave, described without buffers and offsets.
use ecat_v2_master.Base.{ℕ, zero, suc, ◌+◌, List, [], ◌∷◌, ◌++◌, none, some, ◌==◌, if◌then◌else◌}
use ecat_v2_master.Config.{Outcome, value, out_of_bounds, Key, Entries, get_field_as}
use ecat_v2_master.Sdo.{◌>>=◌, codes, as_uint8, as_uint32}
use ecat_v2_master.Sdo.Emits.{field_bytes, both}
use ecat_v2_master.Sdo.Sensors.{ms5837_names, imu_names}
use ecat_v2_master.Sdo.Outputs.{dshot_names, onboard_pwm_names, external_pwm_names}
use ecat_v2_master.Sdo.Motors.{
  dji_names, dd_names, dji_motor_names, lk_broadcast_names, lk_names, dm_names, super_cap_names,
  motor_arg_prefix, control_type,
}
use ecat_v2_master.Sdo.TaskList.{
  AppType, djirc, lk, imu, dshot_app, djican, onboard_pwm_app, external_pwm_app, ms5837, can_pmu,
  sbus, dm, super_cap_app, vt13, dd, app_types, case_for, app_prefix, slave_key, task_type,
}

abbrev pub four : (ℕ → Outcome (List ℕ)) → Outcome (List ℕ)
four f = both (f 1) (both (f 2) (both (f 3) (f 4)))

module _ (decimal : ℕ → Key) (es : Entries) where
  -- A DJI motor without an id has none; otherwise its control type says which fields follow.
  unfoldable pub dji_arguments : Key → ℕ → Outcome (List ℕ)
  unfolding get_field_as dji_motor_names
  dji_arguments prefix i =
      get_field_as as_uint32 (motor_arg_prefix prefix (decimal i) ++ codes "can_id") es >>= λ id.
      if id == 0
      then value []
      else (get_field_as as_uint8 (motor_arg_prefix prefix (decimal i) ++ codes "control_type") es
          >>= λ type. field_bytes es (motor_arg_prefix prefix (decimal i)) (dji_motor_names type))

  unfoldable pub dd_arguments : Key → ℕ → Outcome (List ℕ)
  unfolding get_field_as
  dd_arguments prefix i =
      get_field_as as_uint32 (motor_arg_prefix prefix (decimal i) ++ codes "can_id") es >>= λ id.
      if id == 0
      then value []
      else field_bytes es (motor_arg_prefix prefix (decimal i)) (codes "control_type" ∷ [])

  abbrev pub fields : Key → List Key → Outcome (List ℕ)
  fields prefix names = field_bytes es (prefix ++ codes "sdowrite_") names

  -- The arguments of a task, by its type
  unfoldable pub sdo_arguments : AppType → Key → Outcome (List ℕ)
  unfolding field_bytes dji_arguments dd_arguments control_type
  sdo_arguments djirc prefix = value []
  sdo_arguments lk prefix = control_type es prefix >>= λ type.
      fields prefix (if type == 8 then lk_broadcast_names else lk_names)
  sdo_arguments imu prefix = fields prefix imu_names
  sdo_arguments dshot_app prefix = fields prefix dshot_names
  sdo_arguments djican prefix = both (fields prefix dji_names) (four (dji_arguments prefix))
  sdo_arguments onboard_pwm_app prefix = fields prefix onboard_pwm_names
  sdo_arguments external_pwm_app prefix = fields prefix external_pwm_names
  sdo_arguments ms5837 prefix = fields prefix ms5837_names
  sdo_arguments can_pmu prefix = value []
  sdo_arguments sbus prefix = value []
  sdo_arguments dm prefix = fields prefix dm_names
  sdo_arguments super_cap_app prefix = fields prefix super_cap_names
  sdo_arguments vt13 prefix = value []
  sdo_arguments dd prefix = both (fields prefix dd_names) (four (dd_arguments prefix))

  unfoldable pub app_arguments : ℕ → Key → Outcome (List ℕ)
  unfolding sdo_arguments app_types case_for
  app_arguments type prefix = elim (case_for type app_types) [
    | none ↦ out_of_bounds
    | some app ↦ sdo_arguments app prefix
  ]

  -- The type of each task, then its arguments
  unfoldable pub apps_arguments : ℕ → ℕ → ℕ → Outcome (List ℕ)
  unfolding app_arguments task_type
  apps_arguments zero sn app = value []
  apps_arguments (suc rounds) sn app =
      task_type decimal es (app_prefix decimal es sn app) >>= λ type. both (value (type ∷ [])) (
        both (app_arguments type (app_prefix decimal es sn app))
          (apps_arguments rounds sn (app + 1)))

  -- The number of the tasks, then what the tasks are sent
  unfoldable pub slave_arguments : ℕ → ℕ → Outcome (List ℕ)
  unfolding apps_arguments
  slave_arguments count sn = both (value (count ∷ [])) (apps_arguments count sn 1)

  unfoldable pub task_arguments : ℕ → Outcome (List ℕ)
  unfolding get_field_as slave_arguments
  task_arguments sn =
      get_field_as as_uint8 (slave_key decimal es sn (codes "task_count")) es >>= λ count.
      slave_arguments count sn
