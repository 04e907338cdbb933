-- ===== src/Sdo/Complete/Classes.antt =====
-- With the named fields, the topics and the other fields of its class configured, and room for the
-- arguments, `init_sdo` does not fail.
use ecat_v2_master.Base.{ℕ, ◌≤◌, ap, ◌∙◌, Bool, List, [], ◌++◌, arith, length, ◌==◌, if◌then◌else◌}
use ecat_v2_master.Io.{Cursor}
use ecat_v2_master.Config.{Outcome, value, Key, Entries}
use ecat_v2_master.Config.Buffer.{and_then-value}
use ecat_v2_master.Task.{TaskInfo}
use ecat_v2_master.Task.Quad.{Enabled}
use ecat_v2_master.Sdo.{◌>>=◌, codes, Endpoint, Made, copy_fields}
use ecat_v2_master.Sdo.Emits.{field_bytes, both}
use ecat_v2_master.Sdo.Sensors.{
  init_sdo_receiver, init_sdo_ms5837, init_sdo_imu, ms5837_names, imu_names, publish_only,
  finish_imu,
}
use ecat_v2_master.Sdo.Outputs.{
  init_sdo_dshot, init_sdo_onboard_pwm, init_sdo_external_pwm, dshot_names, onboard_pwm_names,
  external_pwm_names, finish_four, finish_external,
}
use ecat_v2_master.Sdo.Motors.{
  dji_names, dd_names, dji_motor_names, lk_broadcast_names, lk_names, dm_names, super_cap_names,
  motor_arg_prefix, control_type, four_motors, init_sdo_dji, init_sdo_dd, init_sdo_lk, init_sdo_dm,
  init_sdo_super_cap, finish_lk, finish_dm, finish_super_cap, publish_and_subscribe,
}
use ecat_v2_master.Sdo.Motors
use ecat_v2_master.Sdo.TaskList.{
  AnyTask, AppType, djirc, lk, imu, dshot_app, djican, onboard_pwm_app, external_pwm_app, ms5837,
  can_pmu, sbus, dm, super_cap_app, vt13, dd, made_as, init_sdo, dbus_rc, lk_motor, hipnuc_imu_can,
  dshot, dji_motor, onboard_pwm, external_pwm, ms5837_30ba, pmu_can, sbus_rc, dm_motor, super_cap,
  vt13_rc, dd_motor,
}
use ecat_v2_master.Sdo.Arguments.{four, dji_arguments, dd_arguments, sdo_arguments}
use ecat_v2_master.Sdo.Written.{lk_few}
use ecat_v2_master.Sdo.Complete.{
  Gives, Makes, copy_fields-Moves, Makes-behind, Makes-then, Makes-map, Moves-then, nothing-Makes,
}
use ecat_v2_master.Sdo.Complete.Motors.{dji_motor-Makes, dd_motor-Makes, four_motors-Makes}

module _ (decimal : ℕ → Key) (es : Entries) where
  -- What a class looks up besides its arguments
  abbrev pub IsConfigured : AppType → Key → Type 0
  IsConfigured djirc prefix = Gives (publish_only es prefix 1)
  IsConfigured lk prefix = (b : Bool) → Gives (finish_lk es prefix 2 b)
  IsConfigured imu prefix = Gives (finish_imu es prefix 3)
  IsConfigured dshot_app prefix = Gives (finish_four es prefix 4)
  IsConfigured djican prefix = Gives (publish_and_subscribe es prefix 5)
  IsConfigured onboard_pwm_app prefix = Gives (finish_four es prefix 6)
  IsConfigured external_pwm_app prefix = Gives (finish_external es prefix 7)
  IsConfigured ms5837 prefix = Gives (publish_only es prefix 8)
  IsConfigured can_pmu prefix = Gives (publish_only es prefix 10)
  IsConfigured sbus prefix = Gives (publish_only es prefix 11)
  IsConfigured dm prefix = Gives (finish_dm es prefix 12)
  IsConfigured super_cap_app prefix = Gives (finish_super_cap es prefix 13)
  IsConfigured vt13 prefix = Gives (publish_only es prefix 14)
  IsConfigured dd prefix = Gives (publish_and_subscribe es prefix 15)

  wrapped :
      {A : Type 0} (m : Outcome (List ℕ)) (wrap : A → AnyTask) (v : Cursor → Outcome (Made A))
      → Makes m v
      → Makes m (λ c. made_as wrap (v c))
  wrapped m wrap v h = Makes-map m v (λ (t, endpoints). (wrap t, endpoints)) h

  receiver-Makes :
      (wrap : TaskInfo → AnyTask) (prefix : Key) (type_id : ℕ)
      → Gives (publish_only es prefix type_id)
      → Makes (value []) (λ c. made_as wrap (init_sdo_receiver es prefix type_id c))
  unfolding init_sdo_receiver
  receiver-Makes wrap prefix type_id g =
      wrapped (value []) wrap (init_sdo_receiver es prefix type_id)
        (nothing-Makes (publish_only es prefix type_id) g)

  copied-Makes :
      {A : Type 0} (wrap : A → AnyTask) (prefix : Key) (names : List Key)
      (rest : Outcome (A × List Endpoint))
      → length names ≤ 256
      → Gives rest
      → Makes
          (field_bytes es prefix names)
          (λ c. made_as wrap (copy_fields es prefix names c >>= λ c1. rest >>= λ m. value (m, c1)))
  copied-Makes wrap prefix names rest few g =
      wrapped (field_bytes es prefix names) wrap
        (λ c. copy_fields es prefix names c >>= λ c1. rest >>= λ m. value (m, c1))
        (Moves-then (field_bytes es prefix names) (copy_fields es prefix names) rest
          (copy_fields-Moves es prefix names few) g)

  quad-Makes :
      {A : Type 0} (wrap : A → AnyTask) (prefix : Key) (names : List Key)
      (motor : Key → Cursor → Outcome (Bool × Cursor)) (args : ℕ → Outcome (List ℕ))
      (task : Enabled → TaskInfo → A) (type_id : ℕ)
      → length names ≤ 256
      → ((i : ℕ) → Makes (args i) (motor (decimal i)))
      → Gives (publish_and_subscribe es prefix type_id)
      → Makes (both (field_bytes es (prefix ++ codes "sdowrite_") names) (four args)) (λ c.
        made_as wrap (
          copy_fields es (prefix ++ codes "sdowrite_") names c >>= λ c1.
          four_motors decimal motor c1 >>= λ (enabled, c2).
          publish_and_subscribe es prefix type_id >>= λ (info, endpoints).
          value ((task enabled info, endpoints), c2)))
  quad-Makes wrap prefix names motor args task type_id few one g =
      let place = prefix ++ codes "sdowrite_" in
      wrapped _ wrap _ (
        Makes-behind (field_bytes es place names) (four args) (copy_fields es place names) _
          (copy_fields-Moves es place names few)
          (Makes-then (four args) (four_motors decimal motor)
            (publish_and_subscribe es prefix type_id)
            (λ enabled (info, endpoints). (task enabled info, endpoints))
            (four_motors-Makes decimal es motor args one) g))

  lk-Makes :
      (prefix : Key)
      → ((b : Bool) → Gives (finish_lk es prefix 2 b))
      → Makes
          (sdo_arguments decimal es lk prefix)
          (λ c. made_as lk_motor (init_sdo_lk es prefix 2 c))
  unfolding sdo_arguments init_sdo_lk
  lk-Makes prefix g bs e c room =
      let (type, p, q) = and_then-value (control_type es prefix) _ e in
      let place = prefix ++ codes "sdowrite_" in
      let (made, c', r, i) =
        copied-Makes lk_motor place (if type == 8 then lk_broadcast_names else lk_names)
          (finish_lk es prefix 2 (type == 8)) (lk_few (type == 8)) (g (type == 8)) bs q c room in
      (
        made,
        c',
        ap
              (λ o. made_as lk_motor (
                o >>= λ type.
                copy_fields es place (if type == 8 then lk_broadcast_names else lk_names) c
                >>= λ c1. finish_lk es prefix 2 (type == 8) >>= λ m. value (m, c1)))
              p
            ∙ r,
        i,
      )

  pub Makes-sdo :
      (app : AppType) (prefix : Key)
      → IsConfigured app prefix
      → Makes (sdo_arguments decimal es app prefix) (init_sdo decimal es app prefix)
  unfolding sdo_arguments init_sdo init_sdo_lk init_sdo_imu init_sdo_dshot init_sdo_dji
      init_sdo_onboard_pwm init_sdo_external_pwm init_sdo_ms5837 init_sdo_dm init_sdo_super_cap
      init_sdo_dd
  Makes-sdo djirc prefix g = receiver-Makes dbus_rc prefix 1 g
  Makes-sdo lk prefix g = lk-Makes prefix g
  Makes-sdo imu prefix g =
      copied-Makes hipnuc_imu_can (prefix ++ codes "sdowrite_") imu_names _ (omega arith) g
  Makes-sdo dshot_app prefix g =
      copied-Makes dshot (prefix ++ codes "sdowrite_") dshot_names _ (omega arith) g
  Makes-sdo djican prefix g =
      quad-Makes dji_motor prefix dji_names (Motors.dji_motor es prefix)
        (dji_arguments decimal es prefix)
        (λ enabled info. record { info = info; is_motor_enabled = enabled }) 5 (omega arith)
        (dji_motor-Makes decimal es prefix) g
  Makes-sdo onboard_pwm_app prefix g =
      copied-Makes onboard_pwm (prefix ++ codes "sdowrite_") onboard_pwm_names _ (omega arith) g
  Makes-sdo external_pwm_app prefix g =
      copied-Makes external_pwm (prefix ++ codes "sdowrite_") external_pwm_names _ (omega arith) g
  Makes-sdo ms5837 prefix g =
      copied-Makes ms5837_30ba (prefix ++ codes "sdowrite_") ms5837_names _ (omega arith) g
  Makes-sdo can_pmu prefix g = receiver-Makes pmu_can prefix 10 g
  Makes-sdo sbus prefix g = receiver-Makes sbus_rc prefix 11 g
  Makes-sdo dm prefix g =
      copied-Makes dm_motor (prefix ++ codes "sdowrite_") dm_names _ (omega arith) g
  Makes-sdo super_cap_app prefix g =
      copied-Makes super_cap (prefix ++ codes "sdowrite_") super_cap_names _ (omega arith) g
  Makes-sdo vt13 prefix g = receiver-Makes vt13_rc prefix 14 g
  Makes-sdo dd prefix g =
      quad-Makes dd_motor prefix dd_names (Motors.dd_motor es prefix)
        (dd_arguments decimal es prefix)
        (λ enabled info. record { info = info; is_motor_enabled = enabled }) 15 (omega arith)
        (dd_motor-Makes decimal es prefix) g
