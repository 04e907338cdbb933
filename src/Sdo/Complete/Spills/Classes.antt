-- ===== src/Sdo/Complete/Spills/Classes.antt =====
-- The drivers' `init_sdo` write past the end of an argument buffer that is too small.
use ecat_v2_master.Base.{
  ℕ, ◌≤◌, ◌≡◌, refl, ap, ◌∙◌, inl, inr, Bool, false, List, [], ◌∷◌, ◌++◌, arith, Bool-cases, taken,
  passed, length, ◌==◌, if◌then◌else◌,
}
use ecat_v2_master.Io.{Cursor}
use ecat_v2_master.Config.{
  Variant, Outcome, value, out_of_bounds, held, Key, Entries, get, get_field_as,
}
use ecat_v2_master.Config.Buffer.{and_then-value}
use ecat_v2_master.Task.{TaskInfo}
use ecat_v2_master.Task.Quad.{Enabled}
use ecat_v2_master.Sdo.{◌>>=◌, codes, as_uint8, as_uint32, Endpoint, copy_fields}
use ecat_v2_master.Sdo.Emits.{field_bytes, both}
use ecat_v2_master.Sdo.Sensors.{init_sdo_ms5837, init_sdo_imu, ms5837_names, imu_names}
use ecat_v2_master.Sdo.Outputs.{
  init_sdo_dshot, init_sdo_onboard_pwm, init_sdo_external_pwm, dshot_names, onboard_pwm_names,
  external_pwm_names,
}
use ecat_v2_master.Sdo.Motors.{
  dji_names, dd_names, dji_motor_names, lk_broadcast_names, lk_names, dm_names, super_cap_names,
  motor_arg_prefix, control_type, four_motors, init_sdo_dji, init_sdo_dd, init_sdo_lk, init_sdo_dm,
  init_sdo_super_cap, finish_lk, finish_dm, finish_super_cap, publish_and_subscribe,
}
use ecat_v2_master.Sdo.Motors
use ecat_v2_master.Sdo.TaskList.{
  AnyTask, AppType, djirc, lk, imu, dshot_app, djican, onboard_pwm_app, external_pwm_app, ms5837,
  can_pmu, sbus, dm, super_cap_app, vt13, dd, made_as, init_sdo, lk_motor, hipnuc_imu_can, dshot,
  dji_motor, onboard_pwm, external_pwm, ms5837_30ba, dm_motor, super_cap, dd_motor,
}
use ecat_v2_master.Sdo.Arguments.{four, dji_arguments, dd_arguments, sdo_arguments}
use ecat_v2_master.Sdo.Written.{dji_few, lk_few}
use ecat_v2_master.Sdo.Complete.{Makes, copy_fields-Moves}
use ecat_v2_master.Sdo.Complete.Motors.{dji_motor-Makes, dd_motor-Makes}
use ecat_v2_master.Sdo.Complete.Spills.{
  Spills, Spills-none, Spills-nothing, Spills-before, Spills-behind, Spills-both,
  copy_fields-Spills,
}

module _ (decimal : ℕ → Key) (es : Entries) where
  dji_motor_full :
      (prefix digits : Key) (id type : ℕ) (v : Variant) (c : Cursor)
      → get_field_as as_uint32 (motor_arg_prefix prefix digits ++ codes "can_id") es ≡ value id
      → (id == 0) ≡ false
      → get (motor_arg_prefix prefix digits ++ codes "control_type") es ≡ value v
      → held (as_uint8 v) ≡ value type
      → copy_fields es (motor_arg_prefix prefix digits) (dji_motor_names type) c ≡ out_of_bounds
      → Motors.dji_motor es prefix digits c ≡ out_of_bounds
  unfolding Motors.dji_motor
  dji_motor_full prefix digits id type v c p on t u w = rw (p, on, t, u, w) refl

  dd_motor_full :
      (prefix digits : Key) (id : ℕ) (c : Cursor)
      → get_field_as as_uint32 (motor_arg_prefix prefix digits ++ codes "can_id") es ≡ value id
      → (id == 0) ≡ false
      → copy_fields es (motor_arg_prefix prefix digits) (codes "control_type" ∷ []) c
        ≡ out_of_bounds
      → Motors.dd_motor es prefix digits c ≡ out_of_bounds
  unfolding Motors.dd_motor
  dd_motor_full prefix digits id c p on w = rw (p, on, w) refl

  dji_motor-Spills :
      (prefix : Key) (i : ℕ)
      → Spills (dji_arguments decimal es prefix i) (Motors.dji_motor es prefix (decimal i))
  unfolding dji_arguments get_field_as
  dji_motor-Spills prefix i bs e c inside over =
      let place = motor_arg_prefix prefix (decimal i) in
      let (id, p, q) = and_then-value (get_field_as as_uint32 (place ++ codes "can_id") es) _ e in
      elim (Bool-cases (id == 0)) [
        | inl off ↦
            Spills-none (Motors.dji_motor es prefix (decimal i)) bs (taken (id == 0) _ _ off q) c
              inside over
        | inr on ↦
            let (type, r, s) =
              and_then-value (get_field_as as_uint8 (place ++ codes "control_type") es) _
                (passed (id == 0) _ _ on q) in
            let (v, t, u) = and_then-value (get (place ++ codes "control_type") es) _ r in
            dji_motor_full prefix (decimal i) id type v c p on t u
              (copy_fields-Spills es place (dji_motor_names type) (dji_few type) bs s c inside over)
      ]

  dd_motor-Spills :
      (prefix : Key) (i : ℕ)
      → Spills (dd_arguments decimal es prefix i) (Motors.dd_motor es prefix (decimal i))
  unfolding dd_arguments
  dd_motor-Spills prefix i bs e c inside over =
      let place = motor_arg_prefix prefix (decimal i) in
      let (id, p, q) = and_then-value (get_field_as as_uint32 (place ++ codes "can_id") es) _ e in
      elim (Bool-cases (id == 0)) [
        | inl off ↦
            Spills-none (Motors.dd_motor es prefix (decimal i)) bs (taken (id == 0) _ _ off q) c
              inside over
        | inr on ↦ dd_motor_full prefix (decimal i) id c p on (
            copy_fields-Spills es place (codes "control_type" ∷ []) (omega arith) bs
              (passed (id == 0) _ _ on q) c inside over)
      ]

  four_motors-Spills :
      (motor : Key → Cursor → Outcome (Bool × Cursor)) (args : ℕ → Outcome (List ℕ))
      → ((i : ℕ) → Makes (args i) (motor (decimal i)))
      → ((i : ℕ) → Spills (args i) (motor (decimal i)))
      → Spills (four args) (four_motors decimal motor)
  unfolding four_motors
  four_motors-Spills motor args one full =
      Spills-both (args 1) _ (motor (decimal 1)) _ (one 1) (full 1) λ m1.
        Spills-both (args 2) _ (motor (decimal 2)) _ (one 2) (full 2) λ m2.
          Spills-both (args 3) _ (motor (decimal 3)) _ (one 3) (full 3)
            λ m3. Spills-before (args 4) (motor (decimal 4)) _ (full 4)

  copied-Spills :
      {A : Type 0} (wrap : A → AnyTask) (prefix : Key) (names : List Key)
      (rest : Outcome (A × List Endpoint))
      → length names ≤ 256
      → Spills
          (field_bytes es prefix names)
          (λ c. made_as wrap (copy_fields es prefix names c >>= λ c1. rest >>= λ m. value (m, c1)))
  copied-Spills wrap prefix names rest few =
      Spills-before _ (λ c. copy_fields es prefix names c >>= λ c1. rest >>= λ m. value (m, c1)) _
        (Spills-before _ (copy_fields es prefix names) _ (copy_fields-Spills es prefix names few))

  quad-Spills :
      {A : Type 0} (wrap : A → AnyTask) (prefix : Key) (names : List Key)
      (motor : Key → Cursor → Outcome (Bool × Cursor)) (args : ℕ → Outcome (List ℕ))
      (task : Enabled → TaskInfo → A) (type_id : ℕ)
      → length names ≤ 256
      → ((i : ℕ) → Makes (args i) (motor (decimal i)))
      → ((i : ℕ) → Spills (args i) (motor (decimal i)))
      → Spills (both (field_bytes es (prefix ++ codes "sdowrite_") names) (four args)) (λ c.
        made_as wrap (
          copy_fields es (prefix ++ codes "sdowrite_") names c >>= λ c1.
          four_motors decimal motor c1 >>= λ (enabled, c2).
          publish_and_subscribe es prefix type_id >>= λ (info, endpoints).
          value ((task enabled info, endpoints), c2)))
  quad-Spills wrap prefix names motor args task type_id few one full =
      let place = prefix ++ codes "sdowrite_" in
      Spills-before _ _ _ (
        Spills-behind (field_bytes es place names) (four args) (copy_fields es place names) _
          (copy_fields-Moves es place names few) (copy_fields-Spills es place names few)
          (Spills-before (four args) (four_motors decimal motor) _
            (four_motors-Spills motor args one full)))

  lk-Spills :
      (prefix : Key)
      → Spills
          (sdo_arguments decimal es lk prefix)
          (λ c. made_as lk_motor (init_sdo_lk es prefix 2 c))
  unfolding sdo_arguments init_sdo_lk
  lk-Spills prefix bs e c inside over =
      let (type, p, q) = and_then-value (control_type es prefix) _ e in
      let place = prefix ++ codes "sdowrite_" in
      ap
        (λ o. made_as lk_motor (
          o >>= λ type.
          copy_fields es place (if type == 8 then lk_broadcast_names else lk_names) c >>= λ c1.
          finish_lk es prefix 2 (type == 8) >>= λ m. value (m, c1)))
        p
      ∙ copied-Spills lk_motor place (if type == 8 then lk_broadcast_names else lk_names)
          (finish_lk es prefix 2 (type == 8)) (lk_few (type == 8)) bs q c inside over

  -- An `init_sdo` whose arguments do not fit writes past the end.
  pub Spills-sdo :
      (app : AppType) (prefix : Key)
      → Spills (sdo_arguments decimal es app prefix) (init_sdo decimal es app prefix)
  unfolding sdo_arguments init_sdo init_sdo_lk init_sdo_imu init_sdo_dshot init_sdo_dji
      init_sdo_onboard_pwm init_sdo_external_pwm init_sdo_ms5837 init_sdo_dm init_sdo_super_cap
      init_sdo_dd
  Spills-sdo djirc prefix = Spills-nothing _
  Spills-sdo lk prefix = lk-Spills prefix
  Spills-sdo imu prefix =
      copied-Spills hipnuc_imu_can (prefix ++ codes "sdowrite_") imu_names _ (omega arith)
  Spills-sdo dshot_app prefix =
      copied-Spills dshot (prefix ++ codes "sdowrite_") dshot_names _ (omega arith)
  Spills-sdo djican prefix =
      quad-Spills dji_motor prefix dji_names (Motors.dji_motor es prefix)
        (dji_arguments decimal es prefix)
        (λ enabled info. record { info = info; is_motor_enabled = enabled }) 5 (omega arith)
        (dji_motor-Makes decimal es prefix) (dji_motor-Spills prefix)
  Spills-sdo onboard_pwm_app prefix =
      copied-Spills onboard_pwm (prefix ++ codes "sdowrite_") onboard_pwm_names _ (omega arith)
  Spills-sdo external_pwm_app prefix =
      copied-Spills external_pwm (prefix ++ codes "sdowrite_") external_pwm_names _ (omega arith)
  Spills-sdo ms5837 prefix =
      copied-Spills ms5837_30ba (prefix ++ codes "sdowrite_") ms5837_names _ (omega arith)
  Spills-sdo can_pmu prefix = Spills-nothing _
  Spills-sdo sbus prefix = Spills-nothing _
  Spills-sdo dm prefix =
      copied-Spills dm_motor (prefix ++ codes "sdowrite_") dm_names _ (omega arith)
  Spills-sdo super_cap_app prefix =
      copied-Spills super_cap (prefix ++ codes "sdowrite_") super_cap_names _ (omega arith)
  Spills-sdo vt13 prefix = Spills-nothing _
  Spills-sdo dd prefix =
      quad-Spills dd_motor prefix dd_names (Motors.dd_motor es prefix)
        (dd_arguments decimal es prefix)
        (λ enabled info. record { info = info; is_motor_enabled = enabled }) 15 (omega arith)
        (dd_motor-Makes decimal es prefix) (dd_motor-Spills prefix)
