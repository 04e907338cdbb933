-- ===== src/Sdo/Written.antt =====
-- Each driver writes the arguments of its task into the buffer, from the running offset on.
use ecat_v2_master.Base.{
  ℕ, ◌≤◌, ◌≡◌, refl, ap, ◌∙◌, inl, inr, Bool, true, false, List, [], ◌∷◌, ◌++◌, arith, Bool-cases,
  taken, passed, ◌==◌, if◌then◌else◌, length,
}
use ecat_v2_master.Io.{Cursor}
use ecat_v2_master.Config.{Variant, Outcome, value, held, Key, Entries, get, get_field_as}
use ecat_v2_master.Config.Buffer.{and_then-value}
use ecat_v2_master.Task.{TaskInfo}
use ecat_v2_master.Task.Quad.{Enabled}
use ecat_v2_master.Sdo.{◌>>=◌, codes, as_uint8, as_uint32, Endpoint, copy_fields}
use ecat_v2_master.Sdo.Emits.{
  field_bytes, both, Wrote, Wrote-nothing, Wrote-both, Wrote-as, copy_fields-Wrote,
}
use ecat_v2_master.Sdo.Sensors.{
  init_sdo_receiver, init_sdo_ms5837, init_sdo_imu, ms5837_names, imu_names, publish_only,
  finish_imu,
}
use ecat_v2_master.Sdo.Outputs.{
  init_sdo_dshot, init_sdo_onboard_pwm, init_sdo_external_pwm, dshot_names, onboard_pwm_names,
  external_pwm_names, finish_four, finish_external,
}
use ecat_v2_master.Sdo.Motors.{
  dji_names, dd_names, dji_motor_names, lk_broadcast_names, lk_names, dm_names, super_cap_names,
  motor_arg_prefix, control_type, four_motors, init_sdo_dji, init_sdo_dd, init_sdo_lk, init_sdo_dm,
  init_sdo_super_cap, finish_lk, finish_dm, finish_super_cap, publish_and_subscribe,
}
use ecat_v2_master.Sdo.Motors
use ecat_v2_master.Sdo.TaskList.{
  AnyTask, AppType, djirc, lk, imu, dshot_app, djican, onboard_pwm_app, external_pwm_app, ms5837,
  can_pmu, sbus, dm, super_cap_app, vt13, dd, made_as, init_sdo, dbus_rc, lk_motor, hipnuc_imu_can,
  dshot, dji_motor, onboard_pwm, external_pwm, ms5837_30ba, pmu_can, sbus_rc, dm_motor, super_cap,
  vt13_rc, dd_motor,
}
use ecat_v2_master.Sdo.Arguments.{four, dji_arguments, dd_arguments, sdo_arguments}

pub lk_few : (b : Bool) → length (if b then lk_broadcast_names else lk_names) ≤ 256
lk_few true = omega arith
lk_few false = omega arith

pub dji_few : (type : ℕ) → length (dji_motor_names type) ≤ 256
unfolding dji_motor_names
dji_few type = ground arith

module _ (decimal : ℕ → Key) (es : Entries) where
  finished :
      {A : Type 0} (wrap : A → AnyTask) (o : Outcome Cursor) (rest : Outcome (A × List Endpoint))
      {made : AnyTask × List Endpoint} {c' : Cursor}
      → made_as wrap (o >>= λ c1. rest >>= λ m. value (m, c1)) ≡ value (made, c')
      → o ≡ value c'
  finished wrap o rest {made} {c'} e =
      let (((t, endpoints), c1), p, q) =
        and_then-value (o >>= λ c1. rest >>= λ m. value (m, c1)) _ e in
      let (c2, r, s) = and_then-value o _ p in
      let (m, u, v) = and_then-value rest _ s in
      let same : c1 ≡ c' = cc q in let same2 : c2 ≡ c1 = cc v in r ∙ ap value (same2 ∙ same)

  copied_fields :
      {A : Type 0} (wrap : A → AnyTask) (prefix : Key) (names : List Key) (c : Cursor)
      (rest : Outcome (A × List Endpoint)) {made : AnyTask × List Endpoint} {c' : Cursor}
      → length names ≤ 256
      → made_as wrap (copy_fields es prefix names c >>= λ c1. rest >>= λ m. value (m, c1))
        ≡ value (made, c')
      → Wrote (field_bytes es prefix names) c c'
  copied_fields wrap prefix names c rest h e =
      copy_fields-Wrote es prefix names c h (finished wrap (copy_fields es prefix names c) rest e)

  unwritten :
      (wrap : TaskInfo → AnyTask) (prefix : Key) (type_id : ℕ) (c : Cursor)
      {made : AnyTask × List Endpoint} {c' : Cursor}
      → made_as wrap (init_sdo_receiver es prefix type_id c) ≡ value (made, c')
      → Wrote (value []) c c'
  unfolding init_sdo_receiver
  unwritten wrap prefix type_id c {made} {c'} e =
      let same : c ≡ c' = cc (finished wrap (value c) (publish_only es prefix type_id) e) in
      Wrote-as c c c' refl same (Wrote-nothing c)

  four_motors-Wrote :
      (motor : Key → Cursor → Outcome (Bool × Cursor)) (args : ℕ → Outcome (List ℕ))
      → ((i : ℕ) (c : Cursor) (b : Bool) (c' : Cursor)
          → motor (decimal i) c ≡ value (b, c')
          → Wrote (args i) c c')
      → (c : Cursor) {enabled : Enabled} {c' : Cursor}
      → four_motors decimal motor c ≡ value (enabled, c')
      → Wrote (four args) c c'
  unfolding four_motors
  four_motors-Wrote motor args one c {enabled} {c'} e =
      let ((m1, c1), p1, q1) = and_then-value (motor (decimal 1) c) _ e in
      let ((m2, c2), p2, q2) = and_then-value (motor (decimal 2) c1) _ q1 in
      let ((m3, c3), p3, q3) = and_then-value (motor (decimal 3) c2) _ q2 in
      let ((m4, c4), p4, q4) = and_then-value (motor (decimal 4) c3) _ q3 in
      let last : c4 ≡ c' = cc q4 in
      Wrote-both c c1 c' (one 1 c m1 c1 p1) (
        Wrote-both c1 c2 c' (one 2 c1 m2 c2 p2) (
          Wrote-both c2 c3 c' (one 3 c2 m3 c3 p3)
            (Wrote-as c3 c4 c' refl last (one 4 c3 m4 c4 p4))))

  dji_off :
      (prefix : Key) (i id : ℕ)
      → get_field_as as_uint32 (motor_arg_prefix prefix (decimal i) ++ codes "can_id") es ≡ value id
      → (id == 0) ≡ true
      → dji_arguments decimal es prefix i ≡ value []
  unfolding dji_arguments
  dji_off prefix i id p off = rw (p, off) refl

  dji_on :
      (prefix : Key) (i id type : ℕ) (v : Variant)
      → get_field_as as_uint32 (motor_arg_prefix prefix (decimal i) ++ codes "can_id") es ≡ value id
      → (id == 0) ≡ false
      → get (motor_arg_prefix prefix (decimal i) ++ codes "control_type") es ≡ value v
      → held (as_uint8 v) ≡ value type
      → dji_arguments decimal es prefix i
        ≡ field_bytes es (motor_arg_prefix prefix (decimal i)) (dji_motor_names type)
  unfolding dji_arguments get_field_as
  dji_on prefix i id type v p on r t = rw (p, on, r, t) refl

  dd_off :
      (prefix : Key) (i id : ℕ)
      → get_field_as as_uint32 (motor_arg_prefix prefix (decimal i) ++ codes "can_id") es ≡ value id
      → (id == 0) ≡ true
      → dd_arguments decimal es prefix i ≡ value []
  unfolding dd_arguments
  dd_off prefix i id p off = rw (p, off) refl

  dd_on :
      (prefix : Key) (i id : ℕ)
      → get_field_as as_uint32 (motor_arg_prefix prefix (decimal i) ++ codes "can_id") es ≡ value id
      → (id == 0) ≡ false
      → dd_arguments decimal es prefix i
        ≡ field_bytes es (motor_arg_prefix prefix (decimal i)) (codes "control_type" ∷ [])
  unfolding dd_arguments
  dd_on prefix i id p on = rw (p, on) refl

  dji_motor-Wrote :
      (prefix : Key) (i : ℕ) (c : Cursor) (b : Bool) (c' : Cursor)
      → Motors.dji_motor es prefix (decimal i) c ≡ value (b, c')
      → Wrote (dji_arguments decimal es prefix i) c c'
  unfolding dji_arguments Motors.dji_motor get_field_as
  dji_motor-Wrote prefix i c b c' e =
      let place = motor_arg_prefix prefix (decimal i) in
      let (id, p, q) = and_then-value (get_field_as as_uint32 (place ++ codes "can_id") es) _ e in
      elim (Bool-cases (id == 0)) [
        | inl off ↦
            let same : c ≡ c' = cc (taken (id == 0) _ _ off q) in
            Wrote-as c c c' (dji_off prefix i id p off) same (Wrote-nothing c)
        | inr on ↦
            let (v, r, s) =
              and_then-value (get (place ++ codes "control_type") es) _
                (passed (id == 0) _ _ on q) in
            let (type, t, u) = and_then-value (held (as_uint8 v)) _ s in
            let (c1, w, x) = and_then-value (copy_fields es place (dji_motor_names type) c) _ u in
            let same : c1 ≡ c' = cc x in
            Wrote-as c c1 c' (dji_on prefix i id type v p on r t) same
              (copy_fields-Wrote es place (dji_motor_names type) c (dji_few type) w)
      ]

  dd_motor-Wrote :
      (prefix : Key) (i : ℕ) (c : Cursor) (b : Bool) (c' : Cursor)
      → Motors.dd_motor es prefix (decimal i) c ≡ value (b, c')
      → Wrote (dd_arguments decimal es prefix i) c c'
  unfolding dd_arguments Motors.dd_motor
  dd_motor-Wrote prefix i c b c' e =
      let place = motor_arg_prefix prefix (decimal i) in
      let (id, p, q) = and_then-value (get_field_as as_uint32 (place ++ codes "can_id") es) _ e in
      elim (Bool-cases (id == 0)) [
        | inl off ↦
            let same : c ≡ c' = cc (taken (id == 0) _ _ off q) in
            Wrote-as c c c' (dd_off prefix i id p off) same (Wrote-nothing c)
        | inr on ↦
            let (c1, w, x) =
              and_then-value (copy_fields es place (codes "control_type" ∷ []) c) _
                (passed (id == 0) _ _ on q) in
            let same : c1 ≡ c' = cc x in
            Wrote-as c c1 c' (dd_on prefix i id p on) same
              (copy_fields-Wrote es place (codes "control_type" ∷ []) c (omega arith) w)
      ]

  quad-Wrote :
      {A : Type 0} (wrap : A → AnyTask) (prefix : Key) (names : List Key)
      (motor : Key → Cursor → Outcome (Bool × Cursor)) (args : ℕ → Outcome (List ℕ))
      (task : Enabled → TaskInfo → A) (type_id : ℕ) (c : Cursor) {made : AnyTask × List Endpoint}
      {c' : Cursor}
      → length names ≤ 256
      → ((i : ℕ) (c : Cursor) (b : Bool) (c' : Cursor)
          → motor (decimal i) c ≡ value (b, c')
          → Wrote (args i) c c')
      → made_as wrap (
          copy_fields es (prefix ++ codes "sdowrite_") names c >>= λ c1.
          four_motors decimal motor c1 >>= λ (enabled, c2).
          publish_and_subscribe es prefix type_id >>= λ (info, endpoints).
          value ((task enabled info, endpoints), c2))
        ≡ value (made, c')
      → Wrote (both (field_bytes es (prefix ++ codes "sdowrite_") names) (four args)) c c'
  quad-Wrote wrap prefix names motor args task type_id c {made} {c'} few one e =
      let (((t, endpoints), c3), p, q) =
        and_then-value
          (copy_fields es (prefix ++ codes "sdowrite_") names c >>= λ c1.
            four_motors decimal motor c1 >>= λ (enabled, c2).
            publish_and_subscribe es prefix type_id >>= λ (info, endpoints).
            value ((task enabled info, endpoints), c2))
          _ e in
      let (c1, r, s) = and_then-value (copy_fields es (prefix ++ codes "sdowrite_") names c) _ p in
      let ((enabled, c2), t, u) = and_then-value (four_motors decimal motor c1) _ s in
      let ((info, ends), v, w) = and_then-value (publish_and_subscribe es prefix type_id) _ u in
      let same : c3 ≡ c' = cc q in
      let same2 : c2 ≡ c3 = cc w in
      Wrote-both c c1 c' (copy_fields-Wrote es (prefix ++ codes "sdowrite_") names c few r)
        (Wrote-as c1 c2 c' refl (same2 ∙ same) (four_motors-Wrote motor args one c1 t))

  lk-Wrote :
      (prefix : Key) (c : Cursor) {made : AnyTask × List Endpoint} {c' : Cursor}
      → made_as lk_motor (init_sdo_lk es prefix 2 c) ≡ value (made, c')
      → Wrote (sdo_arguments decimal es lk prefix) c c'
  unfolding sdo_arguments init_sdo_lk
  lk-Wrote prefix c e =
      let (((t, endpoints), c1), p, q) = and_then-value (init_sdo_lk es prefix 2 c) _ e in
      let (type, r, s) = and_then-value (control_type es prefix) _ p in
      rw r (
        copied_fields lk_motor (prefix ++ codes "sdowrite_")
          (if type == 8 then lk_broadcast_names else lk_names) c (finish_lk es prefix 2 (type == 8))
          (lk_few (type == 8)) (ap (made_as lk_motor) s ∙ q))

  pub Wrote-sdo :
      (app : AppType) (prefix : Key) (c : Cursor) {made : AnyTask × List Endpoint} {c' : Cursor}
      → init_sdo decimal es app prefix c ≡ value (made, c')
      → Wrote (sdo_arguments decimal es app prefix) c c'
  unfolding sdo_arguments init_sdo init_sdo_receiver init_sdo_lk init_sdo_imu init_sdo_dshot
      init_sdo_dji init_sdo_onboard_pwm init_sdo_external_pwm init_sdo_ms5837 init_sdo_dm
      init_sdo_super_cap init_sdo_dd
  Wrote-sdo djirc prefix c e = unwritten dbus_rc prefix 1 c e
  Wrote-sdo lk prefix c e = lk-Wrote prefix c e
  Wrote-sdo imu prefix c e =
      copied_fields hipnuc_imu_can (prefix ++ codes "sdowrite_") imu_names c
        (finish_imu es prefix 3) (omega arith) e
  Wrote-sdo dshot_app prefix c e =
      copied_fields dshot (prefix ++ codes "sdowrite_") dshot_names c (finish_four es prefix 4)
        (omega arith) e
  Wrote-sdo djican prefix c e =
      quad-Wrote dji_motor prefix dji_names (Motors.dji_motor es prefix)
        (dji_arguments decimal es prefix)
        (λ enabled info. record { info = info; is_motor_enabled = enabled }) 5 c (omega arith)
        (dji_motor-Wrote prefix) e
  Wrote-sdo onboard_pwm_app prefix c e =
      copied_fields onboard_pwm (prefix ++ codes "sdowrite_") onboard_pwm_names c
        (finish_four es prefix 6) (omega arith) e
  Wrote-sdo external_pwm_app prefix c e =
      copied_fields external_pwm (prefix ++ codes "sdowrite_") external_pwm_names c
        (finish_external es prefix 7) (omega arith) e
  Wrote-sdo ms5837 prefix c e =
      copied_fields ms5837_30ba (prefix ++ codes "sdowrite_") ms5837_names c
        (publish_only es prefix 8) (omega arith) e
  Wrote-sdo can_pmu prefix c e = unwritten pmu_can prefix 10 c e
  Wrote-sdo sbus prefix c e = unwritten sbus_rc prefix 11 c e
  Wrote-sdo dm prefix c e =
      copied_fields dm_motor (prefix ++ codes "sdowrite_") dm_names c (finish_dm es prefix 12)
        (omega arith) e
  Wrote-sdo super_cap_app prefix c e =
      copied_fields super_cap (prefix ++ codes "sdowrite_") super_cap_names c
        (finish_super_cap es prefix 13) (omega arith) e
  Wrote-sdo vt13 prefix c e = unwritten vt13_rc prefix 14 c e
  Wrote-sdo dd prefix c e =
      quad-Wrote dd_motor prefix dd_names (Motors.dd_motor es prefix)
        (dd_arguments decimal es prefix)
        (λ enabled info. record { info = info; is_motor_enabled = enabled }) 15 c (omega arith)
        (dd_motor-Wrote prefix) e
