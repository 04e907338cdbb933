-- ===== src/Sdo/Complete/Motors.antt =====
-- The arguments of the four motors of a task: with room for them, writing them does not fail.
use ecat_v2_master.Base.{
  ℕ, ◌≡◌, refl, ap, inl, inr, Bool, true, false, List, [], ◌∷◌, ◌++◌, arith, Bool-cases, taken,
  passed, length, ◌==◌,
}
use ecat_v2_master.Io.{Cursor}
use ecat_v2_master.Config.{Variant, Outcome, value, held, Key, Entries, get, get_field_as}
use ecat_v2_master.Config.Buffer.{and_then-value}
use ecat_v2_master.Sdo.{codes, as_uint8, as_uint32, copy_fields}
use ecat_v2_master.Sdo.Motors.{
  dji_names, dd_names, dji_motor_names, lk_broadcast_names, lk_names, dm_names, super_cap_names,
  motor_arg_prefix, control_type, four_motors, init_sdo_dji, init_sdo_dd, init_sdo_lk, init_sdo_dm,
  init_sdo_super_cap, finish_lk, finish_dm, finish_super_cap, publish_and_subscribe,
}
use ecat_v2_master.Sdo.Motors
use ecat_v2_master.Sdo.Arguments.{four, dji_arguments, dd_arguments}
use ecat_v2_master.Sdo.Written.{dji_few}
use ecat_v2_master.Sdo.Complete.{Makes, IsBehind, copy_fields-Moves, Makes-both, Makes-map}

module _ (decimal : ℕ → Key) (es : Entries) where
  dji_motor_off :
      (prefix digits : Key) (id : ℕ) (c : Cursor)
      → get_field_as as_uint32 (motor_arg_prefix prefix digits ++ codes "can_id") es ≡ value id
      → (id == 0) ≡ true
      → Motors.dji_motor es prefix digits c ≡ value (false, c)
  unfolding Motors.dji_motor
  dji_motor_off prefix digits id c p off = rw (p, off) refl

  dji_motor_on :
      (prefix digits : Key) (id type : ℕ) (v : Variant) (c c' : Cursor)
      → get_field_as as_uint32 (motor_arg_prefix prefix digits ++ codes "can_id") es ≡ value id
      → (id == 0) ≡ false
      → get (motor_arg_prefix prefix digits ++ codes "control_type") es ≡ value v
      → held (as_uint8 v) ≡ value type
      → copy_fields es (motor_arg_prefix prefix digits) (dji_motor_names type) c ≡ value c'
      → Motors.dji_motor es prefix digits c ≡ value (true, c')
  unfolding Motors.dji_motor
  dji_motor_on prefix digits id type v c c' p on t u w = rw (p, on, t, u, w) refl

  -- An argument that is not there leaves the cursor.
  unmoved : {bs : List ℕ} (c : Cursor) → value [] ≡ value bs → IsBehind c (length bs) c
  unmoved {bs} c e =
      let none_is : [] ≡ bs = cc e in
      record { offset_is = omega (arith, ap length none_is); size_is = refl }

  pub dji_motor-Makes :
      (prefix : Key) (i : ℕ)
      → Makes (dji_arguments decimal es prefix i) (Motors.dji_motor es prefix (decimal i))
  unfolding dji_arguments Motors.dji_motor get_field_as
  dji_motor-Makes prefix i bs e c room =
      let place = motor_arg_prefix prefix (decimal i) in
      let (id, p, q) = and_then-value (get_field_as as_uint32 (place ++ codes "can_id") es) _ e in
      elim (Bool-cases (id == 0)) [
        | inl off ↦ (
          false,
          c,
          dji_motor_off prefix (decimal i) id c p off,
          unmoved c (taken (id == 0) _ _ off q),
        )
        | inr on ↦
            let (type, r, s) =
              and_then-value (get_field_as as_uint8 (place ++ codes "control_type") es) _
                (passed (id == 0) _ _ on q) in
            let (v, t, u) = and_then-value (get (place ++ codes "control_type") es) _ r in
            let (c1, w, x) =
              copy_fields-Moves es place (dji_motor_names type) (dji_few type) bs s c room in
            (true, c1, dji_motor_on prefix (decimal i) id type v c c1 p on t u w, x)
      ]

  dd_motor_off :
      (prefix digits : Key) (id : ℕ) (c : Cursor)
      → get_field_as as_uint32 (motor_arg_prefix prefix digits ++ codes "can_id") es ≡ value id
      → (id == 0) ≡ true
      → Motors.dd_motor es prefix digits c ≡ value (false, c)
  unfolding Motors.dd_motor
  dd_motor_off prefix digits id c p off = rw (p, off) refl

  dd_motor_on :
      (prefix digits : Key) (id : ℕ) (c c' : Cursor)
      → get_field_as as_uint32 (motor_arg_prefix prefix digits ++ codes "can_id") es ≡ value id
      → (id == 0) ≡ false
      → copy_fields es (motor_arg_prefix prefix digits) (codes "control_type" ∷ []) c ≡ value c'
      → Motors.dd_motor es prefix digits c ≡ value (true, c')
  unfolding Motors.dd_motor
  dd_motor_on prefix digits id c c' p on w = rw (p, on, w) refl

  pub dd_motor-Makes :
      (prefix : Key) (i : ℕ)
      → Makes (dd_arguments decimal es prefix i) (Motors.dd_motor es prefix (decimal i))
  unfolding dd_arguments
  dd_motor-Makes prefix i bs e c room =
      let place = motor_arg_prefix prefix (decimal i) in
      let (id, p, q) = and_then-value (get_field_as as_uint32 (place ++ codes "can_id") es) _ e in
      elim (Bool-cases (id == 0)) [
        | inl off ↦ (
          false,
          c,
          dd_motor_off prefix (decimal i) id c p off,
          unmoved c (taken (id == 0) _ _ off q),
        )
        | inr on ↦
            let (c1, w, x) =
              copy_fields-Moves es place (codes "control_type" ∷ []) (omega arith) bs
                (passed (id == 0) _ _ on q) c room in
            (true, c1, dd_motor_on prefix (decimal i) id c c1 p on w, x)
      ]

  pub four_motors-Makes :
      (motor : Key → Cursor → Outcome (Bool × Cursor)) (args : ℕ → Outcome (List ℕ))
      → ((i : ℕ) → Makes (args i) (motor (decimal i)))
      → Makes (four args) (four_motors decimal motor)
  unfolding four_motors
  four_motors-Makes motor args one = Makes-both (args 1) _ (motor (decimal 1)) _ (one 1) λ m1.
      Makes-both (args 2) _ (motor (decimal 2)) _ (one 2) λ m2.
        Makes-both (args 3) _ (motor (decimal 3)) _ (one 3) λ m3.
          Makes-map (args 4) (motor (decimal 4))
            (λ m4. record { motor1 = m1; motor2 = m2; motor3 = m3; motor4 = m4 }) (one 4)
