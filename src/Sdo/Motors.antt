-- ===== src/Sdo/Motors.antt =====
-- `init_sdo` of the drivers that take commands and report: the motors and the super capacitor
-- (dji_motor.cpp, dd_motor.cpp, lk_motor.cpp, dm_motor.cpp and super_cap.cpp in
-- src/soem_wrapper/src/tasks/).
--
-- The floats of the DM motor are kept by their 32-bit patterns.
use ecat_v2_master.Base.{ℕ, Bool, true, false, List, [], ◌∷◌, ◌++◌, ◌==◌, if◌then◌else◌}
use ecat_v2_master.Io.{Cursor}
use ecat_v2_master.Config.{Outcome, value, held, Key, Entries, get, get_field_as, get_field_or}
use ecat_v2_master.Task.{TaskInfo}
use ecat_v2_master.Task.Quad.{Enabled}
use ecat_v2_master.Task.DjiMotor.{DjiMotor}
use ecat_v2_master.Task.DdMotor.{DdMotor}
use ecat_v2_master.Task.LkMotor.{LkMotor}
use ecat_v2_master.Task.DmMotor.{DmMotor}
use ecat_v2_master.Sdo.{
  ◌>>=◌, codes, as_uint8, as_uint32, as_float, Handler, on_command, on_command_openloop_control,
  on_command_torque_control, on_command_speed_with_torque_limit_control,
  on_command_multi_round_pos_control, on_command_multi_round_pos_with_speed_limit_control,
  on_command_single_round_pos_control, on_command_single_round_pos_with_speed_limit_control,
  on_command_broadcast_current_control, on_command_mit_control,
  on_command_pos_with_speed_limit_control, on_command_speed_control, Endpoint, Made, copy_fields,
  load_slave_info, pub_topic, sub_topic,
}

abbrev pub dji_names : List Key
dji_names =
    codes "connection_lost_write_action"
    ∷ codes "control_period"
    ∷ codes "can_packet_id"
    ∷ codes "motor1_can_id"
    ∷ codes "motor2_can_id"
    ∷ codes "motor3_can_id"
    ∷ codes "motor4_can_id"
    ∷ codes "can_inst"
    ∷ []

abbrev pub dd_names : List Key
dd_names = codes "can_baudrate" ∷ dji_names

abbrev speed_names : List Key
speed_names =
    codes "speed_pid_kp"
    ∷ codes "speed_pid_ki"
    ∷ codes "speed_pid_kd"
    ∷ codes "speed_pid_max_out"
    ∷ codes "speed_pid_max_iout"
    ∷ []

abbrev angle_names : List Key
angle_names =
    codes "angle_pid_kp"
    ∷ codes "angle_pid_ki"
    ∷ codes "angle_pid_kd"
    ∷ codes "angle_pid_max_out"
    ∷ codes "angle_pid_max_iout"
    ∷ []

-- What a DJI motor of a control type is sent; nothing for another type.
unfoldable pub dji_motor_names : ℕ → List Key
dji_motor_names type =
    if type == 1
    then codes "control_type" ∷ []
    else (if type == 2
        then codes "control_type" ∷ speed_names
        else (if type == 3 then codes "control_type" ∷ speed_names ++ angle_names else []))

abbrev pub lk_broadcast_names : List Key
lk_broadcast_names =
    codes "connection_lost_write_action"
    ∷ codes "control_period"
    ∷ codes "control_type"
    ∷ codes "can_inst"
    ∷ []

abbrev pub lk_names : List Key
lk_names =
    codes "connection_lost_write_action"
    ∷ codes "control_period"
    ∷ codes "control_type"
    ∷ codes "can_packet_id"
    ∷ codes "can_inst"
    ∷ []

abbrev pub dm_names : List Key
dm_names =
    codes "connection_lost_write_action"
    ∷ codes "control_period"
    ∷ codes "can_id"
    ∷ codes "master_id"
    ∷ codes "can_inst"
    ∷ codes "control_type"
    ∷ []

abbrev pub super_cap_names : List Key
super_cap_names =
    codes "connection_lost_write_action"
    ∷ codes "can_inst"
    ∷ codes "chassis_to_cap_id"
    ∷ codes "cap_to_chassis_id"
    ∷ []

-- The handler of an LK motor's control type, if it is a known one
unfoldable pub lk_handler : ℕ → List Handler
lk_handler type =
    if type == 1
    then on_command_openloop_control ∷ []
    else (if type == 2
        then on_command_torque_control ∷ []
        else (if type == 3
            then on_command_speed_with_torque_limit_control ∷ []
            else (if type == 4
                then on_command_multi_round_pos_control ∷ []
                else (if type == 5
                    then on_command_multi_round_pos_with_speed_limit_control ∷ []
                    else (if type == 6
                        then on_command_single_round_pos_control ∷ []
                        else (if type == 7
                            then on_command_single_round_pos_with_speed_limit_control ∷ []
                            else (if type == 8
                                then on_command_broadcast_current_control ∷ []
                                else [])))))))

unfoldable pub dm_handler : ℕ → List Handler
dm_handler type =
    if type == 1
    then on_command_mit_control ∷ []
    else (if type == 2
        then on_command_pos_with_speed_limit_control ∷ []
        else (if type == 3 then on_command_speed_control ∷ [] else []))

-- fmt::format("{}sdowrite_motor{}_", prefix, i), where `digits` are those of i
abbrev pub motor_arg_prefix : Key → Key → Key
motor_arg_prefix prefix digits = prefix ++ codes "sdowrite_motor" ++ digits ++ codes "_"

-- for (int i = 1; i <= 4; i++)
unfoldable pub four_motors :
    (ℕ → Key) → (Key → Cursor → Outcome (Bool × Cursor)) → Cursor → Outcome (Enabled × Cursor)
four_motors decimal motor c = motor (decimal 1) c >>= λ (m1, c1).
    motor (decimal 2) c1 >>= λ (m2, c2). motor (decimal 3) c2 >>= λ (m3, c3).
    motor (decimal 4) c3 >>= λ (m4, c4).
    value (record { motor1 = m1; motor2 = m2; motor3 = m3; motor4 = m4 }, c4)

module _ (es : Entries) (prefix : Key) where
  unfoldable pub subscribe : List Handler → Outcome (List Endpoint)
  unfolding sub_topic
  subscribe [] = value []
  subscribe (h ∷ hs) = sub_topic es prefix h >>= λ e. value (e ∷ [])

  unfoldable pub publish_and_subscribe : ℕ → Outcome (TaskInfo × List Endpoint)
  unfolding load_slave_info pub_topic sub_topic
  publish_and_subscribe type_id = do
    info ← load_slave_info es prefix type_id true true
    published ← pub_topic es prefix
    subscribed ← sub_topic es prefix on_command
    value (info, published ∷ subscribed ∷ [])

  unfoldable pub control_type : Outcome ℕ
  unfolding get_field_as
  control_type = get_field_as as_uint8 (prefix ++ codes "sdowrite_control_type") es

  -- One motor of the loop of `DJI_MOTOR::init_sdo`
  unfoldable pub dji_motor : Key → Cursor → Outcome (Bool × Cursor)
  unfolding get_field_as get dji_motor_names
  dji_motor digits c =
      get_field_as as_uint32 (motor_arg_prefix prefix digits ++ codes "can_id") es >>= λ id.
      if id == 0
      then value (false, c)
      else (get (motor_arg_prefix prefix digits ++ codes "control_type") es >>= λ v.
          held (as_uint8 v) >>= λ type.
          copy_fields es (motor_arg_prefix prefix digits) (dji_motor_names type) c >>= λ c'.
          value (true, c'))

  -- One motor of the loop of `DD_MOTOR::init_sdo`
  unfoldable pub dd_motor : Key → Cursor → Outcome (Bool × Cursor)
  unfolding get_field_as
  dd_motor digits c =
      get_field_as as_uint32 (motor_arg_prefix prefix digits ++ codes "can_id") es >>= λ id.
      if id == 0
      then value (false, c)
      else (copy_fields es (motor_arg_prefix prefix digits) (codes "control_type" ∷ []) c >>= λ c'.
          value (true, c'))

  unfoldable pub init_sdo_dji : (ℕ → Key) → ℕ → Cursor → Outcome (Made DjiMotor)
  unfolding four_motors dji_motor publish_and_subscribe
  init_sdo_dji decimal type_id c =
      copy_fields es (prefix ++ codes "sdowrite_") dji_names c >>= λ c1.
      four_motors decimal dji_motor c1 >>= λ (enabled, c2).
      publish_and_subscribe type_id >>= λ (info, endpoints).
      value ((record { info = info; is_motor_enabled = enabled }, endpoints), c2)

  unfoldable pub init_sdo_dd : (ℕ → Key) → ℕ → Cursor → Outcome (Made DdMotor)
  unfolding four_motors dd_motor publish_and_subscribe
  init_sdo_dd decimal type_id c = copy_fields es (prefix ++ codes "sdowrite_") dd_names c >>= λ c1.
      four_motors decimal dd_motor c1 >>= λ (enabled, c2).
      publish_and_subscribe type_id >>= λ (info, endpoints).
      value ((record { info = info; is_motor_enabled = enabled }, endpoints), c2)

  unfoldable pub finish_lk : ℕ → Bool → Outcome (LkMotor × List Endpoint)
  unfolding load_slave_info control_type subscribe lk_handler pub_topic
  finish_lk type_id is_broadcast_mode = do
    info ← load_slave_info es prefix type_id true true
    type ← control_type
    subscribed ← subscribe (lk_handler type)
    published ← pub_topic es prefix
    value (
      record { info = info; is_broadcast_mode = is_broadcast_mode },
      subscribed ++ (published ∷ []),
    )

  unfoldable pub init_sdo_lk : ℕ → Cursor → Outcome (Made LkMotor)
  unfolding control_type finish_lk
  init_sdo_lk type_id c = control_type >>= λ type.
      copy_fields es (prefix ++ codes "sdowrite_")
        (if type == 8 then lk_broadcast_names else lk_names) c
      >>= λ c'. finish_lk type_id (type == 8) >>= λ made. value (made, c')

  unfoldable pub finish_dm : ℕ → Outcome (DmMotor ℕ × List Endpoint)
  unfolding load_slave_info control_type subscribe dm_handler pub_topic get_field_as get_field_or
  finish_dm type_id = do
    info ← load_slave_info es prefix type_id true true
    type ← control_type
    subscribed ← subscribe (dm_handler type)
    -- The pattern of the float nearest to M_PI
    pmax ← get_field_or as_float (prefix ++ codes "conf_pmax") 0x40490fdb es
    vmax ← get_field_as as_float (prefix ++ codes "conf_vmax") es
    tmax ← get_field_as as_float (prefix ++ codes "conf_tmax") es
    published ← pub_topic es prefix
    value (
      record { info = info; pmax = pmax; vmax = vmax; tmax = tmax },
      subscribed ++ (published ∷ []),
    )

  unfoldable pub init_sdo_dm : ℕ → Cursor → Outcome (Made (DmMotor ℕ))
  unfolding finish_dm
  init_sdo_dm type_id c = copy_fields es (prefix ++ codes "sdowrite_") dm_names c >>= λ c'.
      finish_dm type_id >>= λ made. value (made, c')

  unfoldable pub finish_super_cap : ℕ → Outcome (TaskInfo × List Endpoint)
  unfolding load_slave_info pub_topic sub_topic
  finish_super_cap type_id = do
    info ← load_slave_info es prefix type_id true true
    subscribed ← sub_topic es prefix on_command
    published ← pub_topic es prefix
    value (info, subscribed ∷ published ∷ [])

  unfoldable pub init_sdo_super_cap : ℕ → Cursor → Outcome (Made TaskInfo)
  unfolding finish_super_cap
  init_sdo_super_cap type_id c =
      copy_fields es (prefix ++ codes "sdowrite_") super_cap_names c >>= λ c'.
      finish_super_cap type_id >>= λ made. value (made, c')
