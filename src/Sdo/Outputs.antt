-- ===== src/Sdo/Outputs.antt =====
-- `init_sdo` of the three drivers of PWM outputs (dshot.cpp, onboard_pwm.cpp and external_pwm.cpp
-- in src/soem_wrapper/src/tasks/).
use ecat_v2_master.Base.{ℕ, true, false, List, [], ◌∷◌, ◌++◌}
use ecat_v2_master.Io.{Cursor}
use ecat_v2_master.Config.{Outcome, value, Key, Entries, get_field_as}
use ecat_v2_master.Task.Pwm.{FourChannels, ExternalPwm}
use ecat_v2_master.Sdo.{
  ◌>>=◌, codes, as_uint8, as_uint16, on_command, Endpoint, Made, copy_fields, load_slave_info,
  sub_topic,
}

abbrev pub dshot_names : List Key
dshot_names = codes "connection_lost_write_action" ∷ codes "dshot_id" ∷ codes "init_value" ∷ []

abbrev pub onboard_pwm_names : List Key
onboard_pwm_names =
    codes "connection_lost_write_action"
    ∷ codes "port_id"
    ∷ codes "pwm_period"
    ∷ codes "init_value"
    ∷ []

abbrev pub external_pwm_names : List Key
external_pwm_names =
    codes "connection_lost_write_action"
    ∷ codes "uart_id"
    ∷ codes "pwm_period"
    ∷ codes "channel_num"
    ∷ codes "init_value"
    ∷ []

module _ (es : Entries) (prefix : Key) where
  -- What DSHOT and ONBOARD_PWM do behind their arguments
  unfoldable pub finish_four : ℕ → Outcome (FourChannels × List Endpoint)
  unfolding load_slave_info sub_topic get_field_as
  finish_four type_id = do
    info ← load_slave_info es prefix type_id false true
    init ← get_field_as as_uint16 (prefix ++ codes "sdowrite_init_value") es
    topic ← sub_topic es prefix on_command
    value (record { info = info; init_value = init }, topic ∷ [])

  unfoldable pub init_sdo_dshot : ℕ → Cursor → Outcome (Made FourChannels)
  unfolding finish_four
  init_sdo_dshot type_id c = copy_fields es (prefix ++ codes "sdowrite_") dshot_names c >>= λ c'.
      finish_four type_id >>= λ made. value (made, c')

  unfoldable pub init_sdo_onboard_pwm : ℕ → Cursor → Outcome (Made FourChannels)
  unfolding finish_four
  init_sdo_onboard_pwm type_id c =
      copy_fields es (prefix ++ codes "sdowrite_") onboard_pwm_names c >>= λ c'.
      finish_four type_id >>= λ made. value (made, c')

  unfoldable pub finish_external : ℕ → Outcome (ExternalPwm × List Endpoint)
  unfolding load_slave_info sub_topic get_field_as
  finish_external type_id = do
    info ← load_slave_info es prefix type_id false true
    init ← get_field_as as_uint16 (prefix ++ codes "sdowrite_init_value") es
    count ← get_field_as as_uint8 (prefix ++ codes "sdowrite_channel_num") es
    topic ← sub_topic es prefix on_command
    value (record { info = info; init_value = init; channel_num = count }, topic ∷ [])

  unfoldable pub init_sdo_external_pwm : ℕ → Cursor → Outcome (Made ExternalPwm)
  unfolding finish_external
  init_sdo_external_pwm type_id c =
      copy_fields es (prefix ++ codes "sdowrite_") external_pwm_names c >>= λ c'.
      finish_external type_id >>= λ made. value (made, c')
