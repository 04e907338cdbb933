-- ===== src/Sdo/Sensors.antt =====
-- `init_sdo` of the drivers that only publish: the three radio receivers, the power management
-- unit, the IMU and the pressure sensor (dji_rc.cpp, vt13_rc.cpp, sbus_rc.cpp, pmu_can.cpp,
-- hipnuc_imu_can.cpp and ms5837_30ba.cpp in src/soem_wrapper/src/tasks/). The radio receivers and
-- the power management unit put nothing into the argument buffer. SBUS_RC::init_sdo also resizes
-- `channels` of its static message to 16; Task/SbusRc has these as sixteen values that each read
-- assigns, so this is not repeated here.
use ecat_v2_master.Base.{ℕ, true, false, List, [], ◌∷◌, ◌++◌}
use ecat_v2_master.Io.{Cursor}
use ecat_v2_master.Config.{Outcome, value, Key, Entries, get_field_or}
use ecat_v2_master.Task.{TaskInfo}
use ecat_v2_master.Task.HipnucImu.{HipnucImuCan}
use ecat_v2_master.Sdo.{
  ◌>>=◌, codes, as_string, Endpoint, Made, copy_fields, load_slave_info, pub_topic,
}

abbrev pub ms5837_names : List Key
ms5837_names = codes "i2c_id" ∷ codes "osr_id" ∷ []

abbrev pub imu_names : List Key
imu_names = codes "can_inst" ∷ codes "packet1_id" ∷ codes "packet2_id" ∷ codes "packet3_id" ∷ []

module _ (es : Entries) (prefix : Key) where
  -- load_slave_info, then the publisher
  unfoldable pub publish_only : ℕ → Outcome (TaskInfo × List Endpoint)
  unfolding load_slave_info pub_topic
  publish_only type_id = do
    info ← load_slave_info es prefix type_id true false
    topic ← pub_topic es prefix
    value (info, topic ∷ [])

  unfoldable pub init_sdo_receiver : ℕ → Cursor → Outcome (Made TaskInfo)
  unfolding publish_only
  init_sdo_receiver type_id c = publish_only type_id >>= λ made. value (made, c)

  unfoldable pub init_sdo_ms5837 : ℕ → Cursor → Outcome (Made TaskInfo)
  unfolding publish_only
  init_sdo_ms5837 type_id c = copy_fields es (prefix ++ codes "sdowrite_") ms5837_names c >>= λ c'.
      publish_only type_id >>= λ made. value (made, c')

  unfoldable pub finish_imu : ℕ → Outcome (HipnucImuCan × List Endpoint)
  unfolding load_slave_info pub_topic get_field_or
  finish_imu type_id = do
    info ← load_slave_info es prefix type_id true false
    name ← get_field_or as_string (prefix ++ codes "conf_frame_name") (codes "imu_link") es
    topic ← pub_topic es prefix
    value (record { info = info; conf_frame_name = name }, topic ∷ [])

  unfoldable pub init_sdo_imu : ℕ → Cursor → Outcome (Made HipnucImuCan)
  unfolding finish_imu
  init_sdo_imu type_id c = copy_fields es (prefix ++ codes "sdowrite_") imu_names c >>= λ c'.
      finish_imu type_id >>= λ made. value (made, c')
