-- ===== src/Examples/Sdos.antt =====
-- A slave with an SBUS receiver and a DSHOT output, and its configuration.
use ecat_v2_master.Base.{
  ℕ, ◌+◌, ◌≡◌, refl, List, [], ◌∷◌, true, false, replicate, arith, pos, length, ◌≤◌, some,
}
use ecat_v2_master.Io.{memcpy}
use ecat_v2_master.Io.Splice.{splice}
use ecat_v2_master.Config.{uint8, uint16, string, value, Key, Entries, get_field_as}
use ecat_v2_master.Task.{TaskInfo}
use ecat_v2_master.Device.{SlaveDevice, first, send_arg}
use ecat_v2_master.Sdo.{
  codes, as_uint16, copy_fields, on_command, Endpoint, publisher, subscription,
}
use ecat_v2_master.Sdo.TaskList.{AnyTask, slave_key, sbus_rc, dshot, init_task_list}
use ecat_v2_master.Sdo.Arguments.{task_arguments}
use ecat_v2_master.Sdo.Whole.{init_task_list-task_arguments}
use ecat_v2_master.Device.Delivery.{Delivered, arg_cycle, arg_run}
use ecat_v2_master.Sdo.Delivery.{Delivered-task_arguments}

-- A decimal digit
abbrev pub digit : ℕ → Key
digit n = (48 + n) ∷ []

abbrev topics : Entries
topics =
    (codes "sn7_latency_pub_topic", string (codes "l"))
    ∷ (codes "sn7_app_1_pub_topic", string (codes "p"))
    ∷ (codes "sn7_app_2_sub_topic", string (codes "s"))
    ∷ (codes "sn7_app_2_pdowrite_offset", uint16 2)
    ∷ []

abbrev pub tasks : ℕ → Entries
tasks len =
    (codes "sn7_sdo_len", uint16 len)
    ∷ (codes "sn7_task_count", uint8 2)
    ∷ (codes "sn7_app_1_sdowrite_task_type", uint8 11)
    ∷ (codes "sn7_app_2_sdowrite_task_type", uint8 4)
    ∷ (codes "sn7_app_2_sdowrite_connection_lost_write_action", uint8 1)
    ∷ (codes "sn7_app_2_sdowrite_dshot_id", uint8 5)
    ∷ (codes "sn7_app_2_sdowrite_init_value", uint16 300)
    ∷ topics

abbrev pub blank : SlaveDevice AnyTask
blank = record {
  index = 1;
  sw_rev = pos 1;
  sn = 7;
  device_type = 3;
  is_sw_rev_check_passed = true;
  is_recover_rejected = false;
  is_ready = false;
  last_latency_check_packet_send_time = 0;
  current_data_stamp = 0;
  master_status = 2;
  master_to_slave_buf = 0 ∷ 0 ∷ 0 ∷ [];
  master_to_slave_buf_backup = [];
  master_to_slave_buf_len = 3;
  slave_status = 1;
  slave_to_master_buf = 0 ∷ 0 ∷ 0 ∷ [];
  slave_to_master_buf_len = 3;
  arg_buf = [];
  arg_buf_len = 0;
  sending_arg_buf_idx = 1;
  is_arg_sent = false;
  is_ecat_conf_done = true;
  is_conf_ros_done = false;
  reconnected_times = 0;
  task_list = [];
}

abbrev pub sbus_info : TaskInfo
sbus_info = record {
  type_id = 11;
  has_publishers = true;
  has_subscribers = false;
  pdowrite_offset = 0;
  pdoread_offset = 0;
  connection_lost_read_action = 0;
  connection_lost_write_action = 0;
}

abbrev pub dshot_info : TaskInfo
dshot_info = record {
  type_id = 4;
  has_publishers = false;
  has_subscribers = true;
  pdowrite_offset = 2;
  pdoread_offset = 0;
  connection_lost_read_action = 0;
  connection_lost_write_action = 1;
}

abbrev pub listed : SlaveDevice AnyTask
listed = record blank {
  arg_buf = 2 ∷ 11 ∷ 4 ∷ 1 ∷ 5 ∷ 44 ∷ 1 ∷ 0 ∷ [];
  arg_buf_len = 8;
  is_conf_ros_done = true;
  task_list = sbus_rc sbus_info ∷ dshot (record { info = dshot_info; init_value = 300 }) ∷ [];
}

abbrev pub endpoints : List Endpoint
endpoints = publisher (codes "l") ∷ publisher (codes "p") ∷ subscription (codes "s") on_command ∷ []

init_run : init_task_list digit (tasks 8) blank ≡ value (listed, true, endpoints)
unfolding init_task_list first memcpy copy_fields
init_run = refl

init_task_list-task_arguments_example :
    (bs : List ℕ) × (task_arguments digit (tasks 8) 7 ≡ value bs)
    × (get_field_as as_uint16 (slave_key digit (tasks 8) 7 (codes "sdo_len")) (tasks 8) ≡ value 8)
    × (length bs ≤ 8)
    × (listed.arg_buf ≡ splice 0 bs (replicate 8 0))
    × (true ≡ true)
init_task_list-task_arguments_example =
    init_task_list-task_arguments digit (tasks 8) blank listed endpoints init_run

abbrev echoes : List (List ℕ)
echoes =
    (1 ∷ 0 ∷ 2 ∷ [])
    ∷ (2 ∷ 0 ∷ 11 ∷ [])
    ∷ (3 ∷ 0 ∷ 4 ∷ [])
    ∷ (4 ∷ 0 ∷ 1 ∷ [])
    ∷ (5 ∷ 0 ∷ 5 ∷ [])
    ∷ (6 ∷ 0 ∷ 44 ∷ [])
    ∷ (7 ∷ 0 ∷ 1 ∷ [])
    ∷ (8 ∷ 0 ∷ 0 ∷ [])
    ∷ []

abbrev transferred : SlaveDevice AnyTask
transferred = record listed {
  sending_arg_buf_idx = 8;
  is_arg_sent = true;
  slave_to_master_buf = 8 ∷ 0 ∷ 0 ∷ [];
  master_to_slave_buf = 8 ∷ 0 ∷ 0 ∷ [];
}

transfer_run : arg_run listed echoes ≡ some transferred
unfolding arg_run arg_cycle send_arg memcpy
transfer_run = refl

Delivered-task_arguments_example :
    (bs : List ℕ) × (task_arguments digit (tasks 8) 7 ≡ value bs)
    × Delivered 1 (splice 0 bs (replicate 8 0)) echoes
Delivered-task_arguments_example =
    Delivered-task_arguments digit (tasks 8) echoes blank listed transferred endpoints init_run
      (omega arith) refl refl transfer_run refl
