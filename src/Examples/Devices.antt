-- ===== src/Examples/Devices.antt =====
-- A device with two arguments, and one that works.
use ecat_v2_master.Base.{
  none, some, List, ℕ, ◌≡◌, ◌-◌, refl, true, false, List, [], ◌∷◌, some, replicate, pos, arith, suc,
}
use ecat_v2_master.Io.{memcpy}
use ecat_v2_master.Task.DjiMotor.{DjiMotor}
use ecat_v2_master.Task.DjiMotor.Instance.{dji_motors}
use ecat_v2_master.Device.{SlaveDevice, latency, send_arg, pre_recover, process_pdo}
use ecat_v2_master.Device.Delivery.{Delivered, InTransfer, arg_cycle, arg_run}
use ecat_v2_master.Device.Recovery.{Delivered-pre_recover}
use ecat_v2_master.Device.Progress.{echo_run, echo_run-ends}
use ecat_v2_master.Device.Latency.{InStatus, process_pdo-once}
use ecat_v2_master.Device.Init.{
  Answers, init, init_all, init-init_all, with_answers, init_all-with_answers,
}

abbrev pub sending : SlaveDevice DjiMotor
sending = record {
  index = 1;
  sw_rev = pos 8;
  sn = 77;
  device_type = 3;
  is_sw_rev_check_passed = true;
  is_recover_rejected = false;
  is_ready = false;
  last_latency_check_packet_send_time = 0;
  current_data_stamp = 0;
  master_status = 2;
  master_to_slave_buf = 4 ∷ 5 ∷ 6 ∷ 7 ∷ [];
  master_to_slave_buf_backup = [];
  master_to_slave_buf_len = 4;
  slave_status = 1;
  slave_to_master_buf = replicate 3 0;
  slave_to_master_buf_len = 3;
  arg_buf = 1 ∷ 9 ∷ [];
  arg_buf_len = 2;
  sending_arg_buf_idx = 1;
  is_arg_sent = false;
  is_ecat_conf_done = true;
  is_conf_ros_done = true;
  reconnected_times = 0;
  task_list = [];
}

pub sending-InTransfer : InTransfer sending
sending-InTransfer = record {
  len_is = refl;
  len_fits = omega arith;
  idx_pos = omega arith;
  idx_le = omega arith;
}

-- The first frame is stale.
abbrev frames : List (List ℕ)
frames = (0 ∷ 0 ∷ 0 ∷ []) ∷ (1 ∷ 0 ∷ 1 ∷ []) ∷ (2 ∷ 0 ∷ 9 ∷ []) ∷ []

abbrev sent : SlaveDevice DjiMotor
sent = record sending {
  master_to_slave_buf = 2 ∷ 0 ∷ 9 ∷ 7 ∷ [];
  slave_to_master_buf = 2 ∷ 0 ∷ 9 ∷ [];
  sending_arg_buf_idx = 2;
  is_arg_sent = true;
}

run : arg_run sending frames ≡ some sent
unfolding memcpy arg_run arg_cycle send_arg
run = refl

run_again : arg_run (pre_recover sent) frames ≡ some (record sent { reconnected_times = 1 })
unfolding memcpy arg_run arg_cycle send_arg pre_recover
run_again = refl

Delivered-pre_recover_example : Delivered 1 (1 ∷ 9 ∷ []) frames
Delivered-pre_recover_example =
    Delivered-pre_recover sent frames refl (omega arith) (omega arith) run_again refl

echo_run-ends_example :
    (d : SlaveDevice DjiMotor) × (echo_run (suc (suc (2 - 1))) sending ≡ some d)
    × (d.is_arg_sent ≡ true)
echo_run-ends_example = echo_run-ends sending sending-InTransfer refl (omega arith)

abbrev working : SlaveDevice DjiMotor
working = record sending {
  is_ready = true;
  master_status = 250;
  slave_status = 250;
  is_arg_sent = true;
}

working-InStatus : InStatus dji_motors working
working-InStatus = record { above = omega arith; below = omega arith }

abbrev answered : SlaveDevice DjiMotor
answered = record working { master_status = 5; last_latency_check_packet_send_time = 30 }

answer : process_pdo dji_motors working 30 tt ≡ some (answered, tt, latency (pos 30) ∷ [])
unfolding process_pdo
answer = refl

process_pdo-once_example :
    InStatus dji_motors answered × (process_pdo dji_motors answered 31 tt ≡ some (answered, tt, []))
process_pdo-once_example = process_pdo-once dji_motors working 30 31 tt working-InStatus answer

abbrev answers : Answers
answers = record {
  sn = 77;
  sw_rev = pos 8;
  eep_id = 4;
  min_sw_rev = pos 8;
  master_to_slave_buf_len = 80;
  slave_to_master_buf_len = 112;
  sdo_len = some 2;
}

-- Two other boards were put at the place of the known one before it came back.
init-init_all_example :
    init answers (
      init_all
        (record answers { sn = 78 } ∷ record answers { sn = 5; sw_rev = pos 2 } ∷ [])
        sending)
    ≡ init answers sending
init-init_all_example =
    init-init_all answers
      (record answers { sn = 78 } ∷ record answers { sn = 5; sw_rev = pos 2 } ∷ []) sending
      (omega arith) (omega arith, (omega arith, tt))

abbrev returns : List Answers
returns = answers ∷ record answers { sn = 78 } ∷ record answers { sdo_len = none } ∷ []

init_all-with_answers_example :
    init_all returns working ≡ with_answers (init_all returns working) working
init_all-with_answers_example = init_all-with_answers returns working (omega arith)
