-- ===== src/Examples/Slaves.antt =====
-- A slave that starts, and one that is lost.
use ecat_v2_master.Base.{ℕ, ◌≡◌, refl, true, false, List, [], ◌∷◌, some, arith, replicate}
use ecat_v2_master.Examples.Devices.{sending, sending-InTransfer}
use ecat_v2_master.Io.{memcpy}
use ecat_v2_master.Task.DjiMotor.{DjiMotor}
use ecat_v2_master.Task.DjiMotor.Instance.{dji_motors}
use ecat_v2_master.Device.{
  SlaveDevice, first, receive_from_slave, send_arg, write_init_values, reset_state,
  on_connection_lost, backup_master_to_slave_buf,
}
use ecat_v2_master.Device.Delivery.{Delivered}
use ecat_v2_master.Node.{Frame, process_slave, start_working}
use ecat_v2_master.Node.Start.{
  IsStarting, AreFrames, none_left, next_frame, slave_run, bytes_of, Delivered-slave_run,
}
use ecat_v2_master.Node.Phases.{Moves}
use ecat_v2_master.Node.Phases.Rounds.{phase_of, slave_run-Moves}
use ecat_v2_master.Node.Health.{Entry, Bus, lose, check_slave, state_none}
use ecat_v2_master.Node.Health.Restore.{start_working-lose}

abbrev frames : List (ℕ × Frame)
frames =
    (1, record { status = 1; bytes = 0 ∷ 0 ∷ 0 ∷ [] })
    ∷ (2, record { status = 1; bytes = 1 ∷ 0 ∷ 1 ∷ [] })
    ∷ (3, record { status = 2; bytes = 2 ∷ 0 ∷ 9 ∷ [] })
    ∷ []

abbrev started : SlaveDevice DjiMotor
started = record sending {
  master_status = 3;
  master_to_slave_buf = replicate 4 0;
  slave_status = 2;
  slave_to_master_buf = 2 ∷ 0 ∷ 9 ∷ [];
  sending_arg_buf_idx = 2;
  is_arg_sent = true;
}

start : slave_run dji_motors sending tt frames ≡ some (started, tt)
unfolding memcpy first slave_run receive_from_slave process_slave send_arg write_init_values
start = refl

sending-IsStarting : IsStarting dji_motors sending
sending-IsStarting = record {
  transfer = sending-InTransfer;
  unsent = refl;
  sending = refl;
  not_ready = refl;
  ros_done = refl;
  ecat_done = refl;
  room = refl;
}

frames-AreFrames : AreFrames dji_motors 3 frames
frames-AreFrames =
    next_frame refl (omega arith)
      (next_frame refl (omega arith) (next_frame refl (omega arith) none_left))

Delivered-slave_run_example : Delivered 1 (1 ∷ 9 ∷ []) (bytes_of dji_motors frames)
Delivered-slave_run_example =
    Delivered-slave_run dji_motors frames sending 0 tt sending-IsStarting refl frames-AreFrames
      start (omega arith)

slave_run-Moves_example : Moves frames (phase_of dji_motors sending) (phase_of dji_motors started)
slave_run-Moves_example = slave_run-Moves dji_motors frames sending tt start

abbrev confirmed : SlaveDevice DjiMotor
confirmed = record started {
  is_ready = true;
  slave_status = 3;
  last_latency_check_packet_send_time = 4;
  master_status = 4;
}

abbrev unplugged : Entry
unplugged = record { state = state_none; islost = false }

abbrev silent : Bus dji_motors
silent = record {
  after_operational = state_none;
  second_look = state_none;
  reconfig_slave = λ d. (d, state_none, false);
  is_recovered = false;
}

abbrev ready : SlaveDevice DjiMotor
ready = record sending { is_ready = true }

abbrev lost : SlaveDevice DjiMotor
lost = record sending {
  is_conf_ros_done = false;
  master_to_slave_buf_backup = 4 ∷ 5 ∷ 6 ∷ 7 ∷ [];
  slave_status = 1;
}

loss :
    check_slave dji_motors silent 9 ready unplugged tt
    ≡ some (lost, record unplugged { islost = true }, tt, [])
unfolding memcpy first check_slave reset_state on_connection_lost backup_master_to_slave_buf
loss = refl

loss_alone :
    lose dji_motors 9 ready unplugged tt ≡ some (lost, record unplugged { islost = true }, tt, [])
unfolding memcpy first lose reset_state on_connection_lost backup_master_to_slave_buf
loss_alone = refl

-- Back with all arguments sent once more
abbrev back : SlaveDevice DjiMotor
back = record lost {
  is_conf_ros_done = true;
  master_to_slave_buf = 2 ∷ 0 ∷ 9 ∷ 7 ∷ [];
  slave_status = 2;
  is_arg_sent = true;
  reconnected_times = 1;
}

start_working-lose_example :
    start_working dji_motors back
    ≡ some (record back { master_to_slave_buf = 4 ∷ 5 ∷ 6 ∷ 7 ∷ []; master_status = 3 })
start_working-lose_example =
    start_working-lose dji_motors 9 ready unplugged tt back refl loss_alone refl refl refl
      (omega arith) (omega arith)
