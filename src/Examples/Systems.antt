-- ===== src/Examples/Systems.antt =====
-- A node with two slaves that have an SBUS receiver and a DSHOT output each, and one with two pressure
-- sensors.
use ecat_v2_master.Base.{
  Runs, ℕ, ◌≡◌, refl, ℤ, List, [], ◌∷◌, true, false, none, some, replicate, pos, arith,
}
use ecat_v2_master.Io.{memcpy, read_int32}
use ecat_v2_master.Io.Splice.{splice}
use ecat_v2_master.Io.Half.{Powers}
use ecat_v2_master.Config.{value}
use ecat_v2_master.Task.{TaskInfo}
use ecat_v2_master.Task.Pressure
use ecat_v2_master.Task.PmuCan
use ecat_v2_master.Task.DbusRc
use ecat_v2_master.Task.Vt13Rc
use ecat_v2_master.Task.SbusRc
use ecat_v2_master.Device.{SlaveDevice, first}
use ecat_v2_master.Device.Safety.{IsSound}
use ecat_v2_master.Sdo.{copy_fields, codes, publisher, subscription, on_command}
use ecat_v2_master.Sdo.Cleanup.{hold, device_cleanup}
use ecat_v2_master.Sdo.Cleanup.Ended.{made, no_tasks, device_cleanup-emptied}
use ecat_v2_master.Sdo.TaskList.{
  AnyTask, sbus_rc, dshot, ms5837_30ba, dshot_app, init_sdo, init_task_list,
}
use ecat_v2_master.Sdo.AllTasks.{read_ms5837, Statics, read, init_value}
use ecat_v2_master.Sdo.AllTasks.Reset.{init_value-splice}
use ecat_v2_master.Sdo.AllTasks.Fitting.{all_tasks, HasRoom-Fits}
use ecat_v2_master.Sdo.AllTasks.Stale.{read-stale}
use ecat_v2_master.Node.{Node}
use ecat_v2_master.Node.Health.{Entry, Bus, check_slave, state_none, state_operational, state_init}
use ecat_v2_master.Node.Checker.{
  Reading, Checker, check_all, state_check, state_check-again, AreConsistent,
  state_check-AreConsistent,
}
use ecat_v2_master.Node.Safety.Cycle.{no_slaves, slave}
use ecat_v2_master.Node.Safety.Configured.{HasImages, init_task_list-IsSound}
use ecat_v2_master.Node.Shutdown.{Round, HasEnded, on_shutdown, on_shutdown-HasEnded}
use ecat_v2_master.Examples.Inputs.{ints}
use ecat_v2_master.Examples.Sdos.{sbus_info, dshot_info, digit, tasks, blank, listed, endpoints}

abbrev pub powers : Powers ints
powers = record { pow2 = λ z. z; nan = pos 0; infinity = pos 1 }

abbrev pub bits : ℕ → ints.Real
bits n = pos n

abbrev wide_blank : SlaveDevice AnyTask
wide_blank = record blank {
  master_to_slave_buf = replicate 12 0;
  master_to_slave_buf_len = 12;
  slave_to_master_buf = replicate 24 0;
  slave_to_master_buf_len = 24;
}

abbrev pub wide : SlaveDevice AnyTask
wide = record listed {
  master_to_slave_buf = replicate 12 0;
  master_to_slave_buf_len = 12;
  slave_to_master_buf = replicate 24 0;
  slave_to_master_buf_len = 24;
}

wide_run : init_task_list digit (tasks 8) wide_blank ≡ value (wide, true, endpoints)
unfolding init_task_list first memcpy copy_fields
wide_run = refl

wide-HasImages : HasImages 12 24 wide
wide-HasImages = record {
  out_is = refl;
  in_is = refl;
  out_size = refl;
  in_size = refl;
  out_room = omega arith;
  in_room = omega arith;
  first_index = refl;
}

pub wide-IsSound : IsSound (all_tasks ints powers bits) 12 24 wide
wide-IsSound = record {
  out_is = refl;
  in_is = refl;
  out_size = refl;
  in_size = refl;
  out_room = omega arith;
  in_room = omega arith;
  arg_size = refl;
  arg_fits = omega arith;
  idx_pos = omega arith;
  idx_le = omega arith;
  tasks = (
    HasRoom-Fits ints powers bits (sbus_rc sbus_info) 12 24 (omega arith, omega arith),
    (
      HasRoom-Fits ints powers bits (dshot (record { info = dshot_info; init_value = 300 })) 12 24
          (omega arith, omega arith),
      tt,
    ),
  );
}

init_task_list-IsSound_example : IsSound (all_tasks ints powers bits) 12 24 wide
init_task_list-IsSound_example =
    init_task_list-IsSound ints powers bits digit (tasks 8) wide_blank wide endpoints 12 24 wide_run
      (omega arith) wide-HasImages ((omega arith, omega arith), ((omega arith, omega arith), tt))

-- The initial value 300 of four channels
init_value-splice_example :
    init_value (dshot (record { info = dshot_info; init_value = 300 })) (replicate 12 7)
    ≡ some (splice 2 (44 ∷ 1 ∷ 44 ∷ 1 ∷ 44 ∷ 1 ∷ 44 ∷ 1 ∷ []) (replicate 12 7))
init_value-splice_example =
    init_value-splice (dshot (record { info = dshot_info; init_value = 300 })) (replicate 12 7)
      (omega arith)

abbrev pub messages : Statics ℤ
messages = record {
  djirc = DbusRc.publish_empty_message ints 0;
  ms5837 = Pressure.publish_empty_message ints 0;
  canpmu = PmuCan.publish_empty_message ints powers 0;
  sbusrc = SbusRc.publish_empty_message 0;
  vt13rc = Vt13Rc.publish_empty_message ints 0;
}

abbrev sensor : ℕ → TaskInfo
sensor i = record {
  type_id = 8;
  has_publishers = true;
  has_subscribers = false;
  pdowrite_offset = 0;
  pdoread_offset = i;
  connection_lost_read_action = 0;
  connection_lost_write_action = 0;
}

-- The first sensor is online, the second is not.
abbrev two_sensors : List ℕ
two_sensors = 100 ∷ 0 ∷ 0 ∷ 0 ∷ 20 ∷ 0 ∷ 0 ∷ 0 ∷ 1 ∷ replicate 9 0

abbrev first_report : Pressure.ReadMs5837Ba30 ℤ
first_report = record { stamp = 1; online = 1; temperature = pos 100; pressure = pos 20 }

first_read :
    read ints powers bits (ms5837_30ba (sensor 0)) 1 two_sensors messages
    ≡ some (record messages { ms5837 = first_report }, read_ms5837 first_report ∷ [])
unfolding read Pressure.read Pressure.read_values read_int32
first_read = refl

read-stale_example :
    read ints powers bits
      (ms5837_30ba (sensor 9))
      1
      two_sensors
      (record messages { ms5837 = first_report })
    ≡ some (
      record messages { ms5837 = record first_report { online = 0 } },
      read_ms5837 (record first_report { online = 0 }) ∷ [],
    )
read-stale_example =
    read-stale ints powers bits (sensor 0) (sensor 9) 1 1 two_sensors two_sensors messages
      first_report first_read refl

abbrev lost : Entry
lost = record { state = state_none; islost = false }

abbrev bus : Bus (all_tasks ints powers bits)
bus = record {
  after_operational = state_operational;
  second_look = state_init;
  reconfig_slave = λ d. (d, state_operational, true);
  is_recovered = true;
}

abbrev gone : Reading (all_tasks ints powers bits)
gone = record { state = state_init; bus = record bus { second_look = state_none } }

abbrev checker : Checker (all_tasks ints powers bits)
checker = record {
  docheckstate = false;
  devices = wide ∷ [];
  entries = lost ∷ [];
  shared = messages;
}

checked :
    state_check (all_tasks ints powers bits) true 2 3 9 (gone ∷ []) checker
    ≡ some (record checker { docheckstate = true }, [])
unfolding state_check check_slave
checked = refl

-- The next round checks although the counter is right.
state_check-again_example :
    state_check
      (all_tasks ints powers bits)
      true
      3
      3
      10
      (gone ∷ [])
      (record checker { docheckstate = true })
    ≡ check_all (all_tasks ints powers bits) 10 (gone ∷ []) (record checker { docheckstate = true })
state_check-again_example =
    state_check-again (all_tasks ints powers bits) 2 3 9 (gone ∷ []) checker 0 gone wide refl
      checked refl refl refl 3 3 10 (gone ∷ [])

state_check-AreConsistent_example :
    AreConsistent (all_tasks ints powers bits) (wide ∷ []) (lost ∷ [])
state_check-AreConsistent_example =
    state_check-AreConsistent (all_tasks ints powers bits) true 2 3 9 (gone ∷ []) checker (refl, tt)
      checked

abbrev node : Node (all_tasks ints powers bits)
node = record {
  slave_devices = wide ∷ [];
  all_slave_ready = false;
  exiting = false;
  exiting_reset_called = false;
}

abbrev round : Round
round = record { frames = record { status = 2; bytes = replicate 24 0 } ∷ []; now = 4 }

on_shutdown-HasEnded_example :
    Runs
      (HasEnded (all_tasks ints powers bits))
      (on_shutdown (all_tasks ints powers bits) (round ∷ []) node (replicate 13 0 ∷ []) messages)
on_shutdown-HasEnded_example =
    on_shutdown-HasEnded (all_tasks ints powers bits) round [] node (replicate 13 0 ∷ []) messages
      refl (slave 12 24 wide-IsSound refl refl no_slaves)

abbrev fan : AnyTask
fan = dshot (record { info = dshot_info; init_value = 300 })

device_cleanup-emptied_example :
    device_cleanup (
      some (publisher (codes "l")),
      (fan, hold fan (subscription (codes "s") on_command ∷ [])) ∷ [],
    )
    ≡ (none, (fan, []) ∷ [])
unfolding init_sdo first memcpy copy_fields
device_cleanup-emptied_example =
    device_cleanup-emptied digit (tasks 8) (some (publisher (codes "l")))
      ((fan, hold fan (subscription (codes "s") on_command ∷ [])) ∷ [])
      (made dshot_app (codes "sn7_app_2_")
        (record { bytes = 2 ∷ 11 ∷ 4 ∷ 0 ∷ 0 ∷ 0 ∷ 0 ∷ 0 ∷ []; offset = 3 }) refl no_tasks)
