-- ===== src/Node/Safety.antt =====
-- One slave in one round of the data cycle, and in one check: nothing leaves its buffers.
pub mod Schedule
pub mod Cycle
pub mod System
pub mod Configured
use ecat_v2_master.Base.{
  Runs, Runs-bind, Runs-when, Runs-if, either, ℕ, ◌≡◌, refl, Bool, true, false, not, ◌&&◌, ◌||◌,
  List, [], Option, none, some, ◌>>=◌, when, ltb, ◌==◌, if◌then◌else◌,
}
use ecat_v2_master.Task.Class.{TaskClass}
use ecat_v2_master.Device.{
  SlaveDevice, Event, slave_confirm_ready, master_ready, send_arg, process_pdo, write_init_values,
  recover_master_to_slave_buf, pre_recover, reset_state, recover_state, on_connection_lost,
  backup_master_to_slave_buf,
}
use ecat_v2_master.Device.Safety.{IsSound}
use ecat_v2_master.Device.Safety.Sending.{send_arg-Runs}
use ecat_v2_master.Device.Safety.Tasks.{StaysSound, process_pdo-Runs, write_init_values-Runs}
use ecat_v2_master.Device.Safety.Losing.{
  on_connection_lost-Runs, backup_master_to_slave_buf-Runs, recover_master_to_slave_buf-Runs,
  pre_recover-IsSound,
}
use ecat_v2_master.Node.{
  process_slave, confirm_ready, first_image, start_working, is_starting, is_sending,
}

module _ (C : TaskClass) (outs ins : ℕ) where
  open C use {Task, Shared, Message}

  abbrev Sound : SlaveDevice Task → Type 0
  Sound d = IsSound C outs ins d

  confirm_ready-IsSound : (d : SlaveDevice Task) → Sound d → Sound (confirm_ready C d)
  unfolding confirm_ready
  confirm_ready-IsSound d v =
      either Sound ((d.slave_status == slave_confirm_ready) && not d.is_ready)
        (record d { is_ready = true }) d v v

  start_working-Runs : (d : SlaveDevice Task) → Sound d → Runs Sound (start_working C d)
  unfolding start_working first_image
  start_working-Runs d v =
      Runs-bind Sound Sound (first_image C d) _
        (Runs-if Sound (d.master_status == master_ready) (some d) _ (d, refl, v)
          (Runs-if Sound (d.reconnected_times == 0) (write_init_values C d)
            (recover_master_to_slave_buf d) (write_init_values-Runs C outs ins d v)
            (recover_master_to_slave_buf-Runs C outs ins d v)))
        λ d' w. (_, refl, w)

  pub process_slave-Runs :
      (d : SlaveDevice Task) (now : ℕ) (s : Shared)
      → Sound d
      → Runs (StaysSound C outs ins) (process_slave C d now s)
  unfolding process_slave
  process_slave-Runs d now s v =
      let start = confirm_ready C d in
      let w = confirm_ready-IsSound d v in
      Runs-if (StaysSound C outs ins) (not d.is_conf_ros_done || not d.is_ecat_conf_done)
        (some (d, s, [])) _ ((d, s, []), refl, v)
        (Runs-bind Sound (StaysSound C outs ins) (when (is_sending C start) send_arg start) _
          (Runs-when Sound (is_sending C start) send_arg start w (send_arg-Runs C outs ins start w))
          λ d1 w1.
            Runs-bind Sound (StaysSound C outs ins) (when (is_starting C d1) (start_working C) d1) _
              (Runs-when Sound (is_starting C d1) (start_working C) d1 w1
                (start_working-Runs d1 w1))
              λ d2 w2.
                Runs-if (StaysSound C outs ins) d2.is_ready (process_pdo C d2 now s)
                  (some (d2, s, [])) (process_pdo-Runs C outs ins d2 now s w2)
                  ((d2, s, []), refl, w2))
